-- ===== src/Metrics/Uptime.antt =====
-- SystemMetrics::formatUptime against a reader of its texts.
use high_performance_trading.Base.{
  ℕ, ◌+◌, ◌-◌, ◌*◌, ◌/◌, ◌%◌, ◌≡◌, refl, ◌∙◌, [], ◌∷◌, ◌++◌, ltb, ◌==◌, false, if◌then◌else◌, arith,
  All, Bool-cases, inl, inr,
}
use mathlib.Core.List.{append_assoc}
use high_performance_trading.Base.Bytes.{Bytes, codes}
use high_performance_trading.Base.Bytes.Decimal.{
  print_nat, is_digit, IsDigit, print_nat-IsDigit, read_digits, read_digits-print_nat,
}
use high_performance_trading.Metrics.{format_uptime, part_text}

-- The seconds in a unit of time.
abbrev pub unit_seconds : ℕ → ℕ
unit_seconds c =
    if c == b'd'
    then 86400
    else if c == b'h'
    then 3600
    else if c == b'm'
    then 60
    else if c == b's'
    then 1
    else 0

-- The seconds that a text tells beyond `total`, with `n` the number that is being read.
unfoldable pub read_uptime : ℕ → ℕ → Bytes → ℕ
unfolding is_digit
read_uptime total n [] = total
read_uptime total n (c ∷ s) =
    let number = read_uptime total (n * 10 + (c - b'0')) s in
    let unit = read_uptime (total + n * unit_seconds c) 0 s in if is_digit c then number else unit

read_uptime-digits :
    (total n : ℕ) (s t : Bytes)
    → All IsDigit s
    → read_uptime total n (s ++ t) ≡ read_uptime total (read_digits n s) t
unfolding read_uptime read_digits is_digit
read_uptime-digits total n [] t h = refl
read_uptime-digits total n (c ∷ s) t h =
    ground (arith, read_uptime-digits total (n * 10 + (c - b'0')) s t h.1, h.0)

read_uptime-print_nat :
    (total n : ℕ) (t : Bytes) → read_uptime total 0 (print_nat n ++ t) ≡ read_uptime total n t
read_uptime-print_nat total n t =
    read_uptime-digits total 0 (print_nat n) t (print_nat-IsDigit n) ∙ rw (read_digits-print_nat n)

-- A part that is not written is zero.
read_uptime-part :
    (total n c : ℕ) (t : Bytes)
    → is_digit c ≡ false
    → read_uptime total 0 (part_text n (c ∷ b' ' ∷ []) ++ t)
      ≡ read_uptime (total + n * unit_seconds c) 0 t
unfolding read_uptime is_digit
read_uptime-part total n c t h = elim (Bool-cases (ltb 0 n)) [
  | inl e ↦
      rw
        (
          e,
          append_assoc (print_nat n) (c ∷ b' ' ∷ []) t,
          read_uptime-print_nat total n (c ∷ b' ' ∷ t),
        )
        (ground (arith, h))
  | inr e ↦ let zero_n : n ≡ 0 = ground arith in rw (e, zero_n) (ground arith)
]

pub read_uptime-format_uptime : (seconds : ℕ) → read_uptime 0 0 (format_uptime seconds) ≡ seconds
unfolding format_uptime read_uptime is_digit
read_uptime-format_uptime seconds =
    let days = seconds / 86400 in
    let hours = seconds % 86400 / 3600 in
    let mins = seconds % 3600 / 60 in
    let secs = seconds % 60 in
    let last = print_nat secs ++ codes "s" in
    let minutes = part_text mins (codes "m ") ++ last in
    read_uptime-part 0 days b'd' (part_text hours (codes "h ") ++ minutes) refl
    ∙ read_uptime-part (0 + days * 86400) hours b'h' minutes refl
    ∙ read_uptime-part (0 + days * 86400 + hours * 3600) mins b'm' last refl
    ∙ read_uptime-print_nat (0 + days * 86400 + hours * 3600 + mins * 60) secs (codes "s")
    ∙ omega arith
