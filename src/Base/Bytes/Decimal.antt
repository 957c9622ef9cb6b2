-- ===== src/Base/Bytes/Decimal.antt =====
-- Decimal numbers: `std::to_string` of an integer, and `std::stoi`, which throws (`none`) where there
-- are no digits or the number leaves `int`.
use Prim.Native.Nat.{ℕ, zero, suc, ◌+◌, ◌-◌, ◌*◌, ◌/◌, ◌%◌, ◌^◌, ◌≤◌, ◌<◌}
use mathlib.Core.Path.{◌≡◌, refl}
use mathlib.Core.Logic.{◌≢◌, ◌⊎◌}
use mathlib.Core.Bool.{Bool, ◌&&◌, ◌||◌}
use mathlib.Core.List.{[], ◌∷◌, ◌++◌, cons-ne-nil, append-ne-nil_of_right_ne-nil}
use mathlib.Core.Option.{Option, none, some}
use native.Mathlib.Omega.{arith}
use high_performance_trading.Base.Tests.{◌==◌, if◌then◌else◌, ltb, leb}
use high_performance_trading.Base.Int.{ℤ, pos, negsuc, pos_part, neg_part}
use high_performance_trading.Base.Lists.{All, All-append, All-map}
use high_performance_trading.Base.Bytes.{Bytes, Lacks}

-- Every round divides by ten, so a number above the value is fuel enough.
unfoldable pub digits : ℕ → ℕ → Bytes
digits zero n = []
digits (suc fuel) n =
    let front = digits fuel (n / 10) in
    if ltb n 10 then (b'0' + n) ∷ [] else front ++ (b'0' + n % 10) ∷ []

unfoldable pub print_nat : ℕ → Bytes
unfolding digits
print_nat n = digits (suc n) n

unfoldable pub print_int : ℤ → Bytes
unfolding print_nat
print_int (pos n) = print_nat n
print_int (negsuc n) = b'-' ∷ print_nat (suc n)

unfoldable pub is_digit : ℕ → Bool
is_digit c = leb b'0' c && leb c b'9'

-- The number that the digits at the front of the text spell behind `n`.
unfoldable pub read_digits : ℕ → Bytes → ℕ
unfolding is_digit
read_digits n [] = n
read_digits n (c ∷ s) =
    let more = read_digits (n * 10 + (c - b'0')) s in if is_digit c then more else n

unfoldable pub is_space : ℕ → Bool
is_space c = c == b' ' || leb 9 c && leb c 13

unfoldable pub skip_spaces : Bytes → Bytes
unfolding is_space
skip_spaces [] = []
skip_spaces (c ∷ s) = let rest = skip_spaces s in if is_space c then rest else c ∷ s

-- An unsigned number, which is refused without a digit or above a bound.
unfoldable pub read_bounded : ℕ → Bytes → Option ℕ
unfolding read_digits
read_bounded bound [] = none
read_bounded bound (c ∷ s) =
    let n = read_digits 0 (c ∷ s) in
    if is_digit c then (if ltb bound n then none else some n) else none

abbrev pub negated : ℕ → ℤ
negated zero = pos 0
negated (suc n) = negsuc n

unfoldable pub read_signed : Bytes → Option ℤ
unfolding read_bounded
read_signed [] = none
read_signed (c ∷ s) =
    if c == b'-'
    then elim (read_bounded (2 ^ 31) s) [ none ↦ none | some n ↦ some (negated n) ]
    else elim (read_bounded (2 ^ 31 - 1) (if c == b'+' then s else c ∷ s)) [
      | none ↦ none
      | some n ↦ some (pos n)
    ]

unfoldable pub stoi : Bytes → Option ℤ
unfolding skip_spaces read_signed
stoi s = read_signed (skip_spaces s)

abbrev pub IsDigit : ℕ → Type 0
IsDigit c = (b'0' ≤ c) × (c ≤ b'9')

digits-IsDigit : (fuel n : ℕ) → All IsDigit (digits fuel n)
unfolding digits
digits-IsDigit zero n = tt
digits-IsDigit (suc fuel) n = ground (
  arith,
  All-append IsDigit (digits fuel (n / 10)) ((b'0' + n % 10) ∷ []) (digits-IsDigit fuel (n / 10))
      (omega arith, tt),
)

read_digits-append :
    (n : ℕ) (s t : Bytes) → All IsDigit s → read_digits n (s ++ t) ≡ read_digits (read_digits n s) t
unfolding read_digits is_digit
read_digits-append n [] t h = refl
read_digits-append n (c ∷ s) t h =
    ground (arith, read_digits-append (n * 10 + (c - b'0')) s t h.1, h.0)

read_digits-digits : (fuel n : ℕ) → n < fuel → read_digits 0 (digits fuel n) ≡ n
unfolding digits read_digits is_digit
read_digits-digits zero n h = absurd (omega arith)
read_digits-digits (suc fuel) n h = ground (
  arith,
  read_digits-append 0 (digits fuel (n / 10)) ((b'0' + n % 10) ∷ []) (digits-IsDigit fuel (n / 10)),
  read_digits-digits fuel (n / 10),
)

pub print_nat-IsDigit : (n : ℕ) → All IsDigit (print_nat n)
unfolding print_nat
print_nat-IsDigit n = digits-IsDigit (suc n) n

digits-ne-nil : (fuel n : ℕ) → digits (suc fuel) n ≢ []
unfolding digits
digits-ne-nil fuel n =
    ground
      (arith, append-ne-nil_of_right_ne-nil (digits fuel (n / 10)) (cons-ne-nil (b'0' + n % 10) []))

read_bounded-digits :
    (bound : ℕ) (s : Bytes)
    → s ≢ []
    → All IsDigit s
    → read_digits 0 s ≤ bound
    → read_bounded bound s ≡ some (read_digits 0 s)
unfolding read_bounded
read_bounded-digits bound [] h digit fits = absurd (h refl)
read_bounded-digits bound (c ∷ s) h digit fits = unfold is_digit in ground (arith, digit.0)

read_bounded-print_nat : (bound n : ℕ) → n ≤ bound → read_bounded bound (print_nat n) ≡ some n
unfolding print_nat
read_bounded-print_nat bound n h = ground (
  arith,
  read_bounded-digits bound (print_nat n) (digits-ne-nil n n) (digits-IsDigit (suc n) n),
  read_digits-digits (suc n) n,
)

-- Digits are no space and no sign.
stoi-digits :
    (s : Bytes)
    → s ≢ []
    → All IsDigit s
    → stoi s ≡ (elim (read_bounded (2 ^ 31 - 1) s) [ none ↦ none | some n ↦ some (pos n) ])
unfolding stoi skip_spaces read_signed
stoi-digits [] h digit = absurd (h refl)
stoi-digits (c ∷ s) h digit = ground (arith, digit.0)

-- An `int` is read back from its print.
pub stoi-print_int :
    (a : ℤ) → pos_part a < 2 ^ 31 → neg_part a ≤ 2 ^ 31 → stoi (print_int a) ≡ some a
unfolding print_int
stoi-print_int (pos n) h _ = rw (
  stoi-digits (print_nat n) (unfold print_nat in digits-ne-nil n n) (print_nat-IsDigit n),
  read_bounded-print_nat (2 ^ 31 - 1) n (omega arith),
)
stoi-print_int (negsuc n) _ h =
    unfold stoi skip_spaces read_signed in
    rw (read_bounded-print_nat (2 ^ 31) (suc n) (omega arith))

read_bounded-large : (bound : ℕ) (s : Bytes) → bound < read_digits 0 s → read_bounded bound s ≡ none
unfolding read_bounded
read_bounded-large bound [] h = refl
read_bounded-large bound (c ∷ s) h = ground arith

-- A number that does not fit an `int` is refused.
pub stoi-print_nat_large : (n : ℕ) → 2 ^ 31 ≤ n → stoi (print_nat n) ≡ none
unfolding print_nat
stoi-print_nat_large n h = rw (
  stoi-digits (print_nat n) (digits-ne-nil n n) (print_nat-IsDigit n),
  read_bounded-large (2 ^ 31 - 1) (print_nat n) (omega (arith, read_digits-digits (suc n) n)),
)

-- A printed integer has digits and a sign only.
pub print_int-Lacks : (a : ℤ) (d : ℕ) → d ≢ b'-' → (d < b'0') ⊎ (b'9' < d) → Lacks d (print_int a)
unfolding print_int
print_int-Lacks (pos n) d h k =
    All-map (print_nat n) (λ c c_digit. ground arith) (print_nat-IsDigit n)
print_int-Lacks (negsuc n) d h k = (
  ground arith,
  All-map (print_nat (suc n)) (λ c c_digit. ground arith) (print_nat-IsDigit (suc n)),
)

pub print_nat-ne-nil : (n : ℕ) → print_nat n ≢ []
unfolding print_nat
print_nat-ne-nil n = digits-ne-nil n n

pub read_digits-print_nat : (n : ℕ) → read_digits 0 (print_nat n) ≡ n
unfolding print_nat
read_digits-print_nat n = read_digits-digits (suc n) n (omega arith)
