-- ===== src/Base/Bytes/Search.antt =====
-- The searches in byte strings: the text before and after the first place of a byte, and the lines
-- that `std::getline` reads.
use high_performance_trading.Base.Tests.{◌==◌, if◌then◌else◌}
use Prim.Native.Nat.{ℕ}
use mathlib.Core.Path.{◌≡◌, refl, ◌∙◌}
use mathlib.Core.Logic.{◌≢◌}
use mathlib.Core.List.{List, [], ◌∷◌, ◌++◌, append_assoc, append-nil}
use mathlib.Core.Option.{Option, none, some}
use native.Mathlib.Omega.{arith}
use high_performance_trading.Base.Bytes.{Bytes, Lacks}

-- `s.find(d)`, with the parts before and after that place; `none` is npos.
unfoldable pub cut_at : ℕ → Bytes → Option (Bytes × Bytes)
cut_at d [] = none
cut_at d (c ∷ s) =
    let rest : Option (Bytes × Bytes) = elim (cut_at d s) [
      | none ↦ none
      | some (before, after) ↦ some (c ∷ before, after)
    ] in
    if c == d then some ([], s) else rest

-- What repeated calls of `std::getline` read, with the characters of the current one so far. At the
-- end of the stream an empty line is no line.
unfoldable pub lines_from : ℕ → Bytes → Bytes → List Bytes
lines_from d [] [] = []
lines_from d (b ∷ line) [] = (b ∷ line) ∷ []
lines_from d line (c ∷ s) =
    let done = line ∷ lines_from d [] s in
    let more = lines_from d (line ++ c ∷ []) s in if c == d then done else more

unfoldable pub lines : ℕ → Bytes → List Bytes
unfolding lines_from
lines d s = lines_from d [] s

pub cut_at-append : (d : ℕ) (s rest : Bytes) → Lacks d s → cut_at d (s ++ d ∷ rest) ≡ some (s, rest)
unfolding cut_at
cut_at-append d [] rest h = ground arith
cut_at-append d (c ∷ s) rest h = ground (arith, cut_at-append d s rest h.1, h.0)

-- Without the byte there is no cut.
pub cut_at-Lacks : (d : ℕ) (s : Bytes) → Lacks d s → cut_at d s ≡ none
unfolding cut_at
cut_at-Lacks d [] h = refl
cut_at-Lacks d (c ∷ s) h = ground (arith, cut_at-Lacks d s h.1, h.0)

lines_from_step :
    (d c : ℕ) (line s : Bytes)
    → lines_from d line (c ∷ s)
      ≡ (if c == d then line ∷ lines_from d [] s else lines_from d (line ++ c ∷ []) s)
unfolding lines_from
lines_from_step d c [] s = refl
lines_from_step d c (b ∷ line) s = refl

lines_from-append :
    (d : ℕ) (line s rest : Bytes)
    → Lacks d s
    → lines_from d line (s ++ d ∷ rest) ≡ (line ++ s) ∷ lines_from d [] rest
lines_from-append d line [] rest h = lines_from_step d d line rest ∙ ground (arith, append-nil line)
lines_from-append d line (c ∷ s) rest h =
    lines_from_step d c line (s ++ d ∷ rest)
    ∙ ground
        (arith, h.0, lines_from-append d (line ++ c ∷ []) s rest h.1, append_assoc line (c ∷ []) s)

-- A line that ends with the delimiter is read, and reading goes on behind it.
pub lines-append : (d : ℕ) (s rest : Bytes) → Lacks d s → lines d (s ++ d ∷ rest) ≡ s ∷ lines d rest
unfolding lines
lines-append d s rest h = lines_from-append d [] s rest h

-- What is left behind a prefix.
unfoldable pub drop_prefix : Bytes → Bytes → Option Bytes
drop_prefix [] s = some s
drop_prefix (p ∷ ps) [] = none
drop_prefix (p ∷ ps) (c ∷ s) = let rest = drop_prefix ps s in if c == p then rest else none

-- `s.find(p)` for a text: the parts before its first place and behind it.
unfoldable pub find_text : Bytes → Bytes → Option (Bytes × Bytes)
unfolding drop_prefix
find_text p [] = elim (drop_prefix p []) [ none ↦ none | some after ↦ some ([], after) ]
find_text p (c ∷ s) =
    let later : Option (Bytes × Bytes) = elim (find_text p s) [
      | none ↦ none
      | some (before, after) ↦ some (c ∷ before, after)
    ] in
    elim (drop_prefix p (c ∷ s)) [ none ↦ later | some after ↦ some ([], after) ]

pub drop_prefix-append : (p s : Bytes) → drop_prefix p (p ++ s) ≡ some s
unfolding drop_prefix
drop_prefix-append [] s = refl
drop_prefix-append (c ∷ p) s = ground (arith, drop_prefix-append p s)

-- A text whose first byte does not occur before it is found where it stands.
pub find_text-append :
    (p : ℕ) (ps s rest : Bytes)
    → Lacks p s
    → find_text (p ∷ ps) (s ++ (p ∷ ps ++ rest)) ≡ some (s, rest)
unfolding find_text drop_prefix
find_text-append p ps [] rest h = ground (arith, drop_prefix-append ps rest)
find_text-append p ps (c ∷ s) rest h = ground (arith, find_text-append p ps s rest h.1, h.0)

lines_from-end : (d c : ℕ) (line : Bytes) → lines_from d (line ++ c ∷ []) [] ≡ (line ++ c ∷ []) ∷ []
unfolding lines_from
lines_from-end d c [] = refl
lines_from-end d c (b ∷ line) = refl

lines_from-last :
    (d : ℕ) (line s : Bytes) (c : ℕ)
    → Lacks d s
    → c ≢ d
    → lines_from d line (s ++ c ∷ []) ≡ (line ++ (s ++ c ∷ [])) ∷ []
lines_from-last d line [] c h k =
    lines_from_step d c line [] ∙ ground (arith, lines_from-end d c line)
lines_from-last d line (x ∷ s) c h k =
    lines_from_step d x line (s ++ c ∷ [])
    ∙ ground (
      arith,
      h.0,
      lines_from-last d (line ++ x ∷ []) s c h.1 k,
      append_assoc line (x ∷ []) (s ++ c ∷ []),
    )

-- A last line that is not empty is read without a delimiter behind it.
pub lines-last :
    (d c : ℕ) (s : Bytes) → Lacks d s → c ≢ d → lines d (s ++ c ∷ []) ≡ (s ++ c ∷ []) ∷ []
unfolding lines
lines-last d c s h k = lines_from-last d [] s c h k
