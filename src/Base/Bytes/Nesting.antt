-- ===== src/Base/Bytes/Nesting.antt =====
-- A reader of JSON texts that checks their nesting: brackets close in order, and texts in quotes end.
use high_performance_trading.Base.Tests.{◌==◌, if◌then◌else◌, Option-cases}
use high_performance_trading.Base.Fallible.{◌>>=◌}
use high_performance_trading.Base.Lists.{All, All-map}
use high_performance_trading.Base.Bytes.{Bytes}
use high_performance_trading.Base.Bytes.Decimal.{print_nat, print_nat-IsDigit, print_int}
use high_performance_trading.Base.Int.{ℤ, pos, negsuc}
use Prim.Native.Nat.{ℕ, suc}
use mathlib.Core.Path.{◌≡◌, refl}
use mathlib.Core.Logic.{◌≢◌, inl, inr}
use mathlib.Core.Bool.{Bool, true, false, ◌||◌}
use mathlib.Core.List.{List, [], ◌∷◌, ◌++◌}
use mathlib.Core.Option.{Option, none, some}
use native.Mathlib.Omega.{arith}

-- What is written of a value that may be missing.
abbrev pub text_if_some {ℓ} : {A : Type ℓ} → Option A → (A → Bytes) → Bytes
text_if_some none f = []
text_if_some (some a) f = f a

-- The closing brackets that are awaited, the innermost first, and whether a text in quotes is open.
pub record Scan : Type 0 where
  pub awaited : List ℕ
  pub quoted : Bool

-- The innermost bracket closes.
abbrev closing : ℕ → List ℕ → Option Scan
closing c [] = none
closing c (w ∷ ws) = if c == w then some (record { awaited = ws; quoted = false }) else none

abbrev outside : ℕ → List ℕ → Option Scan
outside c ws =
    if c == b'"'
    then some (record { awaited = ws; quoted = true })
    else if c == b'{'
    then some (record { awaited = b'}' ∷ ws; quoted = false })
    else if c == b'['
    then some (record { awaited = b']' ∷ ws; quoted = false })
    else if c == b'}' || c == b']'
    then closing c ws
    else some (record { awaited = ws; quoted = false })

-- No escapes are written, so a backslash is refused.
abbrev within : ℕ → List ℕ → Option Scan
within c ws =
    if c == b'\\'
    then none
    else some (record { awaited = ws; quoted = if c == b'"' then false else true })

unfoldable pub scan : Bytes → List ℕ → Bool → Option Scan
scan [] ws q = some (record { awaited = ws; quoted = q })
scan (c ∷ s) ws q = elim (if q then within c ws else outside c ws) [
  | none ↦ none
  | some st ↦ scan s st.awaited st.quoted
]

-- From one point of a text to another.
pub record Moves (s : Bytes) (ws : List ℕ) (q : Bool) (ws' : List ℕ) (q' : Bool) : Type 0 where
  pub path : scan s ws q ≡ some (record { awaited = ws'; quoted = q' })

-- A text that is written out.
pub literal :
    (s : Bytes) {ws ws' : List ℕ} {q q' : Bool}
    → scan s ws q ≡ some (record { awaited = ws'; quoted = q' })
    → Moves s ws q ws' q'
literal s h = record { path = h }

scan-append :
    (s t : Bytes) (ws : List ℕ) (q : Bool)
    → scan (s ++ t) ws q ≡ (scan s ws q >>= λ st. scan t st.awaited st.quoted)
unfolding scan
scan-append [] t ws q = refl
scan-append (c ∷ s) t ws q = elim (Option-cases (if q then within c ws else outside c ws)) [
  | inl e ↦ rw (e, scan)
  | inr (st, e) ↦ rw (e, scan) (scan-append s t st.awaited st.quoted)
]

pub Moves-append :
    (s t : Bytes) {ws ws' ws'' : List ℕ} {q q' q'' : Bool}
    → Moves s ws q ws' q'
    → Moves t ws' q' ws'' q''
    → Moves (s ++ t) ws q ws'' q''
Moves-append s t {ws} {q = q} h k = record { path = rw (scan-append s t ws q, h.path) k.path }

-- A whole text in which everything that opens is closed.
abbrev pub IsNested : Bytes → Type 0
IsNested s = Moves s [] false [] false

abbrev pub IsPlain : ℕ → Type 0
IsPlain c = (c ≢ b'"') × (c ≢ b'\\') × (c ≢ b'{') × (c ≢ b'}') × (c ≢ b'[') × (c ≢ b']')

scan-plain :
    (s : Bytes) (ws : List ℕ) (q : Bool)
    → All IsPlain s
    → scan s ws q ≡ some (record { awaited = ws; quoted = q })
unfolding scan
scan-plain [] ws q h = refl
scan-plain (c ∷ s) ws true h = ground (arith, h.0, scan-plain s ws true h.1)
scan-plain (c ∷ s) ws false h = ground (arith, h.0, scan-plain s ws false h.1)

pub Moves-plain : (s : Bytes) {ws : List ℕ} {q : Bool} → All IsPlain s → Moves s ws q ws q
Moves-plain s {ws} {q} h = record { path = scan-plain s ws q h }

pub print_nat-Moves : (n : ℕ) {ws : List ℕ} {q : Bool} → Moves (print_nat n) ws q ws q
print_nat-Moves n =
    Moves-plain (print_nat n)
      (All-map (print_nat n) (λ c c_digit. ground arith) (print_nat-IsDigit n))

-- The next piece of a text is written out, or is a number.
pub then_literal :
    (s : Bytes) {t : Bytes} {ws ws' ws'' : List ℕ} {q q' q'' : Bool}
    → scan s ws q ≡ some (record { awaited = ws'; quoted = q' })
    → Moves t ws' q' ws'' q''
    → Moves (s ++ t) ws q ws'' q''
then_literal s {t} h k = Moves-append s t (literal s h) k

pub then_number :
    (n : ℕ) {t : Bytes} {ws ws' : List ℕ} {q q' : Bool}
    → Moves t ws q ws' q'
    → Moves (print_nat n ++ t) ws q ws' q'
then_number n {t} k = Moves-append (print_nat n) t (print_nat-Moves n) k

pub then_plain :
    (s : Bytes) {t : Bytes} {ws ws' : List ℕ} {q q' : Bool}
    → All IsPlain s
    → Moves t ws q ws' q'
    → Moves (s ++ t) ws q ws' q'
then_plain s {t} h k = Moves-append s t (Moves-plain s h) k

pub then_optional {ℓ} :
    {A : Type ℓ} (o : Option A) (f : A → Bytes) {t : Bytes} {ws ws' : List ℕ} {q q' : Bool}
    → ((a : A) → Moves (f a) ws q ws q)
    → Moves t ws q ws' q'
    → Moves (text_if_some o f ++ t) ws q ws' q'
then_optional none f h k = k
then_optional (some a) f {t} h k = Moves-append (f a) t (h a) k

pub print_int-IsPlain : (a : ℤ) → All IsPlain (print_int a)
unfolding print_int
print_int-IsPlain (pos n) = All-map (print_nat n) (λ c c_digit. ground arith) (print_nat-IsDigit n)
print_int-IsPlain (negsuc n) = (
  omega arith,
  All-map (print_nat (suc n)) (λ c c_digit. ground arith) (print_nat-IsDigit (suc n)),
)

pub then_integer :
    (a : ℤ) {t : Bytes} {ws ws' : List ℕ} {q q' : Bool}
    → Moves t ws q ws' q'
    → Moves (print_int a ++ t) ws q ws' q'
then_integer a k = then_plain (print_int a) (print_int-IsPlain a) k
