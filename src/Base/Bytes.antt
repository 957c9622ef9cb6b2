-- ===== src/Base/Bytes.antt =====
-- `std::string` as a list of bytes: conversions to and from a text, and the searches that the code
-- makes (`find`, `substr`, `std::getline` with a delimiter).
pub mod Decimal
pub mod Nesting
pub mod Search
use Prim.Native.Char.{Char, code, char, nul, IsScalar}
use Prim.Native.Nat.{ℕ, ◌<◌, compare, Ordering}
use Prim.Native.String
use text.Mathlib.TextEquality.{Char-path}
use mathlib.Core.Path.{◌≡◌, refl, sym, subst, ap}
use mathlib.Core.Logic.{◌≢◌, dite, ◌⊎◌, inl, inr}
use mathlib.Core.Bool.{Bool, true, false, ◌&&◌}
use mathlib.Core.List.{List, [], ◌∷◌, ◌++◌}
use mathlib.Core.Option.{Option, none, some}
use native.Mathlib.Omega.{arith}
use native.Mathlib.Decide.{dec_lt}
use high_performance_trading.Base.Tests.{◌==◌, if◌then◌else◌, ltb, Bool-cases, ltb→lt}
use high_performance_trading.Base.Lists.{All}

abbrev pub Bytes : Type 0
Bytes = List ℕ

abbrev pub codes : String.String → Bytes
codes String.[] = []
codes (String.◌∷◌ c s) = code c ∷ codes s

pub scalar : (n : ℕ) → n < 55296 → IsScalar n
scalar n h = let e : compare n 55296 ≡ Ordering.lt = ground arith in rw e tt

-- The character of a byte. A `char` is below 256; beyond the characters there is the zero byte.
unfoldable pub char_of : ℕ → Char
char_of n = dite (dec_lt n 55296) (λ h. char n (scalar n h)) (λ _. nul)

unfoldable pub text_of : Bytes → String.String
text_of [] = String.[]
text_of (c ∷ s) = String.◌∷◌ (char_of c) (text_of s)

code-char_of : (n : ℕ) → n < 55296 → code (char_of n) ≡ n
unfolding char_of dec_lt
code-char_of n h = ground arith

-- Every character of the text is one byte.
abbrev pub IsBytes : Bytes → Type 0
IsBytes s = All (λ c. c < 256) s

pub text_of-codes : (s : String.String) → IsBytes (codes s) → text_of (codes s) ≡ s
unfolding text_of
text_of-codes String.[] h = refl
text_of-codes (String.◌∷◌ c s) h =
    let e = Char-path (char_of (code c)) c (code-char_of (code c) (omega (arith, h.0))) in
    let f = text_of-codes s h.1 in λ i. String.◌∷◌ (e i) (f i)

-- A byte that does not occur.
abbrev pub Lacks : ℕ → Bytes → Type 0
Lacks d s = All (λ c. c ≢ d) s

-- `==` on strings.
unfoldable pub bytes_eq : Bytes → Bytes → Bool
bytes_eq [] [] = true
bytes_eq [] (d ∷ t) = false
bytes_eq (c ∷ s) [] = false
bytes_eq (c ∷ s) (d ∷ t) = c == d && bytes_eq s t

pub bytes_eq→eq : (s t : Bytes) → bytes_eq s t ≡ true → s ≡ t
unfolding bytes_eq
bytes_eq→eq [] [] h = refl
bytes_eq→eq [] (d ∷ t) h = cc
bytes_eq→eq (c ∷ s) [] h = cc
bytes_eq→eq (c ∷ s) (d ∷ t) h = ground (arith, bytes_eq→eq s t)

pub bytes_eq_refl : (s : Bytes) → bytes_eq s s ≡ true
unfolding bytes_eq
bytes_eq_refl [] = refl
bytes_eq_refl (c ∷ s) = ground (arith, bytes_eq_refl s)
