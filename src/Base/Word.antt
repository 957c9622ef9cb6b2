-- ===== src/Base/Word.antt =====
-- 64-bit words. A `uint64_t` is a number below `2 ^ 64`; an `int64_t` is an integer.
use Prim.Native.Nat.{ℕ, ◌+◌, ◌-◌, ◌%◌, ◌^◌, ◌≤◌, ◌<◌}
use mathlib.Core.Path.{◌≡◌}
use native.Mathlib.Omega.{arith}
use high_performance_trading.Base.Tests.{ltb, if◌then◌else◌}
use high_performance_trading.Base.Int.{ℤ, pos, negsuc, pos_part, neg_part}

abbrev pub word : ℕ
word = 2 ^ 64

abbrev pub add64 : ℕ → ℕ → ℕ
add64 a b = (a + b) % word

abbrev pub sub64 : ℕ → ℕ → ℕ
sub64 a b = (a + word - b) % word

-- The bit pattern of an integer, and the `int64_t` that a bit pattern stands for.
unfoldable pub to_word : ℤ → ℕ
to_word (pos n) = n % word
to_word (negsuc n) = word - 1 - n % word

unfoldable pub of_word : ℕ → ℤ
of_word w = if ltb w (2 ^ 63) then pos w else negsuc (word - w - 1)

abbrev pub FitsInt64 : ℤ → Type 0
FitsInt64 a = (pos_part a < 2 ^ 63) × (neg_part a ≤ 2 ^ 63)

-- An integer that fits survives the conversion to a word and back.
pub of_word-to_word : (a : ℤ) → FitsInt64 a → of_word (to_word a) ≡ a
unfolding to_word of_word
of_word-to_word (pos n) h = ground arith
of_word-to_word (negsuc n) h = ground arith
