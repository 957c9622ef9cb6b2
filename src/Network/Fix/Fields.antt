-- ===== src/Network/Fix/Fields.antt =====
-- The fields of a FIX message: what a lookup gives after a write.
use high_performance_trading.Base.{◌≡◌, refl, ◌↔◌, true, some, [], ◌∷◌, if◌then◌else◌, arith}
use high_performance_trading.Base.Int.{ℤ, eqb_ℤ, eqb_ℤ→eq, eqb_ℤ_refl}
use high_performance_trading.Base.Bytes.{Bytes}
use high_performance_trading.Network.Fix.{FixMessage, find_field, set_field, get_field}

pub eqb_ℤ_iff : (a b : ℤ) → (eqb_ℤ a b ≡ true) ↔ (a ≡ b)
eqb_ℤ_iff a b = (eqb_ℤ→eq a b, λ e. rw (← e) (eqb_ℤ_refl a))

pub find_field-set_field :
    (a b : ℤ) (value : Bytes) (m : FixMessage)
    → find_field b (set_field a value m) ≡ (if eqb_ℤ a b then some value else find_field b m)
unfolding find_field set_field
find_field-set_field a b value [] = refl
find_field-set_field a b value ((t, v) ∷ m) =
    ground (arith, find_field-set_field a b value m, eqb_ℤ_iff t a, eqb_ℤ_iff t b, eqb_ℤ_iff a b)

pub get_field-set_field :
    (a b : ℤ) (value : Bytes) (m : FixMessage)
    → get_field b (set_field a value m) ≡ (if eqb_ℤ a b then value else get_field b m)
unfolding get_field
get_field-set_field a b value m = rw (find_field-set_field a b value m) (ground arith)
