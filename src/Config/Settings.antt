-- ===== src/Config/Settings.antt =====
-- The settings of Config: what a lookup gives after a write, and the integers that are read.
use high_performance_trading.Base.{
  ℕ, ◌^◌, ◌≡◌, refl, ◌↔◌, true, some, [], ◌∷◌, ltb, if◌then◌else◌, arith, Bool-cases, inl, inr,
}
use high_performance_trading.Base.Int.{ℤ, pos}
use high_performance_trading.Base.Bytes.{Bytes, bytes_eq, bytes_eq→eq, bytes_eq_refl}
use high_performance_trading.Base.Bytes.Decimal.{
  print_nat, print_int, stoi, stoi-print_int, stoi-print_nat_large,
}
use high_performance_trading.Config.{Settings, find_setting, set, get_int}

pub bytes_eq_iff : (a b : Bytes) → (bytes_eq a b ≡ true) ↔ (a ≡ b)
bytes_eq_iff a b = (bytes_eq→eq a b, λ e. rw (← e) (bytes_eq_refl a))

pub find_setting-set :
    (a b value : Bytes) (m : Settings)
    → find_setting b (set a value m) ≡ (if bytes_eq a b then some value else find_setting b m)
unfolding find_setting set
find_setting-set a b value [] = refl
find_setting-set a b value ((k, v) ∷ m) =
    ground
      (arith, find_setting-set a b value m, bytes_eq_iff k a, bytes_eq_iff k b, bytes_eq_iff a b)

pub find_setting-set_self :
    (key value : Bytes) (m : Settings) → find_setting key (set key value m) ≡ some value
find_setting-set_self key value m = rw (find_setting-set key key value m, bytes_eq_refl key)

-- A number that was written is read, and one that does not fit an `int` gives the default.
pub get_int-set :
    (key : Bytes) (n : ℕ) (default : ℤ) (m : Settings)
    → get_int key default (set key (print_nat n) m) ≡ (if ltb n (2 ^ 31) then pos n else default)
unfolding get_int
get_int-set key n default m =
    let written = find_setting-set_self key (print_nat n) m in
    elim (Bool-cases (ltb n (2 ^ 31))) [
      | inl e ↦
          let small : stoi (print_nat n) ≡ some (pos n) =
            unfold print_int in stoi-print_int (pos n) (ground arith) (omega arith) in
          ground (arith, e, written, small)
      | inr e ↦ ground (arith, e, written, stoi-print_nat_large n (ground arith))
    ]
