-- ===== src/Store.antt =====
-- The `shared_ptr<Order>` objects. A reference is a number, and the store gives the order behind
-- each: the book's levels, its order map and the caller share one object, so a change through one
-- reference is seen by all. References are never null or dangling where the code dereferences
-- them, so the store is a total function.
use high_performance_trading.Base.{ℕ, suc, ◌<◌, ◌≡◌, fun_ext, arith, ◌==◌, if◌then◌else◌}
use high_performance_trading.Core.Types.{OrderId, Price, Quantity, Symbol, Side}
use high_performance_trading.Core.Order.{Order, fill_quantity, cancel}

abbrev pub Ref : Type 0
Ref = ℕ

pub record Store : Type 0 where
  pub cell : Ref → Order
  pub next : Ref

abbrev pub write : Store → Ref → Order → Store
write s r o = record s { cell = λ q. if r == q then o else s.cell q }

-- A modifier called through a reference.
abbrev pub modify : Store → Ref → (Order → Order) → Store
modify s r f = write s r (f (s.cell r))

-- `std::make_shared<Order>`
abbrev pub alloc : Store → Order → Store
alloc s o = record (write s s.next o) { next = suc s.next }

-- What never changes in an order once it exists.
pub record Terms : Type 0 where
  pub id : OrderId
  pub symbol : Symbol
  pub side : Side
  pub price : Price

abbrev pub terms_of : Order → Terms
terms_of o = record { id = o.id; symbol = o.symbol; side = o.side; price = o.price }

abbrev pub terms : Store → Ref → Terms
terms s r = terms_of (s.cell r)

abbrev pub remaining : Store → Ref → Quantity
remaining s r = (s.cell r).remaining_quantity

pub terms-fill :
    (s : Store) (r : Ref) (q : Quantity) → terms (modify s r (fill_quantity q)) ≡ terms s
unfolding fill_quantity
terms-fill s r q = fun_ext λ x. ground arith

pub terms-cancel : (s : Store) (r : Ref) → terms (modify s r cancel) ≡ terms s
unfolding cancel
terms-cancel s r = fun_ext λ x. ground arith

pub terms-alloc : (s : Store) (o : Order) (x : Ref) → x < s.next → terms (alloc s o) x ≡ terms s x
terms-alloc s o x h = ground arith
