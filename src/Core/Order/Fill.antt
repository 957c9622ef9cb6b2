-- ===== src/Core/Order/Fill.antt =====
-- Order::fillQuantity and Order::cancel: quantities and status.
use high_performance_trading.Base.{ℕ, ◌+◌, ◌≤◌, ◌<◌, min, ◌≡◌, ◌↔◌, arith}
use high_performance_trading.Core.Types.{
  Quantity, OrderStatus, new, partially_filled, filled, cancelled, rejected,
}
use high_performance_trading.Core.Order.{Order, fill_quantity, cancel}

-- What the status of an order says about its quantities.
abbrev pub Agrees : OrderStatus → ℕ → ℕ → Type 0
Agrees new quantity remaining = remaining ≡ quantity
Agrees partially_filled quantity remaining = 0 < remaining
Agrees filled quantity remaining = remaining ≡ 0
Agrees cancelled quantity remaining = remaining ≡ 0
Agrees rejected quantity remaining = Unit {0}

pub record IsValid (o : Order) : Type 0 where
  pub within : o.remaining_quantity ≤ o.quantity
  pub agrees : Agrees o.status o.quantity o.remaining_quantity

-- A fill takes the smaller of the quantity asked for and the remaining one, the order is FILLED
-- exactly when nothing remains and PARTIALLY_FILLED exactly when something does, and whatever
-- else the order holds stays.
pub fill_quantity_lem :
    (q : Quantity) (o : Order)
    → ((fill_quantity q o).remaining_quantity + min q o.remaining_quantity ≡ o.remaining_quantity)
      × (((fill_quantity q o).status ≡ filled) ↔ (o.remaining_quantity ≤ q))
      × (((fill_quantity q o).status ≡ partially_filled) ↔ (q < o.remaining_quantity))
      × (record (fill_quantity q o) { remaining_quantity = o.remaining_quantity; status = o.status }
          ≡ o)
unfolding fill_quantity
fill_quantity_lem q o = ground arith

-- Two fills in a row are one fill of the sum.
pub fill_quantity-fill_quantity :
    (q r : Quantity) (o : Order) → fill_quantity r (fill_quantity q o) ≡ fill_quantity (q + r) o
unfolding fill_quantity
fill_quantity-fill_quantity q r o = ground arith

-- A fill of a valid order keeps the remaining quantity within the quantity and the status in
-- agreement with both.
pub fill_quantity-IsValid : (q : Quantity) (o : Order) → IsValid o → IsValid (fill_quantity q o)
unfolding fill_quantity
fill_quantity-IsValid q o v = ground arith

pub cancel-IsValid : (o : Order) → IsValid o → IsValid (cancel o)
unfolding cancel
cancel-IsValid o v = ground arith
