-- ===== src/Core/Order.antt =====
-- include/core/order.hpp: the class Order. A modifier returns the new object. The clock reading of
-- `getCurrentTimestamp` is an argument of the constructors.
pub mod Fill
pub mod Match
use text.Mathlib.Text.{◌==◌ as str_eq}
use high_performance_trading.Base.{
  ℕ, ◌-◌, ◌≡◌, Bool, true, false, not, ◌||◌, ltb, ◌==◌, if◌then◌else◌, String,
}
use high_performance_trading.Base.Int.{pos, ltb_ℤ}
use high_performance_trading.Core.Types.{
  OrderId, Price, Quantity, Timestamp, Symbol, Side, OrderType, OrderStatus, new, partially_filled,
  filled, cancelled, market, is_buy, same_side, is_market,
}

pub record Order : Type 0 where
  pub id : OrderId
  pub symbol : Symbol
  pub side : Side
  pub order_type : OrderType
  pub price : Price
  pub quantity : Quantity
  pub remaining_quantity : Quantity
  pub status : OrderStatus
  pub timestamp : Timestamp

unfoldable pub make_order :
    OrderId → Symbol → Side → OrderType → Price → Quantity → Timestamp → Order
make_order id symbol side type price quantity now = record {
  id = id;
  symbol = symbol;
  side = side;
  order_type = type;
  price = price;
  quantity = quantity;
  remaining_quantity = quantity;
  status = new;
  timestamp = now;
}

unfoldable pub make_market_order : OrderId → Symbol → Side → Quantity → Timestamp → Order
unfolding make_order
make_market_order id symbol side quantity now =
    make_order id symbol side market (pos 0) quantity now

unfoldable pub set_status : OrderStatus → Order → Order
set_status status o = record o { status = status }

-- `qty` after the clamp is at most the remaining quantity, so the subtraction is exact.
unfoldable pub fill_quantity : Quantity → Order → Order
fill_quantity qty o =
    let part = if ltb o.remaining_quantity qty then o.remaining_quantity else qty in
    let left = o.remaining_quantity - part in
    record o { remaining_quantity = left; status = if left == 0 then filled else partially_filled }

unfoldable pub cancel : Order → Order
cancel o = record o { status = cancelled; remaining_quantity = 0 }

abbrev is_open : OrderStatus → Bool
is_open new = true
is_open partially_filled = true
is_open _ = false

unfoldable pub is_active : Order → Bool
is_active o = is_open o.status

unfoldable pub can_match : Order → Order → Bool
can_match o other =
    if same_side o.side other.side
    then false
    else if not (str_eq o.symbol other.symbol)
    then false
    else if o.remaining_quantity == 0 || other.remaining_quantity == 0
    then false
    else if is_market o.order_type || is_market other.order_type
    then true
    else if is_buy o.side
    then not (ltb_ℤ o.price other.price)
    else not (ltb_ℤ other.price o.price)
