-- ===== src/Core/Types.antt =====
-- include/core/types.hpp: the aliases and enumerations.
use high_performance_trading.Base.{ℕ, String, ◌≡◌, refl, ◌⊎◌, inl, inr, Bool, true, false}
use high_performance_trading.Base.Int.{ℤ, pos}
use high_performance_trading.Core.Double.{Double}

abbrev pub OrderId : Type 0
OrderId = ℕ

-- Fixed point, in hundredths.
abbrev pub Price : Type 0
Price = ℤ

abbrev pub Quantity : Type 0
Quantity = ℕ

-- Nanoseconds since the epoch.
abbrev pub Timestamp : Type 0
Timestamp = ℕ

abbrev pub Symbol : Type 0
Symbol = String

pub data Side : Type 0 where
  buy sell : Side

pub data OrderType : Type 0 where
  market limit stop stop_limit : OrderType

-- The names of the source in this notation; its NEW is `new`.
pub data OrderStatus : Type 0 where
  new partially_filled filled cancelled rejected : OrderStatus

-- `==` on the enumerations.
abbrev pub is_buy : Side → Bool
is_buy buy = true
is_buy sell = false

abbrev pub same_side : Side → Side → Bool
same_side buy buy = true
same_side sell sell = true
same_side _ _ = false

abbrev pub is_market : OrderType → Bool
is_market market = true
is_market _ = false

abbrev pub is_limit : OrderType → Bool
is_limit limit = true
is_limit _ = false

pub Side-cases : (side : Side) → (side ≡ buy) ⊎ (side ≡ sell)
Side-cases buy = inl refl
Side-cases sell = inr refl

abbrev pub side_to_string : Side → String
side_to_string buy = "BUY"
side_to_string sell = "SELL"

abbrev pub order_type_to_string : OrderType → String
order_type_to_string market = "MARKET"
order_type_to_string limit = "LIMIT"
order_type_to_string stop = "STOP"
order_type_to_string stop_limit = "STOP_LIMIT"

abbrev pub order_status_to_string : OrderStatus → String
order_status_to_string new = "NEW"
order_status_to_string partially_filled = "PARTIALLY_FILLED"
order_status_to_string filled = "FILLED"
order_status_to_string cancelled = "CANCELLED"
order_status_to_string rejected = "REJECTED"

module _ {D : Type 0} (d : Double D) where
  unfoldable pub price_to_double : Price → D
  price_to_double price = d.div (d.of_int price) (d.of_int (pos 100))

  unfoldable pub double_to_price : D → Price
  double_to_price price = d.truncate (d.mul price (d.of_int (pos 100)))
