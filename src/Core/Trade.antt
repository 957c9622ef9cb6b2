-- ===== src/Core/Trade.antt =====
-- include/core/trade.hpp: the class Trade. The clock reading is an argument of the constructor.
use high_performance_trading.Base.{Bool, ◌||◌, ◌==◌, if◌then◌else◌}
use high_performance_trading.Core.Types.{
  OrderId, Price, Quantity, Timestamp, Symbol, price_to_double,
}
use high_performance_trading.Core.Double.{Double}

pub record Trade : Type 0 where
  pub buy_order_id : OrderId
  pub sell_order_id : OrderId
  pub symbol : Symbol
  pub price : Price
  pub quantity : Quantity
  pub timestamp : Timestamp

unfoldable pub make_trade : OrderId → OrderId → Symbol → Price → Quantity → Timestamp → Trade
make_trade buyer seller symbol price quantity now = record {
  buy_order_id = buyer;
  sell_order_id = seller;
  symbol = symbol;
  price = price;
  quantity = quantity;
  timestamp = now;
}

unfoldable pub involves_order : OrderId → Trade → Bool
involves_order id t = t.buy_order_id == id || t.sell_order_id == id

unfoldable pub get_aggressor_order_id : Bool → Trade → OrderId
get_aggressor_order_id buy_was_aggressor t =
    if buy_was_aggressor then t.buy_order_id else t.sell_order_id

unfoldable pub get_value : {D : Type 0} → Double D → Trade → D
unfolding price_to_double
get_value d t = d.mul (price_to_double d t.price) (d.of_nat t.quantity)
