-- ===== src/Book/Views.antt =====
-- The const methods of the class OrderBook.
pub mod Best
pub mod Depth
use high_performance_trading.Base.{
  ℕ, ◌+◌, Option, none, some, List, [], ◌∷◌, leb, if◌then◌else◌, length, ◌>>=◌,
}
use high_performance_trading.Base.Int.{pos, ◌+ℤ◌, ◌-ℤ◌}
use high_performance_trading.Base.Word.{add64, to_word, of_word}
use high_performance_trading.Base.Assoc.{find}
use high_performance_trading.Core.Double.{Double}
use high_performance_trading.Core.Types.{OrderId, Price, Quantity, price_to_double}
use high_performance_trading.Store.{Ref}
use high_performance_trading.PriceLevel.{PriceLevel, get_front_order, get_order_count}
use high_performance_trading.Book.{Levels, OrderBook}

-- `begin()->first` of a map that is not empty.
unfoldable pub first_price : Levels → Option Price
first_price [] = none
first_price ((price, level) ∷ m) = some price

unfoldable pub get_best_bid : OrderBook → Option Price
unfolding first_price
get_best_bid b = first_price b.bids

unfoldable pub get_best_ask : OrderBook → Option Price
unfolding first_price
get_best_ask b = first_price b.asks

-- `int64_t` arithmetic, with the wrap of the machine.
unfoldable pub get_spread : OrderBook → Option Price
get_spread b = do bid ← get_best_bid b; ask ← get_best_ask b; some (of_word (to_word (ask -ℤ bid)))

unfoldable pub get_mid_price : {D : Type 0} → Double D → OrderBook → Option D
get_mid_price d b = do
  bid ← get_best_bid b
  ask ← get_best_ask b
  some (d.div (price_to_double d (of_word (to_word (bid +ℤ ask)))) (d.of_int (pos 2)))

unfoldable pub get_order : OrderId → OrderBook → Option Ref
get_order id b = find id b.order_map

-- `total += level.getTotalQuantity()` over a side.
unfoldable pub total_from : Quantity → Levels → Quantity
total_from total [] = total
total_from total ((price, level) ∷ m) = total_from (add64 total level.total_quantity) m

unfoldable pub get_total_bid_quantity : OrderBook → Quantity
unfolding total_from
get_total_bid_quantity b = total_from 0 b.bids

unfoldable pub get_total_ask_quantity : OrderBook → Quantity
unfolding total_from
get_total_ask_quantity b = total_from 0 b.asks

unfoldable pub first_order : Levels → Option Ref
first_order [] = none
first_order ((price, level) ∷ m) = get_front_order level

unfoldable pub get_best_bid_order : OrderBook → Option Ref
unfolding first_order
get_best_bid_order b = first_order b.bids

unfoldable pub get_best_ask_order : OrderBook → Option Ref
unfolding first_order
get_best_ask_order b = first_order b.asks

pub record DepthLevel : Type 0 where
  pub price : Price
  pub quantity : Quantity
  pub order_count : ℕ

abbrev pub depth_of : Price × PriceLevel → DepthLevel
depth_of (price, level) = record {
  price = price;
  quantity = level.total_quantity;
  order_count = get_order_count level;
}

-- The loop over a side, which breaks when `count` levels have been pushed.
unfoldable pub depth_from : ℕ → ℕ → Levels → List DepthLevel
depth_from levels count [] = []
depth_from levels count (entry ∷ m) =
    let rest = depth_from levels (count + 1) m in
    if leb levels count then [] else depth_of entry ∷ rest

unfoldable pub get_bid_depth : ℕ → OrderBook → List DepthLevel
unfolding depth_from
get_bid_depth levels b = depth_from levels 0 b.bids

unfoldable pub get_ask_depth : ℕ → OrderBook → List DepthLevel
unfolding depth_from
get_ask_depth levels b = depth_from levels 0 b.asks

pub record BookStats : Type 0 where
  pub total_orders : ℕ
  pub bid_levels : ℕ
  pub ask_levels : ℕ
  pub total_bid_qty : Quantity
  pub total_ask_qty : Quantity

unfoldable pub get_stats : OrderBook → BookStats
get_stats b = record {
  total_orders = length b.order_map;
  bid_levels = length b.bids;
  ask_levels = length b.asks;
  total_bid_qty = get_total_bid_quantity b;
  total_ask_qty = get_total_ask_quantity b;
}
