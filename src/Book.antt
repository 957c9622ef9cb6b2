-- ===== src/Book.antt =====
-- include/engine/order_book.hpp: the class OrderBook. The levels of a side are a `std::map` from
-- prices, bids by `std::greater` and asks by `std::less`; the order map is an `unordered_map`.
-- An operation that changes orders takes and returns the store. `none` is an exception.
pub mod Side
pub mod Views
pub mod Invariant
pub mod Add
pub mod Cancel
use text.Mathlib.Text.{◌==◌ as str_eq}
use high_performance_trading.Base.{
  ℕ, suc, ◌+◌, ◌≡◌, Bool, true, false, not, Option, none, some, List, [], ◌∷◌, leb, if◌then◌else◌,
  length, head?, ◌>>=◌,
}
use high_performance_trading.Base.Int.{
  ℤ, pos, ltb_ℤ, ltb_ℤ_irrefl, ltb_ℤ_trans, ltb_ℤ_connected, ◌+ℤ◌, ◌-ℤ◌,
}
use high_performance_trading.Base.Word.{add64, to_word, of_word}
use high_performance_trading.Base.Assoc.{find, assign, erase_key}
use high_performance_trading.Base.SortedMap
use high_performance_trading.Base.SortedMap.{KeyOrder}
use high_performance_trading.Core.Double.{Double}
use high_performance_trading.Core.Types.{
  OrderId, Price, Quantity, Timestamp, Symbol, is_buy, price_to_double,
}
use high_performance_trading.Core.Order.{Order, make_order, cancel}
use high_performance_trading.Store.{Ref, Store, modify, alloc}
use high_performance_trading.PriceLevel
use high_performance_trading.PriceLevel.{PriceLevel, make_level, is_empty, remove_order}

abbrev pub Levels : Type 0
Levels = List (Price × PriceLevel)

pub record OrderBook : Type 0 where
  pub symbol : Symbol
  pub bids : Levels
  pub asks : Levels
  pub order_map : List (OrderId × Ref)

unfoldable pub make_book : Symbol → OrderBook
make_book symbol = record { symbol = symbol; bids = []; asks = []; order_map = [] }

-- `std::greater<Price>`: the highest bid comes first.
unfoldable pub bid_order : KeyOrder Price
bid_order = record {
  before = λ a b. ltb_ℤ b a;
  before_irrefl = ltb_ℤ_irrefl;
  before_trans = λ a b c p q. ltb_ℤ_trans c b a q p;
  before_connected = λ a b p q. ltb_ℤ_connected a b q p;
}

-- `std::less<Price>`: the lowest ask comes first.
unfoldable pub ask_order : KeyOrder Price
ask_order = record {
  before = ltb_ℤ;
  before_irrefl = ltb_ℤ_irrefl;
  before_trans = ltb_ℤ_trans;
  before_connected = ltb_ℤ_connected;
}

-- `addToBidSide` and `addToAskSide` differ in the comparator of the map alone. A `find` that misses
-- after the `emplace` would dereference the end; it is `none` here.
unfoldable pub add_to_side : KeyOrder Price → Store → Ref → Levels → Option Levels
add_to_side o s r levels =
    let price = (s.cell r).price in
    let levels' : Levels = elim (SortedMap.find o price levels) [
      | none ↦ SortedMap.emplace o price (make_level price) levels
      | some level ↦ levels
    ] in
    do
      level ← SortedMap.find o price levels'
      level' ← PriceLevel.add_order s r level
      some (SortedMap.put o price level' levels')

unfoldable pub add_to_bid_side : Store → Ref → OrderBook → Option OrderBook
add_to_bid_side s r b = do
  levels ← add_to_side bid_order s r b.bids
  some (record b { bids = levels })

unfoldable pub add_to_ask_side : Store → Ref → OrderBook → Option OrderBook
add_to_ask_side s r b = do
  levels ← add_to_side ask_order s r b.asks
  some (record b { asks = levels })

unfoldable pub remove_from_side : KeyOrder Price → Store → OrderId → Price → Levels → Levels
remove_from_side o s id price levels = elim (SortedMap.find o price levels) [
  | none ↦ levels
  | some level ↦
      let level' = (remove_order s id level).0 in
      if is_empty level'
      then SortedMap.erase_at o price levels
      else SortedMap.put o price level' levels
]

unfoldable pub remove_from_bid_side : Store → OrderId → Price → OrderBook → OrderBook
remove_from_bid_side s id price b = record b { bids = remove_from_side bid_order s id price b.bids }

unfoldable pub remove_from_ask_side : Store → OrderId → Price → OrderBook → OrderBook
remove_from_ask_side s id price b = record b { asks = remove_from_side ask_order s id price b.asks }

-- The book after an order went to its side and into the order map.
unfoldable pub add_new : Store → Ref → OrderBook → Option (OrderBook × Bool)
add_new s r b = do
  b' ← (if is_buy (s.cell r).side then add_to_bid_side s r b else add_to_ask_side s r b)
  some (record b' { order_map = assign (s.cell r).id r b'.order_map }, true)

unfoldable pub add_order : Store → Ref → OrderBook → Option (OrderBook × Bool)
add_order s r b =
    if not (str_eq (s.cell r).symbol b.symbol)
    then some (b, false)
    else elim (find (s.cell r).id b.order_map) [ some _ ↦ some (b, false) | none ↦ add_new s r b ]

-- An order's removal from its level and from the order map.
unfoldable pub drop_order : OrderId → Ref → Store → OrderBook → OrderBook
drop_order id r s b =
    let order = s.cell r in
    let b' =
      if is_buy order.side
      then remove_from_bid_side s id order.price b
      else remove_from_ask_side s id order.price b in
    record b' { order_map = erase_key id b'.order_map }

-- The order is cancelled first, so the level reads its remaining quantity when it is 0 already.
unfoldable pub cancel_order : OrderId → Store → OrderBook → Store × OrderBook × Bool
cancel_order id s b = elim (find id b.order_map) [
  | none ↦ (s, b, false)
  | some r ↦ let s' = modify s r cancel in (s', drop_order id r s' b, true)
]

-- The order that takes the place of `old`.
unfoldable pub replacement : Order → OrderId → Price → Quantity → Timestamp → Order
replacement old id price quantity now =
    make_order id old.symbol old.side old.order_type price quantity now

unfoldable pub modify_order :
    OrderId → Price → Quantity → Timestamp → Store → OrderBook → Option (Store × OrderBook × Bool)
modify_order id price quantity now s b = elim (find id b.order_map) [
  | none ↦ some (s, b, false)
  | some r ↦
      let fresh = s.next in
      let s1 = alloc s (replacement (s.cell r) id price quantity now) in
      let (s2, b2, _) = cancel_order id s1 b in
      do (b3, added) ← add_order s2 fresh b2; some (s2, b3, added)
]
