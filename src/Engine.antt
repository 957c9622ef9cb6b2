-- ===== src/Engine.antt =====
-- include/engine/matching_engine.hpp: the class MatchingEngine, its state and the steps of its
-- matching methods. A callback is an observer: its calls are events.
pub mod Matching
pub mod AsWritten
pub mod Fills
use text.Mathlib.Text.{◌==◌ as str_eq}
use high_performance_trading.Base.{
  ℕ, zero, suc, ◌+◌, ◌-◌, ◌≡◌, Bool, true, false, not, Option, none, some, List, [], ◌∷◌, ◌++◌, map,
  min, leb, ◌==◌, if◌then◌else◌, length, ◌>>=◌,
}
use high_performance_trading.Base.Int.{ltb_ℤ, eqb_ℤ}
use high_performance_trading.Base.Word.{add64}
use high_performance_trading.Core.Double.{Double}
use high_performance_trading.Core.Types.{
  OrderId, Price, Quantity, Timestamp, Symbol, Side, buy, sell, OrderType, market, limit, stop,
  stop_limit,
}
use high_performance_trading.Core.Order.{Order, fill_quantity}
use high_performance_trading.Core.Trade.{Trade, make_trade, get_value}
use high_performance_trading.Store.{Ref, Store, modify, remaining}
use high_performance_trading.Book.{OrderBook, make_book, add_order, cancel_order, modify_order}
use high_performance_trading.Book.Views.{
  DepthLevel, get_best_bid, get_best_ask, get_bid_depth, get_ask_depth,
}

pub record MatchingStats (D : Type 0) : Type 0 where
  pub total_trades : ℕ
  pub total_volume : ℕ
  pub total_value : D
  pub market_orders_matched : ℕ
  pub limit_orders_matched : ℕ

pub record Engine (D : Type 0) : Type 0 where
  pub order_book : OrderBook
  pub symbol : Symbol
  pub next_order_id : OrderId
  pub stats : MatchingStats D
  -- Whether the callbacks are set.
  pub trade_callback : Bool
  pub order_update_callback : Bool

-- Calls of the callbacks and of the logger, in order.
pub data Event : Type 0 where
  traded : Trade → Event
  updated : Ref → Event
  symbol_mismatch : Symbol → Symbol → Event
  only_partially_filled : OrderId → Quantity → Event

-- The clock that the trades of a submission read: one reading for each of them, in order.
abbrev pub Clock : Type 0
Clock = ℕ → Timestamp

-- The variables of a matching method.
pub record Run (D : Type 0) : Type 0 where
  pub store : Store
  pub engine : Engine D
  pub left : Quantity
  pub trades : List Trade
  pub events : List Event

-- The side of the book that an incoming order takes from.
abbrev pub best_opposite : Side → OrderBook → Option Price
best_opposite buy b = get_best_ask b
best_opposite sell b = get_best_bid b

abbrev pub opposite_depth : Side → ℕ → OrderBook → List DepthLevel
opposite_depth buy levels b = get_ask_depth levels b
opposite_depth sell levels b = get_bid_depth levels b

-- The private helpers `getBestAskOrder` and `getBestBidOrder`: placeholders, null on both branches.
unfoldable pub placeholder : Side → OrderBook → Option Ref
placeholder side b = elim (opposite_depth side 1 b) [ [] ↦ none | _ ∷ _ ↦ none ]

abbrev pub update_event : Bool → Ref → List Event
update_event true r = updated r ∷ []
update_event false r = []

-- Whether the best price is worse than the limit of the incoming order.
abbrev pub beyond : Side → Price → Price → Bool
beyond buy best limit_price = ltb_ℤ limit_price best
beyond sell best limit_price = ltb_ℤ best limit_price

abbrev pub trade_of : Side → OrderId → OrderId → Symbol → Price → Quantity → Timestamp → Trade
trade_of buy incoming resting symbol price quantity now =
    make_trade incoming resting symbol price quantity now
trade_of sell incoming resting symbol price quantity now =
    make_trade resting incoming symbol price quantity now

-- The order book after a fill: a resting order with nothing left is cancelled by its ID.
unfoldable pub settle : Ref → Store → OrderBook → Store × OrderBook
settle resting s b =
    if remaining s resting == 0
    then (let (s', b', _) = cancel_order (s.cell resting).id s b in (s', b'))
    else (s, b)

module _ {D : Type 0} where
  -- `if (orderUpdateCallback_) orderUpdateCallback_(order)` at the end of a method.
  abbrev pub notify_order : Ref → Run D → Run D
  notify_order order run = record run {
    events = run.events ++ update_event run.engine.order_update_callback order;
  }

  -- The setters of the callbacks; a `std::function` may be empty.
  abbrev pub set_trade_callback : Bool → Engine D → Engine D
  set_trade_callback is_set e = record e { trade_callback = is_set }

  abbrev pub set_order_update_callback : Bool → Engine D → Engine D
  set_order_update_callback is_set e = record e { order_update_callback = is_set }

  abbrev pub start : Ref → Store → Engine D → Run D
  start order s e = record {
    store = s;
    engine = e;
    left = remaining s order;
    trades = [];
    events = [];
  }

  abbrev pub warn_if_left : Ref → Run D → Run D
  warn_if_left order run = if run.left == 0 then run else record run {
    events = run.events ++ (only_partially_filled (run.store.cell order).id run.left ∷ []);
  }

  unfoldable pub count_market : Run D → Run D
  count_market run =
      let e = run.engine in
      let stats = e.stats in
      record run {
        engine = record e {
          stats = record stats { market_orders_matched = add64 stats.market_orders_matched 1 };
        };
      }

  unfoldable pub count_limit : Run D → Run D
  count_limit run =
      let e = run.engine in
      let stats = e.stats in
      record run {
        engine = record e {
          stats = record stats { limit_orders_matched = add64 stats.limit_orders_matched 1 };
        };
      }

  abbrev pub notify_trades : Run D → Run D
  notify_trades run =
      if run.engine.trade_callback
      then record run { events = run.events ++ map traded run.trades }
      else run

module _ {D : Type 0} (d : Double D) where
  unfoldable pub make_engine : Symbol → Engine D
  make_engine symbol = record {
    order_book = make_book symbol;
    symbol = symbol;
    next_order_id = 1;
    stats = record {
      total_trades = 0;
      total_volume = 0;
      total_value = d.of_nat 0;
      market_orders_matched = 0;
      limit_orders_matched = 0;
    };
    trade_callback = false;
    order_update_callback = false;
  }

  unfoldable pub count_trade : Quantity → Trade → MatchingStats D → MatchingStats D
  count_trade qty trade stats = record stats {
    total_trades = add64 stats.total_trades 1;
    total_volume = add64 stats.total_volume qty;
    total_value = d.add stats.total_value (get_value d trade);
  }

  -- The body of a matching loop, once a resting order is found at a price.
  -- `fillQty` is at most `left`, so the subtraction is exact.
  unfoldable pub execute : Side → Ref → Ref → Price → Clock → Run D → Run D
  execute side order resting price now run =
      let s = run.store in
      let e = run.engine in
      let qty = min run.left (remaining s resting) in
      let trade =
        trade_of side (s.cell order).id (s.cell resting).id e.symbol price qty
          (now (length run.trades)) in
      let s1 = modify s order (fill_quantity qty) in
      let s2 = modify s1 resting (fill_quantity qty) in
      let (s3, b3) = settle resting s2 e.order_book in
      record run {
        store = s3;
        engine = record e { order_book = b3; stats = count_trade qty trade e.stats };
        left = run.left - qty;
        trades = run.trades ++ (trade ∷ []);
        events = run.events ++ update_event e.order_update_callback resting;
      }

  unfoldable pub cancel_in_engine : OrderId → Store → Engine D → Store × Engine D × Bool
  cancel_in_engine id s e =
      let (s', b', done) = cancel_order id s e.order_book in
      (s', record e { order_book = b' }, done)

  unfoldable pub modify_in_engine :
      OrderId → Price → Quantity → Timestamp → Store → Engine D → Option (Store × Engine D × Bool)
  modify_in_engine id price quantity now s e = do
    (s', b', done) ← modify_order id price quantity now s e.order_book
    some (s', record e { order_book = b' }, done)

  unfoldable pub get_next_order_id : Engine D → Engine D × OrderId
  get_next_order_id e = let id = e.next_order_id in (record e { next_order_id = add64 id 1 }, id)
