-- ===== src/Engine/Fills.antt =====
-- The matching loops of the engine when the lookup is OrderBook::getBestAskOrder or
-- OrderBook::getBestBidOrder, which return the front order that the placeholders stand for.
pub mod Settle
pub mod Step
pub mod Reference
pub mod Limit
pub mod Uncrossed
pub mod Rest
pub mod Submit
pub mod Queues
pub mod Covered
pub mod Market
use high_performance_trading.Base.{
  ℕ, suc, ◌+◌, ◌-◌, ◌≡◌, ◌<◌, ◌≤◌, true, Bool, ◌||◌, List, [], ◌∷◌, Option, ◌==◌, if◌then◌else◌,
  min, count, ltb,
}
use high_performance_trading.Base.Int.{ltb_ℤ}
use high_performance_trading.Core.Types.{Price, Quantity, Side, buy, sell, Symbol, Timestamp}
use high_performance_trading.Core.Trade.{Trade}
use high_performance_trading.Store.{Ref, Store, Terms, terms, remaining}
use high_performance_trading.Book.{OrderBook}
use high_performance_trading.Book.Side.{queue}
use high_performance_trading.Book.Invariant.{IsBook}
use high_performance_trading.Book.Views.{get_best_bid_order, get_best_ask_order}
use high_performance_trading.Engine.{Clock, Run, beyond}

-- The order book's own lookup of the order to trade with.
abbrev pub front_order : Side → OrderBook → Option Ref
front_order buy b = get_best_ask_order b
front_order sell b = get_best_bid_order b

abbrev pub opposite_queue : Side → OrderBook → List Ref
opposite_queue buy b = queue b.asks
opposite_queue sell b = queue b.bids

abbrev pub own_queue : Side → OrderBook → List Ref
own_queue buy b = queue b.bids
own_queue sell b = queue b.asks

-- What the fills leave in the queue: an order goes exactly if its fill takes all that it has.
unfoldable pub standing : Store → List (Ref × Quantity) → List Ref → List Ref
standing s [] rs = rs
standing s (f ∷ fs) [] = []
standing s ((x, part) ∷ fs) (r ∷ rs) =
    let rest = standing s fs rs in if ltb part (remaining s r) then r ∷ rs else rest

-- The reference: one pass over the queue in price-time order. Each order gives what it has or what
-- is still wanted, until nothing is wanted or the price is beyond the limit.
unfoldable pub fills : Side → Price → Store → Quantity → List Ref → List (Ref × Quantity)
fills side limit_price s left [] = []
fills side limit_price s left (r ∷ rs) =
    let part = min left (remaining s r) in
    if left == 0 || beyond side (s.cell r).price limit_price
    then []
    else (r, part) ∷ fills side limit_price s (left - part) rs

-- The reference for a market order, which takes any price.
unfoldable pub market_fills : Store → Quantity → List Ref → List (Ref × Quantity)
market_fills s left [] = []
market_fills s left (r ∷ rs) =
    let part = min left (remaining s r) in
    let rest = market_fills s (left - part) rs in if left == 0 then [] else (r, part) ∷ rest

-- What the fills take from an order.
unfoldable pub taken : Ref → List (Ref × Quantity) → Quantity
taken r [] = 0
taken r ((x, part) ∷ fs) = (if x == r then part else 0) + taken r fs

-- What they take in all.
unfoldable pub volume : List (Ref × Quantity) → Quantity
volume [] = 0
volume ((x, part) ∷ fs) = part + volume fs

-- The trade of a fill: at the price of the resting order, with the incoming order on its own side.
abbrev pub trade_of_fill : Side → Ref → Symbol → Timestamp → (Ref → Terms) → Ref × Quantity → Trade
trade_of_fill buy order symbol now t (r, part) = record {
  buy_order_id = (t order).id;
  sell_order_id = (t r).id;
  symbol = symbol;
  price = (t r).price;
  quantity = part;
  timestamp = now;
}
trade_of_fill sell order symbol now t (r, part) = record {
  buy_order_id = (t r).id;
  sell_order_id = (t order).id;
  symbol = symbol;
  price = (t r).price;
  quantity = part;
  timestamp = now;
}

-- The trades of the fills, with the readings of the clock from the `k`-th on.
unfoldable pub trades_from :
    Side → Ref → Symbol → Clock → (Ref → Terms) → ℕ → List (Ref × Quantity) → List Trade
trades_from side order symbol now t k [] = []
trades_from side order symbol now t k (f ∷ fs) =
    trade_of_fill side order symbol (now k) t f ∷ trades_from side order symbol now t (suc k) fs

-- A run whose book is well formed, whose order is in no queue, and whose variable for the remaining
-- quantity agrees with the order.
pub record IsReady {D : Type 0} (order : Ref) (run : Run D) : Type 0 where
  pub book : IsBook (terms run.store) run.store.next run.engine.order_book
  pub apart :
      count order (queue run.engine.order_book.bids)
        + count order (queue run.engine.order_book.asks)
      ≡ 0
  pub own : remaining run.store order ≡ run.left

-- Every bid is below every ask.
abbrev pub IsUncrossed : (Ref → Terms) → OrderBook → Type 0
IsUncrossed t b =
    (x y : Ref)
    → 0 < count x (queue b.bids)
    → 0 < count y (queue b.asks)
    → ltb_ℤ (t x).price (t y).price ≡ true

-- A book with no orders but those of another.
pub record IsWithin (b b' : OrderBook) : Type 0 where
  pub bids : (x : Ref) → count x (queue b'.bids) ≤ count x (queue b.bids)
  pub asks : (x : Ref) → count x (queue b'.asks) ≤ count x (queue b.asks)
