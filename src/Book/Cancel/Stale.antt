-- ===== src/Book/Cancel/Stale.antt =====
-- OrderBook::cancelOrder and the cached totals: the order is emptied before its level subtracts what
-- it has left.
use high_performance_trading.Base.{◌%◌, ◌≡◌, false, some, [], ◌∷◌, arith}
use high_performance_trading.Base.Word.{word, add64}
use high_performance_trading.Base.Assoc.{find}
use high_performance_trading.Base.SortedMap
use high_performance_trading.Base.SortedMap.{KeyOrder}
use high_performance_trading.Core.Types.{OrderId, Price, Quantity, buy}
use high_performance_trading.Core.Order.{cancel}
use high_performance_trading.Store.{Ref, Store, remaining, modify}
use high_performance_trading.PriceLevel.{PriceLevel, is_empty, find_order, remove_order}
use high_performance_trading.Book.{
  Levels, OrderBook, bid_order, remove_from_side, remove_from_bid_side, drop_order, cancel_order,
}
use high_performance_trading.Book.Views.{total_from, get_total_bid_quantity}

total_from-put :
    (o : KeyOrder Price) (p : Price) (total : Quantity) (level level' : PriceLevel) (m : Levels)
    → SortedMap.find o p m ≡ some level
    → level'.total_quantity ≡ level.total_quantity % word
    → total_from total (SortedMap.put o p level' m) ≡ total_from total m
unfolding SortedMap.find SortedMap.put total_from
total_from-put o p total level level' [] e same = cc
total_from-put o p total level level' ((j, l) ∷ m) e same =
    ground (arith, e, same, total_from-put o p (add64 total l.total_quantity) level level' m)

removed-total :
    (s : Store) (id : OrderId) (level : PriceLevel) (r : Ref)
    → find_order s id level.orders ≡ some r
    → remaining s r ≡ 0
    → (remove_order s id level).0.total_quantity ≡ level.total_quantity % word
unfolding remove_order
removed-total s id level r found spent = rw (found, remove_order) (ground (arith, spent))

-- A removal of an order with nothing left from a level that keeps another order.
remove_from_side-total :
    (o : KeyOrder Price) (s : Store) (id : OrderId) (p : Price) (level : PriceLevel) (r : Ref)
    (m : Levels)
    → SortedMap.find o p m ≡ some level
    → find_order s id level.orders ≡ some r
    → remaining s r ≡ 0
    → is_empty (remove_order s id level).0 ≡ false
    → total_from 0 (remove_from_side o s id p m) ≡ total_from 0 m
unfolding remove_from_side
remove_from_side-total o s id p level r m at found spent others =
    rw (at, others, remove_from_side)
      (total_from-put o p 0 level (remove_order s id level).0 m at
        (removed-total s id level r found spent))

-- A cancel of a buy order whose level keeps another order leaves the total bid quantity as it
-- was, since the order has nothing left when its level subtracts what it has left.
pub cancel_order-total :
    (s : Store) (b : OrderBook) (id : OrderId) (r : Ref) (level : PriceLevel)
    → let s' = modify s r cancel in
      find id b.order_map ≡ some r
      → (s'.cell r).side ≡ buy
      → SortedMap.find bid_order (s'.cell r).price b.bids ≡ some level
      → find_order s' id level.orders ≡ some r
      → is_empty (remove_order s' id level).0 ≡ false
      → get_total_bid_quantity (cancel_order id s b).1 ≡ get_total_bid_quantity b
unfolding cancel_order drop_order remove_from_bid_side get_total_bid_quantity
cancel_order-total s b id r level known side at found others =
    let s' = modify s r cancel in
    let emptied : remaining s' r ≡ 0 = unfold cancel in ground arith in
    rw (known, side, cancel_order, drop_order)
      (remove_from_side-total bid_order s' id (s'.cell r).price level r b.bids at found emptied
        others)
