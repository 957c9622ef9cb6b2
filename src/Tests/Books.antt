-- ===== src/Tests/Books.antt =====
-- The order book and the engine at concrete inputs.
use high_performance_trading.Base.{
  ◌≡◌, refl, ◌↔◌, ◌⊎◌, ◌≢◌, ◌+◌, true, false, arith, [], ◌∷◌, some, none, All, head?, count,
}
use high_performance_trading.Base.Int.{pos, ltb_ℤ, ◌≤ℤ◌, ℤ}
use high_performance_trading.Base.Assoc.{find}
use high_performance_trading.Core.Types.{buy}
use high_performance_trading.Core.Order.{cancel}
use high_performance_trading.Store.{Ref, terms, modify}
use high_performance_trading.Base.SortedMap
use high_performance_trading.PriceLevel.{is_empty, remove_order, find_order, erase_order}
use high_performance_trading.Book.{bid_order, OrderBook, add_order, cancel_order, modify_order}
use high_performance_trading.Book.Side.{queue}
use high_performance_trading.Book.Invariant.{IsBook}
use high_performance_trading.Book.Views.{
  get_total_bid_quantity, get_best_bid, get_best_ask, first_price,
}
use high_performance_trading.Book.Views.Best.{get_best_bid_max}
use high_performance_trading.Book.Add.{Takes, add_order-Takes, add_order_refuses}
use high_performance_trading.Book.Cancel.{Loses, cancel_order_lem}
use high_performance_trading.Book.Cancel.Stale.{cancel_order-total}
use high_performance_trading.Book.Cancel.Replace.{replaced, Replaces, modify_order_lem}
use high_performance_trading.Engine.{Run}
use high_performance_trading.Engine.Matching.{submit_with, submit_order}
use high_performance_trading.Engine.AsWritten.{IsIdle, submit_order_never_trades}
use high_performance_trading.Engine.Fills.{front_order, fills, IsUncrossed}
use high_performance_trading.Engine.Fills.Rest.{Submitted}
use high_performance_trading.Engine.Fills.Submit.{submit_limit_matches, submit_limit-IsUncrossed}
use high_performance_trading.Tests.Data.{ticks, whole, shop, book, book-IsBook, engine}

-- The new order's ID is not in the book.
four_absent : find 4 book.order_map ≡ none
unfolding find
four_absent = refl

two_found : find 2 book.order_map ≡ some 1
unfolding find
two_found = refl

best_bid : get_best_bid book ≡ some (pos 10000)
unfolding get_best_bid first_price
best_bid = refl

best_ask : get_best_ask book ≡ some (pos 10100)
unfolding get_best_ask first_price
best_ask = refl

add_order-Takes_example :
    (b' : OrderBook) × (add_order shop 3 book ≡ some (b', true)) × Takes shop 3 book b'
add_order-Takes_example = add_order-Takes shop 3 book (omega arith) book-IsBook refl four_absent

-- The second order is in the book already.
add_order_refuses_example :
    (((shop.cell 1).symbol ≢ "AAPL") ⊎ ((q : Ref) × (find 2 book.order_map ≡ some q)))
    ↔ (add_order shop 1 book ≡ some (book, false))
add_order_refuses_example = add_order_refuses shop 1 book (omega arith) book-IsBook

cancel_order_lem_example :
    (b' : OrderBook) × (cancel_order 2 shop book ≡ (modify shop 1 cancel, b', true))
    × Loses (terms shop) 4 2 1 book b'
cancel_order_lem_example = cancel_order_lem shop book 2 book-IsBook 1 two_found

modify_order_lem_example :
    (b' : OrderBook) × (modify_order 2 (pos 9900) 60 8 shop book
      ≡ some (replaced shop book 2 (pos 9900) 60 8 1, b', true))
    × Replaces shop book 2 (pos 9900) 60 8 1 b'
modify_order_lem_example = modify_order_lem shop book 2 (pos 9900) 60 8 1 book-IsBook two_found

get_best_bid_max_example :
    (r : Ref) × (head? (queue book.bids) ≡ some r)
    × ((terms shop r).price ≡ pos 10000)
    × All (λ x. (terms shop x).price ≤ℤ pos 10000) (queue book.bids)
get_best_bid_max_example = get_best_bid_max (terms shop) 4 book book-IsBook (pos 10000) best_bid

-- The new order bids 10100 for 100, and the only ask is 10100 for 40.
submit_order_never_trades_example :
    (run : Run ℤ) × (submit_order whole ticks 3 shop engine ≡ some run)
    × IsIdle shop engine run
    × IsBook (terms shop) 4 run.engine.order_book
submit_order_never_trades_example =
    submit_order_never_trades whole ticks 3 shop engine (omega arith) book-IsBook

apart : count 3 (queue book.bids) + count 3 (queue book.asks) ≡ 0
unfolding queue
apart = refl

three_fills : fills buy (pos 10100) shop 100 (queue book.asks) ≡ (2, 40) ∷ []
unfolding fills queue ltb_ℤ
three_fills = refl

submit_limit_matches_example :
    (after : Run ℤ) × (submit_with whole front_order 2 ticks 3 shop engine ≡ some after)
    × Submitted buy 3 ticks (fills buy (pos 10100) shop 100 (queue book.asks)) shop engine after
submit_limit_matches_example =
    submit_limit_matches whole ticks 3 shop engine 2 refl refl (omega arith) book-IsBook apart
      (unfold queue in omega arith)

-- The best bid was below the best ask.
uncrossed : IsUncrossed (terms shop) book
unfolding queue ltb_ℤ
uncrossed x y hx hy = ground arith

submit_limit-IsUncrossed_example :
    (after : Run ℤ) × (submit_with whole front_order 2 ticks 3 shop engine ≡ some after)
    × IsUncrossed (terms after.store) after.engine.order_book
submit_limit-IsUncrossed_example =
    submit_limit-IsUncrossed whole ticks 3 shop engine 2 refl refl (omega arith) book-IsBook apart
      (unfold queue in omega arith) uncrossed

-- A cancelled order of 30 leaves 50 in the queue, and the total of the bids is 80 as before.
second_level :
    SortedMap.find bid_order (pos 10000) book.bids
    ≡ some (record { price = pos 10000; total_quantity = 80; orders = 0 ∷ 1 ∷ [] })
unfolding SortedMap.find bid_order ltb_ℤ
second_level = refl

second_in_level : find_order (modify shop 1 cancel) 2 (0 ∷ 1 ∷ []) ≡ some 1
unfolding find_order cancel
second_in_level = refl

first_stays :
    is_empty
      (remove_order
        (modify shop 1 cancel)
        2
        (record { price = pos 10000; total_quantity = 80; orders = 0 ∷ 1 ∷ [] })).0
    ≡ false
unfolding remove_order find_order erase_order cancel
first_stays = refl

cancel_order-total_example :
    get_total_bid_quantity (cancel_order 2 shop book).1 ≡ get_total_bid_quantity book
cancel_order-total_example =
    cancel_order-total shop book 2 1
      (record { price = pos 10000; total_quantity = 80; orders = 0 ∷ 1 ∷ [] }) two_found
      (unfold cancel in refl) (unfold cancel in second_level) second_in_level first_stays
