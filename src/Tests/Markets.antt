-- ===== src/Tests/Markets.antt =====
-- A market order, and the queues after a limit order, at a concrete book.
use high_performance_trading.Base.{◌+◌, ◌≡◌, none, refl, [], ◌∷◌, some, count, arith}
use high_performance_trading.Core.Types.{buy}
use high_performance_trading.Core.Order.{Order, make_market_order}
use high_performance_trading.Store.{Store, alloc, terms}
use high_performance_trading.Book.Side.{queue}
use high_performance_trading.Book.Invariant.{IsBook, alloc-IsBook}
use high_performance_trading.Engine.{Run}
use high_performance_trading.Engine.Matching.{submit_with}
use high_performance_trading.Engine.Fills.{front_order, market_fills, fills, standing}
use high_performance_trading.Engine.Fills.Queues.{Queued, submit_limit_queues}
use high_performance_trading.Base.Assoc.{find}
use high_performance_trading.Engine.Fills.Market.Submit.{Taken, submit_market_matches}
use high_performance_trading.Base.Int.{ℤ, pos, ltb_ℤ}
use high_performance_trading.Tests.Data.{ticks, whole, shop, book, book-IsBook, engine}

abbrev hasty : Order
unfolding make_market_order
hasty = make_market_order 9 "AAPL" buy 60 8

abbrev floor : Store
floor = alloc shop hasty

floor-IsBook : IsBook (terms floor) 5 book
floor-IsBook = alloc-IsBook shop hasty book book-IsBook

hasty_apart : count 4 (queue book.bids) + count 4 (queue book.asks) ≡ 0
unfolding queue
hasty_apart = refl

forty_filled : market_fills floor 60 (queue book.asks) ≡ (2, 40) ∷ []
unfolding market_fills queue
forty_filled = refl

submit_market_matches_example :
    (after : Run ℤ) × (submit_with whole front_order 2 ticks 4 floor engine ≡ some after)
    × Taken buy 4 ticks (market_fills floor 60 (queue book.asks)) floor engine after
unfolding queue make_market_order
submit_market_matches_example =
    submit_market_matches whole ticks 4 floor engine 2 refl refl floor-IsBook hasty_apart
      (omega arith) (omega arith)

four_absent : find 4 book.order_map ≡ none
unfolding find
four_absent = refl

four_apart : count 3 (queue book.bids) + count 3 (queue book.asks) ≡ 0
unfolding queue
four_apart = refl

none_stand : standing shop (fills buy (pos 10100) shop 100 (queue book.asks)) (queue book.asks) ≡ []
unfolding standing fills queue ltb_ℤ
none_stand = refl

submit_limit_queues_example :
    (after : Run ℤ) × (submit_with whole front_order 2 ticks 3 shop engine ≡ some after)
    × Queued buy 3 (fills buy (pos 10100) shop 100 (queue book.asks)) shop book after
submit_limit_queues_example =
    submit_limit_queues whole ticks 3 shop engine 2 refl refl refl (omega arith) book-IsBook
      four_apart four_absent (unfold queue in omega arith)
