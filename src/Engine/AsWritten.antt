-- ===== src/Engine/AsWritten.antt =====
-- MatchingEngine::submitOrder as it stands, with `getBestBidOrder` and `getBestAskOrder` that
-- return null: nothing is ever matched.
use text.Mathlib.Text.{◌==◌ as str_eq}
use high_performance_trading.Base.{
  ◌<◌, ◌≡◌, refl, sym, subst, inl, inr, Bool, true, false, none, some, List, [], ◌∷◌, ◌==◌,
  Bool-cases, arith,
}
use high_performance_trading.Core.Double.{Double}
use high_performance_trading.Core.Types.{Price, Side, OrderType, market, limit, stop, stop_limit}
use high_performance_trading.Store.{Ref, Store, remaining, terms}
use high_performance_trading.Book.{OrderBook, add_order}
use high_performance_trading.Book.Views.{DepthLevel}
use high_performance_trading.Book.Invariant.{IsBook}
use high_performance_trading.Book.Add.{add_order_total}
use high_performance_trading.Engine.{
  Clock, Engine, Run, symbol_mismatch, placeholder, opposite_depth, start, notify_trades,
  count_market, count_limit, notify_order, warn_if_left,
}
use high_performance_trading.Engine.Matching.{
  limit_target, limit_loop, level_target, level_loop, market_loop, match_market_order,
  match_limit_order, rest_order, match_order, submit_with, submit_order,
}

placeholder-none : (side : Side) (b : OrderBook) → placeholder side b ≡ none
unfolding placeholder
placeholder-none side b = ground arith

module _ {D : Type 0} (d : Double D) (now : Clock) (side : Side) (order : Ref) where
  limit_target-none :
      (price : Price) (run : Run D) → limit_target d placeholder now side order price run ≡ none
  unfolding limit_target
  limit_target-none price run = ground (arith, placeholder-none side run.engine.order_book)

  level_target-none :
      (price : Price) (run : Run D) → level_target d placeholder now side order price run ≡ none
  unfolding level_target
  level_target-none price run = ground (arith, placeholder-none side run.engine.order_book)

  limit_loop-stops :
      (price : Price) (run : Run D) → limit_loop d placeholder now side order 1 price run ≡ some run
  unfolding limit_loop
  limit_loop-stops price run = ground (arith, limit_target-none price run)

  level_loop-stops :
      (price : Price) (run : Run D) → level_loop d placeholder now side order 1 price run ≡ some run
  unfolding level_loop
  level_loop-stops price run = ground (arith, level_target-none price run)

  market_loop-stops :
      (levels : List DepthLevel) (run : Run D)
      → market_loop d placeholder now side order 1 levels run ≡ some run
  unfolding market_loop
  market_loop-stops [] run = refl
  market_loop-stops (level ∷ levels) run =
      ground (arith, level_loop-stops level.price run, market_loop-stops levels run)

-- A run that has traded nothing and changed no order.
pub record IsIdle {D : Type 0} (s : Store) (e : Engine D) (run : Run D) : Type 0 where
  pub trades : run.trades ≡ []
  pub store : run.store ≡ s
  pub count : run.engine.stats.total_trades ≡ e.stats.total_trades
  pub volume : run.engine.stats.total_volume ≡ e.stats.total_volume
  pub value : run.engine.stats.total_value ≡ e.stats.total_value

notify_trades_keeps :
    {D : Type 0} (run : Run D)
    → ((notify_trades run).engine ≡ run.engine)
      × ((notify_trades run).store ≡ run.store)
      × ((notify_trades run).trades ≡ run.trades)
notify_trades_keeps run = ground arith

notify_trades-IsIdle :
    {D : Type 0} (s : Store) (e : Engine D) (run : Run D)
    → IsIdle s e run
    → IsIdle s e (notify_trades run)
notify_trades-IsIdle s e run idle = ground (arith, notify_trades_keeps run)

module _ {D : Type 0} (d : Double D) (now : Clock) (order : Ref) (s : Store) (e : Engine D) where
  -- A run that was refused for its symbol.
  abbrev refused : Run D
  refused = record (start order s e) {
    events = symbol_mismatch (s.cell order).symbol e.symbol ∷ [];
  }

  -- The variables of a matching method that found nothing, at its end.
  abbrev after_market : Run D
  after_market = count_market (notify_order order (warn_if_left order (start order s e)))

  after_market-IsIdle : IsIdle s e after_market × (after_market.engine.order_book ≡ e.order_book)
  unfolding count_market
  after_market-IsIdle = ground arith

  match_market_order-idle :
      (side : Side) → match_market_order d placeholder now side order 1 s e ≡ some after_market
  unfolding match_market_order
  match_market_order-idle side =
      rw (
        market_loop-stops d now side order (opposite_depth side 100 e.order_book) (start order s e))

  -- The same after the order went to a book.
  abbrev after_limit : OrderBook → Run D
  after_limit b' =
      count_limit
        (record (notify_order order (start order s e)) { engine = record e { order_book = b' } })

  after_limit-IsIdle :
      (b' : OrderBook) → IsIdle s e (after_limit b') × ((after_limit b').engine.order_book ≡ b')
  unfolding count_limit
  after_limit-IsIdle b' = ground arith

  match_limit_order-rests :
      (side : Side) (b' : OrderBook) (done : Bool)
      → (remaining s order == 0) ≡ false
      → add_order s order e.order_book ≡ some (b', done)
      → match_limit_order d placeholder now side order 1 s e ≡ some (after_limit b')
  unfolding match_limit_order rest_order
  match_limit_order-rests side b' done some_left added =
      rw
        (limit_loop-stops d now side order (s.cell order).price (start order s e), some_left, added)

  match_limit_order-spent :
      (side : Side)
      → (remaining s order == 0) ≡ true
      → match_limit_order d placeholder now side order 1 s e ≡ some (after_limit e.order_book)
  unfolding match_limit_order rest_order
  match_limit_order-spent side spent =
      rw (limit_loop-stops d now side order (s.cell order).price (start order s e), spent)

  module _ (exists : order < s.next) (v : IsBook (terms s) s.next e.order_book) where
    match_order-IsIdle :
        (side : Side) (type : OrderType)
        → (run : Run D) × (match_order d placeholder now side order type 1 s e ≡ some run)
          × IsIdle s e run
          × IsBook (terms s) s.next run.engine.order_book
    unfolding match_order
    match_order-IsIdle side market =
        let (idle, book) = after_market-IsIdle in
        (after_market, match_market_order-idle side, idle, rw book v)
    match_order-IsIdle side limit = elim (Bool-cases (remaining s order == 0)) [
      | inl spent ↦
          let (idle, book) = after_limit-IsIdle e.order_book in
          (after_limit e.order_book, match_limit_order-spent side spent, idle, rw book v)
      | inr some_left ↦
          let (b', done, added, valid, _, _) = add_order_total s order e.order_book exists v in
          let (idle, book) = after_limit-IsIdle b' in
          (
            after_limit b',
            match_limit_order-rests side b' done some_left added,
            idle,
            rw book valid,
          )
    ]
    match_order-IsIdle side stop = (
      start order s e,
      refl,
      record { trades = refl; store = refl; count = refl; volume = refl; value = refl },
      v,
    )
    match_order-IsIdle side stop_limit = (
      start order s e,
      refl,
      record { trades = refl; store = refl; count = refl; volume = refl; value = refl },
      v,
    )

    -- The engine as it stands returns no trade, changes no order and no trade statistic, keeps
    -- the book well formed and always returns, for every order that exists and every well-formed
    -- book.
    pub submit_order_never_trades :
        (run : Run D) × (submit_order d now order s e ≡ some run)
        × IsIdle s e run
        × IsBook (terms s) s.next run.engine.order_book
    unfolding submit_order submit_with
    submit_order_never_trades = elim (Bool-cases (str_eq (s.cell order).symbol e.symbol)) [
      | inr foreign ↦ (
        refused,
        rw foreign,
        record { trades = refl; store = refl; count = refl; volume = refl; value = refl },
        v,
      )
      | inl mine ↦
          let (run, matched, idle, valid) =
            match_order-IsIdle (s.cell order).side (s.cell order).order_type in
          (
            notify_trades run,
            rw (mine, matched),
            notify_trades-IsIdle s e run idle,
            subst (λ (f : Engine D). IsBook (terms s) s.next f.order_book)
                (sym (notify_trades_keeps run).0) valid,
          )
    ]
