-- ===== src/Engine/Fills/Market/Submit.antt =====
-- MatchingEngine::submitOrder for a market order, with the order book's lookup.
use text.Mathlib.Text.{◌==◌ as str_eq}
use text.Mathlib.TextEquality.{eq_iff}
use high_performance_trading.Base.{
  ℕ, ◌+◌, ◌≡◌, ◌<◌, ◌≤◌, refl, sym, ap, ◌∙◌, subst, true, some, count, arith, length, List,
}
use high_performance_trading.Core.Double.{Double}
use high_performance_trading.Core.Types.{Quantity, Side, market}
use high_performance_trading.Store.{Ref, Store, terms, remaining}
use high_performance_trading.Book.Side.{queue}
use high_performance_trading.Book.Invariant.{IsBook}
use high_performance_trading.Engine.{
  Clock, Engine, Run, start, notify_order, notify_trades, warn_if_left, count_market,
  opposite_depth,
}
use high_performance_trading.Engine.Matching.{match_market_order, match_order, submit_with}
use high_performance_trading.Engine.Fills.{
  front_order, opposite_queue, own_queue, standing, market_fills, IsUncrossed,
}
use high_performance_trading.Engine.Fills.Reference.{Matched}
use high_performance_trading.Engine.Fills.Rest.{Outcome, submitted}
use high_performance_trading.Engine.Fills.Covered.{opposite_levels, opposite_depth-Covers}
use high_performance_trading.Engine.Fills.Market.Walk.{walk-Fills}

-- What a market order leaves behind: the trades of the reference, the queues less the orders that are
-- used up, and an uncrossed book uncrossed.
pub record Taken {D : Type 0} (side : Side) (order : Ref) (now : Clock) (fs : List (Ref × Quantity))
    (s : Store) (e : Engine D) (after : Run D) : Type 0 where
  pub outcome : Outcome side order now fs s e after
  pub opposite :
      opposite_queue side after.engine.order_book ≡ standing s fs (opposite_queue side e.order_book)
  pub own : own_queue side after.engine.order_book ≡ own_queue side e.order_book

module _ {D : Type 0} (d : Double D) (now : Clock) (side : Side) (order : Ref) (s : Store)
    (e : Engine D) where
  abbrev ended : Run D → Run D
  ended run = notify_trades (count_market (notify_order order (warn_if_left order run)))

  -- What follows the loops touches neither the orders nor the trades nor the book.
  ended_same :
      (run : Run D)
      → ((ended run).store ≡ run.store)
        × ((ended run).trades ≡ run.trades)
        × ((ended run).engine.order_book ≡ run.engine.order_book)
  unfolding count_market
  ended_same run = ground arith

  ended-Taken :
      (fs : List (Ref × Quantity)) (run : Run D)
      → Matched side order now fs (start order s e) run
      → Taken side order now fs s e (ended run)
  ended-Taken fs run m =
      let (store, trades, book) = ended_same run in
      record {
        outcome =
            submitted now side order s e fs run (ended run) m
              (subst (IsBook (terms run.store) run.store.next) (sym book) m.ready.book) store trades
              (subst (IsUncrossed (terms run.store)) (sym book));
        opposite = ap (opposite_queue side) book ∙ m.opposite;
        own = ap (own_queue side) book ∙ m.own;
      }

module _ {D : Type 0} (d : Double D) (now : Clock) (order : Ref) (s : Store) (e : Engine D)
    (fuel : ℕ) (is_market : (s.cell order).order_type ≡ market)
    (mine : (s.cell order).symbol ≡ e.symbol) (v : IsBook (terms s) s.next e.order_book)
    (apart : count order (queue e.order_book.bids) + count order (queue e.order_book.asks) ≡ 0)
    (shallow : length (opposite_levels (s.cell order).side e.order_book) ≤ 100)
    (enough : length (opposite_queue (s.cell order).side e.order_book) < fuel) where
  -- With the order book's own lookup, submitting a market order of the engine's symbol that
  -- stands in no queue of a well-formed book, whose opposite side has at most 100 levels,
  -- returns, given fuel above the length of the opposite queue; its trades and the quantities
  -- left in all orders are those of a one-pass reference over that queue at any price, the orders
  -- that are used up leave the front of that queue, the other queue stays, the book is well
  -- formed, and if every bid was below every ask, so it is after.
  pub submit_market_matches :
      (after : Run D) × (submit_with d front_order fuel now order s e ≡ some after)
      × Taken
          (s.cell order).side
          order
          now
          (market_fills s (remaining s order) (opposite_queue (s.cell order).side e.order_book))
          s
          e
          after
  unfolding submit_with match_order match_market_order
  submit_market_matches =
      let side = (s.cell order).side in
      let opposite = opposite_queue side e.order_book in
      let (run, walks, m) =
        walk-Fills d now side order fuel (opposite_depth side 100 e.order_book) (start order s e)
          opposite (record { book = v; apart = apart; own = refl }) refl
          (opposite_depth-Covers side (terms s) s.next 100 e.order_book v shallow) enough in
      let same : str_eq (s.cell order).symbol e.symbol ≡ true =
        (eq_iff (s.cell order).symbol e.symbol).1 mine in
      (
        ended d now side order s e run,
        rw (same, is_market, walks, match_order),
        ended-Taken d now side order s e _ run m,
      )
