-- ===== src/Engine/Fills/Submit.antt =====
-- MatchingEngine::submitOrder for a limit order, with the order book's lookup.
use text.Mathlib.Text.{◌==◌ as str_eq}
use text.Mathlib.TextEquality.{eq_iff}
use high_performance_trading.Base.{
  ℕ, ◌+◌, ◌≡◌, ◌<◌, refl, sym, subst, true, List, some, ◌==◌, count, arith, inl, inr, ◌⊎◌, none,
  false, length,
}
use high_performance_trading.Core.Double.{Double}
use high_performance_trading.Core.Types.{Quantity, Side, limit}
use high_performance_trading.Store.{Ref, Store, Terms, terms, remaining}
use high_performance_trading.Book.Side.{queue}
use high_performance_trading.Book.Invariant.{IsBook}
use high_performance_trading.Engine.{Clock, Engine, Run, start, notify_trades, count_limit}
use high_performance_trading.Engine.Matching.{
  limit_target, match_limit_order, match_order, submit_with,
}
use high_performance_trading.Engine.Fills.{front_order, opposite_queue, fills, IsUncrossed}
use high_performance_trading.Engine.Fills.Uncrossed.{
  AllBeyond, limit_loop-ends, limit_target-AllBeyond,
}
use high_performance_trading.Engine.Fills.Reference.{Matched}
use high_performance_trading.Engine.Fills.Limit.{limit_loop-Matched}
use high_performance_trading.Engine.Fills.Rest.{Submitted, Outcome, rest_order-Outcome, finished}

module _ {D : Type 0} (d : Double D) (now : Clock) (side : Side) (order : Ref) (s : Store)
    (e : Engine D) where
  module _ (exists : order < s.next) (v : IsBook (terms s) s.next e.order_book)
      (apart : count order (queue e.order_book.bids) + count order (queue e.order_book.asks) ≡ 0)
      (own_side : (s.cell order).side ≡ side) where
    -- Where the loop has left something of the order, there is nothing to trade with.
    loop-AllBeyond :
        (fs : List (Ref × Quantity)) (run : Run D)
        → Matched side order now fs (start order s e) run
        → (run.left ≡ 0)
          ⊎ (limit_target d front_order now side order (s.cell order).price run ≡ none)
        → (remaining run.store order == 0) ≡ false
        → AllBeyond
            (terms run.store)
            (run.store.cell order).side
            (run.store.cell order).price
            run.engine.order_book
    loop-AllBeyond fs run m (inl spent) some_left = absurd (ground (arith, m.ready.own, spent))
    loop-AllBeyond fs run m (inr nothing) some_left =
        subst
          (λ (t : Ref → Terms).
            AllBeyond (terms run.store) (t order).side (t order).price run.engine.order_book)
          (sym m.same_terms)
          (subst
            (λ (side' : Side).
              AllBeyond (terms run.store) side' (s.cell order).price run.engine.order_book)
            (sym own_side)
            (limit_target-AllBeyond d now side order (s.cell order).price run m.ready nothing))

    module _ (fuel : ℕ) (enough : length (opposite_queue side e.order_book) < fuel) where
      match_limit_order-Outcome :
          (run : Run D) × (match_limit_order d front_order now side order fuel s e ≡ some run)
          × Outcome side order now
              (fills side
                (s.cell order).price
                s
                (remaining s order)
                (opposite_queue side e.order_book))
              s
              e
              (notify_trades run)
      unfolding match_limit_order
      match_limit_order-Outcome =
          let opposite = opposite_queue side e.order_book in
          let (run, loops, m) =
            limit_loop-Matched d now side order (s.cell order).price fuel (start order s e) opposite
              (record { book = v; apart = apart; own = refl }) refl enough in
          let fs = fills side (s.cell order).price s (remaining s order) opposite in
          let (after, rests, done) = rest_order-Outcome now side order s e fs run exists m (
            loop-AllBeyond fs run m (
              limit_loop-ends d now side order (s.cell order).price fuel (start order s e) run
                loops)) in
          (count_limit after, rw (loops, rests), finished now side order s e fs after done)

module _ {D : Type 0} (d : Double D) (now : Clock) (order : Ref) (s : Store) (e : Engine D)
    (fuel : ℕ) (is_limit : (s.cell order).order_type ≡ limit)
    (mine : (s.cell order).symbol ≡ e.symbol) (exists : order < s.next)
    (v : IsBook (terms s) s.next e.order_book)
    (apart : count order (queue e.order_book.bids) + count order (queue e.order_book.asks) ≡ 0)
    (enough : length (opposite_queue (s.cell order).side e.order_book) < fuel) where
  submit_with-Outcome :
      (after : Run D) × (submit_with d front_order fuel now order s e ≡ some after)
      × Outcome
          (s.cell order).side
          order
          now
          (fills
            (s.cell order).side
            (s.cell order).price
            s
            (remaining s order)
            (opposite_queue (s.cell order).side e.order_book))
          s
          e
          after
  unfolding submit_with match_order
  submit_with-Outcome =
      let (run, matches, done) =
        match_limit_order-Outcome d now (s.cell order).side order s e exists v apart refl fuel
          enough in
      let same : str_eq (s.cell order).symbol e.symbol ≡ true =
        (eq_iff (s.cell order).symbol e.symbol).1 mine in
      (notify_trades run, rw (same, is_limit, matches, match_order), done)

  -- With the order book's own lookup in place of the null placeholders, submitting a limit order
  -- of the engine's symbol that stands in no queue of a well-formed book returns, given fuel
  -- above the length of the opposite queue; its trades and the quantities left in all orders are
  -- those of a one-pass price-time reference over that queue, and the book is well formed after.
  pub submit_limit_matches :
      (after : Run D) × (submit_with d front_order fuel now order s e ≡ some after)
      × Submitted
          (s.cell order).side
          order
          now
          (fills
            (s.cell order).side
            (s.cell order).price
            s
            (remaining s order)
            (opposite_queue (s.cell order).side e.order_book))
          s
          e
          after
  submit_limit_matches =
      let (after, submits, done) = submit_with-Outcome in (after, submits, done.matched)

  -- With the order book's own lookup, if every bid of a well-formed book is below every ask, then
  -- submitting a limit order of the engine's symbol that stands in no queue returns, given fuel
  -- above the length of the opposite queue, and every bid is below every ask after, the rest of
  -- the order included.
  pub submit_limit-IsUncrossed :
      IsUncrossed (terms s) e.order_book
      → (after : Run D) × (submit_with d front_order fuel now order s e ≡ some after)
        × IsUncrossed (terms after.store) after.engine.order_book
  submit_limit-IsUncrossed u =
      let (after, submits, done) = submit_with-Outcome in (after, submits, done.uncrossed u)
