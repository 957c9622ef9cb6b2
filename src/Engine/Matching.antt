-- ===== src/Engine/Matching.antt =====
-- include/engine/matching_engine.hpp: submitOrder and the matching methods. The four loops come in
-- pairs that differ in the side alone, so each is one function of the incoming order's side.
-- The loops take the lookup of the resting order as an argument: `submit_order` passes the engine's
-- own helpers, `submit_with` any other.
-- `none` means that the fuel of a loop ran out, or that the book threw an exception.
use text.Mathlib.Text.{◌==◌ as str_eq}
use high_performance_trading.Base.{
  ℕ, zero, suc, not, Option, none, some, List, [], ◌∷◌, ◌==◌, if◌then◌else◌, ◌>>=◌,
}
use high_performance_trading.Base.Int.{eqb_ℤ}
use high_performance_trading.Core.Double.{Double}
use high_performance_trading.Core.Types.{Price, Side, OrderType, market, limit, stop, stop_limit}
use high_performance_trading.Store.{Ref, Store, remaining}
use high_performance_trading.Book.{OrderBook, add_order}
use high_performance_trading.Book.Views.{DepthLevel}
use high_performance_trading.Engine.{
  Clock, Engine, Run, symbol_mismatch, best_opposite, opposite_depth, placeholder, beyond, start,
  notify_order, warn_if_left, count_market, count_limit, notify_trades, execute,
}

module _ {D : Type 0} where
  -- What `matchLimitOrder` does after matching: the rest of the order goes to the book, and the
  -- answer of the book is ignored.
  unfoldable pub rest_order : Ref → Run D → Option (Run D)
  rest_order order run =
      let e = run.engine in
      if remaining run.store order == 0 then some run else (do
        (b', _) ← add_order run.store order e.order_book
        some (record run { engine = record e { order_book = b' } }))

module _ {D : Type 0} (d : Double D) where
  module _ (lookup : Side → OrderBook → Option Ref) (now : Clock) (side : Side) (order : Ref) where
    -- What a round of `matchLimitBuyOrder` or `matchLimitSellOrder` finds to trade with.
    unfoldable pub limit_target : Price → Run D → Option (Price × Ref)
    limit_target limit_price run = do
      best ← best_opposite side run.engine.order_book
      if beyond side best limit_price
          then none
          else (do resting ← lookup side run.engine.order_book; some (best, resting))

    unfoldable pub limit_loop : ℕ → Price → Run D → Option (Run D)
    limit_loop zero limit_price run = none
    limit_loop (suc fuel) limit_price run =
        if run.left == 0 then some run else elim (limit_target limit_price run) [
          | none ↦ some run
          | some (price, resting) ↦
              limit_loop fuel limit_price (execute d side order resting price now run)
        ]

    -- What a round of `matchMarketBuyOrder` or `matchMarketSellOrder` finds at a level.
    unfoldable pub level_target : Price → Run D → Option (Price × Ref)
    level_target level_price run = do
      best ← best_opposite side run.engine.order_book
      if not (eqb_ℤ best level_price)
          then none
          else (do resting ← lookup side run.engine.order_book; some (level_price, resting))

    unfoldable pub level_loop : ℕ → Price → Run D → Option (Run D)
    level_loop zero level_price run = none
    level_loop (suc fuel) level_price run =
        if run.left == 0 then some run else elim (level_target level_price run) [
          | none ↦ some run
          | some (price, resting) ↦
              level_loop fuel level_price (execute d side order resting price now run)
        ]

    unfoldable pub market_loop : ℕ → List DepthLevel → Run D → Option (Run D)
    market_loop fuel [] run = some run
    market_loop fuel (level ∷ levels) run =
        if run.left == 0
        then some run
        else level_loop fuel level.price run >>= λ run'. market_loop fuel levels run'

    unfoldable pub match_market_order : ℕ → Store → Engine D → Option (Run D)
    match_market_order fuel s e =
        market_loop fuel (opposite_depth side 100 e.order_book) (start order s e) >>= λ run.
        some (count_market (notify_order order (warn_if_left order run)))

    unfoldable pub match_limit_order : ℕ → Store → Engine D → Option (Run D)
    match_limit_order fuel s e = limit_loop fuel (s.cell order).price (start order s e) >>= λ run.
        rest_order order (notify_order order run) >>= λ run'. some (count_limit run')

    unfoldable pub match_order : OrderType → ℕ → Store → Engine D → Option (Run D)
    match_order market fuel s e = match_market_order fuel s e
    match_order limit fuel s e = match_limit_order fuel s e
    match_order stop fuel s e = some (start order s e)
    match_order stop_limit fuel s e = some (start order s e)

  unfoldable pub submit_with :
      (Side → OrderBook → Option Ref) → ℕ → Clock → Ref → Store → Engine D → Option (Run D)
  submit_with lookup fuel now order s e =
      let o = s.cell order in
      if not (str_eq o.symbol e.symbol)
      then some (record (start order s e) { events = symbol_mismatch o.symbol e.symbol ∷ [] })
      else (match_order lookup now o.side order o.order_type fuel s e >>= λ run.
          some (notify_trades run))

  -- The method as it is: with the placeholders no loop gets past its first round.
  unfoldable pub submit_order : Clock → Ref → Store → Engine D → Option (Run D)
  submit_order now order s e = submit_with placeholder 1 now order s e
