-- ===== src/Engine/Fills/Market.antt =====
-- The loops of `matchMarketBuyOrder` and `matchMarketSellOrder`, round by round.
pub mod Walk
pub mod Submit
use high_performance_trading.Base.{
  ℕ, zero, suc, ◌-◌, ◌≡◌, ◌<◌, ◌≤◌, refl, sym, ap, subst, ◌∙◌, true, false, List, [], ◌∷◌, Option,
  some, none, ◌==◌, min, arith, Bool-cases, inl, inr, ltb, All, length, ◌>>=◌, if◌then◌else◌, not,
}
use high_performance_trading.Base.Int.{eqb_ℤ, eqb_ℤ→eq}
use high_performance_trading.Core.Double.{Double}
use high_performance_trading.Core.Types.{Price, Quantity, Side, Timestamp}
use high_performance_trading.Store.{Ref, Store, Terms, terms, remaining}
use high_performance_trading.Book.Views.{DepthLevel}
use high_performance_trading.Engine.{Clock, Run, execute}
use high_performance_trading.Engine.Matching.{level_target, level_loop, market_loop}
use high_performance_trading.Engine.Fills.{front_order, opposite_queue, market_fills, IsReady}
use high_performance_trading.Engine.Fills.Reference.{best_opposite-price, front_order-head?}

pub market_fills-frame :
    (s s' : Store) (left : Quantity) (rs : List Ref)
    → All (λ x. s'.cell x ≡ s.cell x) rs
    → market_fills s' left rs ≡ market_fills s left rs
unfolding market_fills
market_fills-frame s s' left [] h = refl
market_fills-frame s s' left (r ∷ rs) h =
    ground (arith, h.0, market_fills-frame s s' (left - min left (remaining s r)) rs h.1)

pub market_fills-spent :
    (s : Store) (left : Quantity) (rs : List Ref) → (left == 0) ≡ true → market_fills s left rs ≡ []
unfolding market_fills
market_fills-spent s left [] e = refl
market_fills-spent s left (r ∷ rs) e = rw e

pub market_fills-go :
    (s : Store) (left : Quantity) (r : Ref) (rs : List Ref)
    → (left == 0) ≡ false
    → market_fills s left (r ∷ rs)
      ≡ (r, min left (remaining s r)) ∷ market_fills s (left - min left (remaining s r)) rs
unfolding market_fills
market_fills-go s left r rs e = rw e

module _ {D : Type 0} (d : Double D) (now : Clock) (side : Side) (order : Ref) where
  abbrev pub at_level : ℕ → Price → Run D → Option (Run D)
  at_level fuel p run = level_loop d front_order now side order fuel p run

  abbrev pub walk : ℕ → List DepthLevel → Run D → Option (Run D)
  walk fuel levels run = market_loop d front_order now side order fuel levels run

  pub walk-spent :
      (fuel : ℕ) (levels : List DepthLevel) (run : Run D)
      → (run.left == 0) ≡ true
      → walk fuel levels run ≡ some run
  unfolding market_loop
  walk-spent fuel [] run e = refl
  walk-spent fuel (level ∷ levels) run e = rw e

  pub at_level-spent :
      (fuel : ℕ) (p : Price) (run : Run D)
      → (run.left == 0) ≡ true
      → at_level (suc fuel) p run ≡ some run
  unfolding level_loop
  at_level-spent fuel p run e = rw e

  -- What a round finds, in terms of the front of the queue.
  level_target-front :
      (p : Price) (run : Run D) (rs : List Ref)
      → IsReady order run
      → opposite_queue side run.engine.order_book ≡ rs
      → level_target d front_order now side order p run ≡ elim rs [
        | [] ↦ none
        | r ∷ _ ↦ if not (eqb_ℤ (run.store.cell r).price p) then none else some (p, r)
      ]
  unfolding level_target
  level_target-front p run [] ready e =
      let b = run.engine.order_book in
      rw (best_opposite-price side (terms run.store) run.store.next b ready.book, e)
  level_target-front p run (r ∷ rs) ready e =
      let b = run.engine.order_book in
      rw (
        best_opposite-price side (terms run.store) run.store.next b ready.book,
        front_order-head? side (terms run.store) run.store.next b ready.book,
        e,
      )

  module _ (fuel : ℕ) (p : Price) (run : Run D) (ready : IsReady order run) where
    pub at_level-empty :
        opposite_queue side run.engine.order_book ≡ [] → at_level (suc fuel) p run ≡ some run
    unfolding level_loop
    at_level-empty e = ground (arith, level_target-front p run [] ready e)

    module _ (r : Ref) (rs : List Ref)
        (e : opposite_queue side run.engine.order_book ≡ r ∷ rs) where
      pub at_level-stops :
          eqb_ℤ (run.store.cell r).price p ≡ false → at_level (suc fuel) p run ≡ some run
      unfolding level_loop
      at_level-stops other = ground (arith, other, level_target-front p run (r ∷ rs) ready e)

      pub at_level-goes :
          (run.left == 0) ≡ false
          → eqb_ℤ (run.store.cell r).price p ≡ true
          → at_level (suc fuel) p run
            ≡ at_level fuel p (execute d side order r (run.store.cell r).price now run)
      unfolding level_loop
      at_level-goes go same = rw (
        go,
        level_target-front p run (r ∷ rs) ready e,
        same,
        eqb_ℤ→eq (run.store.cell r).price p same,
      )
