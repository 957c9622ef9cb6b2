-- ===== src/Engine/Fills/Market/Walk.antt =====
-- The walk of a market order through the levels against the reference.
use high_performance_trading.Base.{
  ℕ, zero, suc, ◌-◌, ◌≡◌, ◌<◌, refl, sym, ap, subst, ◌∙◌, true, false, List, [], ◌∷◌, Option, some,
  ◌==◌, min, arith, Bool-cases, inl, inr, ltb, length, ◌>>=◌,
}
use high_performance_trading.Base.Int.{eqb_ℤ, pos}
use high_performance_trading.Core.Double.{Double}
use high_performance_trading.Core.Types.{Quantity, Side}
use high_performance_trading.Store.{Ref, Terms, terms, remaining}
use high_performance_trading.Book.Views.{DepthLevel}
use high_performance_trading.Engine.{Clock, Run, execute}
use high_performance_trading.Engine.Matching.{market_loop}
use high_performance_trading.Engine.Fills.{opposite_queue, market_fills, IsReady}
use high_performance_trading.Engine.Fills.Reference.{Matched, nothing-Matched, step-Matched}
use high_performance_trading.Engine.Fills.Step.{execute-Stepped}
use high_performance_trading.Engine.Fills.Limit.{behind_same}
use high_performance_trading.Engine.Fills.Covered.{Covers, Covers-tail, Covers-other}
use high_performance_trading.Engine.Fills.Market.{
  at_level, walk, market_fills-frame, market_fills-spent, market_fills-go, walk-spent,
  at_level-spent, at_level-empty, at_level-stops, at_level-goes,
}

module _ {D : Type 0} (d : Double D) (now : Clock) (side : Side) (order : Ref) (F : ℕ) where
  -- A computation that ends with the fills of the reference.
  abbrev Fills : Option (Run D) → Run D → List Ref → Type 0
  Fills result run rs =
      (after : Run D) × (result ≡ some after)
      × Matched side order now (market_fills run.store run.left rs) run after

  spent-Fills :
      (result : Option (Run D)) (run : Run D) (rs : List Ref)
      → IsReady order run
      → (run.left == 0) ≡ true
      → result ≡ some run
      → Fills result run rs
  spent-Fills result run rs ready e ends = (
    run,
    ends,
    rw (market_fills-spent run.store run.left rs e) (nothing-Matched side order now run ready),
  )

  module _ (level : DepthLevel) (levels : List DepthLevel) where
    abbrev then_walk : ℕ → Run D → Option (Run D)
    then_walk fuel run = at_level d now side order fuel level.price run >>= λ run'.
        walk d now side order F levels run'

    then_walk-next :
        (fuel : ℕ) (run : Run D) (rs : List Ref)
        → at_level d now side order fuel level.price run ≡ some run
        → Fills (walk d now side order F levels run) run rs
        → Fills (then_walk fuel run) run rs
    then_walk-next fuel run rs e (after, walks, m) =
        (after, ap (λ o. o >>= λ run'. walk d now side order F levels run') e ∙ walks, m)

    then_walk-spent :
        (fuel : ℕ) (run : Run D) → 0 < fuel → (run.left == 0) ≡ true → then_walk fuel run ≡ some run
    then_walk-spent zero run h e = absurd (omega arith)
    then_walk-spent (suc fuel) run h e =
        ap (λ o. o >>= λ run'. walk d now side order F levels run')
          (at_level-spent d now side order fuel level.price run e)
        ∙ walk-spent d now side order F levels run e

    -- A round that trades, and what follows it.
    round-Fills :
        (fuel : ℕ) (run : Run D) (r : Ref) (rs : List Ref) (ready : IsReady order run)
        (e : opposite_queue side run.engine.order_book ≡ r ∷ rs)
        → (run.left == 0) ≡ false
        → eqb_ℤ (run.store.cell r).price level.price ≡ true
        → (let run1 = execute d side order r (run.store.cell r).price now run in
            Fills (then_walk fuel run1) run1 rs)
        → Fills (then_walk (suc fuel) run) run (r ∷ rs)
    round-Fills fuel run r rs ready e go same (after, walks, m) =
        let run1 = execute d side order r (run.store.cell r).price now run in
        let st = execute-Stepped d now side order (run.store.cell r).price run ready r rs e in
        let part = min run.left (remaining run.store r) in
        let last : ltb run.left (remaining run.store r) ≡ true
            → market_fills run.store (run.left - part) rs ≡ [] =
          λ less. market_fills-spent run.store (run.left - part) rs (ground (arith, less)) in
        (
          after,
          ap (λ o. o >>= λ run'. walk d now side order F levels run')
                (at_level-goes d now side order fuel level.price run ready r rs e go same)
              ∙ walks,
          rw (market_fills-go run.store run.left r rs go) (
              step-Matched side order now r rs _ run run1 after e st
                (behind_same d now side order (pos 0) run run1 r rs ready e st) last
                (subst (λ (fs : List (Ref × Quantity)). Matched side order now fs run1 after)
                  (market_fills-frame run.store run1.store run1.left rs
                      (behind_same d now side order (pos 0) run run1 r rs ready e st)
                    ∙ ap (λ (left : Quantity). market_fills run.store left rs) st.left)
                  m)),
        )

    module _
        (next : (run : Run D) (rs : List Ref)
          → IsReady order run
          → opposite_queue side run.engine.order_book ≡ rs
          → Covers (terms run.store) levels rs
          → length rs < F
          → Fills (walk d now side order F levels run) run rs) where
      then_walk-Fills :
          (fuel : ℕ) (run : Run D) (rs : List Ref)
          → IsReady order run
          → opposite_queue side run.engine.order_book ≡ rs
          → Covers (terms run.store) (level ∷ levels) rs
          → length rs < fuel
          → length rs < F
          → Fills (then_walk fuel run) run rs
      then_walk-Fills zero run rs ready e c h k = absurd (omega arith)
      then_walk-Fills (suc fuel) run [] ready e c h k =
          then_walk-next (suc fuel) run []
            (at_level-empty d now side order fuel level.price run ready e) (next run [] ready e c k)
      then_walk-Fills (suc fuel) run (r ∷ rs) ready e c h k =
          let run1 = execute d side order r (run.store.cell r).price now run in
          let st = execute-Stepped d now side order (run.store.cell r).price run ready r rs e in
          let again = then_walk-Fills fuel run1 rs st.ready in
          elim (Bool-cases (run.left == 0)) [
            | inl spent ↦
                then_walk-next (suc fuel) run (r ∷ rs)
                  (at_level-spent d now side order fuel level.price run spent)
                  (spent-Fills _ run (r ∷ rs) ready spent
                    (walk-spent d now side order F levels run spent))
            | inr go ↦ elim (Bool-cases (eqb_ℤ (run.store.cell r).price level.price)) [
              | inl same ↦
                  round-Fills fuel run r rs ready e go same
                    (elim (Bool-cases (ltb run.left (remaining run.store r))) [
                      | inl less ↦
                          let spent : (run1.left == 0) ≡ true = ground (arith, st.left, less) in
                          spent-Fills _ run1 rs st.ready spent
                            (then_walk-spent fuel run1 (omega (arith, h)) spent)
                      | inr enough ↦
                          again (st.opposite ∙ rw enough)
                            (subst (λ (t : Ref → Terms). Covers t (level ∷ levels) rs)
                              (sym st.same_terms)
                              (Covers-tail (terms run.store) (level ∷ levels) r rs c))
                            (omega (arith, h)) (omega (arith, k))
                    ])
              | inr other ↦
                  then_walk-next (suc fuel) run (r ∷ rs)
                    (at_level-stops d now side order fuel level.price run ready r rs e other)
                    (next run (r ∷ rs) ready e
                      (Covers-other (terms run.store) level levels r rs other c) k)
            ]
          ]

  pub walk-Fills :
      (levels : List DepthLevel) (run : Run D) (rs : List Ref)
      → IsReady order run
      → opposite_queue side run.engine.order_book ≡ rs
      → Covers (terms run.store) levels rs
      → length rs < F
      → Fills (walk d now side order F levels run) run rs
  unfolding market_loop market_fills
  walk-Fills [] run rs ready e c h = (run, refl, rw c (nothing-Matched side order now run ready))
  walk-Fills (level ∷ levels) run rs ready e c h = elim (Bool-cases (run.left == 0)) [
    | inl spent ↦
        spent-Fills _ run rs ready spent (walk-spent d now side order F (level ∷ levels) run spent)
    | inr go ↦ rw go (then_walk-Fills level levels (walk-Fills levels) F run rs ready e c h h)
  ]
