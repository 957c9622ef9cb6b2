-- ===== src/Engine/Fills/Limit.antt =====
-- The loops of `matchLimitBuyOrder` and `matchLimitSellOrder`.
use high_performance_trading.Base.{
  ℕ, zero, suc, ◌-◌, ◌≡◌, ◌<◌, ◌≤◌, ap, subst, ◌∙◌, true, false, List, [], ◌∷◌, Option, some, none,
  ◌==◌, if◌then◌else◌, min, count, arith, Bool-cases, inl, inr, ltb, All, All-count, length, ◌||◌,
}
use high_performance_trading.Core.Double.{Double}
use high_performance_trading.Core.Types.{Price, Quantity, Side}
use high_performance_trading.Store.{Ref, terms, remaining}
use high_performance_trading.Engine.{Clock, Run, beyond, execute}
use high_performance_trading.Engine.Matching.{limit_target, limit_loop}
use high_performance_trading.Engine.Fills.{front_order, opposite_queue, fills, IsReady}
use high_performance_trading.Engine.Fills.Reference.{
  fills-frame, fills-zero, fills-nil, fills-stop, fills-go, Matched, nothing-Matched, step-Matched,
  best_opposite-price, front_order-head?, opposite_once, opposite_apart, ne_front, ne_absent,
}
use high_performance_trading.Engine.Fills.Step.{Stepped, execute-Stepped}

module _ {D : Type 0} (d : Double D) (now : Clock) (side : Side) (order : Ref) (p : Price) where
  abbrev loop : ℕ → Run D → Option (Run D)
  loop fuel run = limit_loop d front_order now side order fuel p run

  limit_loop-spent : (fuel : ℕ) (run : Run D) → run.left ≡ 0 → loop (suc fuel) run ≡ some run
  unfolding limit_loop
  limit_loop-spent fuel run e = ground arith

  limit_loop-stops :
      (fuel : ℕ) (run : Run D)
      → limit_target d front_order now side order p run ≡ none
      → loop (suc fuel) run ≡ some run
  unfolding limit_loop
  limit_loop-stops fuel run e = ground arith

  limit_loop-goes :
      (fuel : ℕ) (run : Run D) (r : Ref)
      → (run.left == 0) ≡ false
      → limit_target d front_order now side order p run ≡ some ((run.store.cell r).price, r)
      → loop (suc fuel) run ≡ loop fuel (execute d side order r (run.store.cell r).price now run)
  unfolding limit_loop
  limit_loop-goes fuel run r e f = rw (e, f)

  -- What a round finds, in terms of the front of the queue.
  limit_target-front :
      (run : Run D) (rs : List Ref)
      → IsReady order run
      → opposite_queue side run.engine.order_book ≡ rs
      → limit_target d front_order now side order p run ≡ elim rs [
        | [] ↦ none
        | r ∷ _ ↦
            if beyond side (run.store.cell r).price p
            then none
            else some ((run.store.cell r).price, r)
      ]
  unfolding limit_target
  limit_target-front run [] ready e =
      let b = run.engine.order_book in
      rw (best_opposite-price side (terms run.store) run.store.next b ready.book, e)
  limit_target-front run (r ∷ rs) ready e =
      let b = run.engine.order_book in
      rw (
        best_opposite-price side (terms run.store) run.store.next b ready.book,
        front_order-head? side (terms run.store) run.store.next b ready.book,
        e,
      )

  -- The orders behind the front are as they were after the round.
  pub behind_same :
      (run after : Run D) (r : Ref) (rs : List Ref)
      → IsReady order run
      → opposite_queue side run.engine.order_book ≡ r ∷ rs
      → Stepped now side order (run.store.cell r).price r rs run after
      → All (λ x. after.store.cell x ≡ run.store.cell x) rs
  behind_same run after r rs ready e st =
      let b = run.engine.order_book in
      All-count rs λ x h.
        st.others x
          (ne_front x r rs h (
            subst (λ (xs : List Ref). count x xs ≤ 1) e
              (opposite_once side (terms run.store) run.store.next b x ready.book)))
          (ne_absent x order r rs h (
            subst (λ (xs : List Ref). count order xs ≡ 0) e
              (opposite_apart side b order ready.apart)))

  module _ (fuel : ℕ) (run : Run D) (r : Ref) (rs : List Ref) (ready : IsReady order run)
      (e : opposite_queue side run.engine.order_book ≡ r ∷ rs) where
    loop-stop :
        (run.left == 0 || beyond side (run.store.cell r).price p) ≡ true
        → loop (suc fuel) run ≡ some run
    unfolding limit_loop
    loop-stop stop = ground (arith, stop, limit_target-front run (r ∷ rs) ready e)

    loop-go :
        (run.left == 0 || beyond side (run.store.cell r).price p) ≡ false
        → loop (suc fuel) run ≡ loop fuel (execute d side order r (run.store.cell r).price now run)
    unfolding limit_loop
    loop-go go = ground (arith, go, limit_target-front run (r ∷ rs) ready e)

  -- A round that exhausts the incoming order is the last.
  last_round :
      (fuel : ℕ) (run run1 : Run D) (r : Ref) (rs : List Ref)
      → IsReady order run
      → opposite_queue side run.engine.order_book ≡ r ∷ rs
      → Stepped now side order (run.store.cell r).price r rs run run1
      → 0 < fuel
      → ltb run.left (remaining run.store r) ≡ true
      → (loop fuel run1 ≡ some run1)
        × Matched side order now
            ((r, min run.left (remaining run.store r))
              ∷ fills side p run.store (run.left - min run.left (remaining run.store r)) rs)
            run
            run1
  last_round zero run run1 r rs ready front st h less = absurd (omega arith)
  last_round (suc fuel) run run1 r rs ready front st h less =
      let part = min run.left (remaining run.store r) in
      let none_left : run.left - part ≡ 0 = ground arith in
      (
        limit_loop-spent fuel run1 (st.left ∙ none_left),
        step-Matched side order now r rs (fills side p run.store (run.left - part) rs) run run1 run1
            front st (behind_same run run1 r rs ready front st)
            (λ _. rw none_left (fills-zero side p run.store rs))
            (rw (none_left, fills-zero side p run.store rs)
              (nothing-Matched side order now run1 st.ready)),
      )

  -- The loop against the reference, for a queue shorter than the fuel.
  pub limit_loop-Matched :
      (fuel : ℕ) (run : Run D) (rs : List Ref)
      → IsReady order run
      → opposite_queue side run.engine.order_book ≡ rs
      → length rs < fuel
      → (after : Run D) × (loop fuel run ≡ some after)
        × Matched side order now (fills side p run.store run.left rs) run after
  limit_loop-Matched zero run rs ready e h = absurd (omega arith)
  limit_loop-Matched (suc fuel) run [] ready e h = (
    run,
    limit_loop-stops fuel run (limit_target-front run [] ready e),
    rw (fills-nil side p run.store run.left) (nothing-Matched side order now run ready),
  )
  limit_loop-Matched (suc fuel) run (r ∷ rs) ready e h =
      let run1 = execute d side order r (run.store.cell r).price now run in
      let st = execute-Stepped d now side order (run.store.cell r).price run ready r rs e in
      let next = limit_loop-Matched fuel run1 rs st.ready in
      elim (Bool-cases (run.left == 0 || beyond side (run.store.cell r).price p)) [
        | inl stop ↦ (
          run,
          loop-stop fuel run r rs ready e stop,
          rw (fills-stop side p run.store run.left r rs stop)
              (nothing-Matched side order now run ready),
        )
        | inr go ↦
            rw (fills-go side p run.store run.left r rs go)
              (elim (Bool-cases (ltb run.left (remaining run.store r))) [
                | inl less ↦
                    let (stops, matched) =
                      last_round fuel run run1 r rs ready e st (omega arith) less in
                    (run1, loop-go fuel run r rs ready e go ∙ stops, matched)
                | inr enough ↦
                    let (after, loops, matched) = next (st.opposite ∙ rw enough) (omega arith) in
                    (
                      after,
                      loop-go fuel run r rs ready e go ∙ loops,
                      step-Matched side order now r rs _ run run1 after e st
                          (behind_same run run1 r rs ready e st)
                          (λ less. absurd (ground (arith, less, enough)))
                          (subst
                            (λ (fs : List (Ref × Quantity)). Matched side order now fs run1 after)
                            (fills-frame side p run.store run1.store run1.left rs
                                (behind_same run run1 r rs ready e st)
                              ∙ ap (λ (left : Quantity). fills side p run.store left rs) st.left)
                            matched),
                    )
              ])
      ]
