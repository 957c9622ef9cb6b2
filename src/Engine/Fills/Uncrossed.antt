-- ===== src/Engine/Fills/Uncrossed.antt =====
-- When a matching loop of a limit order ends, and that the book is not crossed after it.
use high_performance_trading.Base.{
  ℕ, zero, suc, ◌≡◌, ◌<◌, refl, sym, ap, subst, ◌∙◌, ◌⊎◌, true, false, List, [], ◌∷◌, some, none,
  ◌==◌, count, arith, Bool-cases, Option-cases, inl, inr, All-at, head?, ==_iff,
}
use high_performance_trading.Base.Int.{ltb_ℤ, ◌≤ℤ◌, lt→ltb_ℤ, ltb_ℤ→lt}
use high_performance_trading.Core.Double.{Double}
use high_performance_trading.Core.Types.{Price, Side, buy, sell, Side-cases}
use high_performance_trading.Store.{Ref, Store, Terms, terms}
use high_performance_trading.Book.{OrderBook, bid_order, ask_order}
use high_performance_trading.Book.Side.{queue, enqueue}
use high_performance_trading.Book.Invariant.{IsBook}
use high_performance_trading.Book.Add.{Takes, count-enqueue}
use high_performance_trading.Book.Views.Best.{price_of, get_best_bid_max, get_best_ask_min}
use high_performance_trading.Engine.{Clock, Run, best_opposite, beyond, execute}
use high_performance_trading.Engine.Matching.{limit_target, limit_loop}
use high_performance_trading.Engine.Fills.{
  front_order, opposite_queue, IsReady, IsUncrossed, IsWithin,
}
use high_performance_trading.Engine.Fills.Reference.{best_opposite-price, front_order-head?}

-- A book within an uncrossed one is not crossed.
pub IsWithin-IsUncrossed :
    (t : Ref → Terms) (b b' : OrderBook) → IsWithin b b' → IsUncrossed t b → IsUncrossed t b'
IsWithin-IsUncrossed t b b' w u x y hx hy =
    u x y (omega (arith, w.bids x)) (omega (arith, w.asks y))

-- Nothing on the opposite side can trade at the limit.
abbrev pub AllBeyond : (Ref → Terms) → Side → Price → OrderBook → Type 0
AllBeyond t side p b =
    (x : Ref) → 0 < count x (opposite_queue side b) → beyond side (t x).price p ≡ true

-- If the best opposite price is beyond the limit, so is every other.
best-AllBeyond :
    (t : Ref → Terms) (next : Ref) (side : Side) (p best : Price) (b : OrderBook)
    → IsBook t next b
    → best_opposite side b ≡ some best
    → beyond side best p ≡ true
    → AllBeyond t side p b
best-AllBeyond t next buy p best b v e h x hx =
    let (r, first, price, all) = get_best_ask_min t next b v best e in
    let le : best ≤ℤ (t x).price = All-at (λ y. best ≤ℤ (t y).price) (queue b.asks) x all hx in
    lt→ltb_ℤ p (t x).price (omega (arith, ltb_ℤ→lt p best h, le))
best-AllBeyond t next sell p best b v e h x hx =
    let (r, first, price, all) = get_best_bid_max t next b v best e in
    let le : (t x).price ≤ℤ best = All-at (λ y. (t y).price ≤ℤ best) (queue b.bids) x all hx in
    lt→ltb_ℤ (t x).price p (omega (arith, ltb_ℤ→lt best p h, le))

module _ {D : Type 0} (d : Double D) (now : Clock) (side : Side) (order : Ref) (p : Price) where
  -- The loop returns when the order is exhausted or there is nothing to trade with.
  pub limit_loop-ends :
      (fuel : ℕ) (run after : Run D)
      → limit_loop d front_order now side order fuel p run ≡ some after
      → (after.left ≡ 0) ⊎ (limit_target d front_order now side order p after ≡ none)
  unfolding limit_loop
  limit_loop-ends zero run after e = cc
  limit_loop-ends (suc fuel) run after e = elim (Bool-cases (run.left == 0)) [
    | inl spent ↦ ground (arith, e)
    | inr some_left ↦ elim (Option-cases (limit_target d front_order now side order p run)) [
      | inl nothing ↦
          let stops : limit_loop d front_order now side order (suc fuel) p run ≡ some run =
            rw (some_left, nothing) in
          inr (cc (nothing, stops, e))
      | inr ((price, r), found) ↦
          let run1 = execute d side order r price now run in
          let goes : limit_loop d front_order now side order (suc fuel) p run
              ≡ limit_loop d front_order now side order fuel p run1 =
            rw (some_left, found) in
          limit_loop-ends fuel run1 after (sym goes ∙ e)
    ]
  ]

  -- The front of the opposite queue is what a round trades with.
  target_of :
      (run : Run D) (r : Ref) (rs : List Ref)
      → IsReady order run
      → opposite_queue side run.engine.order_book ≡ r ∷ rs
      → beyond side (run.store.cell r).price p ≡ false
      → limit_target d front_order now side order p run ≡ some ((run.store.cell r).price, r)
  unfolding limit_target
  target_of run r rs ready e within =
      let b = run.engine.order_book in
      rw (
        best_opposite-price side (terms run.store) run.store.next b ready.book,
        front_order-head? side (terms run.store) run.store.next b ready.book,
        e,
        within,
      )

  pub limit_target-AllBeyond :
      (run : Run D)
      → IsReady order run
      → limit_target d front_order now side order p run ≡ none
      → AllBeyond (terms run.store) side p run.engine.order_book
  limit_target-AllBeyond run ready e = beyond_all (opposite_queue side run.engine.order_book) refl
    where
      beyond_all :
          (rs : List Ref)
          → opposite_queue side run.engine.order_book ≡ rs
          → AllBeyond (terms run.store) side p run.engine.order_book
      beyond_all [] f x hx = absurd (omega (arith, ap (count x) f))
      beyond_all (r ∷ rs) f x hx =
          let b = run.engine.order_book in
          let best : best_opposite side b ≡ some (run.store.cell r).price =
            best_opposite-price side (terms run.store) run.store.next b ready.book
            ∙ ap (λ (xs : List Ref). price_of (terms run.store) (head? xs)) f in
          elim (Bool-cases (beyond side (run.store.cell r).price p)) [
            | inl h ↦
                best-AllBeyond (terms run.store) run.store.next side p (run.store.cell r).price b
                  ready.book best h x hx
            | inr h ↦ absurd (cc (e, target_of run r rs ready f h))
          ]

-- The rest of a limit order that finds nothing to trade with does not cross the book.
module _ (s : Store) (r : Ref) (b b' : OrderBook) (takes : Takes s r b b')
    (all : AllBeyond (terms s) (s.cell r).side (s.cell r).price b)
    (u : IsUncrossed (terms s) b) where
  takes_buy : (s.cell r).side ≡ buy → IsUncrossed (terms s) b'
  takes_buy side x y hx hy =
      let bids : queue b'.bids ≡ enqueue bid_order (terms s) r (queue b.bids) =
        takes.bids ∙ rw side in
      let asks : queue b'.asks ≡ queue b.asks = takes.asks ∙ rw side in
      let old : 0 < count y (queue b.asks) = subst (λ (xs : List Ref). 0 < count y xs) asks hy in
      elim (Bool-cases (r == x)) [
        | inl e ↦
            subst (λ q. ltb_ℤ (s.cell q).price (s.cell y).price ≡ true) ((==_iff r x).0 e)
              (subst (λ (side' : Side). AllBeyond (terms s) side' (s.cell r).price b) side all y
                old)
        | inr e ↦
            u x y
              (ground
                (arith, e, ap (count x) bids, count-enqueue bid_order (terms s) r x (queue b.bids)))
              old
      ]

  takes_sell : (s.cell r).side ≡ sell → IsUncrossed (terms s) b'
  takes_sell side x y hx hy =
      let asks : queue b'.asks ≡ enqueue ask_order (terms s) r (queue b.asks) =
        takes.asks ∙ rw side in
      let bids : queue b'.bids ≡ queue b.bids = takes.bids ∙ rw side in
      let old : 0 < count x (queue b.bids) = subst (λ (xs : List Ref). 0 < count x xs) bids hx in
      elim (Bool-cases (r == y)) [
        | inl e ↦
            subst (λ q. ltb_ℤ (s.cell x).price (s.cell q).price ≡ true) ((==_iff r y).0 e)
              (subst (λ (side' : Side). AllBeyond (terms s) side' (s.cell r).price b) side all x
                old)
        | inr e ↦ u x y old (
            ground
              (arith, e, ap (count y) asks, count-enqueue ask_order (terms s) r y (queue b.asks)))
      ]

  pub Takes-IsUncrossed : IsUncrossed (terms s) b'
  Takes-IsUncrossed = elim (Side-cases (s.cell r).side) [
    | inl e ↦ takes_buy e
    | inr e ↦ takes_sell e
  ]
