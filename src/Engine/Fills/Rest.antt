-- ===== src/Engine/Fills/Rest.antt =====
-- What MatchingEngine::matchLimitOrder does after the loop, and what a submission leaves behind.
use high_performance_trading.Base.{
  ◌+◌, ◌≡◌, ◌<◌, refl, sym, ap, subst, ◌∙◌, List, some, ◌==◌, arith, Bool-cases, ==_iff,
  if◌then◌else◌, inl, inr, false,
}
use high_performance_trading.Core.Types.{Quantity, Side}
use high_performance_trading.Store.{Ref, Store, Terms, terms, remaining}
use high_performance_trading.Book.Invariant.{IsBook}
use high_performance_trading.Book.Add.{add_order_total}
use high_performance_trading.Engine.{
  Clock, Engine, Run, start, notify_order, notify_trades, count_limit,
}
use high_performance_trading.Engine.Matching.{rest_order}
use high_performance_trading.Engine.Fills.{taken, volume, trades_from, IsUncrossed}
use high_performance_trading.Engine.Fills.Uncrossed.{
  AllBeyond, IsWithin-IsUncrossed, Takes-IsUncrossed,
}
use high_performance_trading.Engine.Fills.Reference.{Matched}

-- What a submission of a limit order leaves behind, in terms of the fills of the reference.
pub record Submitted {D : Type 0} (side : Side) (order : Ref) (now : Clock)
    (fs : List (Ref × Quantity)) (s : Store) (e : Engine D) (after : Run D) : Type 0 where
  pub valid : IsBook (terms after.store) after.store.next after.engine.order_book
  pub trades : after.trades ≡ trades_from side order e.symbol now (terms s) 0 fs
  pub takes :
      (x : Ref)
      → remaining after.store x + (if x == order then volume fs else taken x fs) ≡ remaining s x

-- The same, and that an uncrossed book stays so.
pub record Outcome {D : Type 0} (side : Side) (order : Ref) (now : Clock)
    (fs : List (Ref × Quantity)) (s : Store) (e : Engine D) (after : Run D) : Type 0 where
  pub matched : Submitted side order now fs s e after
  pub uncrossed :
      IsUncrossed (terms s) e.order_book → IsUncrossed (terms after.store) after.engine.order_book

module _ {D : Type 0} (now : Clock) (side : Side) (order : Ref) (s : Store) (e : Engine D)
    (fs : List (Ref × Quantity)) where
  -- The steps after the loop keep what the loop has established.
  pub submitted :
      (run after : Run D)
      → Matched side order now fs (start order s e) run
      → IsBook (terms run.store) run.store.next after.engine.order_book
      → after.store ≡ run.store
      → after.trades ≡ run.trades
      → (IsUncrossed (terms run.store) run.engine.order_book
          → IsUncrossed (terms run.store) after.engine.order_book)
      → Outcome side order now fs s e after
  submitted run after m valid store trades keeps = record {
    matched = record {
      valid =
          subst (λ (s' : Store). IsBook (terms s') s'.next after.engine.order_book) (sym store)
            valid;
      trades = trades ∙ m.trades;
      takes = λ x. elim (Bool-cases (x == order)) [
        | inl e ↦ rw e (
            subst (λ (q : Ref). remaining after.store q + volume fs ≡ remaining s q)
              (sym ((==_iff x order).0 e))
              (omega (arith, ap (λ (s' : Store). remaining s' order) store, m.ready.own, m.left)))
        | inr e ↦ rw e (
            omega (
              arith,
              ap (λ (s' : Store). remaining s' x) store,
              m.takes x (λ same. ground (arith, e, same)),
            ))
      ];
    };
    uncrossed = λ u.
        let before : IsUncrossed (terms run.store) run.engine.order_book =
          IsWithin-IsUncrossed (terms run.store) e.order_book run.engine.order_book m.within
            (subst (λ (t : Ref → Terms). IsUncrossed t e.order_book) (sym m.same_terms) u) in
        subst (λ (s' : Store). IsUncrossed (terms s') after.engine.order_book) (sym store)
          (keeps before);
  }

  -- Orders of the run exist, and so the book accepts or refuses the rest without throwing.
  pub rest_order-Outcome :
      (run : Run D)
      → order < s.next
      → Matched side order now fs (start order s e) run
      → ((remaining run.store order == 0) ≡ false
          → AllBeyond
              (terms run.store)
              (run.store.cell order).side
              (run.store.cell order).price
              run.engine.order_book)
      → (after : Run D) × (rest_order order (notify_order order run) ≡ some after)
        × Outcome side order now fs s e after
  unfolding rest_order
  rest_order-Outcome run exists m ended =
      let b = run.engine.order_book in
      let told = notify_order order run in
      elim (Bool-cases (remaining run.store order == 0)) [
        | inl spent ↦ (told, rw spent, submitted run told m m.ready.book refl refl (λ u. u))
        | inr some_left ↦
            let (b', done, added, valid, _, which) =
              add_order_total run.store order b
                (subst (λ (n : Ref). order < n) (sym m.same_next) exists) m.ready.book in
            let after = record told { engine = record told.engine { order_book = b' } } in
            (
              after,
              rw (some_left, added),
              submitted run after m valid refl refl (λ u. elim which [
                | inl same ↦ subst (IsUncrossed (terms run.store)) (sym same) u
                | inr takes ↦ Takes-IsUncrossed run.store order b b' takes (ended some_left) u
              ]),
            )
      ]

  pub finished :
      (run : Run D)
      → Outcome side order now fs s e run
      → Outcome side order now fs s e (notify_trades (count_limit run))
  unfolding count_limit
  finished run m = ground (arith, m.matched.valid, m.matched.trades, m.matched.takes, m.uncrossed)
