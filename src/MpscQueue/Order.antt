-- ===== src/MpscQueue/Order.antt =====
-- In every interleaving the consumer pops in the order of the exchanges.
use mathlib.Core.List.{append-nil, append_assoc}
use high_performance_trading.Base.{
  ℕ, zero, suc, ◌+◌, ◌-◌, ◌<◌, ◌≤◌, ◌≡◌, refl, sym, ap, subst, ◌∙◌, inl, inr, true, none, ==_iff,
  ltb, Bool-cases, List, [], ◌∷◌, ◌++◌, ◌==◌, All, All-append, arith,
}
use high_performance_trading.MpscQueue.{
  World, Turn, exchange, link, pop, set_at, make_links, begin_world, exchange_tail, try_pop,
  is_empty, take_turn, take_turns,
}
use high_performance_trading.MpscQueue.Pending.{
  IsPending, IsNext, owed, owed-append, store_link-owed, store_link-IsNext, IsPending-grow,
}

module _ {T : Type 0} where
  -- The items of the nodes behind `i`, as many as are asked for.
  abbrev pub items : (ℕ → T) → ℕ → ℕ → List T
  items data_of i zero = []
  items data_of i (suc k) = data_of (suc i) ∷ items data_of (suc i) k

  pub record IsInOrder (w : World T) : Type 0 where
    pub fresh : w.links.fresh ≡ suc w.links.tail
    pub within : w.links.head ≤ w.links.tail
    pub next : (n : ℕ) → IsNext w.links.tail w.links.next n
    pub pending : All (IsPending w.links.tail) w.pending
    pub owing : (n : ℕ) → n < w.links.tail → w.links.next n ≡ none → 0 < owed n w.pending
    pub exchanged :
        w.exchanged ≡ w.popped ++ items w.links.data_of w.links.head (w.links.tail - w.links.head)

  items-set_at :
      (data_of : ℕ → T) (node i k : ℕ) (item : T)
      → i + k < node
      → items (set_at node item data_of) i k ≡ items data_of i k
  items-set_at data_of node i zero item h = refl
  items-set_at data_of node i (suc k) item h =
      ground (arith, items-set_at data_of node (suc i) k item)

  items_last :
      (data_of : ℕ → T) (i k : ℕ)
      → items data_of i (suc k) ≡ items data_of i k ++ (data_of (suc (i + k)) ∷ [])
  items_last data_of i zero = ap (λ (j : ℕ). data_of (suc j) ∷ []) (omega arith)
  items_last data_of i (suc k) =
      ap (λ (xs : List T). data_of (suc i) ∷ xs)
        (items_last data_of (suc i) k
          ∙ ap (λ (j : ℕ). items data_of (suc i) k ++ (data_of (suc j) ∷ [])) (omega arith))

  items_extend :
      (data_of : ℕ → T) (head tail node : ℕ) (item : T)
      → head ≤ tail
      → node ≡ suc tail
      → items (set_at node item data_of) head (node - head)
        ≡ items data_of head (tail - head) ++ (item ∷ [])
  items_extend data_of head tail node item h e =
      let k = tail - head in
      let written = set_at node item data_of in
      let last : written (suc (head + k)) ≡ item = ground (arith, e, h) in
      let longer : node - head ≡ suc k = omega (arith, e, h) in
      ap (items written head) longer
      ∙ items_last written head k
      ∙ ap (λ (x : T). items written head k ++ (x ∷ [])) last
      ∙ ap (λ (xs : List T). xs ++ (item ∷ []))
          (items-set_at data_of node head k item (omega (arith, e, h)))

  exchange_tail-IsInOrder :
      (item : T) (w : World T) → IsInOrder w → IsInOrder (exchange_tail item w)
  unfolding exchange_tail owed
  exchange_tail-IsInOrder item w v =
      let q = w.links in
      record {
        fresh = refl;
        within = omega (arith, v.fresh, v.within);
        next = λ n. elim (Bool-cases (q.fresh == n)) [
          | inl e ↦ inl (ground (arith, e))
          | inr e ↦ ground (arith, e, v.next n, v.fresh)
        ];
        pending =
            All-append _ w.pending _
              (subst (λ (t : ℕ). All (IsPending t) w.pending) (sym v.fresh)
                (IsPending-grow q.tail w.pending v.pending))
              ((v.fresh, omega arith), tt);
        owing = λ n h e. elim (Bool-cases (q.fresh == n)) [
          | inl fresh ↦ absurd (omega (arith, (==_iff q.fresh n).0 fresh))
          | inr old ↦
              ground (
                arith,
                owed-append n w.pending ((q.tail, q.fresh) ∷ []),
                v.fresh,
                v.owing n,
                old,
                e,
              )
        ];
        exchanged =
            ap (λ (xs : List T). xs ++ (item ∷ [])) v.exchanged
            ∙ append_assoc w.popped _ _
            ∙ ap (λ (xs : List T). w.popped ++ xs)
                (sym (items_extend q.data_of q.head q.tail q.fresh item v.within v.fresh));
      }

  items_step :
      (data_of : ℕ → T) (head tail : ℕ)
      → suc head ≤ tail
      → items data_of head (tail - head)
        ≡ data_of (suc head) ∷ items data_of (suc head) (tail - suc head)
  items_step data_of head tail h =
      let longer : tail - head ≡ suc (tail - suc head) = omega (arith, h) in
      ap (items data_of head) longer

  take_turn-IsInOrder : (turn : Turn T) (w : World T) → IsInOrder w → IsInOrder (take_turn turn w)
  unfolding take_turn try_pop
  take_turn-IsInOrder (exchange item) w v = exchange_tail-IsInOrder item w v
  take_turn-IsInOrder (link i) w v =
      let (pending, next) =
        store_link-IsNext w.links.tail i w.pending w.links.next v.pending v.next in
      record {
        fresh = v.fresh;
        within = v.within;
        next = next;
        pending = pending;
        owing = λ n h e.
            let (before, same) = store_link-owed n i w.pending w.links.next e in
            omega (arith, v.owing n h before, same);
        exchanged = v.exchanged;
      }
  take_turn-IsInOrder pop w v = elim (v.next w.links.head) [
    | inl e ↦ rw (e, try_pop) v
    | inr (e, le) ↦
        rw (e, try_pop)
          (record {
            fresh = v.fresh;
            within = le;
            next = v.next;
            pending = v.pending;
            owing = v.owing;
            exchanged =
                v.exchanged
                ∙ ap (λ (xs : List T). w.popped ++ xs)
                    (items_step w.links.data_of w.links.head w.links.tail le)
                ∙ sym (append_assoc w.popped (w.links.data_of (suc w.links.head) ∷ []) _);
          })
  ]

  take_turns-IsInOrder :
      (turns : List (Turn T)) (w : World T) → IsInOrder w → IsInOrder (take_turns turns w)
  unfolding take_turns
  take_turns-IsInOrder [] w v = v
  take_turns-IsInOrder (turn ∷ turns) w v =
      take_turns-IsInOrder turns (take_turn turn w) (take_turn-IsInOrder turn w v)

  begin_world-IsInOrder : (item : T) → IsInOrder (begin_world item)
  unfolding begin_world make_links
  begin_world-IsInOrder item = record {
    fresh = refl;
    within = omega arith;
    next = λ n. inl refl;
    pending = tt;
    owing = λ n h e. absurd (omega arith);
    exchanged = refl;
  }

  -- In every interleaving of any number of producers and one consumer, the popped items are the
  -- first ones of those whose producers have exchanged the tail, in the order of the exchanges.
  pub take_turns_pop_in_order :
      (item : T) (turns : List (Turn T))
      → (waiting : List T) × ((take_turns turns (begin_world item)).exchanged
          ≡ (take_turns turns (begin_world item)).popped ++ waiting)
  take_turns_pop_in_order item turns =
      let v = take_turns-IsInOrder turns (begin_world item) (begin_world-IsInOrder item) in
      (_, v.exchanged)

  emptied :
      (w : World T)
      → IsInOrder w
      → w.pending ≡ []
      → is_empty w.links ≡ true
      → w.exchanged ≡ w.popped
  unfolding is_empty owed
  emptied w v done empty = elim (Bool-cases (ltb w.links.head w.links.tail)) [
    | inr e ↦
        let nothing : w.links.tail - w.links.head ≡ 0 = ground (arith, e) in
        v.exchanged
        ∙ ap (λ (k : ℕ). w.popped ++ items w.links.data_of w.links.head k) nothing
        ∙ append-nil w.popped
    | inl less ↦ elim (v.next w.links.head) [
      | inr (e, le) ↦ absurd (ground (arith, e, empty))
      | inl e ↦
          let owes : 0 < owed w.links.head w.pending =
            v.owing w.links.head (ground (arith, less)) e in
          let owes_none : owed w.links.head w.pending ≡ 0 = ap (owed w.links.head) done in
          absurd (omega (arith, owes, owes_none))
    ]
  ]

  -- If no push stands between its two steps and the queue reports that it is empty, then every
  -- item whose producer has exchanged the tail has been popped.
  pub is_empty_means_popped :
      (item : T) (turns : List (Turn T))
      → (take_turns turns (begin_world item)).pending ≡ []
      → is_empty (take_turns turns (begin_world item)).links ≡ true
      → (take_turns turns (begin_world item)).exchanged
        ≡ (take_turns turns (begin_world item)).popped
  is_empty_means_popped item turns =
      emptied (take_turns turns (begin_world item))
        (take_turns-IsInOrder turns (begin_world item) (begin_world-IsInOrder item))
