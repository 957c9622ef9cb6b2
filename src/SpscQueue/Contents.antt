-- ===== src/SpscQueue/Contents.antt =====
-- The ring against a bounded first-in first-out list, when one call runs at a time.
use native.Mathlib.Nat.{mod-eq_of_lt, mod_self}
use high_performance_trading.Base.{
  ℕ, suc, ◌+◌, ◌-◌, ◌%◌, ◌<◌, ◌≤◌, ◌≡◌, refl, sym, ap, subst, ◌∙◌, ◌↔◌, true, false, some, List, [],
  ◌∷◌, ◌++◌, ◌==◌, ltb, if◌then◌else◌, length, length-append, head?, arith, Bool-cases, ==_iff, inl,
  inr,
}
use high_performance_trading.SpscQueue.{
  Queue, store_item, next, try_push, try_pop, is_empty, is_full, count_items, capacity,
}

-- The slot that is `n` behind a slot, for `n` up to the size.
abbrev pub slot : ℕ → ℕ → ℕ → ℕ
slot size i n = if ltb (i + n) size then i + n else i + n - size

pub next-slot : (size i : ℕ) → i < size → next size i ≡ slot size i 1
next-slot size i h = elim (Bool-cases (ltb (i + 1) size)) [
  | inl e ↦ rw e (mod-eq_of_lt (ground (arith, e)))
  | inr e ↦
      let full : i + 1 ≡ size = ground (arith, e) in
      ap (λ (k : ℕ). k % size) full ∙ mod_self size ∙ ground (arith, e)
]

slot_bound : (size i n : ℕ) → i < size → n < size → slot size i n < size
slot_bound size i n hi hn = ground arith

slot-slot :
    (size i n : ℕ) → i < size → suc n ≤ size → slot size (slot size i 1) n ≡ slot size i (suc n)
slot-slot size i n hi hn = ground arith

slot_apart : (size i n : ℕ) → i < size → suc n < size → (slot size i (suc n) == i) ≡ false
slot_apart size i n hi hn = ground arith

module _ {ℓ} {T : Type ℓ} where
  -- The slots from `i` on hold the items, in order.
  abbrev pub Holds : ℕ → (ℕ → T) → ℕ → List T → Type ℓ
  Holds size buffer i [] = Unit
  Holds size buffer i (x ∷ xs) = (buffer i ≡ x) × Holds size buffer (slot size i 1) xs

  -- The ring holds the items: they are fewer than the size, from the head to before the tail.
  pub record Contains (size : ℕ) (q : Queue T) (xs : List T) : Type ℓ where
    pub bound : length xs < size
    pub head_bound : q.head < size
    pub tail_at : q.tail ≡ slot size q.head (length xs)
    pub holds : Holds size q.buffer q.head xs

  -- A write behind the items changes none of them.
  pub Holds-store_item :
      (size : ℕ) (buffer : ℕ → T) (i : ℕ) (item : T) (xs : List T)
      → i < size
      → length xs < size
      → Holds size buffer i xs
      → Holds size (store_item (slot size i (length xs)) item buffer) i xs
  Holds-store_item size buffer i item [] hi hl h = tt
  Holds-store_item size buffer i item (x ∷ xs) hi hl h =
      let hl' : length xs < size = omega arith in
      (
        rw (slot_apart size i (length xs) hi hl) h.0,
        subst (λ (k : ℕ). Holds size (store_item k item buffer) (slot size i 1) xs)
            (slot-slot size i (length xs) hi (omega arith))
            (Holds-store_item size buffer (slot size i 1) item xs
              (slot_bound size i 1 hi (omega arith)) hl' h.1),
      )

  pub Holds-append :
      (size : ℕ) (buffer : ℕ → T) (i : ℕ) (item : T) (xs : List T)
      → i < size
      → length xs < size
      → Holds size buffer i xs
      → buffer (slot size i (length xs)) ≡ item
      → Holds size buffer i (xs ++ (item ∷ []))
  Holds-append size buffer i item [] hi hl h e =
      (subst (λ (k : ℕ). buffer k ≡ item) (ground arith) e, tt)
  Holds-append size buffer i item (x ∷ xs) hi hl h e = (
    h.0,
    Holds-append size buffer (slot size i 1) item xs (slot_bound size i 1 hi (omega arith))
        (omega arith) h.1
        (subst (λ (k : ℕ). buffer k ≡ item) (sym (slot-slot size i (length xs) hi (omega arith)))
          e),
  )

  module _ (size : ℕ) (q : Queue T) (xs : List T) (v : Contains size q xs) where
    pub tail_bound : q.tail < size
    tail_bound =
        subst (λ (k : ℕ). k < size) (sym v.tail_at)
          (slot_bound size q.head (length xs) v.head_bound v.bound)

    -- One past the tail is the head exactly when one slot is left.
    pub full_iff : (next size q.tail ≡ q.head) ↔ (suc (length xs) ≡ size)
    full_iff = ground (arith, next-slot size q.tail tail_bound, v.tail_at, v.head_bound, v.bound)

    pub empty_iff : (q.head ≡ q.tail) ↔ (xs ≡ [])
    empty_iff = ground (arith, v.tail_at, v.head_bound, v.bound)

    -- The tail after a push.
    pub next_tail : suc (length xs) < size → next size q.tail ≡ slot size q.head (suc (length xs))
    next_tail h = ground (arith, next-slot size q.tail tail_bound, v.tail_at, v.head_bound)

    pub pushed-Contains :
        (item : T)
        → suc (length xs) < size
        → Contains size
            (record q { buffer = store_item q.tail item q.buffer; tail = next size q.tail })
            (xs ++ (item ∷ []))
    pushed-Contains item h = record {
      bound = omega (arith, length-append xs (item ∷ []));
      head_bound = v.head_bound;
      tail_at = next_tail h ∙ ap (slot size q.head) (omega (arith, length-append xs (item ∷ [])));
      holds =
          Holds-append size (store_item q.tail item q.buffer) q.head item xs v.head_bound v.bound
            (subst (λ (k : ℕ). Holds size (store_item k item q.buffer) q.head xs) (sym v.tail_at)
              (Holds-store_item size q.buffer q.head item xs v.head_bound v.bound v.holds))
            (ground (arith, v.tail_at));
    }

-- The list without its first item.
abbrev pub drop_first {ℓ} : {T : Type ℓ} → List T → List T
drop_first [] = []
drop_first (x ∷ xs) = xs

module _ {ℓ} {T : Type ℓ} (size : ℕ) (q : Queue T) where
  pub popped-Contains :
      (x : T) (xs : List T)
      → Contains size q (x ∷ xs)
      → Contains size (record q { head = next size q.head }) xs
  popped-Contains x xs v =
      let step : next size q.head ≡ slot size q.head 1 = next-slot size q.head v.head_bound in
      record {
        bound = omega (arith, v.bound);
        head_bound = ground (arith, step, v.head_bound, v.bound);
        tail_at =
            v.tail_at
            ∙ sym (
                ap (λ (k : ℕ). slot size k (length xs)) step
                ∙ slot-slot size q.head (length xs) v.head_bound (omega (arith, v.bound)));
        holds = subst (λ (k : ℕ). Holds size q.buffer k xs) (sym step) v.holds.1;
      }

  -- For a ring that holds a list, a push succeeds exactly below the capacity and then appends its
  -- item to the list; otherwise the list stays.
  pub try_push_lem :
      (item : T) (xs : List T)
      → Contains size q xs
      → ((try_push size item q).1 ≡ ltb (suc (length xs)) size)
        × Contains size
            (try_push size item q).0
            (if ltb (suc (length xs)) size then xs ++ (item ∷ []) else xs)
  unfolding try_push
  try_push_lem item xs v = elim (Bool-cases (ltb (suc (length xs)) size)) [
    | inl e ↦
        let open_slot : (next size q.tail == q.head) ≡ false =
          ground (arith, full_iff size q xs v, e) in
        rw (e, open_slot) (refl, pushed-Contains size q xs v item (ground (arith, e)))
    | inr e ↦
        let full : (next size q.tail == q.head) ≡ true =
          ground (arith, full_iff size q xs v, v.bound, e) in
        rw (e, full) (refl, v)
  ]

  -- For a ring that holds a list, a pop answers and removes its oldest item, and on the empty
  -- list answers false and leaves it empty.
  pub try_pop_lem :
      (xs : List T)
      → Contains size q xs
      → ((try_pop size q).1 ≡ head? xs) × Contains size (try_pop size q).0 (drop_first xs)
  unfolding try_pop
  try_pop_lem [] v =
      let empty : (q.head == q.tail) ≡ true = ground (arith, empty_iff size q [] v) in
      rw empty (refl, v)
  try_pop_lem (x ∷ xs) v =
      let some_left : (q.head == q.tail) ≡ false = ground (arith, empty_iff size q (x ∷ xs) v) in
      rw some_left (ap some v.holds.0, popped-Contains x xs v)

  -- For a ring that holds a list, size, isEmpty and isFull tell the number of items, whether
  -- there are none, and whether they fill the capacity.
  pub count_items_lem :
      (xs : List T)
      → Contains size q xs
      → (count_items size q ≡ length xs)
        × ((is_empty q ≡ true) ↔ (xs ≡ []))
        × ((is_full size q ≡ true) ↔ (length xs ≡ capacity size))
  unfolding count_items is_empty is_full
  count_items_lem xs v = (
    ground (arith, v.tail_at, v.head_bound, v.bound),
    (
      λ e. (empty_iff size q xs v).0 ((==_iff q.head q.tail).0 e),
      λ e. (==_iff q.head q.tail).1 ((empty_iff size q xs v).1 e),
    ),
    ground (arith, full_iff size q xs v, v.bound),
  )
