-- ===== src/Book/Side/Remove.antt =====
-- `removeFromBidSide` and `removeFromAskSide` on one side of the book.
use high_performance_trading.Base.{
  ◌≡◌, refl, sym, ap, subst, ◌∙◌, ◌≢◌, ◌↔◌, true, none, List, [], ◌∷◌, ◌++◌, arith, if◌then◌else◌,
  All, All-left, All-right, Bool-cases, inl, inr, erase, ◌==◌,
}
use high_performance_trading.Base.SortedMap
use high_performance_trading.Base.SortedMap.{KeyOrder, Behind, IsOrdered}
use high_performance_trading.Core.Types.{OrderId, Price, Symbol, Side}
use high_performance_trading.Store.{Ref, Store, Terms, terms}
use high_performance_trading.PriceLevel.{
  PriceLevel, find_order, erase_order, is_empty, is_empty_list, remove_order,
}
use high_performance_trading.Book.{Levels, remove_from_side}
use high_performance_trading.Book.Side.{queue, Belongs, AreLevels, IsSide}

module _ (s : Store) (id : OrderId) where
  -- The level that the removal leaves in place.
  abbrev shrunk : PriceLevel → PriceLevel
  shrunk level = (remove_order s id level).0

  erase_order-absent : (xs : List Ref) → find_order s id xs ≡ none → erase_order s id xs ≡ xs
  unfolding find_order erase_order
  erase_order-absent [] e = refl
  erase_order-absent (x ∷ xs) e = ground (arith, erase_order-absent xs)

  shrunk-orders : (level : PriceLevel) → (shrunk level).orders ≡ erase_order s id level.orders
  unfolding remove_order
  shrunk-orders level = ground (arith, erase_order-absent level.orders)

  shrunk-price : (level : PriceLevel) → (shrunk level).price ≡ level.price
  unfolding remove_order
  shrunk-price level = ground arith

  erase_order-All : (P : Ref → Type 0) (xs : List Ref) → All P xs → All P (erase_order s id xs)
  unfolding erase_order
  erase_order-All P [] h = tt
  erase_order-All P (x ∷ xs) h = elim (Bool-cases ((s.cell x).id == id)) [
    | inl e ↦ rw e h.1
    | inr e ↦ rw e (h.0, erase_order-All P xs h.1)
  ]

module _ (o : KeyOrder Price) (s : Store) (id : OrderId) (price : Price) where
  -- `remove_from_side` in one pass.
  remove_level : Levels → Levels
  remove_level [] = []
  remove_level ((j, level) ∷ m) =
      if o.before j price
      then (j, level) ∷ remove_level m
      else if o.before price j
      then (j, level) ∷ m
      else if is_empty (shrunk s id level)
      then m
      else (j, shrunk s id level) ∷ m

  remove_from_side-remove_level : (m : Levels) → remove_from_side o s id price m ≡ remove_level m
  unfolding remove_from_side remove_level SortedMap.find SortedMap.put SortedMap.erase_at
  remove_from_side-remove_level [] = refl
  remove_from_side-remove_level ((j, level) ∷ m) = ground (arith, remove_from_side-remove_level m)

  remove_level-Behind :
      (k : Price) (m : Levels) → IsOrdered o m → Behind o k m → Behind o k (remove_level m)
  unfolding remove_level
  remove_level-Behind k [] w b = tt
  remove_level-Behind k ((j, level) ∷ m) w b = ground (arith, remove_level-Behind k m w.1 b.1)

  remove_level-IsOrdered : (m : Levels) → IsOrdered o m → IsOrdered o (remove_level m)
  unfolding remove_level
  remove_level-IsOrdered [] w = tt
  remove_level-IsOrdered ((j, level) ∷ m) w =
      ground (arith, remove_level-IsOrdered m w.1, remove_level-Behind j m w.1 w.0)

  module _ (t : Ref → Terms) (next : Ref) (side : Side) (symbol : Symbol) where
    shrunk-All :
        (j : Price) (level : PriceLevel)
        → All (Belongs t next side symbol j) level.orders
        → All (Belongs t next side symbol j) (shrunk s id level).orders
    shrunk-All j level v =
        rw (shrunk-orders s id level)
          (erase_order-All s id (Belongs t next side symbol j) level.orders v)

    remove_level-AreLevels :
        (m : Levels)
        → AreLevels t next side symbol m
        → AreLevels t next side symbol (remove_level m)
    unfolding remove_level
    remove_level-AreLevels [] v = tt
    remove_level-AreLevels ((j, level) ∷ m) v =
        ground
          (arith, remove_level-AreLevels m v.3, shrunk-price s id level, shrunk-All j level v.2)

-- Where one reference alone has the ID, the ID's order is erased by its reference.
abbrev pub IsOnly : (Ref → Terms) → OrderId → Ref → List Ref → Type 0
IsOnly t id r xs = All (λ x. ((t x).id ≡ id) ↔ (x ≡ r)) xs

erase_order-erase :
    (s : Store) (id : OrderId) (r : Ref) (xs : List Ref)
    → IsOnly (terms s) id r xs
    → erase_order s id xs ≡ erase r xs
unfolding erase_order
erase_order-erase s id r [] h = refl
erase_order-erase s id r (x ∷ xs) h = ground (arith, erase_order-erase s id r xs h.1)

erase-append_left :
    (r : Ref) (xs ys : List Ref) → erase r ys ≡ ys → erase r (xs ++ ys) ≡ erase r xs ++ ys
erase-append_left r [] ys h = h
erase-append_left r (x ∷ xs) ys h = ground (arith, erase-append_left r xs ys h)

eq_nil : (xs : List Ref) → is_empty_list xs ≡ true → xs ≡ []
eq_nil [] h = refl
eq_nil (x ∷ xs) h = cc

-- A level that is dropped when it is empty leaves the same queue.
queue-drop_empty :
    (j : Price) (level : PriceLevel) (m : Levels)
    → queue (if is_empty level then m else (j, level) ∷ m) ≡ level.orders ++ queue m
unfolding queue
queue-drop_empty j level m = ground (arith, eq_nil level.orders)

module _ (o : KeyOrder Price) (s : Store) (r : Ref) where
  module _ (next : Ref) (side : Side) (symbol : Symbol) where
    -- An order at one price is not in the queue of a level at another.
    erase-other :
        (j : Price) (xs ys : List Ref)
        → All (Belongs (terms s) next side symbol j) xs
        → ((s.cell r).price ≢ j)
        → erase r (xs ++ ys) ≡ xs ++ erase r ys
    erase-other j [] ys v ne = refl
    erase-other j (x ∷ xs) ys v ne = ground (arith, erase-other j xs ys v.1)

    differ : (j : Price) → (s.cell r).price ≡ j → o.before (s.cell r).price j ≡ true → ⊥
    differ j e h = cc (o.before_irrefl j, h, e)

    erase-Behind :
        (m : Levels)
        → Behind o (s.cell r).price m
        → AreLevels (terms s) next side symbol m
        → erase r (queue m) ≡ queue m
    unfolding queue
    erase-Behind [] b v = refl
    erase-Behind ((j, level) ∷ m) b v =
        erase-other j level.orders (queue m) v.2 (λ e. differ j e b.0)
        ∙ ap (◌++◌ level.orders) (erase-Behind m b.1 v.3)

    before_ne : (j : Price) → (s.cell r).price ≡ j → o.before j (s.cell r).price ≡ true → ⊥
    before_ne j e h = cc (o.before_irrefl j, h, e)

    queue-shrunk :
        (j : Price) (level : PriceLevel) (m : Levels)
        → j ≡ (s.cell r).price
        → Behind o j m
        → AreLevels (terms s) next side symbol ((j, level) ∷ m)
        → IsOnly (terms s) (s.cell r).id r (level.orders ++ queue m)
        → queue (
            if is_empty (shrunk s (s.cell r).id level)
            then m
            else (j, shrunk s (s.cell r).id level) ∷ m)
          ≡ erase r (level.orders ++ queue m)
    queue-shrunk j level m e b v only =
        let i = (s.cell r).id in
        queue-drop_empty j (shrunk s i level) m
        ∙ ap (λ (xs : List Ref). xs ++ queue m)
            (shrunk-orders s i level
              ∙ erase_order-erase s i r level.orders (All-left _ level.orders (queue m) only))
        ∙ sym (
            erase-append_left r level.orders (queue m)
              (erase-Behind m (subst (λ k. Behind o k m) e b) v.3))

    queue-remove_level :
        (m : Levels)
        → IsOrdered o m
        → AreLevels (terms s) next side symbol m
        → IsOnly (terms s) (s.cell r).id r (queue m)
        → queue (remove_level o s (s.cell r).id (s.cell r).price m) ≡ erase r (queue m)
    unfolding queue remove_level
    queue-remove_level [] w v only = refl
    queue-remove_level ((j, level) ∷ m) w v only =
        let p = (s.cell r).price in
        let i = (s.cell r).id in
        elim (Bool-cases (o.before j p)) [
          | inl e ↦ rw e (
              ap (◌++◌ level.orders)
                (queue-remove_level m w.1 v.3 (All-right _ level.orders (queue m) only))
              ∙ sym (erase-other j level.orders (queue m) v.2 (λ q. before_ne j q e)))
          | inr e ↦ rw e (elim (Bool-cases (o.before p j)) [
            | inl e' ↦
                rw e' (
                  sym (erase-Behind ((j, level) ∷ m) (e', SortedMap.Behind-trans o p j m e' w.0) v))
            | inr e' ↦ rw e' (queue-shrunk j level m (o.before_connected j p e e') w.0 v only)
          ])
        ]

    -- On a side of the book, the removal of an order by its ID and price keeps the side's invariant
    -- and takes the order, and it alone, out of the queue.
    pub remove_from_side_lem :
        (m : Levels)
        → IsSide o (terms s) next side symbol m
        → IsOnly (terms s) (s.cell r).id r (queue m)
        → let m' = remove_from_side o s (s.cell r).id (s.cell r).price m in
          IsSide o (terms s) next side symbol m' × (queue m' ≡ erase r (queue m))
    remove_from_side_lem m v only =
        let i = (s.cell r).id in
        let p = (s.cell r).price in
        rw (remove_from_side-remove_level o s i p m) (
          record {
            ordered = remove_level-IsOrdered o s i p m v.ordered;
            levels = remove_level-AreLevels o s i p (terms s) next side symbol m v.levels;
          },
          queue-remove_level m v.ordered v.levels only,
        )
