-- ===== src/Book/Invariant.antt =====
-- The invariant of the order book: both sides are well formed, and the order map lists exactly the
-- orders in the queues, each once.
use high_performance_trading.Base.{
  ℕ, suc, ◌+◌, ◌≤◌, ◌<◌, ◌≡◌, refl, ◌≢◌, ◌⊎◌, none, some, List, [], ◌∷◌, arith, ◌==◌, if◌then◌else◌,
  All, count, count-append, Option-cases, inl, inr,
}
use native.Mathlib.Decide.{dec_lt}
use high_performance_trading.Base.Assoc.{find}
use high_performance_trading.Core.Types.{OrderId, Price, Symbol, Side, buy, sell}
use high_performance_trading.Core.Order.{Order}
use high_performance_trading.Store.{Ref, Store, Terms, alloc, terms, terms-alloc}
use high_performance_trading.Book.{Levels, OrderBook, make_book, bid_order, ask_order}
use high_performance_trading.Book.Side.{queue, Belongs, AreLevels, IsSide}

-- How often the order map lists a reference under the ID of its order: once or not at all.
unfoldable pub listed : (Ref → Terms) → List (OrderId × Ref) → Ref → ℕ
listed t m r = elim (find (t r).id m) [ none ↦ 0 | some q ↦ if q == r then 1 else 0 ]

pub record IsBook (t : Ref → Terms) (next : Ref) (b : OrderBook) : Type 0 where
  pub bid_side : IsSide bid_order t next buy b.symbol b.bids
  pub ask_side : IsSide ask_order t next sell b.symbol b.asks
  pub indexed : (r : Ref) → count r (queue b.bids) + count r (queue b.asks) ≡ listed t b.order_map r
  pub keyed : (id : OrderId) (r : Ref) → find id b.order_map ≡ some r → ((t r).id ≡ id) × (r < next)

-- A new book is well formed.
pub make_book-IsBook :
    (t : Ref → Terms) (next : Ref) (symbol : Symbol) → IsBook t next (make_book symbol)
unfolding make_book queue listed find
make_book-IsBook t next symbol = record {
  bid_side = record { ordered = tt; levels = tt };
  ask_side = record { ordered = tt; levels = tt };
  indexed = λ r. refl;
  keyed = λ id r e. cc;
}

module _ (t : Ref → Terms) (next : Ref) (side : Side) (symbol : Symbol) where
  -- An order of the other side is in no queue of this one, nor is one that does not exist yet.
  Belongs-count :
      (price : Price) (r : Ref) (xs : List Ref)
      → All (Belongs t next side symbol price) xs
      → ((t r).side ≢ side) ⊎ (next ≤ r)
      → count r xs ≡ 0
  Belongs-count price r [] v h = refl
  Belongs-count price r (x ∷ xs) v h = ground (arith, Belongs-count price r xs v.1 h)

  pub AreLevels-count :
      (r : Ref) (m : Levels)
      → AreLevels t next side symbol m
      → ((t r).side ≢ side) ⊎ (next ≤ r)
      → count r (queue m) ≡ 0
  unfolding queue
  AreLevels-count r [] v h = refl
  AreLevels-count r ((j, level) ∷ m) v h = ground (
    arith,
    count-append r level.orders (queue m),
    Belongs-count j r level.orders v.2 h,
    AreLevels-count r m v.3 h,
  )

module _ (t : Ref → Terms) (next : Ref) (side : Side) (symbol : Symbol) where
  Belongs-member :
      (price : Price) (r : Ref) (xs : List Ref)
      → All (Belongs t next side symbol price) xs
      → 0 < count r xs
      → (r < next) × ((t r).side ≡ side) × ((t r).symbol ≡ symbol)
  Belongs-member price r [] v h = absurd (omega arith)
  Belongs-member price r (x ∷ xs) v h = ground (arith, Belongs-member price r xs v.1)

  -- What stands in the queue of a side is for that side and symbol.
  pub AreLevels-member :
      (r : Ref) (m : Levels)
      → AreLevels t next side symbol m
      → 0 < count r (queue m)
      → (r < next) × ((t r).side ≡ side) × ((t r).symbol ≡ symbol)
  unfolding queue
  AreLevels-member r [] v h = absurd (omega arith)
  AreLevels-member r ((j, level) ∷ m) v h = ground (
    arith,
    count-append r level.orders (queue m),
    Belongs-member j r level.orders v.2,
    AreLevels-member r m v.3,
  )

-- The map does not list an order that does not exist yet.
listed_unborn :
    (t : Ref → Terms) (next : Ref) (m : List (OrderId × Ref)) (r : Ref)
    → ((id : OrderId) (q : Ref) → find id m ≡ some q → q < next)
    → next ≤ r
    → listed t m r ≡ 0
unfolding listed
listed_unborn t next m r ids h = elim (Option-cases (find (t r).id m)) [
  | inl e ↦ rw (e, listed)
  | inr (q, e) ↦ rw (e, listed) (ground (arith, ids (t r).id q e))
]

module _ (t t' : Ref → Terms) (next next' : Ref) (grows : next ≤ next')
    (same : (r : Ref) → r < next → t' r ≡ t r) where
  module _ (side : Side) (symbol : Symbol) where
    Belongs-frame :
        (price : Price) (xs : List Ref)
        → All (Belongs t next side symbol price) xs
        → All (Belongs t' next' side symbol price) xs
    Belongs-frame price [] v = tt
    Belongs-frame price (x ∷ xs) v = ground (arith, same x v.0.0, Belongs-frame price xs v.1)

    AreLevels-frame :
        (m : Levels) → AreLevels t next side symbol m → AreLevels t' next' side symbol m
    AreLevels-frame [] v = tt
    AreLevels-frame ((j, level) ∷ m) v =
        (v.0, v.1, Belongs-frame j level.orders v.2, AreLevels-frame m v.3)

  -- The invariant survives whatever leaves the terms of the existing orders alone.
  pub IsBook-frame : (b : OrderBook) → IsBook t next b → IsBook t' next' b
  unfolding listed
  IsBook-frame b v = record {
    bid_side = record {
      ordered = v.bid_side.ordered;
      levels = AreLevels-frame buy b.symbol b.bids v.bid_side.levels;
    };
    ask_side = record {
      ordered = v.ask_side.ordered;
      levels = AreLevels-frame sell b.symbol b.asks v.ask_side.levels;
    };
    indexed = λ r. elim (dec_lt r next) [
      | yes h ↦ rw (same r h, listed) (v.indexed r)
      | no h ↦
          let ids =
            λ (i : OrderId) (q : Ref) (e : find i b.order_map ≡ some q). (v.keyed i q e).1 in
          omega (
            arith,
            v.indexed r,
            listed_unborn t next b.order_map r ids,
            listed_unborn t' next b.order_map r ids,
          )
    ];
    keyed = λ id r e. ground (arith, v.keyed id r e, same r);
  }

-- An order that the map lists has the symbol of the book.
pub find-symbol :
    (t : Ref → Terms) (next : Ref) (b : OrderBook) (id : OrderId) (r : Ref)
    → IsBook t next b
    → find id b.order_map ≡ some r
    → (t r).symbol ≡ b.symbol
unfolding listed
find-symbol t next b id r v found = ground (
  arith,
  found,
  v.keyed id r found,
  v.indexed r,
  AreLevels-member t next buy b.symbol r b.bids v.bid_side.levels,
  AreLevels-member t next sell b.symbol r b.asks v.ask_side.levels,
)

-- What stands in a queue is what the map lists under its ID.
pub find_of_count :
    (t : Ref → Terms) (next : Ref) (b : OrderBook) (r : Ref)
    → IsBook t next b
    → 0 < count r (queue b.bids) + count r (queue b.asks)
    → find (t r).id b.order_map ≡ some r
unfolding listed
find_of_count t next b r v h = ground (arith, v.indexed r)

-- A book does not see a new order that it does not hold.
pub alloc-IsBook :
    (s : Store) (o : Order) (b : OrderBook)
    → IsBook (terms s) s.next b
    → IsBook (terms (alloc s o)) (suc s.next) b
alloc-IsBook s o b v =
    IsBook-frame (terms s) _ s.next (suc s.next) (omega arith) (λ x h. terms-alloc s o x h) b v
