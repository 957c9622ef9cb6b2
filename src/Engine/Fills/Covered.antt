-- ===== src/Engine/Fills/Covered.antt =====
-- The depth that a market order walks through covers the queue of the opposite side.
use high_performance_trading.Base.{
  ℕ, ◌+◌, ◌≡◌, ◌≤◌, refl, subst, sym, Bool-cases, inl, inr, List, [], ◌∷◌, ◌++◌, map, All, arith,
  if◌then◌else◌, length, true, false,
}
use high_performance_trading.Base.Int.{eqb_ℤ, eqb_ℤ_refl}
use high_performance_trading.Core.Types.{Price, Symbol, Side, buy, sell}
use high_performance_trading.Store.{Ref, Terms}
use high_performance_trading.Book.{Levels, OrderBook}
use high_performance_trading.Book.Side.{queue, AreLevels, Belongs}
use high_performance_trading.Book.Invariant.{IsBook}
use high_performance_trading.Book.Views.{
  DepthLevel, depth_of, depth_from, get_bid_depth, get_ask_depth,
}
use high_performance_trading.Engine.{opposite_depth}
use high_performance_trading.Engine.Fills.{opposite_queue}

-- The queue without the orders of a price at its front.
abbrev pub drop_at : (Ref → Terms) → Price → List Ref → List Ref
drop_at t p [] = []
drop_at t p (r ∷ rs) = let rest = drop_at t p rs in if eqb_ℤ (t r).price p then rest else r ∷ rs

-- Nothing is left of the queue when the orders of each level are dropped in turn.
abbrev pub Covers : (Ref → Terms) → List DepthLevel → List Ref → Type 0
Covers t [] rs = rs ≡ []
Covers t (level ∷ levels) rs = Covers t levels (drop_at t level.price rs)

drop_at-closed :
    (t : Ref → Terms) (P : List Ref → Type 0) (p : Price)
    → ((r : Ref) (rs : List Ref) → P (r ∷ rs) → P rs)
    → (rs : List Ref) → P rs
    → P (drop_at t p rs)
drop_at-closed t P p tail [] h = h
drop_at-closed t P p tail (r ∷ rs) h = elim (Bool-cases (eqb_ℤ (t r).price p)) [
  | inl e ↦ rw e (drop_at-closed t P p tail rs (tail r rs h))
  | inr e ↦ rw e h
]

pub drop_at-same :
    (t : Ref → Terms) (p : Price) (r : Ref) (rs : List Ref)
    → eqb_ℤ (t r).price p ≡ true
    → drop_at t p (r ∷ rs) ≡ drop_at t p rs
drop_at-same t p r rs e = rw e

drop_at-other :
    (t : Ref → Terms) (p : Price) (r : Ref) (rs : List Ref)
    → eqb_ℤ (t r).price p ≡ false
    → drop_at t p (r ∷ rs) ≡ r ∷ rs
drop_at-other t p r rs e = rw e

pub Covers-tail :
    (t : Ref → Terms) (levels : List DepthLevel) (r : Ref) (rs : List Ref)
    → Covers t levels (r ∷ rs)
    → Covers t levels rs
Covers-tail t [] r rs h = absurd (ground (arith, h))
Covers-tail t (level ∷ levels) r rs h = elim (Bool-cases (eqb_ℤ (t r).price level.price)) [
  | inl e ↦ subst (Covers t levels) (drop_at-same t level.price r rs e) h
  | inr e ↦
      drop_at-closed t (Covers t levels) level.price (Covers-tail t levels) rs
        (Covers-tail t levels r rs (subst (Covers t levels) (drop_at-other t level.price r rs e) h))
]

-- The orders of a level are behind a walk that has passed its price.
pub Covers-other :
    (t : Ref → Terms) (level : DepthLevel) (levels : List DepthLevel) (r : Ref) (rs : List Ref)
    → eqb_ℤ (t r).price level.price ≡ false
    → Covers t (level ∷ levels) (r ∷ rs)
    → Covers t levels (r ∷ rs)
Covers-other t level levels r rs e h =
    subst (Covers t levels) (drop_at-other t level.price r rs e) h

drop_at-append :
    (t : Ref → Terms) (next : Ref) (side : Side) (symbol : Symbol) (p : Price) (xs ys : List Ref)
    → All (Belongs t next side symbol p) xs
    → drop_at t p (xs ++ ys) ≡ drop_at t p ys
drop_at-append t next side symbol p [] ys h = refl
drop_at-append t next side symbol p (x ∷ xs) ys h =
    let at : eqb_ℤ (t x).price p ≡ true =
      subst (λ (q : Price). eqb_ℤ (t x).price q ≡ true) h.0.1 (eqb_ℤ_refl (t x).price) in
    rw at (drop_at-append t next side symbol p xs ys h.1)

queue_covered :
    (t : Ref → Terms) (next : Ref) (side : Side) (symbol : Symbol) (m : Levels)
    → AreLevels t next side symbol m
    → Covers t (map depth_of m) (queue m)
unfolding queue
queue_covered t next side symbol [] h = refl
queue_covered t next side symbol ((p, level) ∷ m) h =
    subst (Covers t (map depth_of m))
      (sym (drop_at-append t next side symbol p level.orders (queue m) h.2))
      (drop_at-closed t (Covers t (map depth_of m)) p (Covers-tail t (map depth_of m)) (queue m)
        (queue_covered t next side symbol m h.3))

depth_from-all :
    (levels count : ℕ) (m : Levels)
    → count + length m ≤ levels
    → depth_from levels count m ≡ map depth_of m
unfolding depth_from
depth_from-all levels count [] h = refl
depth_from-all levels count (x ∷ m) h = ground (arith, depth_from-all levels (count + 1) m)

abbrev pub opposite_levels : Side → OrderBook → Levels
opposite_levels buy b = b.asks
opposite_levels sell b = b.bids

-- As many levels as the depth is asked for are enough.
pub opposite_depth-Covers :
    (side : Side) (t : Ref → Terms) (next : Ref) (levels : ℕ) (b : OrderBook)
    → IsBook t next b
    → length (opposite_levels side b) ≤ levels
    → Covers t (opposite_depth side levels b) (opposite_queue side b)
unfolding get_ask_depth get_bid_depth
opposite_depth-Covers buy t next levels b v h =
    rw (depth_from-all levels 0 b.asks (omega (arith, h)))
      (queue_covered t next sell b.symbol b.asks v.ask_side.levels)
opposite_depth-Covers sell t next levels b v h =
    rw (depth_from-all levels 0 b.bids (omega (arith, h)))
      (queue_covered t next buy b.symbol b.bids v.bid_side.levels)
