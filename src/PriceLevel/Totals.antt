-- ===== src/PriceLevel/Totals.antt =====
-- The total of a price level against the orders in its queue.
use high_performance_trading.Base.{
  ℕ, ◌+◌, ◌%◌, ◌≤◌, ◌<◌, ◌≡◌, refl, true, none, some, List, [], ◌∷◌, ◌++◌, arith, Option-cases, inl,
  inr, count,
}
use high_performance_trading.Base.Word.{word}
use high_performance_trading.Core.Types.{OrderId, Quantity}
use high_performance_trading.Core.Order.{fill_quantity}
use high_performance_trading.Store.{Ref, Store, remaining, modify}
use high_performance_trading.PriceLevel.{
  PriceLevel, add_order, find_order, erase_order, remove_order, update_quantity,
}

-- What the orders in a queue have left, unbounded.
unfoldable pub total_remaining : Store → List Ref → ℕ
total_remaining s [] = 0
total_remaining s (r ∷ rs) = remaining s r + total_remaining s rs

pub total_remaining-append :
    (s : Store) (xs ys : List Ref)
    → total_remaining s (xs ++ ys) ≡ total_remaining s xs + total_remaining s ys
unfolding total_remaining
total_remaining-append s [] ys = omega arith
total_remaining-append s (x ∷ xs) ys = omega (arith, total_remaining-append s xs ys)

-- The level's total is what its orders have left, modulo 2 ^ 64.
abbrev pub IsTotalled : Store → PriceLevel → Type 0
IsTotalled s level = level.total_quantity ≡ total_remaining s level.orders % word

total_remaining-erase_order :
    (s : Store) (id : OrderId) (r : Ref) (rs : List Ref)
    → find_order s id rs ≡ some r
    → total_remaining s (erase_order s id rs) + remaining s r ≡ total_remaining s rs
unfolding total_remaining find_order erase_order
total_remaining-erase_order s id r [] e = ground arith
total_remaining-erase_order s id r (x ∷ rs) e =
    ground (arith, total_remaining-erase_order s id r rs)

-- An addition that does not throw keeps the level's total equal to what its queue has left,
-- modulo 2^64.
pub add_order-IsTotalled :
    (s : Store) (r : Ref) (level after : PriceLevel)
    → IsTotalled s level
    → add_order s r level ≡ some after
    → IsTotalled s after
unfolding add_order total_remaining
add_order-IsTotalled s r level after t e =
    ground (arith, total_remaining-append s level.orders (r ∷ []))

-- Quantities are `uint64_t`.
abbrev pub FitsWords : Store → Type 0
FitsWords s = (r : Ref) → remaining s r < word

-- If quantities fit 64 bits, a removal keeps the level's total equal to what its queue has left,
-- modulo 2^64.
pub remove_order-IsTotalled :
    (s : Store) (id : OrderId) (level : PriceLevel)
    → FitsWords s
    → IsTotalled s level
    → IsTotalled s (remove_order s id level).0
unfolding remove_order
remove_order-IsTotalled s id level fits t = elim (Option-cases (find_order s id level.orders)) [
  | inl e ↦ rw (e, remove_order) t
  | inr (r, e) ↦
      rw (e, remove_order)
        (omega (arith, fits r, total_remaining-erase_order s id r level.orders e))
]

find_order-append :
    (s : Store) (r : Ref) (rs : List Ref)
    → find_order s (s.cell r).id rs ≡ none
    → (find_order s (s.cell r).id (rs ++ (r ∷ [])) ≡ some r)
      × (erase_order s (s.cell r).id (rs ++ (r ∷ [])) ≡ rs)
unfolding find_order erase_order
find_order-append s r [] e = ground arith
find_order-append s r (x ∷ rs) e = ground (arith, find_order-append s r rs)

-- If a level of the order's price has no order of its ID and both quantities fit 64 bits, adding
-- the order and removing it again gives the level back.
pub remove_order-add_order :
    (s : Store) (r : Ref) (level after : PriceLevel)
    → level.total_quantity < word
    → remaining s r < word
    → find_order s (s.cell r).id level.orders ≡ none
    → add_order s r level ≡ some after
    → remove_order s (s.cell r).id after ≡ (level, true)
unfolding add_order remove_order
remove_order-add_order s r level after fits fits' absent e =
    ground (arith, find_order-append s r level.orders absent)

module _ (s : Store) (r : Ref) (q : Quantity) where
  total_remaining-fill_absent :
      (xs : List Ref)
      → count r xs ≡ 0
      → total_remaining (modify s r (fill_quantity q)) xs ≡ total_remaining s xs
  unfolding total_remaining fill_quantity
  total_remaining-fill_absent [] h = refl
  total_remaining-fill_absent (x ∷ xs) h = ground (arith, total_remaining-fill_absent xs)

  -- A fill of an order that stands once in the queue takes its part off the sum.
  pub total_remaining-fill :
      (xs : List Ref)
      → count r xs ≡ 1
      → q ≤ remaining s r
      → total_remaining (modify s r (fill_quantity q)) xs + q ≡ total_remaining s xs
  unfolding total_remaining fill_quantity
  total_remaining-fill [] h le = absurd (omega arith)
  total_remaining-fill (x ∷ xs) h le =
      ground (arith, total_remaining-fill xs, total_remaining-fill_absent xs)

  -- After a fill, by at most its remaining quantity, of an order that stands once in the queue
  -- and is the first there with its ID, updateQuantity makes the level's total right again,
  -- whether or not the order leaves the queue.
  pub update_quantity-IsTotalled :
      (level : PriceLevel)
      → FitsWords s
      → IsTotalled s level
      → find_order (modify s r (fill_quantity q)) (s.cell r).id level.orders ≡ some r
      → count r level.orders ≡ 1
      → q ≤ remaining s r
      → let s' = modify s r (fill_quantity q) in
        IsTotalled s' (update_quantity s' (s.cell r).id q level)
  unfolding update_quantity
  update_quantity-IsTotalled level fits t found once le =
      let s' = modify s r (fill_quantity q) in
      rw (found, update_quantity)
        (ground (
          arith,
          fits r,
          total_remaining-fill level.orders once le,
          total_remaining-erase_order s' (s.cell r).id r level.orders found,
        ))
