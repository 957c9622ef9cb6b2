-- ===== src/Book/Side.antt =====
-- One side of the book: its queue of orders, its invariant, and the abstract operations on the
-- queue that they stand for.
pub mod Insert
pub mod Remove
use high_performance_trading.Base.{
  ℕ, ◌<◌, ◌≡◌, false, List, [], ◌∷◌, ◌++◌, if◌then◌else◌, All, ◌==◌,
}
use high_performance_trading.Base.SortedMap.{KeyOrder, IsOrdered}
use high_performance_trading.Core.Types.{OrderId, Price, Symbol, Side}
use high_performance_trading.Store.{Ref, Terms}
use high_performance_trading.PriceLevel.{is_empty}
use high_performance_trading.Book.{Levels}

-- The orders of a side, best price first and oldest first at each price.
unfoldable pub queue : Levels → List Ref
queue [] = []
queue ((price, level) ∷ m) = level.orders ++ queue m

module _ (t : Ref → Terms) (next : Ref) (side : Side) (symbol : Symbol) where
  -- An order that belongs on this side of this book, at a price.
  abbrev pub Belongs : Price → Ref → Type 0
  Belongs price r =
      (r < next) × ((t r).price ≡ price) × ((t r).side ≡ side) × ((t r).symbol ≡ symbol)

  -- Each level stands under its own price, is not empty, and holds orders at that price.
  abbrev pub AreLevels : Levels → Type 0
  AreLevels [] = Unit {0}
  AreLevels ((price, level) ∷ m) =
      (level.price ≡ price)
      × (is_empty level ≡ false)
      × All (Belongs price) level.orders
      × AreLevels m

pub record IsSide (o : KeyOrder Price) (t : Ref → Terms) (next : Ref) (side : Side)
    (symbol : Symbol) (m : Levels) : Type 0 where
  pub ordered : IsOrdered o m
  pub levels : AreLevels t next side symbol m

-- Price-time priority: an order goes behind every order whose price is as good or better.
unfoldable pub enqueue : KeyOrder Price → (Ref → Terms) → Ref → List Ref → List Ref
enqueue o t r [] = r ∷ []
enqueue o t r (x ∷ xs) =
    if o.before (t r).price (t x).price then r ∷ x ∷ xs else x ∷ enqueue o t r xs
