-- ===== src/PriceLevel.antt =====
-- include/engine/price_level.hpp: the class PriceLevel. The deque holds references into the store.
pub mod Totals
use high_performance_trading.Base.{
  ℕ, ◌≡◌, Bool, true, false, Option, none, some, List, [], ◌∷◌, ◌++◌, ◌==◌, if◌then◌else◌, length,
  head?,
}
use high_performance_trading.Base.Int.{eqb_ℤ}
use high_performance_trading.Base.Word.{add64, sub64}
use high_performance_trading.Core.Types.{OrderId, Price, Quantity}
use high_performance_trading.Store.{Ref, Store, remaining}

pub record PriceLevel : Type 0 where
  pub price : Price
  pub total_quantity : Quantity
  pub orders : List Ref

abbrev pub make_level : Price → PriceLevel
make_level price = record { price = price; total_quantity = 0; orders = [] }

-- `none` is the exception of an order at another price.
unfoldable pub add_order : Store → Ref → PriceLevel → Option PriceLevel
add_order s r level =
    if eqb_ℤ (s.cell r).price level.price
    then some (record level {
      total_quantity = add64 level.total_quantity (remaining s r);
      orders = level.orders ++ (r ∷ []);
    })
    else none

-- `std::find_if` by the order ID.
unfoldable pub find_order : Store → OrderId → List Ref → Option Ref
find_order s id [] = none
find_order s id (r ∷ rs) = if (s.cell r).id == id then some r else find_order s id rs

-- `orders_.erase(it)` at the order that `find_order` stops at.
unfoldable pub erase_order : Store → OrderId → List Ref → List Ref
erase_order s id [] = []
erase_order s id (r ∷ rs) = if (s.cell r).id == id then rs else r ∷ erase_order s id rs

unfoldable pub remove_order : Store → OrderId → PriceLevel → PriceLevel × Bool
remove_order s id level = elim (find_order s id level.orders) [
  | none ↦ (level, false)
  | some r ↦ (
    record level {
      total_quantity = sub64 level.total_quantity (remaining s r);
      orders = erase_order s id level.orders;
    },
    true,
  )
]

unfoldable pub update_quantity : Store → OrderId → Quantity → PriceLevel → PriceLevel
update_quantity s id filled level = elim (find_order s id level.orders) [
  | none ↦ level
  | some r ↦ record level {
    total_quantity = sub64 level.total_quantity filled;
    orders = if remaining s r == 0 then erase_order s id level.orders else level.orders;
  }
]

abbrev pub get_front_order : PriceLevel → Option Ref
get_front_order level = head? level.orders

abbrev pub is_empty_list : List Ref → Bool
is_empty_list [] = true
is_empty_list (r ∷ rs) = false

abbrev pub is_empty : PriceLevel → Bool
is_empty level = is_empty_list level.orders

abbrev pub get_order_count : PriceLevel → ℕ
get_order_count level = length level.orders
