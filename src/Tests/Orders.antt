-- ===== src/Tests/Orders.antt =====
-- Orders and price levels at concrete inputs.
use high_performance_trading.Base.{
  ◌≡◌, refl, ◌↔◌, ◌+◌, ◌≤◌, ◌<◌, true, false, arith, [], ◌∷◌, min, some, none,
}
use high_performance_trading.Base.Int.{pos, ltb_ℤ, eqb_ℤ}
use high_performance_trading.Core.Types.{buy, sell, partially_filled, filled}
use high_performance_trading.Core.Order.{Order, fill_quantity, can_match}
use high_performance_trading.Core.Order.Fill.{IsValid, fill_quantity_lem}
use high_performance_trading.Store.{modify}
use high_performance_trading.PriceLevel.{PriceLevel, add_order, update_quantity, find_order}
use high_performance_trading.PriceLevel.Totals.{
  IsTotalled, FitsWords, total_remaining, update_quantity-IsTotalled,
}
use high_performance_trading.Tests.Data.{order_of, shop}

abbrev bid : Order
bid = order_of 1 buy 10100 50

abbrev ask : Order
ask = order_of 2 sell 10000 30

bid-IsValid : IsValid bid
bid-IsValid = record { within = omega arith; agrees = refl }

-- The two orders cross, and a bid below the ask does not.
crosses : can_match bid ask ≡ true
unfolding can_match ltb_ℤ
crosses = refl

apart : can_match (order_of 1 buy 9999 50) ask ≡ false
unfolding can_match ltb_ℤ
apart = refl

fill_quantity_lem_example :
    ((fill_quantity 20 bid).remaining_quantity + min 20 50 ≡ 50)
    × (((fill_quantity 20 bid).status ≡ filled) ↔ (50 ≤ 20))
    × (((fill_quantity 20 bid).status ≡ partially_filled) ↔ (20 < 50))
    × (record (fill_quantity 20 bid) { remaining_quantity = 50; status = bid.status } ≡ bid)
fill_quantity_lem_example = fill_quantity_lem 20 bid

-- The level of the two bids in the shop, and with the second one gone.
abbrev level : PriceLevel
level = record { price = pos 10000; total_quantity = 80; orders = 0 ∷ 1 ∷ [] }

abbrev first_only : PriceLevel
first_only = record { price = pos 10000; total_quantity = 50; orders = 0 ∷ [] }

shop-FitsWords : FitsWords shop
shop-FitsWords r = ground arith

level-IsTotalled : IsTotalled shop level
unfolding total_remaining
level-IsTotalled = refl

first_only-IsTotalled : IsTotalled shop first_only
unfolding total_remaining
first_only-IsTotalled = refl

added : add_order shop 1 first_only ≡ some level
unfolding add_order eqb_ℤ
added = refl

second_absent : find_order shop 2 first_only.orders ≡ none
unfolding find_order
second_absent = refl

second_found : find_order (modify shop 1 (fill_quantity 30)) 2 level.orders ≡ some 1
unfolding find_order fill_quantity
second_found = refl

update_quantity-IsTotalled_example :
    IsTotalled
      (modify shop 1 (fill_quantity 30))
      (update_quantity (modify shop 1 (fill_quantity 30)) 2 30 level)
update_quantity-IsTotalled_example =
    update_quantity-IsTotalled shop 1 30 level shop-FitsWords level-IsTotalled second_found refl
      (omega arith)
