-- ===== src/Core/Order/Match.antt =====
-- Order::canMatch: which pairs of orders may trade.
use text.Mathlib.TextEquality.{eq_iff}
use high_performance_trading.Base.{◌<◌, ◌≡◌, ◌↔◌, ◌⊎◌, true, arith}
use high_performance_trading.Base.Int.{ltb_ℤ, ◌≤ℤ◌}
use high_performance_trading.Core.Types.{buy, sell, is_market}
use high_performance_trading.Core.Order.{Order, can_match}

-- canMatch is symmetric.
pub can_match_comm : (a b : Order) → can_match a b ≡ can_match b a
unfolding can_match
can_match_comm a b = ground (arith, eq_iff a.symbol b.symbol, eq_iff b.symbol a.symbol)

-- A buy and a sell order match exactly when they are of one symbol, both have quantity left, and
-- one is a market order or the bid reaches the ask.
pub can_match_iff :
    (b s : Order)
    → b.side ≡ buy
    → s.side ≡ sell
    → (can_match b s ≡ true) ↔ (
        (b.symbol ≡ s.symbol)
        × (0 < b.remaining_quantity)
        × (0 < s.remaining_quantity)
        × ((is_market b.order_type ≡ true)
            ⊎ ((is_market s.order_type ≡ true) ⊎ (s.price ≤ℤ b.price))))
unfolding can_match ltb_ℤ
can_match_iff b s p q = ground (arith, eq_iff b.symbol s.symbol)
