-- ===== src/Book/Views/Depth.antt =====
-- OrderBook::getBidDepth and getAskDepth.
use high_performance_trading.Base.{ℕ, zero, suc, ◌+◌, ◌≡◌, refl, [], ◌∷◌, arith, take, map}
use high_performance_trading.Book.{Levels, OrderBook}
use high_performance_trading.Book.Views.{depth_of, depth_from, get_bid_depth, get_ask_depth}

depth_from-take :
    (levels count left : ℕ) (m : Levels)
    → levels ≡ count + left
    → depth_from levels count m ≡ map depth_of (take left m)
unfolding depth_from
depth_from-take levels count zero [] e = refl
depth_from-take levels count (suc left) [] e = refl
depth_from-take levels count zero (x ∷ m) e = ground arith
depth_from-take levels count (suc left) (x ∷ m) e =
    ground (arith, depth_from-take levels (count + 1) left m)

-- The depth of either side is that of its first levels, as many as were asked for or there are.
pub get_depth_take :
    (levels : ℕ) (b : OrderBook)
    → (get_bid_depth levels b ≡ map depth_of (take levels b.bids))
      × (get_ask_depth levels b ≡ map depth_of (take levels b.asks))
unfolding get_bid_depth get_ask_depth
get_depth_take levels b = (
  depth_from-take levels 0 levels b.bids (omega arith),
  depth_from-take levels 0 levels b.asks (omega arith),
)
