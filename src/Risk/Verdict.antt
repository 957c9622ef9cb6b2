-- ===== src/Risk/Verdict.antt =====
-- RiskManager::validateOrder against a list of limits that is written without the helpers of the code:
-- the price of an order by its type, and the position it leads to as an exact sum or difference.
use high_performance_trading.Base.{
  ℕ, ◌+◌, ◌<◌, ◌≡◌, ◌≢◌, ◌^◌, refl, sym, ◌∙◌, Bool, true, false, arith, ltb, if◌then◌else◌,
}
use high_performance_trading.Base.Int.{ℤ, pos, magnitude, ltb_ℤ, ◌+ℤ◌, ◌-ℤ◌}
use high_performance_trading.Core.Double.{Double}
use high_performance_trading.Core.Types.{
  Price, Quantity, Symbol, Side, buy, sell, OrderType, market, limit, stop, stop_limit,
  price_to_double, is_market,
}
use high_performance_trading.Core.Order.{Order}
use high_performance_trading.Risk.{
  RiskManager, ValidationResult, accepted, rejected_order_size, rejected_order_value,
  rejected_position_limit, rejected_position_value, rejected_daily_loss, rejected_drawdown,
  rejected_rate_limit, abs_ℤ, moved, validate_order, validate_position, get_position,
  get_current_drawdown,
}
use high_performance_trading.Risk.Positions.{get_position-validate_order}
use high_performance_trading.Risk.Limits.{verdict, moved_exact, abs_exact}

-- The order in which the limits count: an order is rejected for the first one that it breaks.
abbrev pub rank : ValidationResult → ℕ
rank rejected_order_size = 0
rank rejected_order_value = 1
rank rejected_position_limit = 2
rank rejected_position_value = 3
rank rejected_daily_loss = 4
rank rejected_drawdown = 5
rank rejected_rate_limit = 6
rank accepted = 7

-- The result that the code's chain of tests gives.
abbrev chosen : Bool → Bool → Bool → Bool → Bool → Bool → ValidationResult
chosen a b c e f g =
    if a
    then rejected_order_size
    else if b
    then rejected_order_value
    else if c
    then rejected_position_limit
    else if e
    then rejected_position_value
    else if f
    then rejected_daily_loss
    else if g
    then rejected_drawdown
    else accepted

abbrev test : Bool → Bool → Bool → Bool → Bool → Bool → ValidationResult → Bool
test a b c e f g accepted = false
test a b c e f g rejected_order_size = a
test a b c e f g rejected_order_value = b
test a b c e f g rejected_position_limit = c
test a b c e f g rejected_position_value = e
test a b c e f g rejected_daily_loss = f
test a b c e f g rejected_drawdown = g
test a b c e f g rejected_rate_limit = false

-- The first result for which a test holds, or acceptance.
abbrev pub IsFirst : (ValidationResult → Bool) → ValidationResult → Type 0
IsFirst breaks v =
    (v ≢ accepted → breaks v ≡ true) × ((r : ValidationResult) → rank r < rank v → breaks r ≡ false)

chosen_breaks :
    (a b c e f g : Bool)
    → chosen a b c e f g ≢ accepted
    → test a b c e f g (chosen a b c e f g) ≡ true
chosen_breaks true b c e f g h = refl
chosen_breaks false true c e f g h = refl
chosen_breaks false false true e f g h = refl
chosen_breaks false false false true f g h = refl
chosen_breaks false false false false true g h = refl
chosen_breaks false false false false false true h = refl
chosen_breaks false false false false false false h = absurd (h refl)

earlier_held :
    (a b c e f g : Bool) (r : ValidationResult)
    → rank r < rank (chosen a b c e f g)
    → test a b c e f g r ≡ false
earlier_held a b c e f g accepted h = refl
earlier_held a b c e f g rejected_order_size h = ground (arith, h)
earlier_held a b c e f g rejected_order_value h = ground (arith, h)
earlier_held a b c e f g rejected_position_limit h = ground (arith, h)
earlier_held a b c e f g rejected_position_value h = ground (arith, h)
earlier_held a b c e f g rejected_daily_loss h = ground (arith, h)
earlier_held a b c e f g rejected_drawdown h = ground (arith, h)
earlier_held a b c e f g rejected_rate_limit h = refl

-- The chain of tests answers the first that holds.
chosen-IsFirst :
    (t : ValidationResult → Bool) (v : ValidationResult)
    → t accepted ≡ false
    → t rejected_rate_limit ≡ false
    → v
      ≡ chosen
          (t rejected_order_size)
          (t rejected_order_value)
          (t rejected_position_limit)
          (t rejected_position_value)
          (t rejected_daily_loss)
          (t rejected_drawdown)
    → IsFirst t v
chosen-IsFirst t v none_accepted no_rate e = rw e (
  λ ne. sym (same _) ∙ chosen_breaks _ _ _ _ _ _ ne,
  λ r h. sym (same r) ∙ earlier_held _ _ _ _ _ _ r h,
)
  where
    same :
        (r : ValidationResult)
        → test
            (t rejected_order_size)
            (t rejected_order_value)
            (t rejected_position_limit)
            (t rejected_position_value)
            (t rejected_daily_loss)
            (t rejected_drawdown)
            r
          ≡ t r
    same accepted = sym none_accepted
    same rejected_order_size = refl
    same rejected_order_value = refl
    same rejected_position_limit = refl
    same rejected_position_value = refl
    same rejected_daily_loss = refl
    same rejected_drawdown = refl
    same rejected_rate_limit = sym no_rate

module _ {D : Type 0} (d : Double D) where
  -- A market order counts at the current price, any other at its own, in cents.
  abbrev pub quoted : OrderType → D → Price → D
  quoted market current_price price = current_price
  quoted limit current_price price = d.div (d.of_int price) (d.of_int (pos 100))
  quoted stop current_price price = d.div (d.of_int price) (d.of_int (pos 100))
  quoted stop_limit current_price price = d.div (d.of_int price) (d.of_int (pos 100))

  -- The size of the position that a buy or a sale of so many leads to.
  abbrev pub size_after : Side → Quantity → ℤ → ℕ
  size_after buy qty held = magnitude (held +ℤ pos qty)
  size_after sell qty held = magnitude (held -ℤ pos qty)

  -- Whether an order breaks the limit that a result names.
  abbrev pub breaks : Order → D → RiskManager D → ValidationResult → Bool
  breaks o current_price m accepted = false
  breaks o current_price m rejected_order_size = ltb m.limits.max_order_size o.quantity
  breaks o current_price m rejected_order_value =
      d.lt m.limits.max_order_value
        (d.mul (d.of_nat o.quantity) (quoted o.order_type current_price o.price))
  breaks o current_price m rejected_position_limit =
      ltb_ℤ m.limits.max_position_size
        (pos (size_after o.side o.quantity (get_position d o.symbol m).quantity))
  breaks o current_price m rejected_position_value = d.lt m.limits.max_position_value (
      d.mul (d.of_int (pos (size_after o.side o.quantity (get_position d o.symbol m).quantity)))
        (quoted o.order_type current_price o.price))
  breaks o current_price m rejected_daily_loss = d.lt m.daily_pnl (d.neg m.limits.max_daily_loss)
  breaks o current_price m rejected_drawdown =
      d.lt m.limits.max_drawdown (d.sub m.peak_equity m.current_equity)
  breaks o current_price m rejected_rate_limit = false

  quoted_by_type :
      (type : OrderType) (current_price : D) (price : Price)
      → (if is_market type then current_price else price_to_double d price)
        ≡ quoted type current_price price
  unfolding price_to_double
  quoted_by_type market current_price price = refl
  quoted_by_type limit current_price price = refl
  quoted_by_type stop current_price price = refl
  quoted_by_type stop_limit current_price price = refl

  reached-size_after :
      (side : Side) (qty : Quantity) (held : ℤ)
      → magnitude held + qty < 2 ^ 63
      → abs_ℤ (moved side qty held) ≡ pos (size_after side qty held)
  reached-size_after buy qty held h =
      rw (moved_exact buy qty held h) (abs_exact (held +ℤ pos qty) (unfold ◌+ℤ◌ in ground arith))
  reached-size_after sell qty held h =
      rw (moved_exact sell qty held h) (abs_exact (held -ℤ pos qty) (unfold ◌-ℤ◌ in ground arith))

  -- If the sum of the position's size and the order's quantity is below 2^63, a validation gives
  -- the first limit that the order breaks, in the order of its size, its value, the position, the
  -- position's value, the daily loss and the drawdown, and accepts if it breaks none; a market
  -- order counts at the current price and any other at its own, a buy adds to the position and a
  -- sale subtracts, and the rate limit is not among them; no position changes.
  pub validate_order_verdict :
      (order : Order) (current_price : D) (m : RiskManager D)
      → magnitude (get_position d order.symbol m).quantity + order.quantity < 2 ^ 63
      → let (m', v) = validate_order d order current_price m in
        IsFirst (breaks order current_price m) v
        × ((symbol : Symbol) → get_position d symbol m' ≡ get_position d symbol m)
  unfolding validate_position get_current_drawdown
  validate_order_verdict order current_price m fits =
      let price = quoted_by_type order.order_type current_price order.price in
      let size =
        reached-size_after order.side order.quantity (get_position d order.symbol m).quantity
          fits in
      (
        chosen-IsFirst (breaks order current_price m) _ refl refl
            (verdict d order current_price m ∙ rw (price, size)),
        get_position-validate_order d order current_price m,
      )
