-- ===== src/Risk/Limits.antt =====
-- RiskManager::validateOrder: what it accepts, and that accepted orders keep the position limit.
use text.Mathlib.TextEquality.{eq_iff}
use high_performance_trading.Base.{
  ◌+◌, ◌<◌, ◌≤◌, ◌≡◌, ◌↔◌, ◌^◌, Bool, refl, sym, subst, ◌∙◌, false, arith, Bool-cases, inl, inr,
  ltb, if◌then◌else◌,
}
use high_performance_trading.Base.Int.{ℤ, pos, magnitude, ltb_ℤ, ◌≤ℤ◌, ◌+ℤ◌, ◌-ℤ◌}
use high_performance_trading.Base.Word.{of_word-to_word}
use high_performance_trading.Core.Double.{Double}
use high_performance_trading.Core.Types.{Side, buy, sell, Quantity, is_buy}
use high_performance_trading.Core.Order.{Order}
use high_performance_trading.Core.Trade.{Trade}
use high_performance_trading.Risk.{
  RiskManager, ValidationResult, accepted, rejected_order_size, rejected_order_value,
  rejected_position_limit, rejected_position_value, rejected_daily_loss, rejected_drawdown, abs_ℤ,
  moved, order_price, validate_position, validate_order, get_position, get_current_drawdown, touch,
}
use high_performance_trading.Risk.Update.{update_position}
use high_performance_trading.Risk.Positions.{
  get_position-touch, get_position-validate_order, update_position_moves,
}

-- `ltb_ℤ` as a comparison.
ltb_ℤ_iff : (a b : ℤ) → (ltb_ℤ b a ≡ false) ↔ (a ≤ℤ b)
unfolding ltb_ℤ
ltb_ℤ_iff a b = ground arith

validate_position_iff :
    {D : Type 0} (d : Double D) (quantity : ℤ) (price : D) (m : RiskManager D)
    → (validate_position d quantity price m ≡ accepted) ↔ (
        (ltb_ℤ m.limits.max_position_size (abs_ℤ quantity) ≡ false)
        × (d.lt m.limits.max_position_value (d.mul (d.of_int (abs_ℤ quantity)) price) ≡ false)
        × (d.lt m.daily_pnl (d.neg m.limits.max_daily_loss) ≡ false)
        × (d.lt m.limits.max_drawdown (d.sub m.peak_equity m.current_equity) ≡ false))
unfolding validate_position get_current_drawdown
validate_position_iff d quantity price m = checks _ _ _ _
  where
    checks :
        (a b c e : Bool)
        → ((if a
              then rejected_position_limit
              else if b
              then rejected_position_value
              else if c
              then rejected_daily_loss
              else if e
              then rejected_drawdown
              else accepted)
            ≡ accepted)
          ↔ ((a ≡ false) × (b ≡ false) × (c ≡ false) × (e ≡ false))
    checks a b c e = ground arith

accepted_through :
    (a b : Bool) (v : ValidationResult)
    → ((if a then rejected_order_size else if b then rejected_order_value else v) ≡ accepted)
      ↔ ((a ≡ false) × (b ≡ false) × (v ≡ accepted))
accepted_through a b v = ground arith

module _ {D : Type 0} (d : Double D) (order : Order) (current_price : D) (m : RiskManager D) where
  -- The quantity that the order would lead to.
  abbrev pub reached : ℤ
  reached = moved order.side order.quantity (get_position d order.symbol m).quantity

  -- An order that breaks no limit.
  pub record IsAcceptable : Type 0 where
    pub size : order.quantity ≤ m.limits.max_order_size
    pub value :
        d.lt m.limits.max_order_value
          (d.mul (d.of_nat order.quantity) (order_price d order current_price))
        ≡ false
    pub position : abs_ℤ reached ≤ℤ m.limits.max_position_size
    pub position_value :
        d.lt m.limits.max_position_value
          (d.mul (d.of_int (abs_ℤ reached)) (order_price d order current_price))
        ≡ false
    pub daily_loss : d.lt m.daily_pnl (d.neg m.limits.max_daily_loss) ≡ false
    pub drawdown : d.lt m.limits.max_drawdown (d.sub m.peak_equity m.current_equity) ≡ false

  pub verdict : (validate_order d order current_price m).1 ≡ (
      if ltb m.limits.max_order_size order.quantity
      then rejected_order_size
      else if d.lt m.limits.max_order_value
          (d.mul (d.of_nat order.quantity) (order_price d order current_price))
      then rejected_order_value
      else validate_position d reached (order_price d order current_price) m)
  unfolding validate_order
  verdict = elim (Bool-cases (ltb m.limits.max_order_size order.quantity)) [
    | inl e ↦ rw e
    | inr e ↦
        elim (Bool-cases (
          d.lt m.limits.max_order_value
            (d.mul (d.of_nat order.quantity) (order_price d order current_price)))) [
              | inl f ↦ rw (e, f)
              | inr f ↦
                  rw (e, f, get_position-touch d order.symbol order.symbol m)
                    (validate_position-touch reached (order_price d order current_price))
            ]
  ]
    where
      validate_position-touch :
          (quantity : ℤ) (price : D)
          → validate_position d quantity price (touch d order.symbol m)
            ≡ validate_position d quantity price m
      validate_position-touch quantity price =
          unfold validate_position touch get_current_drawdown in refl

  -- An order is accepted exactly if it breaks none of the limits on its size, its value, the
  -- position, the position's value, the daily loss and the drawdown; the rate limit is not among
  -- them.
  pub validate_order_accepts_iff :
      ((validate_order d order current_price m).1 ≡ accepted) ↔ IsAcceptable
  validate_order_accepts_iff = (there, back)
    where
      there : (validate_order d order current_price m).1 ≡ accepted → IsAcceptable
      there e =
          let (size, value, rest) =
            (accepted_through (ltb m.limits.max_order_size order.quantity) _ _).0
              (sym verdict ∙ e) in
          let (position, position_value, daily_loss, drawdown) =
            (validate_position_iff d reached (order_price d order current_price) m).0 rest in
          record {
            size = ground (arith, size);
            value = value;
            position = (ltb_ℤ_iff _ _).0 position;
            position_value = position_value;
            daily_loss = daily_loss;
            drawdown = drawdown;
          }

      back : IsAcceptable → (validate_order d order current_price m).1 ≡ accepted
      back a =
          verdict
          ∙ (accepted_through (ltb m.limits.max_order_size order.quantity) _ _).1 (
            ground (arith, a.size),
            a.value,
            (validate_position_iff d reached (order_price d order current_price) m).1
                ((ltb_ℤ_iff _ _).1 a.position, a.position_value, a.daily_loss, a.drawdown),
          )

-- A sum or a difference that stays within `int64_t` is exact.
pub moved_exact :
    (side : Side) (qty : Quantity) (quantity : ℤ)
    → magnitude quantity + qty < 2 ^ 63
    → moved side qty quantity ≡ (if is_buy side then quantity +ℤ pos qty else quantity -ℤ pos qty)
moved_exact buy qty quantity h = of_word-to_word (quantity +ℤ pos qty) (unfold ◌+ℤ◌ in ground arith)
moved_exact sell qty quantity h =
    of_word-to_word (quantity -ℤ pos qty) (unfold ◌-ℤ◌ in ground arith)

pub abs_exact :
    (quantity : ℤ) → magnitude quantity < 2 ^ 63 → abs_ℤ quantity ≡ pos (magnitude quantity)
abs_exact quantity h = of_word-to_word (pos (magnitude quantity)) (ground arith)

-- What lies between two quantities within a limit is within it.
part_within :
    (side : Side) (part full : Quantity) (quantity max_size : ℤ)
    → part ≤ full
    → pos (magnitude quantity) ≤ℤ max_size
    → pos (magnitude (if is_buy side then quantity +ℤ pos full else quantity -ℤ pos full))
      ≤ℤ max_size
    → pos (magnitude (if is_buy side then quantity +ℤ pos part else quantity -ℤ pos part))
      ≤ℤ max_size
unfolding ◌+ℤ◌ ◌-ℤ◌
part_within buy part full quantity max_size le held reaches = ground arith
part_within sell part full quantity max_size le held reaches = ground arith

moved_within :
    (side : Side) (part full : Quantity) (quantity max_size : ℤ)
    → part ≤ full
    → magnitude quantity + full < 2 ^ 63
    → pos (magnitude quantity) ≤ℤ max_size
    → abs_ℤ (moved side full quantity) ≤ℤ max_size
    → pos (magnitude (moved side part quantity)) ≤ℤ max_size
moved_within side part full quantity max_size le fits held reaches =
    subst (λ (q : ℤ). pos (magnitude q) ≤ℤ max_size)
      (sym (moved_exact side part quantity (omega arith)))
      (part_within side part full quantity max_size le held (
        subst (λ (q : ℤ). q ≤ℤ max_size)
          (abs_exact (if is_buy side then quantity +ℤ pos full else quantity -ℤ pos full)
            (step_fits side))
          (subst (λ (q : ℤ). abs_ℤ q ≤ℤ max_size) (moved_exact side full quantity fits) reaches)))
  where
    step_fits :
        (side' : Side)
        → magnitude (if is_buy side' then quantity +ℤ pos full else quantity -ℤ pos full) < 2 ^ 63
    step_fits buy = unfold ◌+ℤ◌ in ground arith
    step_fits sell = unfold ◌-ℤ◌ in ground arith

-- If the position is within the maximum position size and no sum leaves int64_t, a trade of any
-- part of an accepted order, on its side, leaves the position within the maximum.
pub accepted_keeps_limit :
    {D : Type 0} (d : Double D) (order : Order) (current_price : D) (trade : Trade)
    (m : RiskManager D)
    → (validate_order d order current_price m).1 ≡ accepted
    → trade.symbol ≡ order.symbol
    → trade.quantity ≤ order.quantity
    → magnitude (get_position d order.symbol m).quantity + order.quantity < 2 ^ 63
    → pos (magnitude (get_position d order.symbol m).quantity) ≤ℤ m.limits.max_position_size
    → let m' = (validate_order d order current_price m).0 in
      pos (magnitude (get_position d order.symbol (update_position d trade order.side m')).quantity)
      ≤ℤ m.limits.max_position_size
accepted_keeps_limit d order current_price trade m ok symbol le fits held =
    let m' = (validate_order d order current_price m).0 in
    let held_now = get_position d order.symbol m in
    let after : (get_position d order.symbol (update_position d trade order.side m')).quantity
        ≡ moved order.side trade.quantity held_now.quantity =
      update_position_moves d trade order.side m' order.symbol
      ∙ rw (
        (eq_iff trade.symbol order.symbol).1 symbol,
        get_position-validate_order d order current_price m order.symbol,
      ) in
    subst (λ (q : ℤ). pos (magnitude q) ≤ℤ m.limits.max_position_size) (sym after)
      (moved_within order.side trade.quantity order.quantity held_now.quantity
        m.limits.max_position_size le fits held
        ((validate_order_accepts_iff d order current_price m).0 ok).position)
