-- ===== src/Risk.antt =====
-- include/risk/risk_manager.hpp: positions, limits and the class RiskManager.
pub mod Update
pub mod Positions
pub mod Limits
pub mod Verdict
pub mod Account
pub mod Posting
pub mod Replay
pub mod Ledger
use text.Mathlib.Text.{◌==◌ as str_eq}
use high_performance_trading.Base.{
  ℕ, ◌+◌, ◌<◌, Bool, true, false, not, Option, none, some, List, [], ◌∷◌, String, ltb,
  if◌then◌else◌, map,
}
use high_performance_trading.Base.Int.{ℤ, pos, ltb_ℤ, eqb_ℤ, magnitude, ◌+ℤ◌, ◌-ℤ◌}
use high_performance_trading.Base.Word.{add64, to_word, of_word}
use high_performance_trading.Core.Double.{Double}
use high_performance_trading.Core.Types.{
  Price, Quantity, Symbol, Side, is_buy, is_market, price_to_double,
}
use high_performance_trading.Core.Order.{Order}
use high_performance_trading.Core.Trade.{Trade}

pub record Position (D : Type 0) : Type 0 where
  pub symbol : Symbol
  pub quantity : ℤ
  pub average_price : D
  pub realized_pnl : D
  pub unrealized_pnl : D
  pub total_bought : Quantity
  pub total_sold : Quantity

pub record RiskLimits (D : Type 0) : Type 0 where
  pub max_order_size : Quantity
  pub max_order_value : D
  pub max_position_size : ℤ
  pub max_position_value : D
  pub max_daily_loss : D
  pub max_drawdown : D
  pub max_orders_per_second : ℤ

pub data ValidationResult : Type 0 where
  accepted rejected_order_size rejected_order_value rejected_position_limit : ValidationResult
  rejected_position_value rejected_daily_loss rejected_drawdown rejected_rate_limit :
      ValidationResult

-- The map from symbols to positions, in the order in which a loop meets its entries.
pub record RiskManager (D : Type 0) : Type 0 where
  pub limits : RiskLimits D
  pub positions : List (Symbol × Position D)
  pub daily_pnl : D
  pub peak_equity : D
  pub current_equity : D

-- `int64_t` results of additions and subtractions, with the wrap of the machine, and `std::abs`.
abbrev pub wrap_ℤ : ℤ → ℤ
wrap_ℤ a = of_word (to_word a)

abbrev pub abs_ℤ : ℤ → ℤ
abs_ℤ a = wrap_ℤ (pos (magnitude a))

abbrev pub min_ℤ : ℤ → ℤ → ℤ
min_ℤ a b = if ltb_ℤ b a then b else a

-- The quantity that an order or a trade leads to.
abbrev pub moved : Side → Quantity → ℤ → ℤ
moved side qty quantity =
    if is_buy side then wrap_ℤ (quantity +ℤ pos qty) else wrap_ℤ (quantity -ℤ pos qty)

abbrev pub validation_result_to_string : ValidationResult → String
validation_result_to_string accepted = "ACCEPTED"
validation_result_to_string rejected_order_size = "REJECTED: Order size too large"
validation_result_to_string rejected_order_value = "REJECTED: Order value too large"
validation_result_to_string rejected_position_limit = "REJECTED: Position limit exceeded"
validation_result_to_string rejected_position_value = "REJECTED: Position value too large"
validation_result_to_string rejected_daily_loss = "REJECTED: Daily loss limit exceeded"
validation_result_to_string rejected_drawdown = "REJECTED: Drawdown limit exceeded"
validation_result_to_string rejected_rate_limit = "REJECTED: Rate limit exceeded"

module _ {D : Type 0} where
  abbrev pub is_flat : Position D → Bool
  is_flat p = eqb_ℤ p.quantity (pos 0)

  abbrev pub is_long : Position D → Bool
  is_long p = ltb_ℤ (pos 0) p.quantity

  abbrev pub is_short : Position D → Bool
  is_short p = ltb_ℤ p.quantity (pos 0)

  unfoldable pub find_position : Symbol → List (Symbol × Position D) → Option (Position D)
  find_position symbol [] = none
  find_position symbol ((key, p) ∷ m) =
      let rest = find_position symbol m in if str_eq key symbol then some p else rest

  -- An assignment through `positions_[symbol]`.
  unfoldable pub put_position :
      Symbol → Position D → List (Symbol × Position D) → List (Symbol × Position D)
  put_position symbol p [] = (symbol, p) ∷ []
  put_position symbol p ((key, q) ∷ m) =
      let rest = put_position symbol p m in
      if str_eq key symbol then (key, p) ∷ m else (key, q) ∷ rest

  abbrev pub set_limits : RiskLimits D → RiskManager D → RiskManager D
  set_limits limits m = record m { limits = limits }

module _ {D : Type 0} (d : Double D) where
  -- `Position(sym)`; `Position()` is the same with the empty symbol.
  unfoldable pub make_position : Symbol → Position D
  make_position symbol = record {
    symbol = symbol;
    quantity = pos 0;
    average_price = d.of_nat 0;
    realized_pnl = d.of_nat 0;
    unrealized_pnl = d.of_nat 0;
    total_bought = 0;
    total_sold = 0;
  }

  unfoldable pub get_market_value : D → Position D → D
  get_market_value current_price p = d.mul (d.of_int (abs_ℤ p.quantity)) current_price

  unfoldable pub mark : D → Position D → Position D
  mark current_price p =
      if eqb_ℤ p.quantity (pos 0) then record p { unrealized_pnl = d.of_nat 0 } else record p {
        unrealized_pnl = d.mul (d.of_int p.quantity) (d.sub current_price p.average_price);
      }

  unfoldable pub default_limits : RiskLimits D
  default_limits = record {
    max_order_size = 10000;
    max_order_value = d.of_nat 1000000;
    max_position_size = pos 50000;
    max_position_value = d.of_nat 5000000;
    max_daily_loss = d.of_nat 100000;
    max_drawdown = d.of_nat 200000;
    max_orders_per_second = pos 100;
  }

  unfoldable pub make_risk_manager : RiskLimits D → RiskManager D
  make_risk_manager limits = record {
    limits = limits;
    positions = [];
    daily_pnl = d.of_nat 0;
    peak_equity = d.of_nat 0;
    current_equity = d.of_nat 0;
  }

  unfoldable pub get_position : Symbol → RiskManager D → Position D
  get_position symbol m = elim (find_position symbol m.positions) [
    | none ↦ make_position ""
    | some p ↦ p
  ]

  -- `positions_[symbol]`, which makes a default entry for a new symbol.
  unfoldable pub touch : Symbol → RiskManager D → RiskManager D
  touch symbol m = record m {
    positions = elim (find_position symbol m.positions) [
      | none ↦ put_position symbol (make_position "") m.positions
      | some p ↦ m.positions
    ];
  }

  unfoldable pub get_current_drawdown : RiskManager D → D
  get_current_drawdown m = d.sub m.peak_equity m.current_equity

  abbrev pub order_price : Order → D → D
  order_price order current_price =
      if is_market order.order_type then current_price else price_to_double d order.price

  -- The checks from the position on, at the quantity that the order would lead to.
  unfoldable pub validate_position : ℤ → D → RiskManager D → ValidationResult
  validate_position new_quantity price m =
      if ltb_ℤ m.limits.max_position_size (abs_ℤ new_quantity)
      then rejected_position_limit
      else if d.lt m.limits.max_position_value (d.mul (d.of_int (abs_ℤ new_quantity)) price)
      then rejected_position_value
      else if d.lt m.daily_pnl (d.neg m.limits.max_daily_loss)
      then rejected_daily_loss
      else if d.lt m.limits.max_drawdown (get_current_drawdown m)
      then rejected_drawdown
      else accepted

  unfoldable pub validate_order : Order → D → RiskManager D → RiskManager D × ValidationResult
  validate_order order current_price m =
      let price = order_price order current_price in
      if ltb m.limits.max_order_size order.quantity
      then (m, rejected_order_size)
      else if d.lt m.limits.max_order_value (d.mul (d.of_nat order.quantity) price)
      then (m, rejected_order_value)
      else (let m' = touch order.symbol m in
          let position = get_position order.symbol m' in
          (m', validate_position (moved order.side order.quantity position.quantity) price m'))
