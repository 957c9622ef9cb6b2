-- ===== src/Risk/Update.antt =====
-- RiskManager::updatePosition and the other updates of the class.
use high_performance_trading.Base.{◌+◌, ◌%◌, Bool, none, some, List, [], ◌∷◌, if◌then◌else◌}
use high_performance_trading.Base.Int.{ℤ, pos, ltb_ℤ}
use high_performance_trading.Base.Word.{word, add64, to_word, of_word}
use high_performance_trading.Core.Double.{Double}
use high_performance_trading.Core.Types.{Quantity, Symbol, Side, buy, sell, price_to_double}
use high_performance_trading.Core.Trade.{Trade}
use text.Mathlib.Text.{◌==◌ as str_eq}
use high_performance_trading.Risk.{
  Position, RiskManager, abs_ℤ, min_ℤ, moved, find_position, put_position, get_position, touch,
  mark,
}

abbrev pub flipped : Side → ℤ → Bool
flipped buy quantity = ltb_ℤ (pos 0) quantity
flipped sell quantity = ltb_ℤ quantity (pos 0)

-- Whether a trade on a side works against the position.
abbrev pub against : Side → ℤ → Bool
against buy quantity = ltb_ℤ quantity (pos 0)
against sell quantity = ltb_ℤ (pos 0) quantity

module _ {D : Type 0} where
  abbrev pub count_qty : Side → Quantity → Position D → Position D
  count_qty buy qty p = record p { total_bought = add64 p.total_bought qty }
  count_qty sell qty p = record p { total_sold = add64 p.total_sold qty }

  unfoldable pub name_position : Symbol → Position D → Position D
  name_position symbol p = if str_eq p.symbol "" then record p { symbol = symbol } else p

module _ {D : Type 0} (d : Double D) where
  -- The average price of a position and a trade on the same side. The sum of the quantities is
  -- taken in `uint64_t`.
  unfoldable pub blended : ℤ → D → Quantity → D → D
  blended held average qty price =
      d.div (d.add (d.mul (d.of_int held) average) (d.mul (d.of_nat qty) price))
        (d.of_nat ((to_word held + qty) % word))

  -- The position after a trade that adds to it or opens it.
  unfoldable pub extend : Side → Quantity → D → Position D → Position D
  extend side qty price p =
      let held : ℤ = elim side [ buy ↦ p.quantity | sell ↦ abs_ℤ p.quantity ] in
      record p {
        average_price = blended held p.average_price qty price;
        quantity = moved side qty p.quantity;
      }

  -- The profit of a trade that closes a position or a part of it.
  unfoldable pub closing_pnl : Side → Quantity → D → Position D → D
  closing_pnl buy qty price p =
      d.mul (d.of_int (min_ℤ (of_word qty) (abs_ℤ p.quantity))) (d.sub p.average_price price)
  closing_pnl sell qty price p =
      d.mul (d.of_int (min_ℤ (of_word qty) p.quantity)) (d.sub price p.average_price)

  -- The position after a trade against it, which may turn it to the other side.
  unfoldable pub close : Side → Quantity → D → Position D → Position D
  close side qty price p =
      let quantity' = moved side qty p.quantity in
      record p {
        realized_pnl = d.add p.realized_pnl (closing_pnl side qty price p);
        quantity = quantity';
        average_price = if flipped side quantity' then price else p.average_price;
      }

  unfoldable pub apply_trade : Side → Quantity → D → Position D → Position D
  apply_trade side qty price p =
      let p' = count_qty side qty p in
      if against side p.quantity then close side qty price p' else extend side qty price p'

  -- `currentEquity_ += pos.unrealizedPnL` over the positions.
  unfoldable pub add_unrealized : D → List (Symbol × Position D) → D
  add_unrealized total [] = total
  add_unrealized total ((symbol, p) ∷ m) = add_unrealized (d.add total p.unrealized_pnl) m

  unfoldable pub update_equity : RiskManager D → RiskManager D
  update_equity m =
      let equity = add_unrealized m.daily_pnl m.positions in
      record m {
        current_equity = equity;
        peak_equity = if d.lt m.peak_equity equity then equity else m.peak_equity;
      }

  unfoldable pub update_position : Trade → Side → RiskManager D → RiskManager D
  update_position trade side m =
      let m' = touch d trade.symbol m in
      let p = name_position trade.symbol (get_position d trade.symbol m') in
      let price = price_to_double d trade.price in
      update_equity (record m' {
        positions =
            put_position trade.symbol (apply_trade side trade.quantity price p) m'.positions;
        daily_pnl =
            if against side p.quantity
            then d.add m'.daily_pnl (closing_pnl side trade.quantity price p)
            else m'.daily_pnl;
      })

  unfoldable pub update_unrealized_pnl : Symbol → D → RiskManager D → RiskManager D
  update_unrealized_pnl symbol current_price m = elim (find_position symbol m.positions) [
    | none ↦ m
    | some p ↦ record m { positions = put_position symbol (mark d current_price p) m.positions }
  ]

  unfoldable pub get_total_pnl : RiskManager D → D
  get_total_pnl m = add_unrealized m.daily_pnl m.positions

  unfoldable pub clear_realized : List (Symbol × Position D) → List (Symbol × Position D)
  clear_realized [] = []
  clear_realized ((symbol, p) ∷ m) =
      (symbol, record p { realized_pnl = d.of_nat 0 }) ∷ clear_realized m

  unfoldable pub reset_daily : RiskManager D → RiskManager D
  reset_daily m = record m { daily_pnl = d.of_nat 0; positions = clear_realized m.positions }
