-- ===== src/Tests/Risks.antt =====
-- The risk manager at concrete inputs.
use high_performance_trading.Base.{◌*◌, ◌/◌, ◌+◌, List, ◌≡◌, refl, true, false, arith, [], ◌∷◌}
use high_performance_trading.Base.Int.{
  ℤ, pos, negsuc, magnitude, sub_ℕ, pos_part, neg_part, ltb_ℤ, ◌≤ℤ◌, ◌+ℤ◌, ◌-ℤ◌,
}
use high_performance_trading.Base.Word.{to_word, of_word}
use high_performance_trading.Core.Types.{Symbol, Side, buy, sell, market, price_to_double}
use high_performance_trading.Core.Order.{Order}
use high_performance_trading.Core.Trade.{Trade}
use high_performance_trading.Risk.{
  Position, RiskLimits, RiskManager, rejected_order_value, make_risk_manager, validate_order,
  get_position, make_position, find_position,
}
use high_performance_trading.Risk.Update.{update_position, get_total_pnl}
use high_performance_trading.Risk.Limits.{
  IsAcceptable, validate_order_accepts_iff, accepted_keeps_limit,
}
use high_performance_trading.Risk.Verdict.{IsFirst, breaks, validate_order_verdict}
use high_performance_trading.Risk.Account.{Account, fresh_ledger, replay}
use high_performance_trading.Risk.Replay.{Tracks, update_positions, update_positions-replay}
use high_performance_trading.Core.Double.{Double}
use high_performance_trading.Risk.Ledger.{
  IsBalanced, update_position-IsBalanced, update_position-peak,
}
use high_performance_trading.Tests.Data.{order_of, whole}

abbrev limits : RiskLimits ℤ
limits = record {
  max_order_size = 100;
  max_order_value = pos 1000000;
  max_position_size = pos 100;
  max_position_value = pos 5000000;
  max_daily_loss = pos 1000;
  max_drawdown = pos 2000;
  max_orders_per_second = pos 100;
}

abbrev short_position : Position ℤ
short_position = record {
  symbol = "AAPL";
  quantity = negsuc 19;
  average_price = pos 10000;
  realized_pnl = pos 0;
  unrealized_pnl = pos 0;
  total_bought = 30;
  total_sold = 50;
}

abbrev desk : RiskManager ℤ
desk = record {
  limits = limits;
  positions = ("AAPL", short_position) ∷ [];
  daily_pnl = pos 0;
  peak_equity = pos 0;
  current_equity = pos 0;
}

abbrev order : Order
order = order_of 9 buy 10000 50

-- A part of the order's quantity, which covers the short position and turns it.
abbrev trade : Trade
trade = record {
  buy_order_id = 9;
  sell_order_id = 3;
  symbol = "AAPL";
  price = pos 9900;
  quantity = 45;
  timestamp = 8;
}

-- Integers with a product and a quotient that is cut off.
abbrev times : ℤ → ℤ → ℤ
times (pos a) (pos b) = pos (a * b)
times a b =
    sub_ℕ (pos_part a * pos_part b + neg_part a * neg_part b)
      (pos_part a * neg_part b + neg_part a * pos_part b)

abbrev over : ℤ → ℤ → ℤ
over (pos a) (pos b) = pos (a / b)
over a b = sub_ℕ 0 (magnitude a / magnitude b)

abbrev exact : Double ℤ
exact = record whole { mul = times; div = over }

held_exactly : (get_position exact "AAPL" desk).quantity ≡ negsuc 19
unfolding get_position find_position
held_exactly = refl

held : (get_position whole "AAPL" desk).quantity ≡ negsuc 19
unfolding get_position find_position
held = refl

-- The order takes the position from 20 short to 30 long.
order-IsAcceptable : IsAcceptable whole order (pos 0) desk
unfolding get_position find_position price_to_double to_word of_word ltb_ℤ ◌+ℤ◌ ◌-ℤ◌
order-IsAcceptable = record {
  size = omega arith;
  value = refl;
  position = ground arith;
  position_value = refl;
  daily_loss = refl;
  drawdown = refl;
}

accepted_keeps_limit_example :
    pos (
      magnitude
        (get_position whole "AAPL"
          (update_position whole trade buy (validate_order whole order (pos 0) desk).0)).quantity)
    ≤ℤ pos 100
accepted_keeps_limit_example =
    accepted_keeps_limit whole order (pos 0) trade desk
      ((validate_order_accepts_iff whole order (pos 0) desk).1 order-IsAcceptable) refl
      (omega arith) (rw held (omega arith)) (rw held (omega arith))

desk-IsBalanced : (symbol : Symbol) → IsBalanced (get_position whole symbol desk)
unfolding get_position find_position make_position to_word
desk-IsBalanced symbol = ground arith

update_position-IsBalanced_example :
    IsBalanced (get_position whole "AAPL" (update_position whole trade buy desk))
update_position-IsBalanced_example =
    update_position-IsBalanced whole trade buy desk desk-IsBalanced "AAPL"

below_asym : (a b : ℤ) → ltb_ℤ a b ≡ true → ltb_ℤ b a ≡ false
unfolding ltb_ℤ
below_asym a b h = ground arith

update_position-peak_example :
    let after = update_position whole trade buy desk in
    (after.current_equity ≡ get_total_pnl whole after)
    × (ltb_ℤ after.peak_equity after.current_equity ≡ false)
    × (ltb_ℤ after.peak_equity (pos 0) ≡ false)
update_position-peak_example = update_position-peak whole below_asym trade buy desk

-- A short position of 20 is opened at 100, and covered and turned at 99.
abbrev sale_and_cover : List (Trade × Side)
sale_and_cover =
    (record trade { price = pos 10000; quantity = 20 }, sell)
    ∷ (record trade { price = pos 9900; quantity = 30 }, buy)
    ∷ []

abbrev replayed : Account ℤ
unfolding replay
replayed = (replay exact sale_and_cover (fresh_ledger exact)).account "AAPL"

ten_long :
    (replayed.side ≡ buy)
    × (replayed.size ≡ 10)
    × (replayed.average ≡ pos 99)
    × (replayed.realized ≡ pos 20)
unfolding replay ◌-ℤ◌ ◌+ℤ◌
ten_long = (refl, refl, refl, refl)

update_positions-replay_example :
    Tracks exact
      (update_positions exact sale_and_cover (make_risk_manager exact limits))
      (replay exact sale_and_cover (fresh_ledger exact))
update_positions-replay_example = update_positions-replay exact limits sale_and_cover (omega arith)

-- A market order at the current price of 100.
abbrev market_order : Order
market_order = record order { order_type = market; price = pos 0 }

validate_order_verdict_example :
    let (m', v) = validate_order exact market_order (pos 100) desk in
    IsFirst (breaks exact market_order (pos 100) desk) v
    × ((symbol : Symbol) → get_position exact symbol m' ≡ get_position exact symbol desk)
validate_order_verdict_example =
    validate_order_verdict exact market_order (pos 100) desk (rw held_exactly (omega arith))

market_order_counts : breaks exact market_order (pos 30000) desk rejected_order_value ≡ true
unfolding ltb_ℤ
market_order_counts = refl
