-- ===== src/Risk/Account.antt =====
-- What a position is meant to be, without machine integers: so many units held long or short at an
-- average price, and the profit of what has been closed.
use text.Mathlib.Text.{◌==◌ as str_eq}
use high_performance_trading.Base.{
  ℕ, ◌+◌, ◌-◌, Bool, true, false, ◌||◌, List, [], ◌∷◌, ◌==◌, leb, if◌then◌else◌,
}
use high_performance_trading.Base.Int.{pos}
use high_performance_trading.Core.Double.{Double}
use high_performance_trading.Core.Types.{Quantity, Symbol, Side, buy, sell}
use high_performance_trading.Core.Trade.{Trade}

pub record Account (D : Type 0) : Type 0 where
  -- A position of size 0 may stand on either side.
  pub side : Side
  pub size : ℕ
  pub average : D
  pub realized : D

pub record Ledger (D : Type 0) : Type 0 where
  pub account : Symbol → Account D
  pub profit : D

abbrev pub same_side : Side → Side → Bool
same_side buy buy = true
same_side sell sell = true
same_side _ _ = false

-- Whether a trade opens a position or adds to it.
abbrev pub opens : {D : Type 0} → Side → Account D → Bool
opens side a = a.size == 0 || same_side side a.side

module _ {D : Type 0} (d : Double D) where
  abbrev pub fresh_account : Account D
  fresh_account = record { side = buy; size = 0; average = d.of_nat 0; realized = d.of_nat 0 }

  abbrev pub fresh_ledger : Ledger D
  fresh_ledger = record { account = λ symbol. fresh_account; profit = d.of_nat 0 }

  -- The cost of both parts over the number of units.
  abbrev pub average_of : ℕ → D → Quantity → D → D
  average_of size average qty price =
      d.div (d.add (d.mul (d.of_int (pos size)) average) (d.mul (d.of_nat qty) price))
        (d.of_nat (size + qty))

  -- The profit of closing so many units: a long one gains when the price rises, a short one when it
  -- falls.
  abbrev pub gain : Side → ℕ → D → D → D
  gain buy units average price = d.mul (d.of_int (pos units)) (d.sub price average)
  gain sell units average price = d.mul (d.of_int (pos units)) (d.sub average price)

  -- The profit of the units that a trade closes: as many as it has or as are held.
  abbrev pub closed_gain : Quantity → D → Account D → D
  closed_gain qty price a = gain a.side (if leb qty a.size then qty else a.size) a.average price

  -- A trade: it adds, it closes a part or all, or it closes all and opens the rest on its own side.
  abbrev pub post : Side → Quantity → D → Account D → Account D
  post side qty price a =
      if opens side a
      then record a {
        side = side;
        size = a.size + qty;
        average = average_of a.size a.average qty price;
      }
      else if leb qty a.size
      then record a { size = a.size - qty; realized = d.add a.realized (closed_gain qty price a) }
      else record {
        side = side;
        size = qty - a.size;
        average = price;
        realized = d.add a.realized (closed_gain qty price a);
      }

  -- Prices of trades are in cents.
  abbrev pub post_trade : Trade × Side → Ledger D → Ledger D
  post_trade (trade, side) l =
      let price = d.div (d.of_int trade.price) (d.of_int (pos 100)) in
      let a = l.account trade.symbol in
      record {
        account = λ symbol.
            if str_eq trade.symbol symbol
            then post side trade.quantity price a
            else l.account symbol;
        profit =
            if opens side a then l.profit else d.add l.profit (closed_gain trade.quantity price a);
      }

  unfoldable pub replay : List (Trade × Side) → Ledger D → Ledger D
  replay [] l = l
  replay (t ∷ trades) l = replay trades (post_trade t l)

-- How many units a list of trades moves.
abbrev pub traded : List (Trade × Side) → ℕ
traded [] = 0
traded ((trade, side) ∷ trades) = trade.quantity + traded trades
