-- ===== src/Risk/Replay.antt =====
-- RiskManager::updatePosition over a list of trades against the ledger.
use text.Mathlib.Text.{◌==◌ as str_eq}
use high_performance_trading.Base.{
  ◌+◌, ◌<◌, ◌≤◌, ◌≡◌, ◌^◌, refl, ◌∙◌, true, false, List, [], ◌∷◌, arith, Bool-cases, inl, inr,
}
use high_performance_trading.Base.Int.{pos}
use high_performance_trading.Core.Double.{Double}
use high_performance_trading.Core.Types.{Quantity, Symbol, Side, price_to_double}
use high_performance_trading.Core.Trade.{Trade}
use high_performance_trading.Risk.{
  RiskManager, RiskLimits, get_position, make_position, make_risk_manager, find_position, touch,
}
use high_performance_trading.Risk.Update.{against, name_position, update_position, update_equity}
use high_performance_trading.Risk.Positions.{get_position-update_position, get_position-touch}
use high_performance_trading.Risk.Account.{
  Account, Ledger, opens, fresh_ledger, post, post_trade, replay, traded,
}
use high_performance_trading.Risk.Posting.{
  Matches, apply_trade-Matches, name_position-Matches, closing_pnl-gain, against-opens,
}

module _ {D : Type 0} (d : Double D) where
  -- The calls of `updatePosition`, one for each trade.
  unfoldable pub update_positions : List (Trade × Side) → RiskManager D → RiskManager D
  update_positions [] m = m
  update_positions ((trade, side) ∷ trades) m =
      update_positions trades (update_position d trade side m)

  -- The manager's positions and its daily profit are those of the ledger.
  pub record Tracks (m : RiskManager D) (l : Ledger D) : Type 0 where
    pub positions : (symbol : Symbol) → Matches (get_position d symbol m) (l.account symbol)
    pub daily : m.daily_pnl ≡ l.profit

  make_risk_manager-Tracks :
      (limits : RiskLimits D) → Tracks (make_risk_manager d limits) (fresh_ledger d)
  unfolding make_risk_manager get_position find_position make_position
  make_risk_manager-Tracks limits = record {
    positions = λ symbol. record { quantity = refl; average = refl; realized = refl };
    daily = refl;
  }

  post-size :
      (side : Side) (qty : Quantity) (price : D) (a : Account D)
      → (post d side qty price a).size ≤ a.size + qty
  post-size side qty price a = ground arith

  update_position-Tracks :
      (trade : Trade) (side : Side) (m : RiskManager D) (l : Ledger D)
      → (l.account trade.symbol).size + trade.quantity < 2 ^ 63
      → Tracks m l
      → Tracks (update_position d trade side m) (post_trade d (trade, side) l)
  unfolding price_to_double update_position update_equity touch
  update_position-Tracks trade side m l fits t =
      let a = l.account trade.symbol in
      let price = price_to_double d trade.price in
      let p = name_position trade.symbol (get_position d trade.symbol m) in
      let named : Matches p a =
        name_position-Matches d trade.symbol (get_position d trade.symbol m) a
          (t.positions trade.symbol) in
      let way = against-opens d side trade.quantity price p a named fits in
      record {
        positions = λ symbol. elim (Bool-cases (str_eq trade.symbol symbol)) [
          | inl e ↦
              rw (get_position-update_position d trade side m symbol, e)
                (apply_trade-Matches d side trade.quantity price p a named fits)
          | inr e ↦ rw (get_position-update_position d trade side m symbol, e) (t.positions symbol)
        ];
        daily = elim (Bool-cases (opens side a)) [
          | inl e ↦
              let adds : against side p.quantity ≡ false = way ∙ rw e in
              rw (e, get_position-touch d trade.symbol trade.symbol m, adds) t.daily
          | inr e ↦
              let closes : against side p.quantity ≡ true = way ∙ rw e in
              rw (
                e,
                get_position-touch d trade.symbol trade.symbol m,
                closes,
                closing_pnl-gain d side trade.quantity price p a named fits e,
                t.daily,
              )
        ];
      }

  update_positions-Tracks :
      (trades : List (Trade × Side)) (m : RiskManager D) (l : Ledger D)
      → ((symbol : Symbol) → (l.account symbol).size + traded trades < 2 ^ 63)
      → Tracks m l
      → Tracks (update_positions trades m) (replay d trades l)
  unfolding update_positions replay
  update_positions-Tracks [] m l fits t = t
  update_positions-Tracks ((trade, side) ∷ trades) m l fits t =
      update_positions-Tracks trades (update_position d trade side m) (post_trade d (trade, side) l)
        (later trade side trades l fits)
        (update_position-Tracks trade side m l (omega (arith, fits trade.symbol)) t)
    where
      later :
          (trade' : Trade) (side' : Side) (trades' : List (Trade × Side)) (l' : Ledger D)
          → ((symbol : Symbol)
              → (l'.account symbol).size + (trade'.quantity + traded trades') < 2 ^ 63)
          → (symbol : Symbol)
          → ((post_trade d (trade', side') l').account symbol).size + traded trades' < 2 ^ 63
      later trade' side' trades' l' fits' symbol = ground (
        arith,
        fits' symbol,
        fits' trade'.symbol,
        post-size side' trade'.quantity (d.div (d.of_int trade'.price) (d.of_int (pos 100)))
            (l'.account trade'.symbol),
      )

  -- If the trades of a new manager move fewer than 2^63 units in all, then the quantity, the
  -- average price and the realized profit of every position, and the daily profit, are those of a
  -- ledger of long and short holdings, in which a trade with the holding averages the cost, and
  -- one against it closes units at their gain or loss and opens what is left at its own price.
  pub update_positions-replay :
      (limits : RiskLimits D) (trades : List (Trade × Side))
      → traded trades < 2 ^ 63
      → Tracks
          (update_positions trades (make_risk_manager d limits))
          (replay d trades (fresh_ledger d))
  update_positions-replay limits trades fits =
      update_positions-Tracks trades _ _ (λ symbol. omega (arith, fits))
        (make_risk_manager-Tracks limits)
