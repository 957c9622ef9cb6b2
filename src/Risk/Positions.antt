-- ===== src/Risk/Positions.antt =====
-- The map of positions: what a lookup gives after each operation of the class RiskManager.
use text.Mathlib.Text.{◌==◌ as str_eq}
use text.Mathlib.TextEquality.{eq_iff}
use high_performance_trading.Base.{
  ◌≡◌, refl, ap, ◌∙◌, some, List, [], ◌∷◌, if◌then◌else◌, arith, Bool-cases, Option-cases, inl, inr,
}
use high_performance_trading.Core.Double.{Double}
use high_performance_trading.Core.Types.{Symbol, Side, buy, sell, Quantity, price_to_double}
use high_performance_trading.Core.Order.{Order}
use high_performance_trading.Core.Trade.{Trade}
use high_performance_trading.Risk.{
  Position, RiskManager, moved, find_position, put_position, get_position, make_position, touch,
  validate_order,
}
use high_performance_trading.Risk.Update.{
  apply_trade, extend, close, name_position, update_equity, update_position,
}

module _ {D : Type 0} where
  pub find_position-put_position :
      (a b : Symbol) (p : Position D) (m : List (Symbol × Position D))
      → find_position b (put_position a p m) ≡ (if str_eq a b then some p else find_position b m)
  unfolding find_position put_position
  find_position-put_position a b p [] = refl
  find_position-put_position a b p ((key, q) ∷ m) =
      ground (arith, find_position-put_position a b p m, eq_iff key a, eq_iff key b, eq_iff a b)

module _ {D : Type 0} (d : Double D) where
  -- The default entry that a lookup makes is the position that was reported without it.
  pub get_position-touch :
      (a b : Symbol) (m : RiskManager D) → get_position d b (touch d a m) ≡ get_position d b m
  unfolding get_position touch
  get_position-touch a b m = elim (Option-cases (find_position a m.positions)) [
    | inr (p, e) ↦ rw e
    | inl e ↦ rw e (
        ground
          (arith, e, eq_iff a b, find_position-put_position a b (make_position d "") m.positions))
  ]

  -- A validation leaves the position of every symbol as it is.
  pub get_position-validate_order :
      (order : Order) (price : D) (m : RiskManager D) (symbol : Symbol)
      → get_position d symbol (validate_order d order price m).0 ≡ get_position d symbol m
  unfolding validate_order
  get_position-validate_order order price m symbol =
      ground (arith, get_position-touch order.symbol symbol m)

  get_position-put :
      (a b : Symbol) (p : Position D) (m m' : RiskManager D)
      → m'.positions ≡ put_position a p m.positions
      → get_position d b m' ≡ (if str_eq a b then p else get_position d b m)
  unfolding get_position
  get_position-put a b p m m' e =
      rw e (ground (arith, find_position-put_position a b p m.positions))

  -- A trade is applied to the position of its symbol, and no other position changes.
  pub get_position-update_position :
      (trade : Trade) (side : Side) (m : RiskManager D) (symbol : Symbol)
      → get_position d symbol (update_position d trade side m) ≡ (
          if str_eq trade.symbol symbol
          then apply_trade d side trade.quantity
              (price_to_double d trade.price)
              (name_position trade.symbol (get_position d trade.symbol m))
          else get_position d symbol m)
  unfolding update_position update_equity
  get_position-update_position trade side m symbol =
      get_position-put trade.symbol symbol _ (touch d trade.symbol m) _ refl
      ∙ rw
          (get_position-touch trade.symbol trade.symbol m, get_position-touch trade.symbol symbol m)

  pub apply_trade-quantity :
      (side : Side) (qty : Quantity) (price : D) (p : Position D)
      → (apply_trade d side qty price p).quantity ≡ moved side qty p.quantity
  unfolding apply_trade extend close
  apply_trade-quantity buy qty price p = ground arith
  apply_trade-quantity sell qty price p = ground arith

  name_position-quantity :
      (symbol : Symbol) (p : Position D) → (name_position symbol p).quantity ≡ p.quantity
  unfolding name_position
  name_position-quantity symbol p = ground arith

  -- A trade moves the quantity of its symbol by its own, up for a buy and down for a sell, in
  -- `int64_t`, and no other quantity.
  pub update_position_moves :
      (trade : Trade) (side : Side) (m : RiskManager D) (symbol : Symbol)
      → (get_position d symbol (update_position d trade side m)).quantity ≡ (
          if str_eq trade.symbol symbol
          then moved side trade.quantity (get_position d symbol m).quantity
          else (get_position d symbol m).quantity)
  update_position_moves trade side m symbol = elim (Bool-cases (str_eq trade.symbol symbol)) [
    | inl e ↦
        rw (get_position-update_position trade side m symbol, e)
          (apply_trade-quantity side trade.quantity (price_to_double d trade.price)
              (name_position trade.symbol (get_position d trade.symbol m))
            ∙ ap (moved side trade.quantity) (
                name_position-quantity trade.symbol (get_position d trade.symbol m)
                ∙ ap (λ (a : Symbol). (get_position d a m).quantity)
                    ((eq_iff trade.symbol symbol).0 e)))
    | inr e ↦ rw (get_position-update_position trade side m symbol, e)
  ]
