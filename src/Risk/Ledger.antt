-- ===== src/Risk/Ledger.antt =====
-- RiskManager::updatePosition: the totals bought and sold, the equity and its peak.
use text.Mathlib.Text.{◌==◌ as str_eq}
use high_performance_trading.Base.{
  ℕ, ◌+◌, ◌%◌, ◌<◌, ◌≡◌, refl, true, false, arith, Bool-cases, inl, inr, if◌then◌else◌,
}
use high_performance_trading.Base.Int.{ℤ, pos, negsuc, ◌+ℤ◌, ◌-ℤ◌}
use high_performance_trading.Base.Word.{word, to_word, of_word, add64}
use high_performance_trading.Core.Double.{Double}
use high_performance_trading.Core.Types.{Side, buy, sell, Quantity, Symbol, is_buy, price_to_double}
use high_performance_trading.Core.Trade.{Trade}
use high_performance_trading.Risk.{Position, RiskManager, moved, get_position, touch}
use high_performance_trading.Risk.Update.{
  apply_trade, extend, close, name_position, update_equity, update_position, get_total_pnl,
}
use high_performance_trading.Risk.Positions.{get_position-update_position, apply_trade-quantity}

-- The quantity of a position is what was bought less what was sold, modulo 2 ^ 64, and the totals
-- are `uint64_t`.
pub record IsBalanced {D : Type 0} (p : Position D) : Type 0 where
  pub bought : p.total_bought < word
  pub sold : p.total_sold < word
  pub net : (to_word p.quantity + p.total_sold) % word ≡ p.total_bought

to_word-of_word : (w : ℕ) → w < word → to_word (of_word w) ≡ w
unfolding to_word of_word
to_word-of_word w h = ground arith

to_word-add : (q : ℤ) (n : ℕ) → to_word (q +ℤ pos n) ≡ (to_word q + n) % word
unfolding to_word ◌+ℤ◌
to_word-add (pos a) n = ground arith
to_word-add (negsuc a) n = ground arith

to_word-sub : (q : ℤ) (n : ℕ) → (to_word (q -ℤ pos n) + n) % word ≡ to_word q
unfolding to_word ◌-ℤ◌
to_word-sub (pos a) n = ground arith
to_word-sub (negsuc a) n = ground arith

to_word_bound : (q : ℤ) → to_word q < word
unfolding to_word
to_word_bound q = ground arith

moved-buy :
    (n : Quantity) (q : ℤ) (bought sold : Quantity)
    → (to_word q + sold) % word ≡ bought
    → (to_word (moved buy n q) + sold) % word ≡ add64 bought n
moved-buy n q bought sold net =
    omega (arith, to_word-of_word (to_word (q +ℤ pos n)) (to_word_bound _), to_word-add q n, net)

moved-sell :
    (n : Quantity) (q : ℤ) (bought sold : Quantity)
    → (to_word q + sold) % word ≡ bought
    → (to_word (moved sell n q) + add64 sold n) % word ≡ bought
moved-sell n q bought sold net =
    omega (arith, to_word-of_word (to_word (q -ℤ pos n)) (to_word_bound _), to_word-sub q n, net)

module _ {D : Type 0} (d : Double D) where
  apply_trade-totals :
      (side : Side) (qty : Quantity) (price : D) (p : Position D)
      → ((apply_trade d side qty price p).total_bought
          ≡ (if is_buy side then add64 p.total_bought qty else p.total_bought))
        × ((apply_trade d side qty price p).total_sold
            ≡ (if is_buy side then p.total_sold else add64 p.total_sold qty))
  unfolding apply_trade extend close
  apply_trade-totals buy qty price p = ground arith
  apply_trade-totals sell qty price p = ground arith

  apply_trade-IsBalanced :
      (side : Side) (qty : Quantity) (price : D) (p : Position D)
      → IsBalanced p
      → IsBalanced (apply_trade d side qty price p)
  apply_trade-IsBalanced buy qty price p v =
      let (bought, sold) = apply_trade-totals buy qty price p in
      record {
        bought = omega (arith, bought);
        sold = omega (arith, sold, v.sold);
        net =
            rw (apply_trade-quantity d buy qty price p, bought, sold)
              (moved-buy qty p.quantity p.total_bought p.total_sold v.net);
      }
  apply_trade-IsBalanced sell qty price p v =
      let (bought, sold) = apply_trade-totals sell qty price p in
      record {
        bought = omega (arith, bought, v.bought);
        sold = omega (arith, sold);
        net =
            rw (apply_trade-quantity d sell qty price p, bought, sold)
              (moved-sell qty p.quantity p.total_bought p.total_sold v.net);
      }

  name_position-IsBalanced :
      (symbol : Symbol) (p : Position D) → IsBalanced p → IsBalanced (name_position symbol p)
  unfolding name_position
  name_position-IsBalanced symbol p v = ground (arith, v.bought, v.sold, v.net)

  -- If every position's quantity is what was bought less what was sold, modulo 2^64, then so it
  -- is after a trade.
  pub update_position-IsBalanced :
      (trade : Trade) (side : Side) (m : RiskManager D)
      → ((symbol : Symbol) → IsBalanced (get_position d symbol m))
      → (symbol : Symbol) → IsBalanced (get_position d symbol (update_position d trade side m))
  update_position-IsBalanced trade side m v symbol =
      elim (Bool-cases (str_eq trade.symbol symbol)) [
        | inl e ↦
            rw (get_position-update_position d trade side m symbol, e)
              (apply_trade-IsBalanced side trade.quantity (price_to_double d trade.price) _
                (name_position-IsBalanced trade.symbol _ (v trade.symbol)))
        | inr e ↦ rw (get_position-update_position d trade side m symbol, e) (v symbol)
      ]

  -- The higher of the peak and the equity.
  peak_of :
      ((a b : D) → d.lt a b ≡ true → d.lt b a ≡ false)
      → (peak equity : D)
      → let peak' = if d.lt peak equity then equity else peak in
        (d.lt peak' equity ≡ false) × (d.lt peak' peak ≡ false)
  peak_of asym peak equity = elim (Bool-cases (d.lt peak equity)) [
    | inl e ↦ rw e (irrefl equity, asym peak equity e)
    | inr e ↦ rw e (e, irrefl peak)
  ]
    where
      irrefl : (a : D) → d.lt a a ≡ false
      irrefl a = elim (Bool-cases (d.lt a a)) [ inl h ↦ asym a a h | inr h ↦ h ]

  -- If the comparison of doubles is asymmetric, then after a trade the equity is the total profit
  -- and not above its peak, which has not fallen.
  pub update_position-peak :
      ((a b : D) → d.lt a b ≡ true → d.lt b a ≡ false)
      → (trade : Trade) (side : Side) (m : RiskManager D)
      → let m' = update_position d trade side m in
        (m'.current_equity ≡ get_total_pnl d m')
        × (d.lt m'.peak_equity m'.current_equity ≡ false)
        × (d.lt m'.peak_equity m.peak_equity ≡ false)
  unfolding update_position update_equity get_total_pnl touch
  update_position-peak asym trade side m =
      (refl, (peak_of asym m.peak_equity _).0, (peak_of asym m.peak_equity _).1)
