-- ===== src/Risk/Posting.antt =====
-- One trade of RiskManager::updatePosition against the account of its symbol.
use high_performance_trading.Base.{
  ℕ, ◌+◌, ◌-◌, ◌<◌, ◌≡◌, ◌^◌, ◌%◌, refl, ap, ◌∙◌, true, false, ◌||◌, ◌==◌, leb, if◌then◌else◌,
  arith, Bool-cases, inl, inr,
}
use high_performance_trading.Base.Int.{ℤ, pos, sub_ℕ, ltb_ℤ, ◌+ℤ◌, ◌-ℤ◌}
use high_performance_trading.Base.Word.{word, to_word, of_word}
use high_performance_trading.Core.Double.{Double}
use high_performance_trading.Core.Types.{Quantity, Symbol, Side, buy, sell}
use high_performance_trading.Risk.{Position, abs_ℤ, min_ℤ, moved}
use high_performance_trading.Risk.Update.{
  against, flipped, blended, extend, closing_pnl, close, apply_trade, name_position, count_qty,
}
use high_performance_trading.Risk.Account.{
  Account, same_side, opens, average_of, gain, closed_gain, post,
}

abbrev pub signed : Side → ℕ → ℤ
signed buy n = pos n
signed sell n = sub_ℕ 0 n

-- A trade in signed numbers.
moved-opens :
    (side held : Side) (qty size : ℕ)
    → (size == 0 || same_side side held) ≡ true
    → size + qty < 2 ^ 63
    → moved side qty (signed held size) ≡ signed side (size + qty)
unfolding to_word of_word ◌+ℤ◌ ◌-ℤ◌
moved-opens buy buy qty size h k = ground arith
moved-opens buy sell qty size h k = ground arith
moved-opens sell buy qty size h k = ground arith
moved-opens sell sell qty size h k = ground arith

moved-closes :
    (side held : Side) (qty size : ℕ)
    → (size == 0 || same_side side held) ≡ false
    → size + qty < 2 ^ 63
    → moved side qty (signed held size)
      ≡ (if leb qty size then signed held (size - qty) else signed side (qty - size))
unfolding to_word of_word ◌+ℤ◌ ◌-ℤ◌
moved-closes buy sell qty size h k = ground arith
moved-closes sell buy qty size h k = ground arith
moved-closes buy buy qty size h k = absurd (ground (arith, h))
moved-closes sell sell qty size h k = absurd (ground (arith, h))

against-signed :
    (side held : Side) (size : ℕ)
    → against side (signed held size) ≡ (if size == 0 || same_side side held then false else true)
unfolding ltb_ℤ
against-signed buy buy size = ground arith
against-signed buy sell size = ground arith
against-signed sell buy size = ground arith
against-signed sell sell size = ground arith

flipped-moved :
    (side held : Side) (qty size : ℕ)
    → (size == 0 || same_side side held) ≡ false
    → size + qty < 2 ^ 63
    → flipped side (moved side qty (signed held size)) ≡ (if leb qty size then false else true)
unfolding to_word of_word ◌+ℤ◌ ◌-ℤ◌ ltb_ℤ
flipped-moved buy sell qty size h k = ground arith
flipped-moved sell buy qty size h k = ground arith
flipped-moved buy buy qty size h k = absurd (ground (arith, h))
flipped-moved sell sell qty size h k = absurd (ground (arith, h))

-- The magnitude of what is held, where a trade adds to it, as the code takes it.
held_size :
    (side held : Side) (size : ℕ)
    → (size == 0 || same_side side held) ≡ true
    → size < 2 ^ 63
    → (elim side [ buy ↦ signed held size | sell ↦ abs_ℤ (signed held size) ]) ≡ pos size
unfolding to_word of_word
held_size buy buy size h k = refl
held_size buy sell size h k = ground arith
held_size sell buy size h k = ground arith
held_size sell sell size h k = ground arith

-- The units that a trade closes, as the code takes them.
closing_units :
    (side held : Side) (qty size : ℕ)
    → (size == 0 || same_side side held) ≡ false
    → size + qty < 2 ^ 63
    → min_ℤ (of_word qty) (elim side [ buy ↦ abs_ℤ (signed held size) | sell ↦ signed held size ])
      ≡ pos (if leb qty size then qty else size)
unfolding to_word of_word ltb_ℤ
closing_units buy sell qty size h k = ground arith
closing_units sell buy qty size h k = ground arith
closing_units buy buy qty size h k = absurd (ground (arith, h))
closing_units sell sell qty size h k = absurd (ground (arith, h))

module _ {D : Type 0} where
  -- A position is what the account says.
  pub record Matches (p : Position D) (a : Account D) : Type 0 where
    pub quantity : p.quantity ≡ signed a.side a.size
    pub average : p.average_price ≡ a.average
    pub realized : p.realized_pnl ≡ a.realized

module _ {D : Type 0} (d : Double D) where
  blended-average_of :
      (size : ℕ) (average : D) (qty : Quantity) (price : D)
      → size + qty < 2 ^ 63
      → blended d (pos size) average qty price ≡ average_of d size average qty price
  unfolding blended to_word
  blended-average_of size average qty price h =
      let sum : (size % word + qty) % word ≡ size + qty = omega arith in rw (sum, blended)

  closing_pnl-signed :
      (side held : Side) (qty : Quantity) (price : D) (p : Position D) (size : ℕ)
      → p.quantity ≡ signed held size
      → (size == 0 || same_side side held) ≡ false
      → size + qty < 2 ^ 63
      → closing_pnl d side qty price p
        ≡ gain d held (if leb qty size then qty else size) p.average_price price
  unfolding closing_pnl
  closing_pnl-signed buy sell qty price p size e h k = rw e (
      ap (λ u. d.mul (d.of_int u) (d.sub p.average_price price))
        (closing_units buy sell qty size h k))
  closing_pnl-signed sell buy qty price p size e h k = rw e (
      ap (λ u. d.mul (d.of_int u) (d.sub price p.average_price))
        (closing_units sell buy qty size h k))
  closing_pnl-signed buy buy qty price p size e h k = absurd (ground (arith, h))
  closing_pnl-signed sell sell qty price p size e h k = absurd (ground (arith, h))

  module _ (side : Side) (qty : Quantity) (price : D) (p : Position D) (a : Account D)
      (m : Matches p a) (fits : a.size + qty < 2 ^ 63) where
    pub closing_pnl-gain :
        opens side a ≡ false → closing_pnl d side qty price p ≡ closed_gain d qty price a
    closing_pnl-gain h =
        closing_pnl-signed side a.side qty price p a.size m.quantity h fits
        ∙ ap (λ average. gain d a.side (if leb qty a.size then qty else a.size) average price)
            m.average

    pub against-opens : against side p.quantity ≡ (if opens side a then false else true)
    against-opens = ap (against side) m.quantity ∙ against-signed side a.side a.size

    extend-Matches :
        opens side a ≡ true → Matches (extend d side qty price p) (post d side qty price a)
    unfolding extend
    extend-Matches h = rw h (record {
      quantity = ap (moved side qty) m.quantity ∙ moved-opens side a.side qty a.size h fits;
      average =
          ap (λ (held : ℤ). blended d held p.average_price qty price)
            (ap (λ (q : ℤ). elim side [ buy ↦ q | sell ↦ abs_ℤ q ]) m.quantity
              ∙ held_size side a.side a.size h (omega (arith, fits)))
          ∙ ap (λ average. blended d (pos a.size) average qty price) m.average
          ∙ blended-average_of a.size a.average qty price fits;
      realized = m.realized;
    })

    close-Matches :
        opens side a ≡ false → Matches (close d side qty price p) (post d side qty price a)
    unfolding close
    close-Matches h =
        let profit = closing_pnl-gain h in
        let moves = ap (moved side qty) m.quantity ∙ moved-closes side a.side qty a.size h fits in
        let turns =
          ap (λ (q : ℤ). flipped side (moved side qty q)) m.quantity
          ∙ flipped-moved side a.side qty a.size h fits in
        elim (Bool-cases (leb qty a.size)) [
          | inl e ↦ record {
            quantity = ground (arith, h, e, moves);
            average = ground (arith, h, e, turns, m.average);
            realized = ground (arith, h, e, profit, m.realized);
          }
          | inr e ↦ record {
            quantity = ground (arith, h, e, moves);
            average = ground (arith, h, e, turns);
            realized = ground (arith, h, e, profit, m.realized);
          }
        ]

  pub name_position-Matches :
      (symbol : Symbol) (p : Position D) (a : Account D)
      → Matches p a
      → Matches (name_position symbol p) a
  unfolding name_position
  name_position-Matches symbol p a m = record {
    quantity = ground (arith, m.quantity);
    average = ground (arith, m.average);
    realized = ground (arith, m.realized);
  }

  count_qty-Matches :
      (side : Side) (qty : Quantity) (p : Position D) (a : Account D)
      → Matches p a
      → Matches (count_qty side qty p) a
  count_qty-Matches buy qty p a m = record {
    quantity = m.quantity;
    average = m.average;
    realized = m.realized;
  }
  count_qty-Matches sell qty p a m = record {
    quantity = m.quantity;
    average = m.average;
    realized = m.realized;
  }

  pub apply_trade-Matches :
      (side : Side) (qty : Quantity) (price : D) (p : Position D) (a : Account D)
      → Matches p a
      → a.size + qty < 2 ^ 63
      → Matches (apply_trade d side qty price p) (post d side qty price a)
  unfolding apply_trade
  apply_trade-Matches side qty price p a m fits =
      let counted = count_qty-Matches side qty p a m in
      let way = against-opens side qty price p a m fits in
      elim (Bool-cases (opens side a)) [
        | inl e ↦
            let adds : against side p.quantity ≡ false = way ∙ rw e in
            rw adds (extend-Matches side qty price (count_qty side qty p) a counted fits e)
        | inr e ↦
            let closes : against side p.quantity ≡ true = way ∙ rw e in
            rw closes (close-Matches side qty price (count_qty side qty p) a counted fits e)
      ]
