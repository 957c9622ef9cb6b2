-- ===== src/Network/Fix/Delivery.antt =====
-- A new-order message over the wire: FIXMessage::serialize, parse and toOrder together.
use high_performance_trading.Base.{
  ℕ, ◌<◌, ◌^◌, ◌≡◌, refl, ◌≢◌, true, none, some, [], ◌∷◌, arith, ◌∙◌,
}
use high_performance_trading.Base.Int.{eqb_ℤ}
use high_performance_trading.Base.Bytes.{Lacks, IsBytes, codes}
use high_performance_trading.Core.Double.{Double, DoubleText}
use high_performance_trading.Core.Types.{
  OrderId, Price, Quantity, Timestamp, Symbol, Side, OrderType, market, limit, stop, stop_limit,
  is_limit, price_to_double,
}
use high_performance_trading.Network.Fix.Tags.{
  soh, tag_msg_type, tag_clord_id, tag_symbol, tag_side, tag_ord_type, tag_price, tag_order_qty,
}
use high_performance_trading.Network.Fix.{
  FixMessage, find_field, set_field, set_message_type, side_char, parse, serialize, to_order,
  create_new_order,
}
use high_performance_trading.Network.Fix.Wire.{IsSendable, parse-serialize, print_nat-Lacks}
use high_performance_trading.Network.Fix.Orders.{
  Survives, arrived, new_order_fields, to_order-same, to_order-create_new_order,
}

-- The fields in front of the price are not there yet.
abbrev Unused : FixMessage → Type 0
Unused m =
    (find_field tag_msg_type m ≡ none)
    × (find_field tag_clord_id m ≡ none)
    × (find_field tag_symbol m ≡ none)
    × (find_field tag_side m ≡ none)
    × (find_field tag_ord_type m ≡ none)
    × (find_field tag_order_qty m ≡ none)

new_order_fields-IsSendable :
    (id : OrderId) (symbol : Symbol) (side : Side) (c : ℕ) (quantity : Quantity)
    (prices : FixMessage)
    → Lacks soh (codes symbol)
    → c ≢ soh
    → Unused prices
    → IsSendable prices
    → IsSendable (new_order_fields id symbol side c quantity prices)
unfolding find_field eqb_ℤ
new_order_fields-IsSendable id symbol side c quantity prices clean h free rest =
    let sided : Lacks soh (side_char side ∷ []) = (ground arith, tt) in
    (
      omega arith,
      (omega arith, tt),
      free.0,
      (
        omega arith,
        print_nat-Lacks id,
        free.1,
        (
          omega arith,
          clean,
          free.2,
          (
            omega arith,
            sided,
            free.3,
            (omega arith, (h, tt), free.4, (omega arith, print_nat-Lacks quantity, free.5, rest)),
          ),
        ),
      ),
    )

module _ {D : Type 0} (d : Double D) (text : DoubleText D) where
  is_sendable :
      (id : OrderId) (symbol : Symbol) (side : Side) (type : OrderType) (quantity : Quantity)
      (price : Price)
      → Lacks soh (codes symbol)
      → (is_limit type ≡ true → Survives d text price)
      → IsSendable (create_new_order d text id symbol side type quantity price)
  unfolding create_new_order set_message_type set_field eqb_ℤ find_field
  is_sendable id symbol side market quantity price clean survives =
      new_order_fields-IsSendable id symbol side b'1' quantity [] clean (omega arith)
        (refl, refl, refl, refl, refl, refl) tt
  is_sendable id symbol side stop quantity price clean survives =
      new_order_fields-IsSendable id symbol side b'2' quantity [] clean (omega arith)
        (refl, refl, refl, refl, refl, refl) tt
  is_sendable id symbol side stop_limit quantity price clean survives =
      new_order_fields-IsSendable id symbol side b'2' quantity [] clean (omega arith)
        (refl, refl, refl, refl, refl, refl) tt
  is_sendable id symbol side limit quantity price clean survives =
      let s = text.to_string (price_to_double d price) in
      new_order_fields-IsSendable id symbol side b'2' quantity ((tag_price, s) ∷ []) clean
        (omega arith) (refl, refl, refl, refl, refl, refl)
        (omega arith, (survives refl).1, refl, tt)

  -- A new-order message whose ID and quantity fit an int, whose symbol is of bytes without the
  -- separator and whose limit price comes back from its decimal notation is parsed from its
  -- serialisation and read as the order it was made of; STOP and STOP_LIMIT orders arrive as
  -- limit orders at the price of 0.0.
  pub order_over_wire :
      (id : OrderId) (symbol : Symbol) (side : Side) (type : OrderType) (quantity : Quantity)
      (price : Price) (now : Timestamp)
      → id < 2 ^ 31
      → quantity < 2 ^ 31
      → IsBytes (codes symbol)
      → Lacks soh (codes symbol)
      → (is_limit type ≡ true → Survives d text price)
      → (r : FixMessage) × (parse
            (serialize (create_new_order d text id symbol side type quantity price))
          ≡ some r)
        × (to_order d text r now
            ≡ some (some (arrived d text id symbol side type quantity price now)))
  order_over_wire id symbol side type quantity price now h k bytes clean survives =
      let m = create_new_order d text id symbol side type quantity price in
      let (r, read, same) =
        parse-serialize m (is_sendable id symbol side type quantity price clean survives) in
      (
        r,
        read,
        to_order-same d text r m now (λ tag body. same tag ∙ (ground arith))
            ∙ to_order-create_new_order d text id symbol side type quantity price now h k bytes
                survives,
      )
