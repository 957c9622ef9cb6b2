-- ===== src/Network/Fix/Orders.antt =====
-- Orders that are sent as FIX messages, and the quantities of an execution report.
use high_performance_trading.Base.{
  ℕ, ◌<◌, ◌≤◌, ◌^◌, ◌%◌, ◌≡◌, refl, ◌≢◌, ◌⊎◌, true, false, none, some, [], ◌∷◌, arith, ◌>>=◌, inl,
  inr, ◌∙◌,
}
use high_performance_trading.Base.Int.{ℤ, pos, eqb_ℤ}
use high_performance_trading.Base.Word.{to_word}
use high_performance_trading.Base.Bytes.{Bytes, Lacks, IsBytes, codes, text_of-codes}
use high_performance_trading.Base.Bytes.Decimal.{
  print_nat, print_int, stoi, stoi-print_int, print_nat-ne-nil, stoi-print_nat_large,
}
use high_performance_trading.Core.Double.{Double, DoubleText}
use high_performance_trading.Core.Types.{
  OrderId, Price, Quantity, Timestamp, Symbol, Side, buy, sell, OrderType, market, limit, stop,
  stop_limit, is_limit, price_to_double, double_to_price,
}
use high_performance_trading.Core.Order.{Order, make_order, make_market_order}
use high_performance_trading.Network.Fix.Tags.{
  soh, tag_msg_type, msg_new_order, tag_clord_id, tag_symbol, tag_side, tag_ord_type, tag_price,
  tag_order_qty,
}
use high_performance_trading.Network.Fix.{
  FixMessage, find_field, set_field, set_message_type, get_field, get_message_type,
  get_field_as_int, int_of_text, is_framing, side_char, side_of_char, order_type_of_char,
  get_field_as_double, double_of_text, to_order, order_of_fields, create_new_order,
}

int_of_text-stoi : (s : Bytes) → s ≢ [] → int_of_text s ≡ stoi s
int_of_text-stoi [] h = absurd (h refl)
int_of_text-stoi (c ∷ s) h = refl

pub int_of_text-print_nat : (n : ℕ) → n < 2 ^ 31 → int_of_text (print_nat n) ≡ some (pos n)
int_of_text-print_nat n h =
    int_of_text-stoi (print_nat n) (print_nat-ne-nil n)
    ∙ (unfold print_int in stoi-print_int (pos n) h (omega arith))

int_of_text-large : (n : ℕ) → 2 ^ 31 ≤ n → int_of_text (print_nat n) ≡ none
int_of_text-large n h =
    int_of_text-stoi (print_nat n) (print_nat-ne-nil n) ∙ stoi-print_nat_large n h

-- The message of a new order, its price field apart.
abbrev pub new_order_fields : OrderId → Symbol → Side → ℕ → Quantity → FixMessage → FixMessage
new_order_fields id symbol side c quantity prices =
    (tag_msg_type, msg_new_order ∷ [])
    ∷ (tag_clord_id, print_nat id)
    ∷ (tag_symbol, codes symbol)
    ∷ (tag_side, side_char side ∷ [])
    ∷ (tag_ord_type, c ∷ [])
    ∷ (tag_order_qty, print_nat quantity)
    ∷ prices

module _ {D : Type 0} (d : Double D) (text : DoubleText D) where
  -- A price that comes back from its decimal notation.
  abbrev pub Survives : Price → Type 0
  Survives price =
      let s = text.to_string (price_to_double d price) in
      (s ≢ []) × Lacks soh s × ((x : D) × (text.stod s ≡ some x) × (double_to_price d x ≡ price))

  -- The order that the receiver makes: only market and limit orders keep their type.
  abbrev pub arrived : OrderId → Symbol → Side → OrderType → Quantity → Price → Timestamp → Order
  arrived id symbol side market quantity price now = make_market_order id symbol side quantity now
  arrived id symbol side limit quantity price now =
      make_order id symbol side limit price quantity now
  arrived id symbol side _ quantity price now =
      make_order id symbol side limit (double_to_price d (d.of_nat 0)) quantity now

  double_of_text-stod : (s : Bytes) → s ≢ [] → double_of_text d text s ≡ text.stod s
  double_of_text-stod [] h = absurd (h refl)
  double_of_text-stod (c ∷ s) h = refl

  pub to_order-same :
      (r m : FixMessage) (now : Timestamp)
      → ((tag : ℤ) → is_framing tag ≡ false → find_field tag r ≡ find_field tag m)
      → to_order d text r now ≡ to_order d text m now
  unfolding to_order order_of_fields get_field_as_int get_field_as_double get_message_type get_field
      eqb_ℤ
  to_order-same r m now same = rw (
    same (pos 35) refl,
    same (pos 11) refl,
    same (pos 55) refl,
    same (pos 54) refl,
    same (pos 40) refl,
    same (pos 38) refl,
    same (pos 44) refl,
  )

  to_order-fields :
      (id : OrderId) (symbol : Symbol) (side : Side) (c : ℕ) (quantity : Quantity)
      (prices : FixMessage) (now : Timestamp)
      → id < 2 ^ 31
      → quantity < 2 ^ 31
      → IsBytes (codes symbol)
      → to_order d text (new_order_fields id symbol side c quantity prices) now ≡ (
          order_of_fields d text id symbol side
            (order_type_of_char c)
            quantity
            (new_order_fields id symbol side c quantity prices)
            now
          >>= λ order. some (some order))
  unfolding to_order get_field_as_int get_message_type get_field find_field eqb_ℤ to_word
  to_order-fields id symbol side c quantity prices now h k bytes =
      let e : side_of_char (side_char side) ≡ side =
        elim side as (λ s. side_of_char (side_char s) ≡ s) [ buy ↦ refl | sell ↦ refl ] in
      let f : id % 2 ^ 64 ≡ id = omega arith in
      let g : quantity % 2 ^ 64 ≡ quantity = omega arith in
      rw (
        int_of_text-print_nat id h,
        int_of_text-print_nat quantity k,
        text_of-codes symbol bytes,
        e,
        f,
        g,
      )

  -- The order that `toOrder` makes of the message of `createNewOrder`.
  pub to_order-create_new_order :
      (id : OrderId) (symbol : Symbol) (side : Side) (type : OrderType) (quantity : Quantity)
      (price : Price) (now : Timestamp)
      → id < 2 ^ 31
      → quantity < 2 ^ 31
      → IsBytes (codes symbol)
      → (is_limit type ≡ true → Survives price)
      → to_order d text (create_new_order d text id symbol side type quantity price) now
        ≡ some (some (arrived id symbol side type quantity price now))
  unfolding create_new_order set_message_type set_field eqb_ℤ order_of_fields get_field_as_double
      get_field find_field
  to_order-create_new_order id symbol side market quantity price now h k bytes survives =
      to_order-fields id symbol side b'1' quantity [] now h k bytes
  to_order-create_new_order id symbol side stop quantity price now h k bytes survives =
      to_order-fields id symbol side b'2' quantity [] now h k bytes
  to_order-create_new_order id symbol side stop_limit quantity price now h k bytes survives =
      to_order-fields id symbol side b'2' quantity [] now h k bytes
  to_order-create_new_order id symbol side limit quantity price now h k bytes survives =
      let s = text.to_string (price_to_double d price) in
      let (full, clean, (x, read, exact)) = survives refl in
      to_order-fields id symbol side b'2' quantity ((tag_price, s) ∷ []) now h k bytes
      ∙ rw (double_of_text-stod s full, read, exact)

  -- `std::stoi` throws on an ID or a quantity that does not fit an `int`.
  pub to_order-too_large :
      (id : OrderId) (symbol : Symbol) (side : Side) (type : OrderType) (quantity : Quantity)
      (price : Price) (now : Timestamp)
      → (2 ^ 31 ≤ id) ⊎ (2 ^ 31 ≤ quantity)
      → to_order d text (create_new_order d text id symbol side type quantity price) now ≡ none
  unfolding to_order create_new_order set_message_type set_field eqb_ℤ get_field_as_int
      get_message_type get_field find_field
  to_order-too_large id symbol side type quantity price now (inl large) =
      ground (arith, int_of_text-large id large)
  to_order-too_large id symbol side type quantity price now (inr large) =
      ground (arith, int_of_text-large quantity large)
