-- ===== src/Network/Fix.antt =====
-- include/network/fix_message.hpp: the class FIXMessage. A map with tags as keys is an association
-- list, whose order is the one in which a loop over the map meets the entries.
pub mod Tags
pub mod Fields
pub mod Wire
pub mod Orders
pub mod Delivery
pub mod Reports
use high_performance_trading.Base.{
  ℕ, ◌+◌, ◌%◌, Bool, not, ◌||◌, Option, none, some, List, [], ◌∷◌, ◌++◌, ◌==◌, if◌then◌else◌,
  length, ◌>>=◌, ltb,
}
use high_performance_trading.Base.Int.{ℤ, pos, eqb_ℤ}
use high_performance_trading.Base.Word.{sub64, to_word}
use high_performance_trading.Base.Bytes.{Bytes, codes, text_of}
use high_performance_trading.Base.Bytes.Search.{cut_at, lines}
use high_performance_trading.Base.Bytes.Decimal.{print_nat, print_int, stoi}
use high_performance_trading.Core.Double.{Double, DoubleText}
use high_performance_trading.Core.Types.{
  OrderId, Price, Quantity, Timestamp, Symbol, Side, buy, sell, OrderType, market, limit, is_buy,
  is_market, is_limit, price_to_double, double_to_price,
}
use high_performance_trading.Core.Order.{Order, make_order, make_market_order}
use high_performance_trading.Network.Fix.Tags.{
  tag_begin_string, tag_body_length, tag_msg_type, tag_checksum, tag_clord_id, tag_symbol, tag_side,
  tag_order_qty, tag_ord_type, tag_price, tag_exec_type, tag_order_id, tag_exec_id, tag_last_px,
  tag_last_qty, tag_cum_qty, tag_leaves_qty, msg_new_order, msg_exec_report, soh,
}

abbrev pub FixMessage : Type 0
FixMessage = List (ℤ × Bytes)

unfoldable pub find_field : ℤ → FixMessage → Option Bytes
find_field tag [] = none
find_field tag ((t, v) ∷ m) = if eqb_ℤ t tag then some v else find_field tag m

unfoldable pub set_field : ℤ → Bytes → FixMessage → FixMessage
set_field tag value [] = (tag, value) ∷ []
set_field tag value ((t, v) ∷ m) =
    if eqb_ℤ t tag then (t, value) ∷ m else (t, v) ∷ set_field tag value m

abbrev pub value_or_empty : Option Bytes → Bytes
value_or_empty none = []
value_or_empty (some v) = v

unfoldable pub get_field : ℤ → FixMessage → Bytes
get_field tag m = value_or_empty (find_field tag m)

unfoldable pub has_field : ℤ → FixMessage → Bool
has_field tag m = elim (find_field tag m) [ none ↦ Bool.false | some v ↦ Bool.true ]

-- An empty value is 0; `none` is the exception of `std::stoi`.
abbrev pub int_of_text : Bytes → Option ℤ
int_of_text [] = some (pos 0)
int_of_text (c ∷ s) = stoi (c ∷ s)

unfoldable pub get_field_as_int : ℤ → FixMessage → Option ℤ
get_field_as_int tag m = int_of_text (get_field tag m)

-- `s[0]`, which is the zero character for an empty string.
abbrev pub first_char : Bytes → ℕ
first_char [] = 0
first_char (c ∷ s) = c

unfoldable pub get_message_type : FixMessage → ℕ
get_message_type m = first_char (get_field tag_msg_type m)

unfoldable pub set_message_type : ℕ → FixMessage → FixMessage
set_message_type type m = set_field tag_msg_type (type ∷ []) m

unfoldable pub parse_token : Bytes → FixMessage → Option FixMessage
parse_token token m = elim (cut_at b'=' token) [
  | none ↦ some m
  | some (before, after) ↦ stoi before >>= λ tag. some (set_field tag after m)
]

unfoldable pub parse_tokens : List Bytes → FixMessage → Option FixMessage
parse_tokens [] m = some m
parse_tokens (token ∷ tokens) m = parse_token token m >>= parse_tokens tokens

unfoldable pub parse : Bytes → Option FixMessage
parse raw = parse_tokens (lines soh raw) []

abbrev pub field_bytes : Bytes → Bytes → Bytes
field_bytes tag value = tag ++ b'=' ∷ value ++ soh ∷ []

abbrev pub is_framing : ℤ → Bool
is_framing tag = eqb_ℤ tag tag_begin_string || eqb_ℤ tag tag_body_length || eqb_ℤ tag tag_checksum

unfoldable pub body_bytes : FixMessage → Bytes
body_bytes [] = []
body_bytes ((tag, value) ∷ m) =
    let rest = body_bytes m in
    if is_framing tag then rest else field_bytes (print_int tag) value ++ rest

-- The sum is an `int` in the code; that it fits is left to the caller.
unfoldable pub sum_bytes : ℕ → Bytes → ℕ
sum_bytes sum [] = sum
sum_bytes sum (c ∷ s) = sum_bytes (sum + c) s

unfoldable pub calculate_checksum : Bytes → ℕ
calculate_checksum message = sum_bytes 0 message % 256

unfoldable pub without_checksum : FixMessage → Bytes
without_checksum m =
    let body = body_bytes m in
    field_bytes (codes "8") (codes "FIX.4.2")
    ++ field_bytes (codes "9") (print_nat (length body))
    ++ body

unfoldable pub serialize : FixMessage → Bytes
serialize m =
    let message = without_checksum m in
    message ++ field_bytes (codes "10") (print_nat (calculate_checksum message))

abbrev pub side_char : Side → ℕ
side_char side = if is_buy side then b'1' else b'2'

abbrev pub side_of_char : ℕ → Side
side_of_char c = if c == b'1' then buy else sell

abbrev pub order_type_of_char : ℕ → OrderType
order_type_of_char c = if c == b'1' then market else limit

-- A comma before each field but the first.
unfoldable pub fields_text : Bool → FixMessage → Bytes
fields_text first [] = []
fields_text first ((tag, value) ∷ m) =
    (if first then [] else codes ", ")
    ++ (print_int tag ++ b'=' ∷ (value ++ fields_text Bool.false m))

unfoldable pub to_string : FixMessage → Bytes
to_string m =
    codes "FIXMessage[type="
    ++ (get_message_type m ∷ (codes ", fields={" ++ (fields_text Bool.true m ++ codes "}]")))

module _ {D : Type 0} (d : Double D) (text : DoubleText D) where
  abbrev pub double_of_text : Bytes → Option D
  double_of_text [] = some (d.of_nat 0)
  double_of_text (c ∷ s) = text.stod (c ∷ s)

  unfoldable pub get_field_as_double : ℤ → FixMessage → Option D
  get_field_as_double tag m = double_of_text (get_field tag m)

  -- The price is read for a limit order only.
  unfoldable pub order_of_fields :
      OrderId → Symbol → Side → OrderType → Quantity → FixMessage → Timestamp → Option Order
  order_of_fields id symbol side type quantity m now =
      if is_market type
      then some (make_market_order id symbol side quantity now)
      else get_field_as_double tag_price m >>= λ price.
          some (make_order id symbol side type (double_to_price d price) quantity now)

  -- The outer `none` is an exception, the inner one the null pointer.
  unfoldable pub to_order : FixMessage → Timestamp → Option (Option Order)
  to_order m now =
      if not (get_message_type m == msg_new_order)
      then some none
      else (get_field_as_int tag_clord_id m >>= λ id.
          get_field_as_int tag_order_qty m >>= λ quantity.
          order_of_fields (to_word id) (text_of (get_field tag_symbol m))
            (side_of_char (first_char (get_field tag_side m)))
            (order_type_of_char (first_char (get_field tag_ord_type m))) (to_word quantity) m now
          >>= λ order. some (some order))

  unfoldable pub create_execution_report : Order → Bytes → ℕ → Quantity → Price → FixMessage
  create_execution_report order exec_id exec_type last_qty last_px =
      let typed = set_message_type msg_exec_report [] in
      let named =
        set_field tag_clord_id (print_nat order.id)
          (set_field tag_order_id (print_nat order.id) typed) in
      let executed =
        set_field tag_exec_type (exec_type ∷ []) (set_field tag_exec_id exec_id named) in
      let sided =
        set_field tag_side (side_char order.side ∷ [])
          (set_field tag_symbol (codes order.symbol) executed) in
      let left =
        set_field tag_leaves_qty (print_nat order.remaining_quantity)
          (set_field tag_order_qty (print_nat order.quantity) sided) in
      let done =
        set_field tag_cum_qty (print_nat (sub64 order.quantity order.remaining_quantity)) left in
      if ltb 0 last_qty
      then set_field tag_last_px (text.to_string (price_to_double d last_px))
          (set_field tag_last_qty (print_nat last_qty) done)
      else done

  unfoldable pub create_new_order :
      OrderId → Symbol → Side → OrderType → Quantity → Price → FixMessage
  create_new_order id symbol side type quantity price =
      let typed = set_message_type msg_new_order [] in
      let named =
        set_field tag_symbol (codes symbol) (set_field tag_clord_id (print_nat id) typed) in
      let sided = set_field tag_side (side_char side ∷ []) named in
      let kinded = set_field tag_ord_type ((if is_market type then b'1' else b'2') ∷ []) sided in
      let sized = set_field tag_order_qty (print_nat quantity) kinded in
      if is_limit type
      then set_field tag_price (text.to_string (price_to_double d price)) sized
      else sized
