-- ===== src/Network/Fix/Wire.antt =====
-- What FIXMessage::parse reads from the bytes that FIXMessage::serialize writes.
use high_performance_trading.Base.{
  ℕ, ◌<◌, ◌≤◌, ◌^◌, ◌≡◌, refl, sym, ap, ◌∙◌, ◌≢◌, inl, inr, Option, none, some, [], ◌∷◌, ◌++◌,
  if◌then◌else◌, arith, length, All-append, Bool-cases,
}
use mathlib.Core.List.{append_assoc, append-nil}
use high_performance_trading.Base.Int.{ℤ, pos, pos_part, neg_part, eqb_ℤ}
use high_performance_trading.Base.Bytes.{Bytes, Lacks, codes}
use high_performance_trading.Base.Bytes.Search.{cut_at-append, lines, lines-append}
use high_performance_trading.Base.Bytes.Decimal.{
  print_nat, print_int, stoi-print_int, print_int-Lacks,
}
use high_performance_trading.Network.Fix.Tags.{soh, tag_begin_string, tag_body_length, tag_checksum}
use high_performance_trading.Network.Fix.{
  FixMessage, find_field, set_field, parse, parse_token, parse_tokens, field_bytes, is_framing,
  body_bytes, without_checksum, serialize, calculate_checksum,
}
use high_performance_trading.Network.Fix.Fields.{find_field-set_field, eqb_ℤ_iff}

abbrev pub IsInt : ℤ → Type 0
IsInt a = (pos_part a < 2 ^ 31) × (neg_part a ≤ 2 ^ 31)

-- A map of fields that fits the format: tags are `int` and differ, and no value has the delimiter.
abbrev pub IsSendable : FixMessage → Type 0
IsSendable [] = Unit
IsSendable ((tag, value) ∷ m) =
    IsInt tag × Lacks soh value × (find_field tag m ≡ none) × IsSendable m

parse_token-field :
    (tag : ℤ) (value : Bytes) (m : FixMessage)
    → IsInt tag
    → parse_token (print_int tag ++ b'=' ∷ value) m ≡ some (set_field tag value m)
unfolding parse_token
parse_token-field tag value m h =
    let parts =
      cut_at-append b'=' (print_int tag) value
        (print_int-Lacks tag b'=' (omega arith) (inr (omega arith))) in
    let number = stoi-print_int tag h.0 h.1 in ground (arith, parts, number)

-- The next field is parsed into the map.
parse_tokens-field :
    (tag : ℤ) (value rest : Bytes) (m : FixMessage)
    → IsInt tag
    → Lacks soh value
    → parse_tokens (lines soh (field_bytes (print_int tag) value ++ rest)) m
      ≡ parse_tokens (lines soh rest) (set_field tag value m)
unfolding parse_tokens
parse_tokens-field tag value rest m h no_soh =
    let token = print_int tag ++ b'=' ∷ value in
    rw (
      append_assoc token (soh ∷ []) rest,
      lines-append soh token rest (
          All-append (λ c. c ≢ soh) (print_int tag) (b'=' ∷ value)
            (print_int-Lacks tag soh (omega arith) (inl (omega arith))) (omega arith, no_soh)),
      parse_token-field tag value m h,
    )

-- The fields behind those of a message, in the order of the loop.
put_fields : FixMessage → FixMessage → FixMessage
put_fields [] r = r
put_fields ((tag, value) ∷ m) r = put_fields m (if is_framing tag then r else set_field tag value r)

parse_tokens-body :
    (m r : FixMessage) (rest : Bytes)
    → IsSendable m
    → parse_tokens (lines soh (body_bytes m ++ rest)) r
      ≡ parse_tokens (lines soh rest) (put_fields m r)
unfolding body_bytes put_fields
parse_tokens-body [] r rest h = refl
parse_tokens-body ((tag, value) ∷ m) r rest h = elim (Bool-cases (is_framing tag)) [
  | inl e ↦ rw e (parse_tokens-body m r rest h.3)
  | inr e ↦
      rw
        (
          e,
          append_assoc (field_bytes (print_int tag) value) (body_bytes m) rest,
          parse_tokens-field tag value (body_bytes m ++ rest) r h.0 h.1,
        )
        (parse_tokens-body m (set_field tag value r) rest h.3)
]

find_field-put_fields :
    (tag : ℤ) (m r : FixMessage)
    → IsSendable m
    → find_field tag (put_fields m r) ≡ (
        if is_framing tag
        then find_field tag r
        else elim (find_field tag m) [ none ↦ find_field tag r | some v ↦ some v ])
unfolding put_fields find_field
find_field-put_fields tag [] r h = ground arith
find_field-put_fields tag ((t, v) ∷ m) r h = ground (
  arith,
  h.2,
  find_field-put_fields tag m r h.3,
  find_field-put_fields tag m (set_field t v r) h.3,
  find_field-set_field t tag v r,
  eqb_ℤ_iff t tag,
)

-- What a receiver finds under a tag.
abbrev pub framed : ℤ → FixMessage → Option Bytes
framed tag m =
    if eqb_ℤ tag tag_begin_string
    then some (codes "FIX.4.2")
    else if eqb_ℤ tag tag_body_length
    then some (print_nat (length (body_bytes m)))
    else if eqb_ℤ tag tag_checksum
    then some (print_nat (calculate_checksum (without_checksum m)))
    else find_field tag m

received : FixMessage → FixMessage
received m =
    let start = set_field tag_begin_string (codes "FIX.4.2") [] in
    let sized = set_field tag_body_length (print_nat (length (body_bytes m))) start in
    set_field tag_checksum (print_nat (calculate_checksum (without_checksum m)))
      (put_fields m sized)

-- A field with a positive tag whose value is a printed number, or any text without the delimiter.
parse_tokens-text :
    (n : ℕ) (tag value rest : Bytes) (r : FixMessage)
    → n < 2 ^ 31
    → tag ≡ print_int (pos n)
    → Lacks soh value
    → parse_tokens (lines soh (field_bytes tag value ++ rest)) r
      ≡ parse_tokens (lines soh rest) (set_field (pos n) value r)
parse_tokens-text n tag value rest r h e no_soh =
    rw e (parse_tokens-field (pos n) value rest r (omega arith) no_soh)

pub print_nat-Lacks : (n : ℕ) → Lacks soh (print_nat n)
print_nat-Lacks n =
    unfold print_int in print_int-Lacks (pos n) soh (omega arith) (inl (omega arith))

header-printed :
    (codes "8" ≡ print_int (pos 8))
    × (codes "9" ≡ print_int (pos 9))
    × (codes "10" ≡ print_int (pos 10))
unfolding print_int print_nat
header-printed = (refl, refl, refl)

-- The message in the order in which it is read.
serialize_right :
    (m : FixMessage)
    → serialize m
      ≡ field_bytes (codes "8") (codes "FIX.4.2")
        ++ (field_bytes (codes "9") (print_nat (length (body_bytes m)))
            ++ (body_bytes m
                ++ (field_bytes (codes "10") (print_nat (calculate_checksum (without_checksum m)))
                    ++ [])))
unfolding serialize
serialize_right m =
    let begin = field_bytes (codes "8") (codes "FIX.4.2") in
    let size = field_bytes (codes "9") (print_nat (length (body_bytes m))) in
    let last = field_bytes (codes "10") (print_nat (calculate_checksum (without_checksum m))) in
    let split : without_checksum m ≡ begin ++ (size ++ body_bytes m) =
      (unfold without_checksum in append_assoc begin size (body_bytes m)) in
    ap (λ t. t ++ last) split
    ∙ append_assoc begin (size ++ body_bytes m) last
    ∙ ap (λ t. begin ++ t) (append_assoc size (body_bytes m) last)
    ∙ ap (λ t. begin ++ (size ++ (body_bytes m ++ t))) (sym (append-nil last))

parse-received : (m : FixMessage) → IsSendable m → parse (serialize m) ≡ some (received m)
unfolding parse received
parse-received m h =
    let size = print_nat (length (body_bytes m)) in
    let sum = print_nat (calculate_checksum (without_checksum m)) in
    let last = field_bytes (codes "10") sum ++ [] in
    let start = set_field tag_begin_string (codes "FIX.4.2") [] in
    let sized = set_field tag_body_length size start in
    ap (λ t. parse_tokens (lines soh t) []) (serialize_right m)
    ∙ parse_tokens-text 8 (codes "8") (codes "FIX.4.2")
        (field_bytes (codes "9") size ++ (body_bytes m ++ last)) [] (omega arith) header-printed.0
        (omega arith)
    ∙ parse_tokens-text 9 (codes "9") size (body_bytes m ++ last) start (omega arith)
        header-printed.1 (print_nat-Lacks (length (body_bytes m)))
    ∙ parse_tokens-body m sized last h
    ∙ parse_tokens-text 10 (codes "10") sum [] (put_fields m sized) (omega arith) header-printed.2
        (print_nat-Lacks (calculate_checksum (without_checksum m)))
    ∙ (unfold lines parse_tokens in refl)

find_field-received :
    (tag : ℤ) (m : FixMessage) → IsSendable m → find_field tag (received m) ≡ framed tag m
unfolding received find_field
find_field-received tag m h =
    let start = set_field tag_begin_string (codes "FIX.4.2") [] in
    let size = print_nat (length (body_bytes m)) in
    let sum = print_nat (calculate_checksum (without_checksum m)) in
    let sized = set_field tag_body_length size start in
    ground (
      arith,
      find_field-set_field tag_checksum tag sum (put_fields m sized),
      find_field-put_fields tag m sized h,
      find_field-set_field tag_body_length tag size start,
      find_field-set_field tag_begin_string tag (codes "FIX.4.2") [],
      eqb_ℤ_iff tag_checksum tag,
      eqb_ℤ_iff tag_body_length tag,
      eqb_ℤ_iff tag_begin_string tag,
      eqb_ℤ_iff tag tag_checksum,
      eqb_ℤ_iff tag tag_body_length,
      eqb_ℤ_iff tag tag_begin_string,
    )

-- A message of int tags, each once, with values without the separator is parsed from its
-- serialisation; under each tag the receiver finds the sender's field, but for the version, the
-- body length and the checksum, which serialize computes.
pub parse-serialize :
    (m : FixMessage)
    → IsSendable m
    → (r : FixMessage) × (parse (serialize m) ≡ some r)
      × ((tag : ℤ) → find_field tag r ≡ framed tag m)
parse-serialize m h = (received m, parse-received m h, λ tag. find_field-received tag m h)
