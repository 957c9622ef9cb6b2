-- ===== src/Network/WebSocket/Base64.antt =====
-- WebSocketServer::base64Encode against RFC 4648: three bytes at a time give four characters.
use high_performance_trading.Base.{
  true, ℕ, zero, suc, ◌+◌, ◌*◌, ◌/◌, ◌%◌, ◌^◌, ◌<◌, ◌≡◌, refl, ◌∙◌, sym, ap, [], ◌∷◌, ◌++◌, length,
  arith, length-append,
}
use mathlib.Core.List.{append_assoc, append-nil}
use high_performance_trading.Base.Int.{ℤ, pos, negsuc, pos_part, ltb_ℤ, ◌+ℤ◌, ◌-ℤ◌}
use high_performance_trading.Base.Bytes.{Bytes, IsBytes}
use high_performance_trading.Network.WebSocket.{
  base64_char, base64_encode, emit_sextets, encode_bytes, finish_base64, pad, sextet,
}

unfoldable pub groups : Bytes → Bytes
groups [] = []
groups (a ∷ []) = base64_char (a / 4) ∷ base64_char (a % 4 * 16) ∷ b'=' ∷ b'=' ∷ []
groups (a ∷ b ∷ []) =
    base64_char (a / 4) ∷ base64_char (a % 4 * 16 + b / 16) ∷ base64_char (b % 16 * 4) ∷ b'=' ∷ []
groups (a ∷ b ∷ c ∷ s) =
    base64_char (a / 4)
    ∷ base64_char (a % 4 * 16 + b / 16)
    ∷ base64_char (b % 16 * 4 + c / 64)
    ∷ base64_char (c % 64)
    ∷ groups s

-- The encoder from an input, an accumulated output and nothing pending.
encode_from : Bytes → ℕ → Bytes → Bytes
encode_from input val output =
    let (val', valb, output') = encode_bytes input val (negsuc 5) output in
    finish_base64 val' valb output'

abbrev shift : ℕ → ℕ → ℕ
shift val c = (val * 2 ^ 8 + c) % 2 ^ 32

push_four :
    (out : Bytes) (w x y z : ℕ)
    → (((out ++ w ∷ []) ++ x ∷ []) ++ y ∷ []) ++ z ∷ [] ≡ out ++ w ∷ x ∷ y ∷ z ∷ []
push_four out w x y z = simp append_assoc

-- Three bytes leave nothing pending.
encode_from-three :
    (a b c val : ℕ) (s output : Bytes)
    → a < 256
    → b < 256
    → c < 256
    → encode_from (a ∷ b ∷ c ∷ s) val output
      ≡ encode_from s (shift (shift (shift val a) b) c) (
          output
          ++ base64_char (a / 4)
            ∷ base64_char (a % 4 * 16 + b / 16)
            ∷ base64_char (b % 16 * 4 + c / 64)
            ∷ base64_char (c % 64)
            ∷ [])
unfolding encode_from encode_bytes emit_sextets ◌+ℤ◌ ◌-ℤ◌ ltb_ℤ
encode_from-three a b c val s output ha hb hc =
    let v = shift (shift (shift val a) b) c in
    let w : shift val a / 2 ^ 2 % 64 ≡ a / 4 = omega arith in
    let x : shift (shift val a) b / 2 ^ 4 % 64 ≡ a % 4 * 16 + b / 16 = omega arith in
    let y : v / 2 ^ 6 % 64 ≡ b % 16 * 4 + c / 64 = omega arith in
    let z : v / 2 ^ 0 % 64 ≡ c % 64 = omega arith in
    let four =
      push_four output (base64_char (a / 4)) (base64_char (a % 4 * 16 + b / 16))
        (base64_char (b % 16 * 4 + c / 64)) (base64_char (c % 64)) in
    let same : (((output ++ base64_char (shift val a / 2 ^ 2 % 64) ∷ [])
              ++ base64_char (shift (shift val a) b / 2 ^ 4 % 64) ∷ [])
            ++ base64_char (v / 2 ^ 6 % 64) ∷ [])
          ++ base64_char (v / 2 ^ 0 % 64) ∷ []
        ≡ output
          ++ base64_char (a / 4)
            ∷ base64_char (a % 4 * 16 + b / 16)
            ∷ base64_char (b % 16 * 4 + c / 64)
            ∷ base64_char (c % 64)
            ∷ [] =
      rw (w, x, y, z) four in
    ap (encode_from s v) same

length-push : (out : Bytes) (x : ℕ) → length (out ++ x ∷ []) ≡ length out + 1
length-push out x = length-append out (x ∷ [])

pad_none : (fuel : ℕ) (out : Bytes) → length out % 4 ≡ 0 → pad fuel out ≡ out
unfolding pad
pad_none zero out h = refl
pad_none (suc fuel) out h = ground arith

pad_one : (fuel : ℕ) (out : Bytes) → length out % 4 ≡ 3 → pad (suc fuel) out ≡ out ++ b'=' ∷ []
unfolding pad
pad_one fuel out h = ground (arith, pad_none fuel (out ++ b'=' ∷ []), length-push out b'=')

pad_two :
    (fuel : ℕ) (out : Bytes)
    → length out % 4 ≡ 2
    → pad (suc (suc fuel)) out ≡ (out ++ b'=' ∷ []) ++ b'=' ∷ []
unfolding pad
pad_two fuel out h = ground (arith, pad_one fuel (out ++ b'=' ∷ []), length-push out b'=')

encode_from-one :
    (a val : ℕ) (output : Bytes)
    → a < 256
    → length output % 4 ≡ 0
    → encode_from (a ∷ []) val output ≡ output ++ groups (a ∷ [])
unfolding encode_from encode_bytes finish_base64 emit_sextets ◌+ℤ◌ ◌-ℤ◌ ltb_ℤ groups
encode_from-one a val output ha k =
    let w : shift val a / 2 ^ 2 % 64 ≡ a / 4 = omega arith in
    let x : shift val a * 2 ^ 8 % 2 ^ 32 / 2 ^ 4 % 64 ≡ a % 4 * 16 = omega arith in
    let first = output ++ base64_char (a / 4) ∷ [] in
    let both = first ++ base64_char (a % 4 * 16) ∷ [] in
    rw (w, x)
      (pad_two 2 both (
          omega (
            arith,
            length-push output (base64_char (a / 4)),
            length-push first (base64_char (a % 4 * 16)),
          ))
        ∙ push_four output _ _ _ _)

encode_from-two :
    (a b val : ℕ) (output : Bytes)
    → a < 256
    → b < 256
    → length output % 4 ≡ 0
    → encode_from (a ∷ b ∷ []) val output ≡ output ++ groups (a ∷ b ∷ [])
unfolding encode_from encode_bytes finish_base64 emit_sextets ◌+ℤ◌ ◌-ℤ◌ ltb_ℤ groups
encode_from-two a b val output ha hb k =
    let v = shift (shift val a) b in
    let w : shift val a / 2 ^ 2 % 64 ≡ a / 4 = omega arith in
    let x : v / 2 ^ 4 % 64 ≡ a % 4 * 16 + b / 16 = omega arith in
    let y : v * 2 ^ 8 % 2 ^ 32 / 2 ^ 6 % 64 ≡ b % 16 * 4 = omega arith in
    let first = output ++ base64_char (a / 4) ∷ [] in
    let both = first ++ base64_char (a % 4 * 16 + b / 16) ∷ [] in
    let all = both ++ base64_char (b % 16 * 4) ∷ [] in
    rw (w, x, y)
      (pad_one 3 all (
          omega (
            arith,
            length-push output (base64_char (a / 4)),
            length-push first (base64_char (a % 4 * 16 + b / 16)),
            length-push both (base64_char (b % 16 * 4)),
          ))
        ∙ push_four output _ _ _ _)

encode_from-groups :
    (s : Bytes) (val : ℕ) (output : Bytes)
    → IsBytes s
    → length output % 4 ≡ 0
    → encode_from s val output ≡ output ++ groups s
unfolding groups
encode_from-groups [] val output h k =
    unfold encode_from encode_bytes finish_base64 ltb_ℤ in
    pad_none 4 output k ∙ sym (append-nil output)
encode_from-groups (a ∷ []) val output h k = encode_from-one a val output h.0 k
encode_from-groups (a ∷ b ∷ []) val output h k = encode_from-two a b val output h.0 h.1.0 k
encode_from-groups (a ∷ b ∷ c ∷ s) val output h k =
    let w = base64_char (a / 4) in
    let x = base64_char (a % 4 * 16 + b / 16) in
    let y = base64_char (b % 16 * 4 + c / 64) in
    let z = base64_char (c % 64) in
    let four = w ∷ x ∷ y ∷ z ∷ [] in
    encode_from-three a b c val s output h.0 h.1.0 h.1.1.0
    ∙ encode_from-groups s (shift (shift (shift val a) b) c) (output ++ four) h.1.1.1
        (omega (arith, length-append output four))
    ∙ append_assoc output four (groups s)

-- For any bytes the encoder, which shifts bits through an accumulator, gives the base64 of groups
-- of three bytes with its padding.
pub base64_encode-groups : (input : Bytes) → IsBytes input → base64_encode input ≡ groups input
base64_encode-groups input h =
    let same : base64_encode input ≡ encode_from input 0 [] =
      (unfold base64_encode encode_from in refl) in
    same ∙ encode_from-groups input 0 [] h (omega arith)

emit_sextets_ends :
    (fuel val : ℕ) (valb : ℤ) (output : Bytes)
    → pos_part valb < fuel
    → ltb_ℤ (emit_sextets fuel val valb output).0 (pos 0) ≡ true
unfolding emit_sextets ltb_ℤ ◌-ℤ◌
emit_sextets_ends zero val valb output h = absurd (omega arith)
emit_sextets_ends (suc fuel) val valb output h =
    ground (arith, emit_sextets_ends fuel val (valb -ℤ pos 6) (output ++ sextet val valb ∷ []))

pad_ends : (output : Bytes) → length (pad 4 output) % 4 ≡ 0
unfolding pad
pad_ends output =
    let one = output ++ b'=' ∷ [] in
    let two = one ++ b'=' ∷ [] in
    let three = two ++ b'=' ∷ [] in
    ground (
      arith,
      length-push output b'=',
      length-push one b'=',
      length-push two b'=',
      length-push three b'=',
    )

-- Both `while` loops of the encoder end by their tests.
pub base64_loops_end :
    (val : ℕ) (valb : ℤ) (output : Bytes)
    → (ltb_ℤ (emit_sextets (suc (pos_part valb)) val valb output).0 (pos 0) ≡ true)
      × (length (pad 4 output) % 4 ≡ 0)
base64_loops_end val valb output =
    (emit_sextets_ends (suc (pos_part valb)) val valb output (omega arith), pad_ends output)
