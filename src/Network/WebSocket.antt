-- ===== src/Network/WebSocket.antt =====
-- include/network/websocket_server.hpp: the class WebSocketServer. Its TCP server appears by the
-- messages that it is told to send.
pub mod Frames
pub mod Base64
pub mod Handshake
use high_performance_trading.Base.{
  ℕ, zero, suc, ◌+◌, ◌*◌, ◌/◌, ◌%◌, ◌^◌, Bool, true, false, ◌&&◌, Option, none, some, List, [], ◌∷◌,
  ◌++◌, ltb, ◌==◌, if◌then◌else◌, length,
}
use high_performance_trading.Base.Int.{ℤ, pos, negsuc, pos_part, ltb_ℤ, ◌+ℤ◌, ◌-ℤ◌}
use high_performance_trading.Base.Bytes.{Bytes, codes}
use high_performance_trading.Base.Bytes.Search.{drop_prefix, find_text}

-- Byte `i` of a length, `(len >> (i * 8)) & 0xFF`.
abbrev pub length_byte : ℕ → ℕ → ℕ
length_byte len i = len / 2 ^ (i * 8) % 256

-- The loop from byte `i - 1` down to byte 0.
unfoldable pub length_bytes : ℕ → ℕ → Bytes
length_bytes zero len = []
length_bytes (suc i) len = length_byte len i ∷ length_bytes i len

unfoldable pub create_websocket_frame : Bytes → Bytes
unfolding length_bytes
create_websocket_frame payload =
    let len = length payload in
    let head : Bytes =
      if ltb len 126
      then len ∷ []
      else if ltb len 65536
      then 126 ∷ length_byte len 1 ∷ length_byte len 0 ∷ []
      else 127 ∷ length_bytes 8 len in
    0x81 ∷ head ++ payload

abbrev base64_chars : Bytes
base64_chars = codes "ABCDEFGHIJKLMNOPQRSTUVWXYZabcdefghijklmnopqrstuvwxyz0123456789+/"

abbrev byte_at : Bytes → ℕ → ℕ
byte_at [] i = 0
byte_at (c ∷ s) zero = c
byte_at (c ∷ s) (suc i) = byte_at s i

unfoldable pub base64_char : ℕ → ℕ
base64_char i = byte_at base64_chars i

-- `(val >> valb) & 0x3F` of the bit pattern of a 32-bit `int`. Only bits below 32 are read.
abbrev pub sextet : ℕ → ℤ → ℕ
sextet val valb = base64_char (val / 2 ^ pos_part valb % 64)

-- `while (valb >= 0)`. A round takes 6 from `valb`, so `valb + 1` rounds are enough.
unfoldable pub emit_sextets : ℕ → ℕ → ℤ → Bytes → ℤ × Bytes
emit_sextets zero val valb output = (valb, output)
emit_sextets (suc fuel) val valb output =
    let more = emit_sextets fuel val (valb -ℤ pos 6) (output ++ sextet val valb ∷ []) in
    if ltb_ℤ valb (pos 0) then (valb, output) else more

-- The loop over the input; shifts wrap as those of a 32-bit word.
unfoldable pub encode_bytes : Bytes → ℕ → ℤ → Bytes → ℕ × ℤ × Bytes
encode_bytes [] val valb output = (val, valb, output)
encode_bytes (c ∷ input) val valb output =
    let val' = (val * 2 ^ 8 + c) % 2 ^ 32 in
    let valb' = valb +ℤ pos 8 in
    let (valb'', output') = emit_sextets (suc (pos_part valb')) val' valb' output in
    encode_bytes input val' valb'' output'

-- `while (output.size() % 4)`, which ends after three rounds at most.
unfoldable pub pad : ℕ → Bytes → Bytes
pad zero output = output
pad (suc fuel) output =
    let more = pad fuel (output ++ b'=' ∷ []) in if length output % 4 == 0 then output else more

unfoldable pub finish_base64 : ℕ → ℤ → Bytes → Bytes
finish_base64 val valb output = pad 4 (
    if ltb_ℤ (negsuc 5) valb
    then output ++ sextet (val * 2 ^ 8 % 2 ^ 32) (valb +ℤ pos 8) ∷ []
    else output)

unfoldable pub base64_encode : Bytes → Bytes
base64_encode input =
    let (val, valb, output) = encode_bytes input 0 (negsuc 5) [] in finish_base64 val valb output

-- The sockets of the clients that have shaken hands, and what was sent, the latest first.
pub record WebSocketServer : Type 0 where
  pub ws_clients : List ℕ
  pub sent : List (ℕ × Bytes)

-- The text up to the end of the line, or to the end of the request if the line does not end.
unfoldable pub key_of : Bytes → Bytes
key_of after = elim (find_text (codes "\r\n") after) [ none ↦ after | some (key, rest) ↦ key ]

unfoldable pub handshake_response : Bytes → Bytes
handshake_response key =
    codes
      "HTTP/1.1 101 Switching Protocols\r\nUpgrade: websocket\r\nConnection: Upgrade\r\nSec-WebSocket-Accept: "
    ++ base64_encode (key ++ codes "258EAFA5-E914-47DA-95CA-C5AB0DC85B11")
    ++ codes "\r\n\r\n"

unfoldable pub handle_handshake : Bytes → ℕ → WebSocketServer → WebSocketServer
handle_handshake request client server = elim (find_text (codes "Sec-WebSocket-Key: ") request) [
  | none ↦ server
  | some (before, after) ↦ record server {
    ws_clients = server.ws_clients ++ client ∷ [];
    sent = (client, handshake_response (key_of after)) ∷ server.sent;
  }
]

abbrev pub found {ℓ} : {A : Type ℓ} → Option A → Bool
found none = false
found (some a) = true

unfoldable pub handle_message : Bytes → ℕ → WebSocketServer → WebSocketServer
handle_message msg client server =
    if found (drop_prefix (codes "GET") msg) && found (find_text (codes "Upgrade: websocket") msg)
    then handle_handshake msg client server
    else server
