-- ===== src/Network/WebSocket/Frames.antt =====
-- The frames of WebSocketServer::createWebSocketFrame against a reader of RFC 6455 frames.
use high_performance_trading.Base.{
  ℕ, zero, suc, ◌+◌, ◌*◌, ◌^◌, ◌<◌, ◌≡◌, refl, Option, none, some, [], ◌∷◌, ◌++◌, ltb, ◌==◌,
  if◌then◌else◌, length, arith, ◌>>=◌, Bool-cases, inl, inr,
}
use high_performance_trading.Base.Bytes.{Bytes}
use high_performance_trading.Network.WebSocket.{create_websocket_frame, length_bytes, length_byte}

-- The first bytes and the rest, if there are so many.
split_bytes : ℕ → Bytes → Option (Bytes × Bytes)
split_bytes zero s = some ([], s)
split_bytes (suc n) [] = none
split_bytes (suc n) (c ∷ s) = split_bytes n s >>= λ parts. some (c ∷ parts.0, parts.1)

big_endian : ℕ → Bytes → ℕ
big_endian n [] = n
big_endian n (c ∷ s) = big_endian (n * 256 + c) s

-- A length of so many bytes in network order, and the payload behind it. The highest bit is clear.
read_extended : ℕ → Bytes → Option (Bytes × Bytes)
read_extended width s = split_bytes width s >>= λ parts.
    if ltb (big_endian 0 parts.0) (2 ^ 63) then split_bytes (big_endian 0 parts.0) parts.1 else none

read_length : ℕ → Bytes → Option (Bytes × Bytes)
read_length first s =
    if first == 126
    then read_extended 2 s
    else if first == 127
    then read_extended 8 s
    else if ltb first 126
    then split_bytes first s
    else none

-- The payload of an unmasked text frame that is final, and the bytes behind the frame.
pub read_frame : Bytes → Option (Bytes × Bytes)
unfolding read_length
read_frame (first ∷ second ∷ s) = if first == 0x81 then read_length second s else none
read_frame _ = none

split_bytes-append : (s rest : Bytes) → split_bytes (length s) (s ++ rest) ≡ some (s, rest)
unfolding split_bytes
split_bytes-append [] rest = refl
split_bytes-append (c ∷ s) rest = ground (arith, split_bytes-append s rest)

big_endian-length_bytes : (len : ℕ) → len < 2 ^ 63 → big_endian 0 (length_bytes 8 len) ≡ len
unfolding big_endian length_bytes
big_endian-length_bytes len h = omega arith

-- A reader of unmasked text frames gets a payload shorter than 2^63 bytes back from its frame,
-- with the bytes behind the frame left.
pub read_frame-create_websocket_frame :
    (payload rest : Bytes)
    → length payload < 2 ^ 63
    → read_frame (create_websocket_frame payload ++ rest) ≡ some (payload, rest)
unfolding read_frame create_websocket_frame read_extended split_bytes big_endian
read_frame-create_websocket_frame payload rest h =
    let len = length payload in
    let whole = split_bytes-append payload rest in
    let wide = big_endian-length_bytes len h in
    elim (Bool-cases (ltb len 126)) [
      | inl e ↦ rw e (ground (arith, whole))
      | inr e ↦ elim (Bool-cases (ltb len 65536)) [
        | inl f ↦
            let two : (0 * 256 + length_byte len 1) * 256 + length_byte len 0 ≡ len =
              ground arith in
            rw (e, f, two) (ground (arith, whole))
        | inr f ↦ rw (e, f, wide) (ground (arith, whole))
      ]
    ]
