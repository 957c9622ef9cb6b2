-- ===== src/Network/WebSocket/Handshake.antt =====
-- WebSocketServer::handleMessage: which messages are answered, and how.
use high_performance_trading.Base.{ℕ, ◌<◌, ◌≡◌, some, [], ◌∷◌, ◌++◌, arith, All-append}
use high_performance_trading.Base.Bytes.{Bytes, codes, IsBytes, Lacks}
use high_performance_trading.Base.Bytes.Search.{drop_prefix, find_text, find_text-append}
use high_performance_trading.Network.WebSocket.{
  WebSocketServer, handle_message, handle_handshake, handshake_response, key_of,
}
use high_performance_trading.Network.WebSocket.Base64.{groups, base64_encode-groups}

abbrev pub guid : Bytes
guid = codes "258EAFA5-E914-47DA-95CA-C5AB0DC85B11"

abbrev pub accepts : Bytes → Bytes
accepts key =
    codes
      "HTTP/1.1 101 Switching Protocols\r\nUpgrade: websocket\r\nConnection: Upgrade\r\nSec-WebSocket-Accept: "
    ++ groups (key ++ guid)
    ++ codes "\r\n\r\n"

key_of-line : (key rest : Bytes) → Lacks b'\r' key → key_of (key ++ b'\r' ∷ b'\n' ∷ rest) ≡ key
unfolding key_of
key_of-line key rest h = rw (find_text-append b'\r' (b'\n' ∷ []) key rest h, key_of)

-- A GET request for an upgrade with a key line is answered with the response that accepts the key
-- (base64 of the key and the GUID), and the client joins the list of websocket clients.
pub handle_message-upgrade :
    (request key rest front before after : Bytes) (behind : Bytes) (client : ℕ)
    (server : WebSocketServer)
    → drop_prefix (codes "GET") request ≡ some behind
    → find_text (codes "Upgrade: websocket") request ≡ some (before, after)
    → find_text (codes "Sec-WebSocket-Key: ") request ≡ some (front, key ++ b'\r' ∷ b'\n' ∷ rest)
    → Lacks b'\r' key
    → IsBytes key
    → handle_message request client server ≡ record server {
      ws_clients = server.ws_clients ++ client ∷ [];
      sent = (client, accepts key) ∷ server.sent;
    }
unfolding handle_message handle_handshake handshake_response
handle_message-upgrade request key rest front before after behind client server get up header line
      bytes =
    let e =
      base64_encode-groups (key ++ guid) (All-append (λ c. c < 256) key guid bytes (omega arith)) in
    rw (get, up, header, handle_handshake) (rw (key_of-line key rest line, e))
