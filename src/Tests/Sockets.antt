-- ===== src/Tests/Sockets.antt =====
-- The theorems on the TCP and the WebSocket server at concrete inputs.
use high_performance_trading.Base.{◌≡◌, refl, true, none, some, List, [], ◌∷◌, ◌++◌, arith}
use high_performance_trading.Base.Int.{ltb_ℤ, ◌+ℤ◌, ◌-ℤ◌}
use high_performance_trading.Base.Bytes.{Bytes, codes}
use high_performance_trading.Base.Bytes.Search.{drop_prefix, find_text}
use high_performance_trading.Network.WebSocket.{
  WebSocketServer, create_websocket_frame, base64_encode, encode_bytes, emit_sextets, finish_base64,
  pad, base64_char,
}
use high_performance_trading.Network.WebSocket.Frames.{
  read_frame, read_frame-create_websocket_frame,
}
use high_performance_trading.Network.WebSocket.Base64.{groups, base64_encode-groups}
use high_performance_trading.Network.TcpServer.{
  TcpServer, Event, accepted, received, hung_up, start, make_tcp_server, handle_events,
  handle_event, accept_step, receive_step,
}
use high_performance_trading.Network.TcpServer.Clients.{
  ArePossible, IsTracked, clients_are_handlers,
}

read_frame-create_websocket_frame_example :
    read_frame (create_websocket_frame (codes "{}") ++ codes "next")
    ≡ some (codes "{}", codes "next")
read_frame-create_websocket_frame_example =
    read_frame-create_websocket_frame (codes "{}") (codes "next") (omega arith)

base64_encode-groups_example : base64_encode (codes "trade") ≡ groups (codes "trade")
base64_encode-groups_example = base64_encode-groups (codes "trade") (omega arith)

trade_in_base64 : base64_encode (codes "trade") ≡ codes "dHJhZGU="
unfolding base64_encode encode_bytes emit_sextets finish_base64 pad base64_char ◌+ℤ◌ ◌-ℤ◌ ltb_ℤ
trade_in_base64 = refl

abbrev request : Bytes
request = codes "GET / HTTP/1.1\r\nUpgrade: websocket\r\nSec-WebSocket-Key: dGhl\r\n\r\n"

abbrev nobody : WebSocketServer
nobody = record { ws_clients = []; sent = [] }

get_found :
    drop_prefix (codes "GET") request
    ≡ some (codes " / HTTP/1.1\r\nUpgrade: websocket\r\nSec-WebSocket-Key: dGhl\r\n\r\n")
unfolding drop_prefix
get_found = refl

upgrade_found :
    find_text (codes "Upgrade: websocket") request
    ≡ some (codes "GET / HTTP/1.1\r\n", codes "\r\nSec-WebSocket-Key: dGhl\r\n\r\n")
unfolding find_text
upgrade_found = refl

key_found :
    find_text (codes "Sec-WebSocket-Key: ") request
    ≡ some (
      codes "GET / HTTP/1.1\r\nUpgrade: websocket\r\n",
      codes "dGhl" ++ b'\r' ∷ b'\n' ∷ codes "\r\n",
    )
unfolding find_text
key_found = refl

-- Two clients come, and one of them leaves after a message.
abbrev day : List Event
day = accepted (some 5) ∷ accepted (some 6) ∷ received 5 (codes "hello") ∷ hung_up 5 ∷ []

day_possible : ArePossible day (start (some 3) true true make_tcp_server).0
unfolding start make_tcp_server handle_event accept_step receive_step
day_possible = ((refl, refl), ((refl, refl), (omega arith, (omega arith, tt))))

clients_are_handlers_example :
    IsTracked (handle_events day (start (some 3) true true make_tcp_server).0)
clients_are_handlers_example = clients_are_handlers (some 3) true true day day_possible

abbrev busy : TcpServer
busy = record {
  running = true;
  server_socket = some 3;
  accepting = true;
  clients = 5 ∷ 6 ∷ [];
  handlers = 6 ∷ 5 ∷ [];
  closed = [];
  has_callback = true;
  delivered = [];
}

-- One client leaves, and the other one stays.
abbrev evening : List Event
evening = accepted none ∷ hung_up 5 ∷ []
