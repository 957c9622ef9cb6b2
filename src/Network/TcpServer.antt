-- ===== src/Network/TcpServer.antt =====
-- include/network/tcp_server.hpp: the class TCPServer. A call of the system is the result that it
-- returns; `none` stands for INVALID_SOCKET and SOCKET_ERROR. The accept thread and the client
-- threads are steps of one state; what a thread does between two calls that may wait, up to the end of
-- the thread, is one step.
pub mod Clients
use high_performance_trading.Base.{
  ℕ, Bool, true, false, ◌&&◌, not, Option, none, some, List, [], ◌∷◌, ◌++◌, ◌==◌, if◌then◌else◌,
  map, length, erase,
}
use high_performance_trading.Base.Bytes.{Bytes}

-- `handlers` are the sockets of the client threads that have not ended, `accepting` tells whether the
-- accept thread is inside `accept`; `closed` and `delivered` are the calls of `close` and of the
-- callback, the latest first.
pub record TcpServer : Type 0 where
  pub running : Bool
  pub server_socket : Option ℕ
  pub accepting : Bool
  pub clients : List ℕ
  pub handlers : List ℕ
  pub closed : List ℕ
  pub has_callback : Bool
  pub delivered : List (Bytes × ℕ)

unfoldable pub make_tcp_server : TcpServer
make_tcp_server = record {
  running = false;
  server_socket = none;
  accepting = false;
  clients = [];
  handlers = [];
  closed = [];
  has_callback = false;
  delivered = [];
}

abbrev pub set_message_callback : TcpServer → TcpServer
set_message_callback s = record s { has_callback = true }

abbrev pub close_socket : ℕ → TcpServer → TcpServer
close_socket fd s = record s { closed = fd ∷ s.closed }

-- From the socket on: `bound` and `listening` are the successes of `bind` and `listen`.
abbrev pub start_with : ℕ → Bool → Bool → TcpServer → TcpServer × Bool
start_with fd bound listening s =
    let s' = record s { server_socket = some fd } in
    if not bound
    then (close_socket fd s', false)
    else if not listening
    then (close_socket fd s', false)
    else (record s' { running = true; accepting = true }, true)

unfoldable pub start : Option ℕ → Bool → Bool → TcpServer → TcpServer × Bool
start opened bound listening s = elim opened [
  | none ↦ (record s { server_socket = none }, false)
  | some fd ↦ start_with fd bound listening s
]

-- `stop` up to its waiting for the threads.
unfoldable pub begin_stop : TcpServer → TcpServer
begin_stop s = elim s.server_socket [
  | none ↦ record s { running = false }
  | some fd ↦ record s { running = false; server_socket = none; closed = fd ∷ s.closed }
]

-- The rest of `stop`, which joins the accept thread and every client thread that was started. A join
-- returns once its thread has ended, so all of them return once no thread runs.
unfoldable pub can_return : TcpServer → Bool
can_return s = not s.accepting && elim s.handlers [ [] ↦ true | fd ∷ rest ↦ false ]

-- `std::remove` and `erase`: all entries of the socket go.
unfoldable pub remove_all : ℕ → List ℕ → List ℕ
remove_all fd [] = []
remove_all fd (x ∷ xs) = let rest = remove_all fd xs in if x == fd then rest else x ∷ rest

-- The end of `handleClient`.
unfoldable pub end_client : ℕ → TcpServer → TcpServer
end_client fd s = record s {
  clients = remove_all fd s.clients;
  handlers = erase fd s.handlers;
  closed = fd ∷ s.closed;
}

-- What a thread meets when its system call returns.
pub data Event : Type 0 where
  -- `accept` returned.
  accepted : Option ℕ → Event
  -- `recv` of a client's thread returned some bytes.
  received : ℕ → Bytes → Event
  -- `recv` of a client's thread returned 0 or an error.
  hung_up : ℕ → Event
  -- `stop` was called.
  stopping : Event

abbrev pub add_client : ℕ → TcpServer → TcpServer
add_client fd s = record s { clients = s.clients ++ fd ∷ []; handlers = fd ∷ s.handlers }

-- The loops test `running_` before they call the system again.
unfoldable pub accept_step : Option ℕ → TcpServer → TcpServer
accept_step none s = record s { accepting = s.running }
accept_step (some fd) s = record (add_client fd s) { accepting = s.running }

abbrev pub deliver : Bytes → ℕ → TcpServer → TcpServer
deliver message fd s =
    if s.has_callback then record s { delivered = (message, fd) ∷ s.delivered } else s

unfoldable pub receive_step : ℕ → Bytes → TcpServer → TcpServer
receive_step fd message s =
    let s' = deliver message fd s in if s'.running then s' else end_client fd s'

unfoldable pub handle_event : Event → TcpServer → TcpServer
handle_event (accepted r) s = accept_step r s
handle_event (received fd message) s = receive_step fd message s
handle_event (hung_up fd) s = end_client fd s
handle_event stopping s = begin_stop s

unfoldable pub handle_events : List Event → TcpServer → TcpServer
handle_events [] s = s
handle_events (e ∷ events) s = handle_events events (handle_event e s)

-- The result of `sendMessage`, where `sent` tells whether `send` succeeds.
abbrev pub send_message : Option ℕ → Bytes → (ℕ → Bytes → Bool) → Bool
send_message none message sent = false
send_message (some fd) message sent = sent fd message

-- The calls of `send` that `broadcast` makes, in order.
abbrev pub broadcast : Bytes → TcpServer → List (ℕ × Bytes)
broadcast message s = map (λ fd. (fd, message)) s.clients

abbrev pub get_client_count : TcpServer → ℕ
get_client_count s = length s.clients
