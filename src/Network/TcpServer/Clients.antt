-- ===== src/Network/TcpServer/Clients.antt =====
-- The list of clients of the TCP server while threads come and go.
use high_performance_trading.Base.{
  ℕ, ◌≤◌, ◌<◌, ◌≡◌, Bool, true, Option, none, some, List, [], ◌∷◌, ◌==◌, if◌then◌else◌, arith,
  count, count-append, count-erase, Bool-cases, inl, inr, ◌≢◌,
}
use high_performance_trading.Network.TcpServer.{
  TcpServer, Event, accepted, received, hung_up, stopping, deliver, accept_step, receive_step,
  end_client, begin_stop, remove_all, handle_event, handle_events, start, make_tcp_server,
}

-- What the system and the threads may do: `accept` returns a socket that is not open, and a client's
-- thread receives on its own socket until it ends.
abbrev pub IsPossible : Event → TcpServer → Type 0
IsPossible (accepted none) s = s.accepting ≡ true
IsPossible (accepted (some fd)) s = (s.accepting ≡ true) × (count fd s.handlers ≡ 0)
IsPossible (received fd message) s = 0 < count fd s.handlers
IsPossible (hung_up fd) s = 0 < count fd s.handlers
IsPossible stopping s = Unit

abbrev pub ArePossible : List Event → TcpServer → Type 0
ArePossible [] s = Unit
ArePossible (e ∷ events) s = IsPossible e s × ArePossible events (handle_event e s)

-- The clients are the sockets of the running client threads, each once.
abbrev pub IsTracked : TcpServer → Type 0
IsTracked s = (fd : ℕ) → (count fd s.clients ≡ count fd s.handlers) × (count fd s.handlers ≤ 1)

count-remove_all :
    (fd a : ℕ) (xs : List ℕ) → count a (remove_all fd xs) ≡ (if fd == a then 0 else count a xs)
unfolding remove_all
count-remove_all fd a [] = ground arith
count-remove_all fd a (x ∷ xs) = ground (arith, count-remove_all fd a xs)

end_client-IsTracked :
    (fd : ℕ) (s : TcpServer) → 0 < count fd s.handlers → IsTracked s → IsTracked (end_client fd s)
unfolding end_client
end_client-IsTracked fd s busy tracked = λ a.
    ground
      (arith, count-remove_all fd a s.clients, count-erase fd a s.handlers, tracked a, tracked fd)

handle_event-IsTracked :
    (e : Event) (s : TcpServer) → IsPossible e s → IsTracked s → IsTracked (handle_event e s)
unfolding handle_event accept_step receive_step begin_stop
handle_event-IsTracked (accepted none) s possible tracked = tracked
handle_event-IsTracked (accepted (some fd)) s possible tracked =
    λ a. ground (arith, count-append a s.clients (fd ∷ []), tracked a, possible.1)
handle_event-IsTracked (received fd message) s possible tracked =
    let s' = deliver message fd s in
    let same : IsTracked s' = λ a. ground (arith, tracked a) in
    let busy : 0 < count fd s'.handlers = ground (arith, possible) in
    elim (Bool-cases s'.running) [
      | inl e ↦ rw e same
      | inr e ↦ rw e (end_client-IsTracked fd s' busy same)
    ]
handle_event-IsTracked (hung_up fd) s possible tracked = end_client-IsTracked fd s possible tracked
handle_event-IsTracked stopping s possible tracked = λ a. ground (arith, tracked a)

pub handle_events-IsTracked :
    (events : List Event) (s : TcpServer)
    → ArePossible events s
    → IsTracked s
    → IsTracked (handle_events events s)
unfolding handle_events
handle_events-IsTracked [] s possible tracked = tracked
handle_events-IsTracked (e ∷ events) s possible tracked =
    handle_events-IsTracked events (handle_event e s) possible.1
      (handle_event-IsTracked e s possible.0 tracked)

-- However the start of a new server ends, after any possible sequence of events the clients are
-- the sockets of the running client threads, each once.
pub clients_are_handlers :
    (opened : Option ℕ) (bound listening : Bool) (events : List Event)
    → ArePossible events (start opened bound listening make_tcp_server).0
    → IsTracked (handle_events events (start opened bound listening make_tcp_server).0)
unfolding start make_tcp_server
clients_are_handlers none bound listening events possible =
    handle_events-IsTracked events _ possible (λ a. ground arith)
clients_are_handlers (some fd) bound listening events possible =
    handle_events-IsTracked events _ possible (λ a. ground arith)

-- The peer of a client sends nothing and stays connected: `recv` on the socket gives no bytes, and it
-- ends only after the server itself has closed the socket, more often than the `n` times before.
abbrev pub IsSilent : ℕ → ℕ → Event → TcpServer → Type 0
IsSilent fd n (received a message) s = a ≢ fd
IsSilent fd n (hung_up a) s = a ≡ fd → n < count fd s.closed
IsSilent fd n _ s = Unit

abbrev pub AreSilent : ℕ → ℕ → List Event → TcpServer → Type 0
AreSilent fd n [] s = Unit
AreSilent fd n (e ∷ events) s = IsSilent fd n e s × AreSilent fd n events (handle_event e s)

-- A client's thread runs, and nothing has closed its socket.
record IsWaiting (fd n : ℕ) (s : TcpServer) : Type 0 where
  busy : 0 < count fd s.handlers
  open_still : count fd s.closed ≡ n
  apart : s.server_socket ≢ some fd
