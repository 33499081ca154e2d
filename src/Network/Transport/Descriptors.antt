-- ===== src/Network/Transport/Descriptors.antt =====
-- Which descriptors are open: those that the transport holds, and no other.
use edge_orchestrator_ai.Prelude.{
  ℕ, ◌+◌, ◌≡◌, refl, sym, ap, ◌∙◌, ◌⊎◌, inl, inr, Bool, true, false, List, [], ◌∷◌, Option, none,
  some, String, nat_key, remove_one-first, count, arith,
}
use edge_orchestrator_ai.Core.Result.{ok, err, Error}
use edge_orchestrator_ai.Network.Transport.Sockets.{
  TcpTransport, make_transport, Outcome, close_client, close_server, Connecting, connected,
  in_progress, refused, ConnectAnswers, after_poll, after_connect, after_address, after_socket,
  connect_from, connect, disconnect, disconnect_from, ListenAnswers, after_bind,
  after_server_socket, server_socket, listen_from, listen, serve, stop_serving, stop_from, destroy,
  Accepting, accept_connection, finish_connection,
}
use edge_orchestrator_ai.Network.Transport.Held.{
  held_by, held, NoLeak, disconnect-NoLeak, stop_from-NoLeak, serve_from-NoLeak,
  accept_connection-NoLeak, finish_connection-NoLeak, finish_all-closes,
}

pub data Operation : Type 0 where
  connects : String → ConnectAnswers → Operation
  listens : ListenAnswers → Operation
  disconnects serves stops_serving : Operation
  accepts : Accepting → Operation
  finishes : ℕ → Operation

abbrev pub apply : Operation → TcpTransport → TcpTransport
apply (connects address a) t = (connect address a t).1
apply (listens a) t = (listen a t).1
apply disconnects t = disconnect t
apply serves t = serve t
apply stops_serving t = stop_serving t
apply (accepts a) t = accept_connection a t
apply (finishes fd) t = finish_connection fd t

abbrev pub run : List Operation → TcpTransport → TcpTransport
run [] t = t
run (op ∷ ops) t = run ops (apply op t)

-- A transport whose client descriptor has just been opened.
abbrev pub with_client : ℕ → TcpTransport → TcpTransport
with_client fd t = record t { client_fd = some fd; open_fds = fd ∷ t.open_fds }

abbrev pub with_server : ℕ → TcpTransport → TcpTransport
with_server fd t = record t { server_fd = some fd; open_fds = fd ∷ t.open_fds }

-- connect ends well with a descriptor, or with an error and the transport as it was.
abbrev pub Connects : TcpTransport → Outcome → Type 0
Connects t r =
    ((r.0 ≡ ok tt) × (t.client_fd ≡ none) × ((fd : ℕ) × (r.1 ≡ with_client fd t)))
    ⊎ ((e : Error) × (r.0 ≡ err e) × (r.1 ≡ t))

closed_again :
    (fd : ℕ) (t : TcpTransport) → t.client_fd ≡ none → close_client fd (with_client fd t) ≡ t
closed_again fd t e =
    rw (remove_one-first fd t.open_fds) (ap (λ (c : Option ℕ). record t { client_fd = c }) (sym e))

-- Whatever the system calls answer, connect returns ok, it held no client before, and it opened
-- one descriptor that it now holds; or it returns an error and leaves the transport as it was.
pub connect-Connects :
    (address : String) (a : ConnectAnswers) (t : TcpTransport) → Connects t (connect address a t)
unfolding connect
connect-Connects address a t = from t.client_fd refl
  where
    fails :
        (fd : ℕ) (e : Error)
        → t.client_fd ≡ none
        → Connects t (err e, close_client fd (with_client fd t))
    fails fd e free = inr (e, refl, closed_again fd t free)

    pending :
        (fd : ℕ)
        → t.client_fd ≡ none
        → (ready : Bool) (error : Option String)
        → Connects t (after_poll ready error fd (with_client fd t))
    pending fd free false error = fails fd _ free
    pending fd free true (some reason) = fails fd _ free
    pending fd free true none = inl (refl, free, (fd, refl))

    connecting :
        (fd : ℕ)
        → t.client_fd ≡ none
        → (c : Connecting) → Connects t (after_connect c a fd (with_client fd t))
    connecting fd free connected = inl (refl, free, (fd, refl))
    connecting fd free (refused reason) = fails fd _ free
    connecting fd free in_progress = pending fd free a.poll_ready a.pending_error

    at_address :
        (fd : ℕ)
        → t.client_fd ≡ none
        → (valid : Bool) → Connects t (after_address valid address a fd (with_client fd t))
    at_address fd free false = fails fd _ free
    at_address fd free true = connecting fd free a.connecting

    at_socket : t.client_fd ≡ none → (o : Option ℕ) → Connects t (after_socket o address a t)
    at_socket free none = inr (_, refl, refl)
    at_socket free (some fd) = at_address fd free a.address_valid

    from : (o : Option ℕ) → t.client_fd ≡ o → Connects t (connect_from o address a t)
    from none free = at_socket free a.socket_fd
    from (some fd) held = inr (_, refl, refl)

-- listen ends well with a descriptor, or with an error and the transport as it was.
abbrev pub Listens : TcpTransport → Outcome → Type 0
Listens t r =
    ((r.0 ≡ ok tt) × (t.server_fd ≡ none) × ((fd : ℕ) × (r.1 ≡ with_server fd t)))
    ⊎ ((e : Error) × (r.0 ≡ err e) × (r.1 ≡ t))

unbound : (fd : ℕ) (t : TcpTransport) → t.server_fd ≡ none → close_server fd (with_server fd t) ≡ t
unbound fd t e =
    rw (remove_one-first fd t.open_fds) (ap (λ (c : Option ℕ). record t { server_fd = c }) (sym e))

listen-Listens : (a : ListenAnswers) (t : TcpTransport) → Listens t (listen a t)
unfolding listen
listen-Listens a t = from t.server_fd refl
  where
    fails :
        (fd : ℕ) (e : Error)
        → t.server_fd ≡ none
        → Listens t (err e, close_server fd (with_server fd t))
    fails fd e free = inr (e, refl, unbound fd t free)

    bound :
        (fd : ℕ)
        → t.server_fd ≡ none
        → (error : Option String) → Listens t (after_bind error fd (with_server fd t))
    bound fd free (some reason) = fails fd _ free
    bound fd free none = inl (refl, free, (fd, refl))

    at_socket : t.server_fd ≡ none → (o : Option ℕ) → Listens t (server_socket o a t)
    at_socket free none = inr (_, refl, refl)
    at_socket free (some fd) = at_bind a.bind_error
      where
        at_bind :
            (error : Option String) → Listens t (after_server_socket error a fd (with_server fd t))
        at_bind (some reason) = fails fd _ free
        at_bind none = bound fd free a.listen_error

    from : (o : Option ℕ) → t.server_fd ≡ o → Listens t (listen_from o a t)
    from none free = at_socket free a.socket_fd
    from (some fd) held = inr (_, refl, refl)

with_client-NoLeak :
    (fd : ℕ) (t : TcpTransport) → t.client_fd ≡ none → NoLeak t → NoLeak (with_client fd t)
unfolding count
with_client-NoLeak fd t e h x =
    let now : held x t ≡ held_by x t.server_fd + count x t.accepted_fds = rw e (omega arith) in
    ground (arith, h x)

with_server-NoLeak :
    (fd : ℕ) (t : TcpTransport) → t.server_fd ≡ none → NoLeak t → NoLeak (with_server fd t)
unfolding count
with_server-NoLeak fd t e h x =
    let now : held x t ≡ held_by x t.client_fd + count x t.accepted_fds = rw e (omega arith) in
    ground (arith, h x)

apply-NoLeak : (op : Operation) (t : TcpTransport) → NoLeak t → NoLeak (apply op t)
unfolding stop_serving serve
apply-NoLeak (connects address a) t h = elim (connect-Connects address a t) [
  | inl (_, free, (fd, e)) ↦ rw e (with_client-NoLeak fd t free h)
  | inr (_, _, e) ↦ rw e h
]
apply-NoLeak (listens a) t h = elim (listen-Listens a t) [
  | inl (_, free, (fd, e)) ↦ rw e (with_server-NoLeak fd t free h)
  | inr (_, _, e) ↦ rw e h
]
apply-NoLeak disconnects t h = disconnect-NoLeak t h
apply-NoLeak serves t h = serve_from-NoLeak t t.server_fd h
apply-NoLeak stops_serving t h = stop_from-NoLeak (record t { serving = false }) t.server_fd refl h
apply-NoLeak (accepts a) t h = accept_connection-NoLeak a t h
apply-NoLeak (finishes fd) t h = finish_connection-NoLeak fd t h

run-NoLeak : (ops : List Operation) (t : TcpTransport) → NoLeak t → NoLeak (run ops t)
run-NoLeak [] t h = h
run-NoLeak (op ∷ ops) t h = run-NoLeak ops (apply op t) (apply-NoLeak op t h)

make_transport-NoLeak : NoLeak make_transport
unfolding count
make_transport-NoLeak x = refl

stopped : (t : TcpTransport) (o : Option ℕ) → t.server_fd ≡ o → (stop_from o t).server_fd ≡ none
stopped t none e = e
stopped t (some fd) e = refl

disconnected :
    (t : TcpTransport) (o : Option ℕ)
    → t.client_fd ≡ o
    → ((disconnect_from o t).client_fd ≡ none) × ((disconnect_from o t).server_fd ≡ t.server_fd)
disconnected t none e = (e, refl)
disconnected t (some fd) e = (refl, refl)

-- After any sequence of connect, listen, disconnect, serve, stop_serving and turns of the serving thread on
-- a new transport, and whatever the system calls answer, the destructor leaves no descriptor open.
destroy-closes : (ops : List Operation) → (destroy (run ops make_transport)).open_fds ≡ []
unfolding destroy stop_serving disconnect
destroy-closes ops =
    let t : TcpTransport = run ops make_transport in
    let stopping : TcpTransport = stop_serving t in
    let left : TcpTransport = disconnect stopping in
    let no_server : stopping.server_fd ≡ none =
      stopped (record t { serving = false }) t.server_fd refl in
    let parted = disconnected stopping stopping.client_fd refl in
    let none_left : left.server_fd ≡ none = parted.1 ∙ no_server in
    let clean =
      disconnect-NoLeak stopping
        (apply-NoLeak stops_serving t (run-NoLeak ops make_transport make_transport-NoLeak)) in
    rw none_left (finish_all-closes left.accepted_fds left refl parted.0 none_left clean)

-- After any sequence of connect, listen, disconnect, serve, stop_serving and turns of the serving
-- thread, which accept a connection and finish one, on a new transport, and whatever the system
-- calls answer: each descriptor is open as often as the transport holds it, as its client, as its
-- server or as a connection that the thread has accepted and not finished, and the destructor
-- leaves no descriptor open.
pub no_leak :
    (ops : List Operation)
    → ((x : ℕ) → count x (run ops make_transport).open_fds ≡ held x (run ops make_transport))
      × ((destroy (run ops make_transport)).open_fds ≡ [])
no_leak ops = (run-NoLeak ops make_transport make_transport-NoLeak, destroy-closes ops)
