-- ===== src/Network/Transport/Sockets.antt =====
-- The operations of TcpTransport and the descriptors that they open and close. What the system
-- calls answer is an argument of each operation; strerror is part of the answer.
use Prim.Native.String
use edge_orchestrator_ai.Prelude.{
  ℕ, Bool, true, false, List, [], ◌∷◌, Option, none, some, String, nat_key, remove_one, elem,
  if◌then◌else◌,
}
use edge_orchestrator_ai.Core.Result.{Result, ok, err, Error, make_error}
use edge_orchestrator_ai.Network.Transport.{Answer, send_on_fd, recv_on_fd, Sent, Received}

-- The members of TcpTransport, and the descriptors that the process has open for it.
pub record TcpTransport : Type 0 where
  pub client_fd : Option ℕ
  pub server_fd : Option ℕ
  pub serving : Bool
  -- the connections that the serving thread has accepted and not closed: its local client_fd
  pub accepted_fds : List ℕ
  pub open_fds : List ℕ

abbrev pub make_transport : TcpTransport
make_transport = record {
  client_fd = none;
  server_fd = none;
  serving = false;
  accepted_fds = [];
  open_fds = [];
}

abbrev pub Outcome : Type 0
Outcome = Result (Unit {0}) Error × TcpTransport

-- ::close(fd)
abbrev pub close_fd : ℕ → List ℕ → List ℕ
close_fd fd fds = remove_one fd fds

abbrev pub close_client : ℕ → TcpTransport → TcpTransport
close_client fd t = record t { client_fd = none; open_fds = close_fd fd t.open_fds }

abbrev pub close_server : ℕ → TcpTransport → TcpTransport
close_server fd t = record t { server_fd = none; open_fds = close_fd fd t.open_fds }

pub data Connecting : Type 0 where
  connected in_progress : Connecting
  refused : String → Connecting

-- What the system calls of connect answer.
pub record ConnectAnswers : Type 0 where
  pub socket_fd : Option ℕ
  pub socket_error : String
  pub address_valid : Bool
  pub connecting : Connecting
  pub poll_ready : Bool
  -- SO_ERROR
  pub pending_error : Option String

abbrev pub with_reason : String → String → Error
with_reason message reason = record { message = String.◌++◌ message reason }

-- Behind the wait for an EINPROGRESS.
abbrev pub after_poll : Bool → Option String → ℕ → TcpTransport → Outcome
after_poll false pending fd t = (make_error "Connect timed out", close_client fd t)
after_poll true (some reason) fd t =
    (err (with_reason "Connect failed: " reason), close_client fd t)
after_poll true none fd t = (ok tt, t)

abbrev pub after_connect : Connecting → ConnectAnswers → ℕ → TcpTransport → Outcome
after_connect connected a fd t = (ok tt, t)
after_connect (refused reason) a fd t =
    (err (with_reason "Connect failed: " reason), close_client fd t)
after_connect in_progress a fd t = after_poll a.poll_ready a.pending_error fd t

abbrev pub after_address : Bool → String → ConnectAnswers → ℕ → TcpTransport → Outcome
after_address false address a fd t =
    (err (with_reason "Invalid address: " address), close_client fd t)
after_address true address a fd t = after_connect a.connecting a fd t

abbrev pub after_socket : Option ℕ → String → ConnectAnswers → TcpTransport → Outcome
after_socket none address a t = (err (with_reason "Failed to create socket: " a.socket_error), t)
after_socket (some fd) address a t =
    after_address a.address_valid address a fd
      (record t { client_fd = some fd; open_fds = fd ∷ t.open_fds })

abbrev pub connect_from : Option ℕ → String → ConnectAnswers → TcpTransport → Outcome
connect_from (some fd) address a t = (make_error "Already connected", t)
connect_from none address a t = after_socket a.socket_fd address a t

unfoldable pub connect : String → ConnectAnswers → TcpTransport → Outcome
connect address a t = connect_from t.client_fd address a t

abbrev pub disconnect_from : Option ℕ → TcpTransport → TcpTransport
disconnect_from none t = t
disconnect_from (some fd) t = close_client fd t

unfoldable pub disconnect : TcpTransport → TcpTransport
disconnect t = disconnect_from t.client_fd t

abbrev pub send_from : Option ℕ → List Answer → List ℕ → List ℕ → Sent
send_from none answers message wire = (make_error "Not connected", wire, answers)
send_from (some fd) answers message wire = send_on_fd answers message wire

-- The wire and the stream are those of the connection.
unfoldable pub send : TcpTransport → List Answer → List ℕ → List ℕ → Sent
send t answers message wire = send_from t.client_fd answers message wire

abbrev pub receive_from : (ℕ → String) → Option ℕ → List Answer → List ℕ → Received
receive_from to_string none answers stream = (make_error "Not connected", stream, answers)
receive_from to_string (some fd) answers stream = recv_on_fd to_string answers stream

unfoldable pub receive : (ℕ → String) → TcpTransport → List Answer → List ℕ → Received
receive to_string t answers stream = receive_from to_string t.client_fd answers stream

pub record ListenAnswers : Type 0 where
  pub socket_fd : Option ℕ
  pub socket_error : String
  pub bind_error : Option String
  pub listen_error : Option String

abbrev pub after_bind : Option String → ℕ → TcpTransport → Outcome
after_bind (some reason) fd t = (err (with_reason "Listen failed: " reason), close_server fd t)
after_bind none fd t = (ok tt, t)

abbrev pub after_server_socket : Option String → ListenAnswers → ℕ → TcpTransport → Outcome
after_server_socket (some reason) a fd t =
    (err (with_reason "Bind failed: " reason), close_server fd t)
after_server_socket none a fd t = after_bind a.listen_error fd t

abbrev pub server_socket : Option ℕ → ListenAnswers → TcpTransport → Outcome
server_socket none a t = (err (with_reason "Failed to create server socket: " a.socket_error), t)
server_socket (some fd) a t =
    after_server_socket a.bind_error a fd
      (record t { server_fd = some fd; open_fds = fd ∷ t.open_fds })

abbrev pub listen_from : Option ℕ → ListenAnswers → TcpTransport → Outcome
listen_from (some fd) a t = (make_error "Already listening", t)
listen_from none a t = server_socket a.socket_fd a t

unfoldable pub listen : ListenAnswers → TcpTransport → Outcome
listen a t = listen_from t.server_fd a t

abbrev pub serve_from : Option ℕ → TcpTransport → TcpTransport
serve_from none t = t
serve_from (some fd) t = record t { serving = true }

-- The loop of the thread that serve starts is accept_connection and finish_connection, turn by turn; other
-- calls may come between them.
unfoldable pub serve : TcpTransport → TcpTransport
serve t = serve_from t.server_fd t

-- What poll and accept answer.
pub data Accepting : Type 0 where
  not_ready not_accepted : Accepting
  accepted : ℕ → Accepting

abbrev pub after_accept : Accepting → TcpTransport → TcpTransport
after_accept not_ready t = t
after_accept not_accepted t = t
after_accept (accepted fd) t = record t {
  accepted_fds = fd ∷ t.accepted_fds;
  open_fds = fd ∷ t.open_fds;
}

abbrev pub accept_from : Option ℕ → Accepting → TcpTransport → TcpTransport
accept_from none a t = t
accept_from (some fd) a t = after_accept a t

-- The head of the loop, from its test to configure_socket; the stop token is asked for a stop together with
-- the flag.
unfoldable pub accept_connection : Accepting → TcpTransport → TcpTransport
accept_connection a t = if t.serving then accept_from t.server_fd a t else t

-- The end of the loop's body, behind serve_connection, which may have sent a response or nothing.
abbrev pub close_accepted : ℕ → TcpTransport → TcpTransport
close_accepted fd t = record t {
  accepted_fds = remove_one fd t.accepted_fds;
  open_fds = close_fd fd t.open_fds;
}

unfoldable pub finish_connection : ℕ → TcpTransport → TcpTransport
finish_connection fd t = if elem fd t.accepted_fds then close_accepted fd t else t

abbrev pub stop_from : Option ℕ → TcpTransport → TcpTransport
stop_from none t = t
stop_from (some fd) t = close_server fd t

unfoldable pub stop_serving : TcpTransport → TcpTransport
stop_serving t = stop_from t.server_fd (record t { serving = false })

-- The thread is joined, and has finished what it had accepted.
abbrev pub finish_all : List ℕ → TcpTransport → TcpTransport
finish_all [] t = t
finish_all (fd ∷ fds) t = finish_all fds (finish_connection fd t)

-- ~TcpTransport; its last test finds no server descriptor behind stop_serving. The thread is joined when the
-- members are destroyed.
unfoldable pub destroy : TcpTransport → TcpTransport
unfolding stop_serving disconnect
destroy t =
    let t' = disconnect (stop_serving t) in
    let t'' = stop_from t'.server_fd t' in finish_all t''.accepted_fds t''

abbrev pub holds : Option ℕ → Bool
holds none = false
holds (some fd) = true

abbrev pub is_connected : TcpTransport → Bool
is_connected t = holds t.client_fd

abbrev pub is_listening : TcpTransport → Bool
is_listening t = holds t.server_fd
