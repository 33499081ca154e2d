-- ===== src/Network/Transport/Tests.antt =====
-- The transport on small inputs, and the theorems about it at these.
use edge_orchestrator_ai.Prelude.{
  ℕ, ◌≡◌, ◌⊎◌, refl, true, List, [], ◌∷◌, ◌++◌, some, none, String, arith, count, nat_key, elem,
  remove_one, ℕ_discrete,
}
use edge_orchestrator_ai.Core.Result.{ok, err, Error}
use edge_orchestrator_ai.Network.Transport.{
  Answer, silent, again, moves, encode_u32, decode_u32, send_all, recv_all, send_on_fd, recv_on_fd,
  serve_connection,
}
use edge_orchestrator_ai.Network.Transport.Frames.{frame, Framed, send_on_fd_lem}
use edge_orchestrator_ai.Network.Transport.Delivery.{recv_on_fd-frame}
use edge_orchestrator_ai.Network.Transport.Exchange.{exchange_answers}
use edge_orchestrator_ai.Network.Transport.Sockets.{
  make_transport, ConnectAnswers, in_progress, connect, ListenAnswers, not_ready, accepted, destroy,
  listen, serve, stop_serving, accept_connection, finish_connection,
}
use edge_orchestrator_ai.Network.Transport.Held.{held}
use edge_orchestrator_ai.Network.Transport.Descriptors.{
  Operation, connects, listens, serves, stops_serving, accepts, finishes, run, Connects,
  connect-Connects, no_leak,
}

program : Unit {0}
unfolding encode_u32 decode_u32 send_all recv_all send_on_fd recv_on_fd serve_connection
program = tt

abbrev message : List ℕ
message = 7 ∷ 8 ∷ 9 ∷ []

abbrev printed : ℕ → String
printed n = "many"

-- The header goes in two parts, and the peer stops behind one byte of the message.
abbrev broken : List Answer
broken = moves 1 ∷ again ∷ moves 1 ∷ moves 0 ∷ silent ∷ []

abbrev steady : List Answer
steady =
    moves 0
    ∷ moves 0
    ∷ moves 0
    ∷ again
    ∷ moves 0
    ∷ moves 0
    ∷ moves 0
    ∷ moves 0
    ∷ moves 0
    ∷ moves 0
    ∷ moves 0
    ∷ moves 0
    ∷ moves 0
    ∷ moves 0
    ∷ moves 0
    ∷ moves 0
    ∷ []

send_runs : (send_on_fd broken message []).1 ≡ 0 ∷ 0 ∷ 0 ∷ 3 ∷ 7 ∷ []
unfolding program
send_runs = refl

recv_runs :
    ((recv_on_fd printed steady (0 ∷ 0 ∷ 0 ∷ 3 ∷ 7 ∷ 8 ∷ 9 ∷ 5 ∷ [])).0 ≡ ok message)
    × ((recv_on_fd printed steady (0 ∷ 0 ∷ 0 ∷ 3 ∷ 7 ∷ 8 ∷ 9 ∷ 5 ∷ [])).1 ≡ 5 ∷ [])
unfolding program
recv_runs = (refl, refl)

send_on_fd_lem_example : Framed message [] (send_on_fd broken message [])
send_on_fd_lem_example = send_on_fd_lem broken message []

recv_on_fd-frame_example :
    (((recv_on_fd printed broken (frame message ++ 5 ∷ [])).0 ≡ ok message)
      × ((recv_on_fd printed broken (frame message ++ 5 ∷ [])).1 ≡ 5 ∷ []))
    ⊎ ((e : Error) × ((recv_on_fd printed broken (frame message ++ 5 ∷ [])).0 ≡ err e))
recv_on_fd-frame_example = recv_on_fd-frame printed broken message (5 ∷ []) (omega arith)

abbrev handler : List ℕ → List ℕ
handler request = 1 ∷ request

exchange_answers_example :
    (recv_on_fd printed steady
      (serve_connection printed handler steady (send_on_fd steady message []).1)).0
    ≡ ok (1 ∷ message)
exchange_answers_example =
    exchange_answers printed handler message steady steady steady (omega arith) (omega arith)
      (tt, omega arith) tt (omega arith) (tt, omega arith)

-- The peer refuses a connection behind the wait.
abbrev rejection : ConnectAnswers
rejection = record {
  socket_fd = some 5;
  socket_error = "";
  address_valid = true;
  connecting = in_progress;
  poll_ready = true;
  pending_error = some "Connection refused";
}

abbrev acceptance : ConnectAnswers
acceptance = record rejection { pending_error = none }

abbrev listening : ListenAnswers
listening = record { socket_fd = some 6; socket_error = ""; bind_error = none; listen_error = none }

connect-Connects_example : Connects make_transport (connect "10.0.0.2" rejection make_transport)
connect-Connects_example = connect-Connects "10.0.0.2" rejection make_transport

-- The thread accepts two connections and closes the first; in between, the transport stops serving.
abbrev history : List Operation
history =
    connects "10.0.0.2" rejection
    ∷ connects "10.0.0.2" acceptance
    ∷ listens listening
    ∷ serves
    ∷ accepts not_ready
    ∷ accepts (accepted 7)
    ∷ finishes 7
    ∷ accepts (accepted 8)
    ∷ stops_serving
    ∷ accepts (accepted 9)
    ∷ []

history_opens : (run history make_transport).open_fds ≡ 8 ∷ 5 ∷ []
unfolding connect listen serve stop_serving accept_connection finish_connection elem remove_one
    ℕ_discrete
history_opens = refl

no_leak_example :
    ((x : ℕ) → count x (run history make_transport).open_fds ≡ held x (run history make_transport))
    × ((destroy (run history make_transport)).open_fds ≡ [])
no_leak_example = no_leak history
