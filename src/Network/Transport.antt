-- ===== src/Network/Transport.antt =====
-- src/network/transport.hpp and transport.cpp: messages behind a length of four bytes, over a stream
-- socket. A byte is a number below 256. What poll, send and recv answer comes from the environment,
-- one answer for each round of a loop.
pub mod Codec
pub mod Streams
pub mod Frames
pub mod Delivery
pub mod Exchange
pub mod Sockets
pub mod Held
pub mod Descriptors
mod Tests
use Prim.Native.Nat.{bit_or}
use Prim.Native.String
use edge_orchestrator_ai.Prelude.{
  ℕ, zero, suc, ◌-◌, ◌*◌, ◌/◌, ◌%◌, ◌^◌, Bool, true, false, List, [], ◌∷◌, ◌++◌, Option, none, some,
  String, length, take, drop, ltb, if◌then◌else◌,
}
use edge_orchestrator_ai.Core.Result.{Result, ok, err, Error, make_error}

-- 16 MB
abbrev pub max_message_size : ℕ
max_message_size = 16 * 1024 * 1024

-- buf[0] = (val >> 24) & 0xFF, and so on
unfoldable pub encode_u32 : ℕ → List ℕ
encode_u32 val = val / 2 ^ 24 % 256 ∷ val / 2 ^ 16 % 256 ∷ val / 2 ^ 8 % 256 ∷ val % 256 ∷ []

-- buf[0] << 24 | buf[1] << 16 | buf[2] << 8 | buf[3]; a buffer has four bytes
unfoldable pub decode_u32 : List ℕ → ℕ
decode_u32 (b0 ∷ b1 ∷ b2 ∷ b3 ∷ []) =
    bit_or (bit_or (bit_or (b0 * 2 ^ 24) (b1 * 2 ^ 16)) (b2 * 2 ^ 8)) b3
decode_u32 _ = 0

-- A round of a loop: poll is silent until the timeout; send or recv would block; it fails; or it
-- moves at most so many bytes and one more, of those that are there.
pub data Answer : Type 0 where
  silent again fails : Answer
  moves : ℕ → Answer

-- send_all: the result, the bytes on the wire, and the answers that are left. When the environment
-- has no answer left, poll is silent.
unfoldable pub send_all : List Answer → List ℕ → List ℕ → Bool × List ℕ × List Answer
send_all answers [] wire = (true, wire, answers)
send_all [] (b ∷ bs) wire = (false, wire, [])
send_all (silent ∷ answers) (b ∷ bs) wire = (false, wire, answers)
send_all (again ∷ answers) (b ∷ bs) wire = send_all answers (b ∷ bs) wire
send_all (fails ∷ answers) (b ∷ bs) wire = (false, wire, answers)
send_all (moves k ∷ answers) (b ∷ bs) wire =
    send_all answers (drop k bs) (wire ++ take (suc k) (b ∷ bs))

-- recv takes bytes that are there, at most as many as remain; with none there, the peer has closed.
abbrev pub available : ℕ → ℕ → List ℕ → List ℕ
available k remaining stream = take (suc k) (take remaining stream)

-- recv_all: the bytes, the stream behind them, and the answers that are left.
unfoldable pub recv_all : List Answer → ℕ → List ℕ → List ℕ → Option (List ℕ) × List ℕ × List Answer
recv_all answers zero stream got = (some got, stream, answers)
recv_all [] (suc n) stream got = (none, stream, [])
recv_all (silent ∷ answers) (suc n) stream got = (none, stream, answers)
recv_all (again ∷ answers) (suc n) stream got = recv_all answers (suc n) stream got
recv_all (fails ∷ answers) (suc n) stream got = (none, stream, answers)
recv_all (moves k ∷ answers) (suc n) [] got = (none, [], answers)
recv_all (moves k ∷ answers) (suc n) (b ∷ stream) got =
    let chunk = available k (suc n) (b ∷ stream) in
    recv_all answers (suc n - length chunk) (drop (length chunk) (b ∷ stream)) (got ++ chunk)

abbrev pub Sent : Type 0
Sent = Result (Unit {0}) Error × List ℕ × List Answer

abbrev pub payload_sent : Bool × List ℕ × List Answer → Sent
payload_sent (true, wire, answers) = (ok tt, wire, answers)
payload_sent (false, wire, answers) = (make_error "Failed to send payload", wire, answers)

abbrev pub send_payload : List ℕ → List ℕ → List Answer → Sent
send_payload [] wire answers = (ok tt, wire, answers)
send_payload (b ∷ bs) wire answers = payload_sent (send_all answers (b ∷ bs) wire)

abbrev pub header_sent : List ℕ → Bool × List ℕ × List Answer → Sent
header_sent message (true, wire, answers) = send_payload message wire answers
header_sent message (false, wire, answers) = (make_error "Failed to send header", wire, answers)

unfoldable pub send_on_fd : List Answer → List ℕ → List ℕ → Sent
unfolding send_all
send_on_fd answers message wire =
    if ltb max_message_size (length message)
    then (make_error "Message too large", wire, answers)
    else header_sent message (send_all answers (encode_u32 (length message % 2 ^ 32)) wire)

abbrev pub Received : Type 0
Received = Result (List ℕ) Error × List ℕ × List Answer

abbrev pub payload_received : Option (List ℕ) × List ℕ × List Answer → Received
payload_received (some payload, stream, answers) = (ok payload, stream, answers)
payload_received (none, stream, answers) = (make_error "Failed to receive payload", stream, answers)

-- std::to_string
module _ (to_string : ℕ → String) where
  abbrev pub too_large : ℕ → Error
  too_large size = record {
    message = String.◌++◌ "Message too large: " (String.◌++◌ (to_string size) " bytes");
  }

  abbrev pub header_received : Option (List ℕ) × List ℕ × List Answer → Received
  header_received (none, stream, answers) = (make_error "Failed to receive header", stream, answers)
  header_received (some header, stream, answers) =
      let size = decode_u32 header in
      if ltb max_message_size size
      then (err (too_large size), stream, answers)
      else payload_received (recv_all answers size stream [])

  unfoldable pub recv_on_fd : List Answer → List ℕ → Received
  unfolding recv_all
  recv_on_fd answers stream = header_received (recv_all answers 4 stream [])

  -- What serve does with a connection: a request that arrives is answered. The result is what is on
  -- the wire to the client.
  abbrev pub respond : (List ℕ → List ℕ) → List ℕ → Received → List ℕ
  respond handler wire (ok request, stream, answers) = (send_on_fd answers (handler request) wire).1
  respond handler wire (err e, stream, answers) = wire

  unfoldable pub serve_connection : (List ℕ → List ℕ) → List Answer → List ℕ → List ℕ
  serve_connection handler answers stream = respond handler [] (recv_on_fd answers stream)
