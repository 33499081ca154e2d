-- ===== src/Network/Transport/Exchange.antt =====
-- With an environment that answers, sends and receives end well, and a request is answered.
use edge_orchestrator_ai.Prelude.{
  ℕ, ◌+◌, ◌≤◌, ◌≡◌, refl, sym, ap, ◌∙◌, inl, inr, Bool, true, false, List, [], ◌∷◌, ◌++◌, Option,
  none, some, String, length, take, append-nil, arith, ltb, length-append, some_eq,
}
use edge_orchestrator_ai.Core.Result.{Result, ok, err, Error}
use edge_orchestrator_ai.Network.Transport.{
  Answer, max_message_size, encode_u32, decode_u32, send_all, recv_all, send_payload, payload_sent,
  header_sent, send_on_fd, Received, payload_received, header_received, recv_on_fd,
  serve_connection, respond,
}
use edge_orchestrator_ai.Network.Transport.Streams.{
  Responsive, move_count, send_all-succeeds, recv_all-succeeds, recv_all-Receives,
}
use edge_orchestrator_ai.Network.Transport.Frames.{
  frame, send_on_fd_lem, length-encode_u32, fits_u32,
}
use edge_orchestrator_ai.Network.Transport.Delivery.{recv_on_fd-frame, size_of_frame, drop_header}

-- So many moves are enough for a message.
abbrev pub Serves : List Answer → List ℕ → Type 0
Serves answers message = Responsive answers × (4 + length message ≤ move_count answers)

ok-ne-err : {A : Type 0} (r : Result A Error) (e : Error) (a : A) → r ≡ ok a → r ≡ err e → ⊥
ok-ne-err r e a h k = cc

payload_goes :
    (answers : List Answer) (message wire : List ℕ)
    → Responsive answers
    → length message ≤ move_count answers
    → (send_payload message wire answers).0 ≡ ok tt
payload_goes answers [] wire live enough = refl
payload_goes answers (b ∷ bs) wire live enough =
    sent (send_all answers (b ∷ bs) wire) (send_all-succeeds answers (b ∷ bs) wire live enough).0
  where
    sent : (r : Bool × List ℕ × List Answer) → r.0 ≡ true → (payload_sent r).0 ≡ ok tt
    sent (true, w, left) e = refl
    sent (false, w, left) e = cc

header_goes :
    (message : List ℕ) (r : Bool × List ℕ × List Answer)
    → r.0 ≡ true
    → Responsive r.2
    → length message ≤ move_count r.2
    → (header_sent message r).0 ≡ ok tt
header_goes message (true, wire, answers) e live enough =
    payload_goes answers message wire live enough
header_goes message (false, wire, answers) e live enough = cc

-- Sends.
pub send_on_fd-succeeds :
    (answers : List Answer) (message wire : List ℕ)
    → length message ≤ max_message_size
    → Serves answers message
    → ((send_on_fd answers message wire).0 ≡ ok tt)
      × ((send_on_fd answers message wire).1 ≡ wire ++ frame message)
unfolding send_on_fd
send_on_fd-succeeds answers message wire small (live, enough) =
    elim (send_on_fd_lem answers message wire) [
      | inl (sent, _, e) ↦ (sent, e)
      | inr (e, failed, _) ↦ absurd (ok-ne-err _ e tt goes failed)
    ]
  where
    header : List ℕ
    header = encode_u32 (length message)

    goes : (send_on_fd answers message wire).0 ≡ ok tt
    goes =
        let fits : ltb max_message_size (length message) ≡ false = ground arith in
        let four = length-encode_u32 (length message) in
        let (sent, live', left) = send_all-succeeds answers header wire live (omega arith) in
        rw (fits, fits_u32 (length message) small, send_on_fd)
          (header_goes message (send_all answers header wire) sent live' (omega arith))

module _ (to_string : ℕ → String) where
  payload_comes :
      (r : Option (List ℕ) × List ℕ × List Answer) (bytes : List ℕ)
      → r.0 ≡ some bytes
      → ((payload_received r).0 ≡ ok bytes) × ((payload_received r).2 ≡ r.2)
  payload_comes (some payload, stream, answers) bytes e = (ap ok (some_eq e), refl)
  payload_comes (none, stream, answers) bytes e = cc

  -- The message arrives, and what is left can serve the next.
  abbrev pub Comes : ℕ → List Answer → Received → Type 0
  Comes size answers r =
      ((bytes : List ℕ) × (r.0 ≡ ok bytes))
      × Responsive r.2
      × (move_count answers ≤ move_count r.2 + size)

  sized-Comes :
      (size : ℕ) (stream : List ℕ) (answers : List Answer)
      → size ≤ length stream
      → Responsive answers
      → size ≤ move_count answers
      → Comes size answers (payload_received (recv_all answers size stream []))
  sized-Comes size stream answers long live enough =
      let (found, live', left) = recv_all-succeeds answers size stream [] live long enough in
      let (bytes, e) = found in
      let (got, same) = payload_comes (recv_all answers size stream []) bytes e in
      ((bytes, got), rw same live', rw same left)

  header-Comes :
      (message rest : List ℕ) (r : Option (List ℕ) × List ℕ × List Answer)
      → length message ≤ max_message_size
      → r.0 ≡ some (take 4 (frame message ++ rest))
      → r.1 ≡ message ++ rest
      → Responsive r.2
      → length message ≤ move_count r.2
      → Comes (length message) r.2 (header_received to_string r)
  header-Comes message rest (none, stream, answers) small e at live enough = cc
  header-Comes message rest (some header, stream, answers) small e at live enough =
      let same : header ≡ take 4 (frame message ++ rest) = some_eq e in
      let size : decode_u32 header ≡ length message =
        ap decode_u32 same ∙ size_of_frame to_string message rest small in
      let fits : ltb max_message_size (length message) ≡ false = ground arith in
      rw (size, fits, at)
        (sized-Comes (length message) (message ++ rest) answers
          (omega (arith, length-append {0} message rest)) live enough)

  recv_on_fd-Comes :
      (answers : List Answer) (message rest : List ℕ)
      → length message ≤ max_message_size
      → Serves answers message
      → Comes (4 + length message) answers (recv_on_fd to_string answers (frame message ++ rest))
  unfolding recv_on_fd
  recv_on_fd-Comes answers message rest small (live, enough) =
      elim (recv_all-Receives answers 4 stream []) [
        | inl (got, at, _) ↦
            let (found, live', left) =
              recv_all-succeeds answers 4 stream [] live long (omega arith) in
            let (bytes, live'', left') =
              header-Comes message rest (recv_all answers 4 stream []) small got
                (at ∙ drop_header to_string message rest) live' (omega arith) in
            (bytes, live'', omega (arith, left, left'))
        | inr nothing ↦
            let (found, _, _) = recv_all-succeeds answers 4 stream [] live long (omega arith) in
            let (bytes, some_bytes) = found in cc
      ]
    where
      stream : List ℕ
      stream = frame message ++ rest

      long : 4 ≤ length stream
      long = omega (
        arith,
        length-append {0} (frame message) rest,
        length-append {0} (encode_u32 (length message)) message,
        length-encode_u32 (length message),
      )

  -- Receives.
  pub recv_on_fd-succeeds :
      (answers : List Answer) (message rest : List ℕ)
      → length message ≤ max_message_size
      → Serves answers message
      → ((recv_on_fd to_string answers (frame message ++ rest)).0 ≡ ok message)
        × ((recv_on_fd to_string answers (frame message ++ rest)).1 ≡ rest)
  recv_on_fd-succeeds answers message rest small serves =
      let (found, _, _) = recv_on_fd-Comes answers message rest small serves in
      let (bytes, e) = found in
      elim (recv_on_fd-frame to_string answers message rest small) [
        | inl arrived ↦ arrived
        | inr (error, failed) ↦ absurd (ok-ne-err _ error bytes e failed)
      ]

  responds :
      (handler : List ℕ → List ℕ) (request wire : List ℕ) (r : Received)
      → r.0 ≡ ok request
      → length (handler request) ≤ max_message_size
      → Serves r.2 (handler request)
      → respond to_string handler wire r ≡ wire ++ frame (handler request)
  responds handler request wire (ok message, stream, answers) e small serves =
      let same : message ≡ request = cc in
      rw same (send_on_fd-succeeds answers (handler request) wire small serves).1
  responds handler request wire (err error, stream, answers) e small serves = cc

  -- When the request and its response are at most 16 MB, when no wait times out and no call
  -- fails, and when the three sides have at least one move for each byte that they pass, a client
  -- that sends a request frame to serve's connection body receives the handler's response to that
  -- request.
  pub exchange_answers :
      (handler : List ℕ → List ℕ) (request : List ℕ)
      (out_answers server_answers in_answers : List Answer)
      → length request ≤ max_message_size
      → length (handler request) ≤ max_message_size
      → Serves out_answers request
      → Responsive server_answers
      → 8 + length request + length (handler request) ≤ move_count server_answers
      → Serves in_answers (handler request)
      → (recv_on_fd to_string in_answers (
          serve_connection to_string handler server_answers
            (send_on_fd out_answers request []).1)).0
        ≡ ok (handler request)
  unfolding serve_connection
  exchange_answers handler request outs servers ins small small' out_serves live enough in_serves =
      let sent = (send_on_fd-succeeds outs request [] small out_serves).1 in
      let whole : frame request ≡ frame request ++ [] = sym (append-nil (frame request)) in
      let comes = recv_on_fd-Comes servers request [] small (live, omega arith) in
      let came = recv_on_fd-succeeds servers request [] small (live, omega arith) in
      let answered =
        responds handler request [] (recv_on_fd to_string servers (frame request ++ [])) came.0
          small' (comes.1, omega (arith, comes.2)) in
      let on_wire : (send_on_fd outs request []).1 ≡ frame request ++ [] = sent ∙ whole in
      let back = append-nil (frame (handler request)) in
      rw (on_wire, answered)
        (rw back at (recv_on_fd-succeeds ins (handler request) [] small' in_serves).0)
