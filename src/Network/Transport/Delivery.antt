-- ===== src/Network/Transport/Delivery.antt =====
-- What a receive makes of a stream, and a message and its answer over two connections' ends.
use edge_orchestrator_ai.Prelude.{
  ℕ, ◌≤◌, ◌≡◌, refl, ap, ◌∙◌, ◌⊎◌, inl, inr, List, [], ◌++◌, Option, none, some, String, length,
  take, drop, arith, ltb, Bool-cases, take-append, drop-append, some_eq,
}
use edge_orchestrator_ai.Core.Result.{ok, err, Error}
use edge_orchestrator_ai.Network.Transport.{
  Answer, max_message_size, encode_u32, decode_u32, recv_all, Received, payload_received,
  header_received, too_large, recv_on_fd,
}
use edge_orchestrator_ai.Network.Transport.Codec.{decode_u32-encode_u32}
use edge_orchestrator_ai.Network.Transport.Streams.{Receives, recv_all-Receives}
use edge_orchestrator_ai.Network.Transport.Frames.{frame}

module _ (to_string : ℕ → String) where
  -- The length that the first four bytes state is at most the maximum, and the payload is as many
  -- bytes behind them; or the result is an error.
  abbrev pub Unframed : List ℕ → Received → Type 0
  Unframed stream r =
      let size = decode_u32 (take 4 stream) in
      ((r.0 ≡ ok (take size (drop 4 stream)))
        × (r.1 ≡ drop size (drop 4 stream))
        × (size ≤ max_message_size)
        × (size ≤ length (drop 4 stream)))
      ⊎ ((e : Error) × (r.0 ≡ err e))

  payload-Unframed :
      (size : ℕ) (stream : List ℕ) (r : Option (List ℕ) × List ℕ × List Answer)
      → Receives size stream [] r
      → ((payload_received r).0 ≡ ok (take size stream))
          × ((payload_received r).1 ≡ drop size stream)
          × (size ≤ length stream)
        ⊎ ((e : Error) × ((payload_received r).0 ≡ err e))
  payload-Unframed size stream (some payload, left, answers) (inl (e, at, long)) =
      inl (ap ok (some_eq e), at, long)
  payload-Unframed size stream (some payload, left, answers) (inr bad) = cc
  payload-Unframed size stream (none, left, answers) (inl (bad, at, long)) = cc
  payload-Unframed size stream (none, left, answers) (inr _) = inr (_, refl)

  header_got :
      (stream : List ℕ) (answers : List Answer)
      → Unframed stream (header_received to_string (some (take 4 stream), drop 4 stream, answers))
  header_got stream answers =
      let size = decode_u32 (take 4 stream) in
      elim (Bool-cases (ltb max_message_size size)) [
        | inl large ↦ inr (too_large to_string size, rw large refl)
        | inr fits ↦
            elim (payload-Unframed size (drop 4 stream) (recv_all answers size (drop 4 stream) [])
              (recv_all-Receives answers size (drop 4 stream) [])) [
                | inl (payload, rest, enough) ↦ rw fits (inl (payload, rest, ground arith, enough))
                | inr (bad, error) ↦ rw fits (inr (bad, error))
              ]
      ]

  header-Unframed :
      (stream : List ℕ) (r : Option (List ℕ) × List ℕ × List Answer)
      → Receives 4 stream [] r
      → Unframed stream (header_received to_string r)
  header-Unframed stream (none, left, answers) h = inr (_, refl)
  header-Unframed stream (some header, left, answers) (inr bad) = cc
  header-Unframed stream (some header, left, answers) (inl (e, at, long)) =
      let same : header ≡ take 4 stream = some_eq e in rw (same, at) (header_got stream answers)

  -- Whatever the system calls answer and whatever the stream holds, recv_on_fd returns an error,
  -- or the first four bytes state a size of at most 16 MB, the stream has that many bytes behind
  -- them, and these are returned and taken off the stream.
  pub recv_on_fd_lem :
      (answers : List Answer) (stream : List ℕ)
      → Unframed stream (recv_on_fd to_string answers stream)
  unfolding recv_on_fd
  recv_on_fd_lem answers stream =
      header-Unframed stream (recv_all answers 4 stream []) (recv_all-Receives answers 4 stream [])

  take_header :
      (message rest : List ℕ) → take 4 (frame message ++ rest) ≡ encode_u32 (length message)
  unfolding encode_u32
  take_header message rest = refl

  pub drop_header : (message rest : List ℕ) → drop 4 (frame message ++ rest) ≡ message ++ rest
  unfolding encode_u32
  drop_header message rest = refl

  pub size_of_frame :
      (message rest : List ℕ)
      → length message ≤ max_message_size
      → decode_u32 (take 4 (frame message ++ rest)) ≡ length message
  size_of_frame message rest small =
      rw (take_header message rest) (decode_u32-encode_u32 (length message) (omega (arith, small)))

  -- When a message of at most 16 MB is behind its length at the head of the stream, then whatever
  -- the system calls answer, recv_on_fd returns that message and leaves the rest of the stream,
  -- or it returns an error.
  pub recv_on_fd-frame :
      (answers : List Answer) (message rest : List ℕ)
      → length message ≤ max_message_size
      → (((recv_on_fd to_string answers (frame message ++ rest)).0 ≡ ok message)
          × ((recv_on_fd to_string answers (frame message ++ rest)).1 ≡ rest))
        ⊎ ((e : Error) × ((recv_on_fd to_string answers (frame message ++ rest)).0 ≡ err e))
  recv_on_fd-frame answers message rest small =
      let size = size_of_frame message rest small in
      elim (recv_on_fd_lem answers (frame message ++ rest)) [
        | inl (got, left, _, _) ↦ inl (
          got ∙ ap ok (rw (size, drop_header message rest) (take-append message rest)),
          left ∙ rw (size, drop_header message rest) (drop-append message rest),
        )
        | inr bad ↦ inr bad
      ]
