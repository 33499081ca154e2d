-- ===== src/Network/Transport/Frames.antt =====
-- Messages behind their length: what a send leaves on the wire, and what a receive makes of it.
use edge_orchestrator_ai.Prelude.{
  ℕ, zero, suc, ◌+◌, ◌%◌, ◌^◌, ◌≤◌, ◌<◌, ◌≡◌, refl, sym, ap, ◌∙◌, ◌⊎◌, inl, inr, Bool, true, false,
  List, [], ◌∷◌, ◌++◌, length, take, drop, append_assoc, append-nil, arith, ltb, Bool-cases,
  take-append, drop-append, length-append, take_add,
}
use edge_orchestrator_ai.Core.Result.{ok, err, Error}
use edge_orchestrator_ai.Network.Transport.{
  Answer, max_message_size, encode_u32, send_payload, payload_sent, header_sent, send_on_fd, Sent,
}
use edge_orchestrator_ai.Network.Transport.Streams.{Sends, send_all-Sends}

-- A message as it is on the wire.
abbrev pub frame : List ℕ → List ℕ
frame message = encode_u32 (length message) ++ message

pub length-encode_u32 : (val : ℕ) → length (encode_u32 val) ≡ 4
unfolding encode_u32
length-encode_u32 val = refl

-- What a send leaves on the wire: the frame, or a proper prefix of it.
abbrev pub Framed : List ℕ → List ℕ → Sent → Type 0
Framed message wire r =
    ((r.0 ≡ ok tt) × (length message ≤ max_message_size) × (r.1 ≡ wire ++ frame message))
    ⊎ ((e : Error) × (r.0 ≡ err e)
        × ((n : ℕ) × (n < length (frame message)) × (r.1 ≡ wire ++ take n (frame message))))

take-append_left : (n : ℕ) (xs ys : List ℕ) → n ≤ length xs → take n (xs ++ ys) ≡ take n xs
take-append_left zero xs ys h = refl
take-append_left (suc n) [] ys h = absurd (omega arith)
take-append_left (suc n) (x ∷ xs) ys h = ap (λ l. x ∷ l) (take-append_left n xs ys (omega arith))

take-append_right : (n : ℕ) (xs ys : List ℕ) → take (length xs + n) (xs ++ ys) ≡ xs ++ take n ys
take-append_right n xs ys =
    sym (take_add (length xs) n (xs ++ ys))
    ∙ ap (λ l. l ++ take n (drop (length xs) (xs ++ ys))) (take-append xs ys)
    ∙ ap (λ l. xs ++ take n l) (drop-append xs ys)

payload-Framed :
    (message wire : List ℕ) (r : Bool × List ℕ × List Answer)
    → length message ≤ max_message_size
    → Sends message (wire ++ encode_u32 (length message)) r
    → Framed message wire (payload_sent r)
payload-Framed message wire (true, w, answers) small (inl (_, e)) =
    inl (refl, small, e ∙ append_assoc wire (encode_u32 (length message)) message)
payload-Framed message wire (true, w, answers) small (inr (bad, _)) = cc
payload-Framed message wire (false, w, answers) small (inl (bad, _)) = cc
payload-Framed message wire (false, w, answers) small (inr (_, (n, less, e))) =
    let header = encode_u32 (length message) in
    inr (
      _,
      refl,
      (
        length header + n,
        omega (arith, length-append {0} header message),
        e
            ∙ append_assoc wire header (take n message)
            ∙ ap (λ l. wire ++ l) (sym (take-append_right n header message)),
      ),
    )

message-Framed :
    (answers : List Answer) (message wire : List ℕ)
    → length message ≤ max_message_size
    → Framed message wire (send_payload message (wire ++ encode_u32 (length message)) answers)
message-Framed answers [] wire small =
    inl (refl, small, ap (λ l. wire ++ l) (sym (append-nil (encode_u32 0))))
message-Framed answers (b ∷ bs) wire small =
    payload-Framed (b ∷ bs) wire _ small (send_all-Sends answers (b ∷ bs) _)

header-Framed :
    (message wire : List ℕ) (r : Bool × List ℕ × List Answer)
    → length message ≤ max_message_size
    → Sends (encode_u32 (length message)) wire r
    → Framed message wire (header_sent message r)
header-Framed message wire (true, w, answers) small (inl (_, e)) =
    let rest = message-Framed answers message wire small in rw e rest
header-Framed message wire (true, w, answers) small (inr (bad, _)) = cc
header-Framed message wire (false, w, answers) small (inl (bad, _)) = cc
header-Framed message wire (false, w, answers) small (inr (_, (n, less, e))) =
    let header = encode_u32 (length message) in
    inr (
      _,
      refl,
      (
        n,
        omega (arith, length-append {0} header message),
        e ∙ ap (λ l. wire ++ l) (sym (take-append_left n header message (omega arith))),
      ),
    )

pub fits_u32 : (n : ℕ) → n ≤ max_message_size → n % 2 ^ 32 ≡ n
fits_u32 n h = omega arith

frame_positive : (message : List ℕ) → 0 < length (frame message)
frame_positive message = omega (
  arith,
  length-append {0} (encode_u32 (length message)) message,
  length-encode_u32 (length message),
)

-- Whatever the system calls answer, send_on_fd returns ok with a message of at most 16 MB and its
-- frame behind what was on the wire; or it returns an error with a proper prefix of the frame
-- behind it.
pub send_on_fd_lem :
    (answers : List Answer) (message wire : List ℕ)
    → Framed message wire (send_on_fd answers message wire)
unfolding send_on_fd
send_on_fd_lem answers message wire = elim (Bool-cases (ltb max_message_size (length message))) [
  | inl large ↦
      rw (large, send_on_fd) (inr (_, refl, (0, frame_positive message, sym (append-nil wire))))
  | inr fits ↦
      let small : length message ≤ max_message_size = ground arith in
      rw (fits, fits_u32 (length message) small, send_on_fd)
        (header-Framed message wire _ small
          (send_all-Sends answers (encode_u32 (length message)) wire))
]
