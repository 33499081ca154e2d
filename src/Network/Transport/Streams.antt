-- ===== src/Network/Transport/Streams.antt =====
-- The loops over a socket: what they leave on the wire and take from it, and when they end well.
use edge_orchestrator_ai.Prelude.{
  ℕ, zero, suc, ◌+◌, ◌-◌, ◌≤◌, ◌<◌, ◌≡◌, refl, sym, ap, ◌∙◌, ◌⊎◌, inl, inr, Bool, true, false, List,
  [], ◌∷◌, ◌++◌, Option, none, some, length, take, drop, append_assoc, append-nil, arith,
  append-take-drop, drop-lt, take_add, drop_add, length-drop,
}
use edge_orchestrator_ai.Network.Transport.{
  Answer, silent, again, fails, moves, send_all, recv_all, available,
}

-- All is on the wire, or a proper prefix of it and nothing else.
abbrev pub Sends : List ℕ → List ℕ → Bool × List ℕ × List Answer → Type 0
Sends message wire r =
    ((r.0 ≡ true) × (r.1 ≡ wire ++ message))
    ⊎ ((r.0 ≡ false) × ((n : ℕ) × (n < length message) × (r.1 ≡ wire ++ take n message)))

nothing_sent :
    (answers : List Answer) (b : ℕ) (bs wire : List ℕ) → Sends (b ∷ bs) wire (false, wire, answers)
nothing_sent answers b bs wire = inr (refl, (0, omega arith, sym (append-nil wire)))

-- A round that moves the first bytes, and then the rest.
moved_first :
    (k : ℕ) (b : ℕ) (bs wire : List ℕ) (r : Bool × List ℕ × List Answer)
    → Sends (drop k bs) (wire ++ take (suc k) (b ∷ bs)) r
    → Sends (b ∷ bs) wire r
moved_first k b bs wire r (inl (all, e)) = inl (
  all,
  e
      ∙ append_assoc wire (b ∷ take k bs) (drop k bs)
      ∙ ap (λ l. wire ++ b ∷ l) (append-take-drop k bs),
)
moved_first k b bs wire r (inr (part, (n, less, e))) = inr (
  part,
  (
    suc (k + n),
    omega (arith, drop-lt k n bs less),
    e
        ∙ append_assoc wire (b ∷ take k bs) (take n (drop k bs))
        ∙ ap (λ l. wire ++ b ∷ l) (take_add k n bs),
  ),
)

pub send_all-Sends :
    (answers : List Answer) (message wire : List ℕ)
    → Sends message wire (send_all answers message wire)
unfolding send_all
send_all-Sends answers [] wire = inl (refl, sym (append-nil wire))
send_all-Sends [] (b ∷ bs) wire = nothing_sent [] b bs wire
send_all-Sends (silent ∷ answers) (b ∷ bs) wire = nothing_sent answers b bs wire
send_all-Sends (again ∷ answers) (b ∷ bs) wire = send_all-Sends answers (b ∷ bs) wire
send_all-Sends (fails ∷ answers) (b ∷ bs) wire = nothing_sent answers b bs wire
send_all-Sends (moves k ∷ answers) (b ∷ bs) wire =
    moved_first k b bs wire (send_all answers (drop k bs) (wire ++ b ∷ take k bs))
      (send_all-Sends answers (drop k bs) (wire ++ b ∷ take k bs))

-- Every answer lets a round go on, and so many of them move something.
abbrev pub Responsive : List Answer → Type 0
Responsive [] = Unit {0}
Responsive (silent ∷ answers) = ⊥
Responsive (again ∷ answers) = Responsive answers
Responsive (fails ∷ answers) = ⊥
Responsive (moves k ∷ answers) = Responsive answers

abbrev pub move_count : List Answer → ℕ
move_count [] = 0
move_count (moves k ∷ answers) = suc (move_count answers)
move_count (_ ∷ answers) = move_count answers

-- With a responsive environment the loop sends everything, and leaves one of the moves for each byte
-- that it did not need one for.
pub send_all-succeeds :
    (answers : List Answer) (message wire : List ℕ)
    → Responsive answers
    → length message ≤ move_count answers
    → ((send_all answers message wire).0 ≡ true)
      × Responsive (send_all answers message wire).2
      × (move_count answers ≤ move_count (send_all answers message wire).2 + length message)
unfolding send_all
send_all-succeeds answers [] wire live enough = (refl, live, omega arith)
send_all-succeeds [] (b ∷ bs) wire live enough = absurd (omega arith)
send_all-succeeds (silent ∷ answers) (b ∷ bs) wire live enough = absurd live
send_all-succeeds (again ∷ answers) (b ∷ bs) wire live enough =
    send_all-succeeds answers (b ∷ bs) wire live enough
send_all-succeeds (fails ∷ answers) (b ∷ bs) wire live enough = absurd live
send_all-succeeds (moves k ∷ answers) (b ∷ bs) wire live enough =
    let shorter = length-drop k bs in
    let (sent, live', left) =
      send_all-succeeds answers (drop k bs) (wire ++ b ∷ take k bs) live (omega arith) in
    (sent, live', omega arith)

-- The bytes asked for, off the front of the stream; or nothing.
abbrev pub Receives : ℕ → List ℕ → List ℕ → Option (List ℕ) × List ℕ × List Answer → Type 0
Receives n stream got r =
    ((r.0 ≡ some (got ++ take n stream)) × (r.1 ≡ drop n stream) × (n ≤ length stream))
    ⊎ (r.0 ≡ none)

chunk_lem :
    (k n : ℕ) (stream : List ℕ)
    → (take (length (take k (take n stream))) stream ≡ take k (take n stream))
      × (length (take k (take n stream)) ≤ n)
chunk_lem zero n stream = (refl, omega arith)
chunk_lem (suc k) zero stream = (refl, omega arith)
chunk_lem (suc k) (suc n) [] = (refl, omega arith)
chunk_lem (suc k) (suc n) (b ∷ stream) =
    let (same, short) = chunk_lem k n stream in (ap (λ l. b ∷ l) same, omega (arith, short))

received_chunk :
    (c n : ℕ) (stream chunk got : List ℕ) (r : Option (List ℕ) × List ℕ × List Answer)
    → c ≤ n
    → take c stream ≡ chunk
    → c ≤ length stream
    → Receives (n - c) (drop c stream) (got ++ chunk) r
    → Receives n stream got r
received_chunk c n stream chunk got r less same within (inl (all, left, long)) = inl (
  all
      ∙ ap some (
          append_assoc got chunk (take (n - c) (drop c stream))
          ∙ ap (λ l. got ++ l)
              (ap (λ l. l ++ take (n - c) (drop c stream)) (sym same)
                ∙ take_add c (n - c) stream
                ∙ ap (λ m. take m stream) (omega arith))),
  left ∙ drop_add c (n - c) stream ∙ ap (λ m. drop m stream) (omega arith),
  omega (arith, long, length-drop c stream),
)
received_chunk c n stream chunk got r less same within (inr e) = inr e

chunk_within : (k n : ℕ) (stream : List ℕ) → length (take k (take n stream)) ≤ length stream
chunk_within zero n stream = omega arith
chunk_within (suc k) zero stream = omega arith
chunk_within (suc k) (suc n) [] = omega arith
chunk_within (suc k) (suc n) (b ∷ stream) = omega (arith, chunk_within k n stream)

pub recv_all-Receives :
    (answers : List Answer) (n : ℕ) (stream got : List ℕ)
    → Receives n stream got (recv_all answers n stream got)
unfolding recv_all
recv_all-Receives answers zero stream got = inl (ap some (sym (append-nil got)), refl, omega arith)
recv_all-Receives [] (suc n) stream got = inr refl
recv_all-Receives (silent ∷ answers) (suc n) stream got = inr refl
recv_all-Receives (again ∷ answers) (suc n) stream got =
    recv_all-Receives answers (suc n) stream got
recv_all-Receives (fails ∷ answers) (suc n) stream got = inr refl
recv_all-Receives (moves k ∷ answers) (suc n) [] got = inr refl
recv_all-Receives (moves k ∷ answers) (suc n) (b ∷ stream) got =
    let chunk = available k (suc n) (b ∷ stream) in
    let (same, short) = chunk_lem (suc k) (suc n) (b ∷ stream) in
    received_chunk (length chunk) (suc n) (b ∷ stream) chunk got
      (recv_all answers (suc n - length chunk) (drop (length chunk) (b ∷ stream)) (got ++ chunk))
      short same (chunk_within (suc k) (suc n) (b ∷ stream))
      (recv_all-Receives answers (suc n - length chunk) (drop (length chunk) (b ∷ stream))
        (got ++ chunk))

-- With a responsive environment and the bytes there, the loop gets them.
pub recv_all-succeeds :
    (answers : List Answer) (n : ℕ) (stream got : List ℕ)
    → Responsive answers
    → n ≤ length stream
    → n ≤ move_count answers
    → ((bytes : List ℕ) × ((recv_all answers n stream got).0 ≡ some bytes))
      × Responsive (recv_all answers n stream got).2
      × (move_count answers ≤ move_count (recv_all answers n stream got).2 + n)
unfolding recv_all
recv_all-succeeds answers zero stream got live long enough = ((got, refl), live, omega arith)
recv_all-succeeds [] (suc n) stream got live long enough = absurd (omega arith)
recv_all-succeeds (silent ∷ answers) (suc n) stream got live long enough = absurd live
recv_all-succeeds (again ∷ answers) (suc n) stream got live long enough =
    recv_all-succeeds answers (suc n) stream got live long enough
recv_all-succeeds (fails ∷ answers) (suc n) stream got live long enough = absurd live
recv_all-succeeds (moves k ∷ answers) (suc n) [] got live long enough = absurd (omega arith)
recv_all-succeeds (moves k ∷ answers) (suc n) (b ∷ stream) got live long enough =
    let chunk = available k (suc n) (b ∷ stream) in
    let (same, short) = chunk_lem (suc k) (suc n) (b ∷ stream) in
    let after = length-drop (length chunk) (b ∷ stream) in
    let (found, live', left) =
      recv_all-succeeds answers (suc n - length chunk) (drop (length chunk) (b ∷ stream))
        (got ++ chunk) live (omega arith) (omega arith) in
    (found, live', omega arith)
