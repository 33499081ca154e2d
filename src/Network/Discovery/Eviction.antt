-- ===== src/Network/Discovery/Eviction.antt =====
-- What one turn of eviction_loop takes from the map, and what it leaves.
use edge_orchestrator_ai.Prelude.{
  ℕ, ◌+◌, ◌≡◌, ◌≢◌, refl, sym, ap, ◌∙◌, true, false, List, [], ◌∷◌, Option, none, some, arith,
  Bool-cases, inl, inr, elem, string_key, if_pos, if_neg, ite, String_discrete, Distinct,
  if◌then◌else◌,
}
use edge_orchestrator_ai.Prelude.HashMap.{find, assign, keys, find-absent}
use edge_orchestrator_ai.Core.Types.{NodeId}
use edge_orchestrator_ai.Scheduler.Plan.{PeerInfo}
use edge_orchestrator_ai.Network.Discovery.{
  PeerRecord, PeerDiscovery, evict, sweep, silent_too_long,
}
use edge_orchestrator_ai.Network.Discovery.Turns.{still_to_lose, told}

-- Each peer is stored under its own id.
abbrev pub AllKeyed : {F : Type 0} → List (NodeId × PeerRecord F) → Type 0
AllKeyed [] = Unit {0}
AllKeyed ((id, r) ∷ m) = (r.info.node_id ≡ id) × AllKeyed m

pub AllKeyed-assign :
    {F : Type 0} (id : NodeId) (r : PeerRecord F) (m : List (NodeId × PeerRecord F))
    → r.info.node_id ≡ id
    → AllKeyed m
    → AllKeyed (assign id r m)
unfolding assign
AllKeyed-assign id r [] e h = (e, tt)
AllKeyed-assign id r ((y, q) ∷ m) e h = elim (String_discrete id y) [
  | yes p ↦ rw (if_pos (String_discrete id y) p) (e, h.1)
  | no n ↦ rw (if_neg (String_discrete id y) n) (h.0, AllKeyed-assign id r m e h.1)
]

-- What evict leaves, and what it takes away.
pub record Evicts {F : Type 0} (m : List (NodeId × PeerRecord F))
    (r : List (PeerInfo F) × List (NodeId × PeerRecord F)) : Type 0 where
  pub keyed : AllKeyed r.1
  pub distinct : Distinct (keys r.1)
  pub fewer : (id : NodeId) → elem id (keys m) ≡ false → elem id (keys r.1) ≡ false
  pub split :
      (id : NodeId)
      → still_to_lose id r.0 + (if elem id (keys r.1) then 1 else 0)
        ≡ (if elem id (keys m) then 1 else 0)

module _ {F : Type 0} (key : NodeId) (q : PeerRecord F) (m : List (NodeId × PeerRecord F))
    (r : List (PeerInfo F) × List (NodeId × PeerRecord F)) (own : q.info.node_id ≡ key)
    (new : elem key (keys m) ≡ false) (h : Evicts m r) where
  take-Evicts : Evicts ((key, q) ∷ m) (q.info ∷ r.0, r.1)
  unfolding elem
  take-Evicts = record {
    keyed = h.keyed;
    distinct = h.distinct;
    fewer = λ id absent. h.fewer id (ground arith);
    split = λ id. counted id (String_discrete id key);
  }
    where
      counted :
          (id : NodeId)
          → Dec (id ≡ key)
          → told id q.info + still_to_lose id r.0 + (if elem id (keys r.1) then 1 else 0)
            ≡ (if elem id (key ∷ keys m) then 1 else 0)
      counted id (yes p) =
          let here : elem id (keys m) ≡ false = ap (λ x. elem x (keys m)) p ∙ new in
          let one = if_pos {C = ℕ} (String_discrete id q.info.node_id) (p ∙ sym own) 1 0 in
          ground (arith, one, here, h.split id)
      counted id (no n) =
          let other : id ≢ q.info.node_id = λ e. n (e ∙ own) in
          let none_told = if_neg {C = ℕ} (String_discrete id q.info.node_id) other 1 0 in
          ground (arith, none_told, h.split id)

  keep-Evicts : Evicts ((key, q) ∷ m) (r.0, (key, q) ∷ r.1)
  unfolding elem
  keep-Evicts = record {
    keyed = (own, h.keyed);
    distinct = (h.fewer key new, h.distinct);
    fewer = λ id absent. ground (arith, h.fewer id);
    split = λ id. ground (arith, h.split id, h.fewer id, new);
  }

pub evict-Evicts :
    {F : Type 0} (timeout_ms now : ℕ) (m : List (NodeId × PeerRecord F))
    → AllKeyed m
    → Distinct (keys m)
    → Evicts m (evict timeout_ms now m)
unfolding evict elem
evict-Evicts timeout_ms now [] h d = record {
  keyed = tt;
  distinct = tt;
  fewer = λ id absent. refl;
  split = λ id. omega arith;
}
evict-Evicts timeout_ms now ((key, q) ∷ m) h d =
    let rest = evict-Evicts timeout_ms now m h.1 d.1 in
    elim (Bool-cases (silent_too_long timeout_ms now q)) [
      | inl silent ↦ rw silent (take-Evicts key q m (evict timeout_ms now m) h.0 d.0 rest)
      | inr fresh ↦ rw fresh (keep-Evicts key q m (evict timeout_ms now m) h.0 d.0 rest)
    ]

-- What is left of an entry.
abbrev pub unless_silent : {F : Type 0} → ℕ → ℕ → Option (PeerRecord F) → Option (PeerRecord F)
unless_silent timeout_ms now none = none
unless_silent timeout_ms now (some r) = if silent_too_long timeout_ms now r then none else some r

find-evict :
    {F : Type 0} (timeout_ms now : ℕ) (id : NodeId) (m : List (NodeId × PeerRecord F))
    → Distinct (keys m)
    → find id (evict timeout_ms now m).1 ≡ unless_silent timeout_ms now (find id m)
unfolding evict find
find-evict timeout_ms now id [] d = refl
find-evict timeout_ms now id ((key, q) ∷ m) d =
    let rest = find-evict timeout_ms now id m d.1 in
    elim (Bool-cases (silent_too_long timeout_ms now q)) [
      | inl silent ↦ rw silent (taken silent rest (String_discrete id key))
      | inr fresh ↦ rw fresh (kept fresh rest (String_discrete id key))
    ]
  where
    taken :
        silent_too_long timeout_ms now q ≡ true
        → find id (evict timeout_ms now m).1 ≡ unless_silent timeout_ms now (find id m)
        → Dec (id ≡ key)
        → find id (evict timeout_ms now m).1
          ≡ unless_silent timeout_ms now (ite (String_discrete id key) (some q) (find id m))
    taken silent rest (yes p) =
        let absent : find id m ≡ none = find-absent id m (ap (λ x. elem x (keys m)) p ∙ d.0) in
        rest
        ∙ ap (λ o. unless_silent timeout_ms now o) absent
        ∙ sym (
            ap (λ o. unless_silent timeout_ms now o) (if_pos (String_discrete id key) p _ _)
            ∙ rw silent refl)
    taken silent rest (no n) =
        rest
        ∙ ap (λ o. unless_silent timeout_ms now o) (sym (if_neg (String_discrete id key) n _ _))

    kept :
        silent_too_long timeout_ms now q ≡ false
        → find id (evict timeout_ms now m).1 ≡ unless_silent timeout_ms now (find id m)
        → Dec (id ≡ key)
        → ite (String_discrete id key) (some q) (find id (evict timeout_ms now m).1)
          ≡ unless_silent timeout_ms now (ite (String_discrete id key) (some q) (find id m))
    kept fresh rest (yes p) =
        if_pos (String_discrete id key) p _ _
        ∙ sym (
            ap (λ o. unless_silent timeout_ms now o) (if_pos (String_discrete id key) p _ _)
            ∙ rw fresh refl)
    kept fresh rest (no n) =
        if_neg (String_discrete id key) n _ _
        ∙ rest
        ∙ ap (λ o. unless_silent timeout_ms now o) (sym (if_neg (String_discrete id key) n _ _))

-- When the ids of the known peers are distinct, a turn of the evicting thread leaves exactly the
-- peers that were known and whose last packet is not longer ago than the timeout, with their
-- records.
pub find-sweep :
    {F : Type 0} (now : ℕ) (s : PeerDiscovery F) (id : NodeId)
    → Distinct (keys s.known_peers)
    → find id (sweep now s).known_peers
      ≡ unless_silent s.peer_timeout_ms now (find id s.known_peers)
unfolding sweep
find-sweep now s id d = find-evict s.peer_timeout_ms now id s.known_peers d
