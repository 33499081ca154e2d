-- ===== src/Network/Discovery/Peers.antt =====
-- The peers that a node knows, and what it tells of them, whatever the order in which its threads
-- take their turns.
use edge_orchestrator_ai.Prelude.{
  ℕ, ◌+◌, ◌≡◌, ◌≢◌, refl, sym, ap, ◌∙◌, true, false, List, [], ◌∷◌, Option, none, some, String,
  arith, Bool-cases, inl, inr, elem, string_key, if_pos, if_neg, ite, String_discrete, Distinct,
  subst, ◌&&◌, ◌==◌, length, take, if◌then◌else◌,
}
use edge_orchestrator_ai.Prelude.HashMap.{
  find, assign, keys, elem-keys-assign, Distinct-keys-assign, find-elem, find-present,
}
use edge_orchestrator_ai.Core.Types.{NodeId, Timestamp, ResourceSnapshot}
use edge_orchestrator_ai.Scheduler.Plan.{PeerInfo}
use edge_orchestrator_ai.Network.Discovery.{
  FloatBits, PeerRecord, PeerDiscovery, make_discovery, remember, meet, hear, sweep,
  notify_discovered, notify_lost, packet_of, magic, protocol_version, same_bytes,
}
use edge_orchestrator_ai.Network.Discovery.Turns.{
  Turn, hears, tells_discovered, sweeps, tells_lost, registers_discovered, registers_lost, updates,
  heard, told_discovered, swept, told_lost, turn, turns, told, discoveries, losses,
  still_to_discover, still_to_lose, known,
}
use edge_orchestrator_ai.Network.Discovery.Eviction.{AllKeyed, AllKeyed-assign, evict-Evicts}

-- The peers that are known are distinct, not the node itself, and stored under their ids; each was
-- told to be discovered once more than to be lost, and each other node as often, if what the two
-- threads still have to tell counts as told.
pub record IsConsistent {F : Type 0} (s : PeerDiscovery F) : Type 0 where
  pub distinct : Distinct (keys s.known_peers)
  pub keyed : AllKeyed s.known_peers
  pub never_self : elem s.node_id (keys s.known_peers) ≡ false
  pub balanced :
      (id : NodeId)
      → discoveries id s.notices + still_to_discover id s.to_discover
        ≡ losses id s.notices + still_to_lose id s.to_lose + known id s

absent_unfound :
    {F : Type 0} (id : NodeId) (m : List (NodeId × PeerRecord F))
    → find id m ≡ none
    → elem id (keys m) ≡ false
absent_unfound id m e = elim (Bool-cases (elem id (keys m))) [
  | inl here ↦ let (v, at) = find-present id m here in cc
  | inr absent ↦ absent
]

module _ {F : Type 0} (s : PeerDiscovery F) (h : IsConsistent s) where
  module _ (peer : PeerInfo F) (now : ℕ) (other : peer.node_id ≢ s.node_id) where
    abbrev after : List (NodeId × PeerRecord F)
    after = assign peer.node_id (record { info = peer; last_seen = now }) s.known_peers

    elem-after :
        (id : NodeId)
        → elem id (keys after)
          ≡ ite (String_discrete id peer.node_id) true (elem id (keys s.known_peers))
    elem-after id = elem-keys-assign peer.node_id id _ s.known_peers

    never_self_after : elem s.node_id (keys after) ≡ false
    never_self_after =
        elem-after s.node_id
        ∙ if_neg (String_discrete s.node_id peer.node_id) (λ e. other (sym e)) _ _
        ∙ h.never_self

    new_balance :
        s.to_discover ≡ none
        → elem peer.node_id (keys s.known_peers) ≡ false
        → (id : NodeId) → Dec (id ≡ peer.node_id)
        → discoveries id s.notices + told id peer
          ≡ losses id s.notices
            + still_to_lose id s.to_lose
            + (if elem id (keys after) then 1 else 0)
    new_balance idle new id (yes p) =
        let none_pending : still_to_discover id s.to_discover ≡ 0 = rw idle refl in
        let absent : elem id (keys s.known_peers) ≡ false =
          ap (λ x. elem x (keys s.known_peers)) p ∙ new in
        let one = if_pos {C = ℕ} (String_discrete id peer.node_id) p 1 0 in
        let here : elem id (keys after) ≡ true =
          elem-after id ∙ if_pos (String_discrete id peer.node_id) p _ _ in
        ground (arith, none_pending, absent, one, here, h.balanced id)
    new_balance idle new id (no n) =
        let none_pending : still_to_discover id s.to_discover ≡ 0 = rw idle refl in
        let none_told = if_neg {C = ℕ} (String_discrete id peer.node_id) n 1 0 in
        let same : elem id (keys after) ≡ elem id (keys s.known_peers) =
          elem-after id ∙ if_neg (String_discrete id peer.node_id) n _ _ in
        ground (arith, none_pending, none_told, same, h.balanced id)

    old_balance :
        elem peer.node_id (keys s.known_peers) ≡ true
        → (id : NodeId) → Dec (id ≡ peer.node_id)
        → discoveries id s.notices + still_to_discover id s.to_discover
          ≡ losses id s.notices
            + still_to_lose id s.to_lose
            + (if elem id (keys after) then 1 else 0)
    old_balance old id (yes p) =
        let there : elem id (keys s.known_peers) ≡ true =
          ap (λ x. elem x (keys s.known_peers)) p ∙ old in
        let here : elem id (keys after) ≡ true =
          elem-after id ∙ if_pos (String_discrete id peer.node_id) p _ _ in
        ground (arith, there, here, h.balanced id)
    old_balance old id (no n) =
        let same : elem id (keys after) ≡ elem id (keys s.known_peers) =
          elem-after id ∙ if_neg (String_discrete id peer.node_id) n _ _ in
        ground (arith, same, h.balanced id)

    remember-IsConsistent :
        s.to_discover ≡ none
        → (o : Option (PeerRecord F)) → find peer.node_id s.known_peers ≡ o
        → IsConsistent (remember peer now o s)
    remember-IsConsistent idle none at = record {
      distinct = Distinct-keys-assign peer.node_id _ s.known_peers h.distinct;
      keyed = AllKeyed-assign peer.node_id _ s.known_peers refl h.keyed;
      never_self = never_self_after;
      balanced = λ id.
          new_balance idle (absent_unfound peer.node_id s.known_peers at) id
            (String_discrete id peer.node_id);
    }
    remember-IsConsistent idle (some old) at = record {
      distinct = Distinct-keys-assign peer.node_id _ s.known_peers h.distinct;
      keyed = AllKeyed-assign peer.node_id _ s.known_peers refl h.keyed;
      never_self = never_self_after;
      balanced = λ id.
          old_balance (find-elem peer.node_id s.known_peers at) id
            (String_discrete id peer.node_id);
    }

  meet-IsConsistent :
      (peer : PeerInfo F) (now : ℕ) → s.to_discover ≡ none → IsConsistent (meet peer now s)
  unfolding meet
  meet-IsConsistent peer now idle = elim (String_discrete peer.node_id s.node_id) [
    | yes p ↦ subst IsConsistent (sym (if_pos (String_discrete peer.node_id s.node_id) p _ _)) h
    | no n ↦
        subst IsConsistent (sym (if_neg (String_discrete peer.node_id s.node_id) n _ _))
          (remember-IsConsistent peer now n idle (find peer.node_id s.known_peers) refl)
  ]

  told_discovered-IsConsistent :
      (o : Option (PeerInfo F)) → s.to_discover ≡ o → IsConsistent (told_discovered o s)
  unfolding notify_discovered
  told_discovered-IsConsistent none e = h
  told_discovered-IsConsistent (some peer) e = record {
    distinct = h.distinct;
    keyed = h.keyed;
    never_self = h.never_self;
    balanced = λ id.
        let pending : still_to_discover id s.to_discover ≡ told id peer = rw e refl in
        omega (arith, h.balanced id, pending);
  }

  told_lost-IsConsistent :
      (peers : List (PeerInfo F)) → s.to_lose ≡ peers → IsConsistent (told_lost peers s)
  unfolding notify_lost
  told_lost-IsConsistent [] e = h
  told_lost-IsConsistent (peer ∷ peers) e = record {
    distinct = h.distinct;
    keyed = h.keyed;
    never_self = h.never_self;
    balanced = λ id.
        let pending : still_to_lose id s.to_lose ≡ told id peer + still_to_lose id peers =
          rw e refl in
        omega (arith, h.balanced id, pending);
  }

  sweep-IsConsistent : (now : ℕ) → s.to_lose ≡ [] → IsConsistent (sweep now s)
  unfolding sweep
  sweep-IsConsistent now idle =
      let e = evict-Evicts s.peer_timeout_ms now s.known_peers h.keyed h.distinct in
      record {
        distinct = e.distinct;
        keyed = e.keyed;
        never_self = e.fewer s.node_id h.never_self;
        balanced = λ id.
            let before : still_to_lose id s.to_lose ≡ 0 = rw idle refl in
            omega (arith, h.balanced id, e.split id, before);
      }

module _ {F : Type 0} (float_bits : FloatBits F) (text : List ℕ → String) (zero_float : F) where
  hear-IsConsistent :
      (datagram : List ℕ) (sender_addr : String) (wall : Timestamp) (now : ℕ) (s : PeerDiscovery F)
      → s.to_discover ≡ none
      → IsConsistent s
      → IsConsistent (hear float_bits text zero_float datagram sender_addr wall now s)
  unfolding hear
  hear-IsConsistent datagram sender_addr wall now s idle h =
      let received = take 72 datagram in
      let pkt = packet_of received in
      elim (Bool-cases (
        (length received == 72)
        && same_bytes pkt.magic magic
        && (pkt.version == protocol_version))) [
          | inl valid ↦ rw valid (meet-IsConsistent s h _ now idle)
          | inr invalid ↦ rw invalid h
        ]

  turn-IsConsistent :
      (t : Turn F) (s : PeerDiscovery F)
      → IsConsistent s
      → IsConsistent (turn float_bits text zero_float t s)
  turn-IsConsistent (hears datagram sender_addr wall now) s h = from s.to_discover refl
    where
      from :
          (o : Option (PeerInfo F))
          → s.to_discover ≡ o
          → IsConsistent (heard float_bits text zero_float o datagram sender_addr wall now s)
      from (some untold) e = h
      from none e = hear-IsConsistent datagram sender_addr wall now s e h
  turn-IsConsistent tells_discovered s h = told_discovered-IsConsistent s h s.to_discover refl
  turn-IsConsistent (sweeps now) s h = from s.to_lose refl
    where
      from : (peers : List (PeerInfo F)) → s.to_lose ≡ peers → IsConsistent (swept peers now s)
      from [] e = sweep-IsConsistent s h now e
      from (peer ∷ peers) e = h
  turn-IsConsistent tells_lost s h = told_lost-IsConsistent s h s.to_lose refl
  turn-IsConsistent (registers_discovered callback) s h = record {
    distinct = h.distinct;
    keyed = h.keyed;
    never_self = h.never_self;
    balanced = h.balanced;
  }
  turn-IsConsistent (registers_lost callback) s h = record {
    distinct = h.distinct;
    keyed = h.keyed;
    never_self = h.never_self;
    balanced = h.balanced;
  }
  turn-IsConsistent (updates snapshot) s h = record {
    distinct = h.distinct;
    keyed = h.keyed;
    never_self = h.never_self;
    balanced = h.balanced;
  }

  turns_keep :
      (ts : List (Turn F)) (s : PeerDiscovery F)
      → IsConsistent s
      → IsConsistent (turns float_bits text zero_float ts s)
  turns_keep [] s h = h
  turns_keep (t ∷ ts) s h =
      turns_keep ts (turn float_bits text zero_float t s) (turn-IsConsistent t s h)

  -- After any sequence of turns of the listening and the evicting thread and of calls on a new
  -- PeerDiscovery, the ids of the known peers are distinct, none is the node's own, and each peer
  -- is stored under its id; and with what the two threads still have to tell, each node was told
  -- to be discovered as often as to be lost, and once more if it is known.
  pub turns-IsConsistent :
      (node_id : NodeId) (tcp_port peer_timeout_ms : ℕ) (resources : ResourceSnapshot F)
      (ts : List (Turn F))
      → IsConsistent (
          turns float_bits text zero_float ts
            (make_discovery node_id tcp_port peer_timeout_ms resources))
  unfolding elem
  turns-IsConsistent node_id tcp_port peer_timeout_ms resources ts =
      turns_keep ts (make_discovery node_id tcp_port peer_timeout_ms resources)
        (record { distinct = tt; keyed = tt; never_self = refl; balanced = λ id. omega arith })
