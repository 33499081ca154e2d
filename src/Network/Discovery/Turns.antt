-- ===== src/Network/Discovery/Turns.antt =====
-- The threads and callers of PeerDiscovery take turns; what they have told is counted.
use edge_orchestrator_ai.Prelude.{
  ℕ, ◌+◌, List, [], ◌∷◌, Option, none, some, String, elem, string_key, ite, String_discrete,
  if◌then◌else◌,
}
use edge_orchestrator_ai.Prelude.HashMap.{keys}
use edge_orchestrator_ai.Core.Types.{NodeId, Timestamp, ResourceSnapshot}
use edge_orchestrator_ai.Scheduler.Plan.{PeerInfo}
use edge_orchestrator_ai.Network.Discovery.{
  FloatBits, PeerDiscovery, Notice, discovered, lost, hear, sweep, notify_discovered, notify_lost,
  on_peer_discovered, on_peer_lost, update_local_resources,
}

-- A turn of a thread, or a call. A thread takes its next turn of the map when it has told what the last
-- one found.
pub data Turn (F : Type 0) : Type 0 where
  hears : List ℕ → String → Timestamp → ℕ → Turn F
  tells_discovered : Turn F
  sweeps : ℕ → Turn F
  tells_lost : Turn F
  registers_discovered registers_lost : ℕ → Turn F
  updates : ResourceSnapshot F → Turn F

abbrev pub told_discovered : {F : Type 0} → Option (PeerInfo F) → PeerDiscovery F → PeerDiscovery F
told_discovered none s = s
told_discovered (some peer) s = notify_discovered peer (record s { to_discover = none })

abbrev pub swept : {F : Type 0} → List (PeerInfo F) → ℕ → PeerDiscovery F → PeerDiscovery F
swept [] now s = sweep now s
swept (peer ∷ peers) now s = s

abbrev pub told_lost : {F : Type 0} → List (PeerInfo F) → PeerDiscovery F → PeerDiscovery F
told_lost [] s = s
told_lost (peer ∷ peers) s = notify_lost peer (record s { to_lose = peers })

module _ {F : Type 0} (float_bits : FloatBits F) (text : List ℕ → String) (zero_float : F) where
  abbrev pub heard :
      Option (PeerInfo F) → List ℕ → String → Timestamp → ℕ → PeerDiscovery F → PeerDiscovery F
  heard (some untold) datagram sender_addr wall now s = s
  heard none datagram sender_addr wall now s =
      hear float_bits text zero_float datagram sender_addr wall now s

  abbrev pub turn : Turn F → PeerDiscovery F → PeerDiscovery F
  turn (hears datagram sender_addr wall now) s = heard s.to_discover datagram sender_addr wall now s
  turn tells_discovered s = told_discovered s.to_discover s
  turn (sweeps now) s = swept s.to_lose now s
  turn tells_lost s = told_lost s.to_lose s
  turn (registers_discovered callback) s = on_peer_discovered callback s
  turn (registers_lost callback) s = on_peer_lost callback s
  turn (updates snapshot) s = update_local_resources snapshot s

  abbrev pub turns : List (Turn F) → PeerDiscovery F → PeerDiscovery F
  turns [] s = s
  turns (t ∷ ts) s = turns ts (turn t s)

-- How often a node was told to be discovered, and how often to be lost.
abbrev pub told : {F : Type 0} → NodeId → PeerInfo F → ℕ
told id peer = ite (String_discrete id peer.node_id) 1 0

abbrev pub discoveries : {F : Type 0} → NodeId → List (Notice F) → ℕ
discoveries id [] = 0
discoveries id (discovered callbacks peer ∷ notices) = told id peer + discoveries id notices
discoveries id (lost callbacks peer ∷ notices) = discoveries id notices

abbrev pub losses : {F : Type 0} → NodeId → List (Notice F) → ℕ
losses id [] = 0
losses id (discovered callbacks peer ∷ notices) = losses id notices
losses id (lost callbacks peer ∷ notices) = told id peer + losses id notices

abbrev pub still_to_discover : {F : Type 0} → NodeId → Option (PeerInfo F) → ℕ
still_to_discover id none = 0
still_to_discover id (some peer) = told id peer

abbrev pub still_to_lose : {F : Type 0} → NodeId → List (PeerInfo F) → ℕ
still_to_lose id [] = 0
still_to_lose id (peer ∷ peers) = told id peer + still_to_lose id peers

abbrev pub known : {F : Type 0} → NodeId → PeerDiscovery F → ℕ
known id s = if elem id (keys s.known_peers) then 1 else 0
