-- ===== src/Network/ClusterView.antt =====
-- src/network/cluster_view.hpp and cluster_view.cpp: ClusterViewManager. Each method takes the lock
-- for its whole body, so that a history is a sequence of the operations below.
pub mod Refinement
mod Tests
use edge_orchestrator_ai.Prelude.{
  ℕ, Bool, true, false, List, [], ◌∷◌, Option, none, some, elem, length, if◌then◌else◌, string_key,
}
use edge_orchestrator_ai.Prelude.HashMap.{find, assign, update, erase, keys}
use edge_orchestrator_ai.Core.Types.{NodeId, ResourceSnapshot}
use edge_orchestrator_ai.Scheduler.Plan.{PeerInfo, ClusterView}

abbrev pub Peers : Type 0 → Type 0
Peers F = List (NodeId × PeerInfo F)

module _ {F : Type 0} where
  -- peers_[id], with the fields of a new entry, and the three writes
  abbrev pub refreshed : NodeId → ResourceSnapshot F → Option (PeerInfo F) → PeerInfo F
  refreshed id snapshot none = record {
    node_id = id;
    resources = snapshot;
    address = "";
    tcp_port = 0;
    reachable = true;
  }
  refreshed id snapshot (some entry) = record entry {
    node_id = id;
    resources = snapshot;
    reachable = true;
  }

  unfoldable pub update_resources : NodeId → ResourceSnapshot F → Peers F → Peers F
  update_resources id snapshot peers = assign id (refreshed id snapshot (find id peers)) peers

  unfoldable pub update_peer : PeerInfo F → Peers F → Peers F
  update_peer info peers = assign info.node_id info peers

  abbrev pub unreachable : PeerInfo F → PeerInfo F
  unreachable info = record info { reachable = false }

  unfoldable pub mark_unreachable : NodeId → Peers F → Peers F
  mark_unreachable id peers = update id unreachable peers

  unfoldable pub remove_peer : NodeId → Peers F → Peers F
  remove_peer id peers = erase id peers

  unfoldable pub clear : Peers F → Peers F
  clear peers = []

  reachable_of : Peers F → List (PeerInfo F)
  reachable_of [] = []
  reachable_of ((id, info) ∷ peers) =
      if info.reachable then info ∷ reachable_of peers else reachable_of peers

  unfoldable pub snapshot : Peers F → ClusterView F
  unfolding reachable_of
  snapshot peers = record { peers = reachable_of peers }

  unfoldable pub available_peers : Peers F → List NodeId
  available_peers [] = []
  available_peers ((id, info) ∷ peers) =
      if info.reachable then id ∷ available_peers peers else available_peers peers

  abbrev pub if_reachable : {B : Type 0} → (PeerInfo F → B) → Option (PeerInfo F) → Option B
  if_reachable g none = none
  if_reachable g (some info) = if info.reachable then some (g info) else none

  unfoldable pub peer_resources : NodeId → Peers F → Option (ResourceSnapshot F)
  peer_resources id peers = if_reachable (λ info. info.resources) (find id peers)

  unfoldable pub peer_info : NodeId → Peers F → Option (PeerInfo F)
  peer_info id peers = if_reachable (λ info. info) (find id peers)

  unfoldable pub cluster_size : Peers F → ℕ
  cluster_size peers = length peers

  unfoldable pub has_peer : NodeId → Peers F → Bool
  has_peer id peers = elem id (keys peers)
