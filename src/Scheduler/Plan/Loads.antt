-- ===== src/Scheduler/Plan/Loads.antt =====
-- Which peer least_loaded_peer picks.
use mathlib.Core.List.{Memᴰ}
use mathlib.Core.List.Memᴰ
use edge_orchestrator_ai.Prelude.{
  ◌≡◌, refl, ap, ◌⊎◌, inl, inr, true, false, List, [], ◌∷◌, ◌&&◌, arith, Bool-cases,
}
use edge_orchestrator_ai.Core.Floats.{Floats}
use edge_orchestrator_ai.Core.Types.{NodeId}
use edge_orchestrator_ai.Scheduler.Plan.{
  PeerInfo, ClusterView, load, least_loaded_from, least_loaded_peer,
}

module _ (f : Floats) where
  open f use {Float, lt, max_value, lt_irrefl, lt_trans}

  -- No reachable peer has a load below the bound.
  abbrev pub NoneBelow : List (PeerInfo Float) → Float → Type 0
  NoneBelow peers bound =
      (p : PeerInfo Float)
      → Memᴰ p peers
      → p.reachable ≡ true
      → lt p.resources.cpu_usage_percent bound ≡ false

  record Picks (peers : List (PeerInfo Float)) (from : Float × NodeId) (to : Float × NodeId)
      : Type 0 where
    bound : (x : Float) → lt x from.0 ≡ false → lt x to.0 ≡ false
    none_below : NoneBelow peers to.0
    picked :
        (to ≡ from)
        ⊎ ((p : PeerInfo Float) × Memᴰ p peers
            × (p.reachable ≡ true)
            × (to ≡ (load f p, p.node_id)))

  lt_false_trans : (x y z : Float) → lt y z ≡ true → lt x z ≡ false → lt x y ≡ false
  lt_false_trans x y z yz xz = elim (Bool-cases (lt x y)) [
    | inl xy ↦ let bad = lt_trans x y z xy yz in cc
    | inr not_xy ↦ not_xy
  ]

  module _ (peer : PeerInfo Float) (peers : List (PeerInfo Float)) (from to : Float × NodeId) where
    take-Picks :
        peer.reachable ≡ true
        → lt (load f peer) from.0 ≡ true
        → Picks peers (load f peer, peer.node_id) to
        → Picks (peer ∷ peers) from to
    take-Picks up less h = record {
      bound = λ x e. h.bound x (lt_false_trans x (load f peer) from.0 less e);
      none_below = λ p m r. elim (Memᴰ.cases_cons m) [
        | inl e ↦ rw e (h.bound (load f peer) (lt_irrefl (load f peer)))
        | inr later ↦ h.none_below p later r
      ];
      picked = elim h.picked [
        | inl e ↦ inr (peer, Memᴰ.head refl, up, e)
        | inr (p, m, r, e) ↦ inr (p, Memᴰ.tail m, r, e)
      ];
    }

    pass-Picks :
        (peer.reachable && lt (load f peer) from.0) ≡ false
        → Picks peers from to
        → Picks (peer ∷ peers) from to
    pass-Picks worse h = record {
      bound = h.bound;
      none_below = λ p m r. elim (Memᴰ.cases_cons m) [
        | inl e ↦ rw e (h.bound (load f peer) (ground (arith, ap (λ q. q.reachable) e)))
        | inr later ↦ h.none_below p later r
      ];
      picked = elim h.picked [ inl e ↦ inl e | inr (p, m, r, e) ↦ inr (p, Memᴰ.tail m, r, e) ];
    }

  least_loaded_from-Picks :
      (peers : List (PeerInfo Float)) (min_load : Float) (best : NodeId)
      → Picks peers (min_load, best) (least_loaded_from f peers min_load best)
  unfolding least_loaded_from
  least_loaded_from-Picks [] min_load best = record {
    bound = λ x e. e;
    none_below = λ p m. absurd (Memᴰ.not-nil m);
    picked = inl refl;
  }
  least_loaded_from-Picks (peer ∷ peers) min_load best =
      elim (Bool-cases (peer.reachable && lt (load f peer) min_load)) [
        | inl better ↦
            rw (better, least_loaded_from)
              (take-Picks peer peers _ _ (ground arith) (ground arith)
                (least_loaded_from-Picks peers (load f peer) peer.node_id))
        | inr worse ↦
            rw (worse, least_loaded_from)
              (pass-Picks peer peers (min_load, best) _ worse
                (least_loaded_from-Picks peers min_load best))
      ]

  -- least_loaded_peer names a reachable peer such that no reachable peer has a lower load; or it
  -- names none, and then no reachable peer has a load below the greatest float.
  pub least_loaded_peer_lem :
      (view : ClusterView Float)
      → ((p : PeerInfo Float) × Memᴰ p view.peers
          × (p.reachable ≡ true)
          × (least_loaded_peer f view ≡ p.node_id)
          × NoneBelow view.peers (load f p))
        ⊎ ((least_loaded_peer f view ≡ "") × NoneBelow view.peers max_value)
  unfolding least_loaded_peer
  least_loaded_peer_lem view =
      let h = least_loaded_from-Picks view.peers max_value "" in
      elim h.picked [
        | inl e ↦ inr (ap (λ r. r.1) e, rw (ap (λ r. r.0) e) at h.none_below)
        | inr (p, m, r, e) ↦ inl (p, m, r, ap (λ r. r.1) e, rw (ap (λ r. r.0) e) at h.none_below)
      ]
