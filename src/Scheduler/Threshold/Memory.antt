-- ===== src/Scheduler/Threshold/Memory.antt =====
-- The memory of the peers that the threshold policy offloads to.
use mathlib.Core.List.{Memᴰ}
use mathlib.Core.List.Memᴰ
use edge_orchestrator_ai.Prelude.{
  ℕ, zero, suc, ◌+◌, ◌-◌, ◌≤◌, ◌<◌, ◌≡◌, ◌≢◌, refl, sym, ap, ◌∙◌, inl, inr, Bool, true, false, List,
  [], ◌∷◌, ◌++◌, map, Option, some, none, get_elem?, string_key, elem, Distinct, if◌then◌else◌,
  Bool-cases, arith, ite, String_discrete, ℕ_discrete, map-set, get_elem?-set_self,
  get_elem?-set_other, if_pos, if_neg, some_eq,
}
use edge_orchestrator_ai.Prelude.Words.{u64_mod, sub64, sub64_lem}
use edge_orchestrator_ai.Core.Floats.{Floats}
use edge_orchestrator_ai.Core.Types.{NodeId, TaskId, Timestamp, ResourceSnapshot}
use edge_orchestrator_ai.Workload.Dag.{Task, WorkloadDag, get_task}
use edge_orchestrator_ai.Workload.Dag.Iteration.{Iteration}
use edge_orchestrator_ai.Workload.Dag.Kahn.{topological_order}
use edge_orchestrator_ai.Scheduler.Plan.{
  PeerInfo, ClusterView, Reason, SchedulingDecision, threshold_offload,
}
use edge_orchestrator_ai.Scheduler.Rounds.{each_task-keeps}
use edge_orchestrator_ai.Scheduler.Threshold.{
  ThresholdPolicyConfig, PeerState, Simulation, peer_state, peer_states, assign_task, start,
  simulated, schedule, place_locally, fall_back, offload, offloaded, best_peer,
}
use edge_orchestrator_ai.Scheduler.Threshold.Step.{assign_task-Branches, best_peer_lem}

abbrev pub is_offload : Reason → Bool
is_offload threshold_offload = true
is_offload _ = false

abbrev pub bytes_of : Option Task → ℕ
bytes_of none = 0
bytes_of (some task) = task.profile.memory_bytes

-- What a decision takes from the memory of the peer of that name.
abbrev pub charge : WorkloadDag → NodeId → SchedulingDecision → ℕ
charge g id d =
    if is_offload d.reason
    then ite (String_discrete d.assigned_node id) (bytes_of (get_task d.task_id g)) 0
    else 0

-- The memory of the tasks that the decisions offload to a peer.
abbrev pub offloaded_bytes : WorkloadDag → NodeId → List SchedulingDecision → ℕ
offloaded_bytes g id [] = 0
offloaded_bytes g id (d ∷ ds) = charge g id d + offloaded_bytes g id ds

offloaded_bytes_snoc :
    (g : WorkloadDag) (id : NodeId) (ds : List SchedulingDecision) (d : SchedulingDecision)
    → offloaded_bytes g id (ds ++ d ∷ []) ≡ offloaded_bytes g id ds + charge g id d
offloaded_bytes_snoc g id [] d = omega arith
offloaded_bytes_snoc g id (e ∷ ds) d = omega (arith, offloaded_bytes_snoc g id ds d)

elem-map :
    {A : Type 0} (k : A → NodeId) (xs : List A) (i : ℕ) {x : A}
    → get_elem? xs i ≡ some x
    → elem (k x) (map k xs) ≡ true
unfolding elem
elem-map k [] i e = cc
elem-map k (y ∷ ys) zero e = ground arith
elem-map k (y ∷ ys) (suc i) e = ground (arith, elem-map k ys i e)

-- Distinct names stand at one place each.
Distinct-index :
    {A : Type 0} (k : A → NodeId) (xs : List A) (i j : ℕ) {x y : A}
    → Distinct (map k xs)
    → get_elem? xs i ≡ some x
    → get_elem? xs j ≡ some y
    → k x ≡ k y
    → i ≡ j
unfolding elem
Distinct-index k [] i j d ei ej e = cc
Distinct-index k (z ∷ zs) zero zero d ei ej e = refl
Distinct-index k (z ∷ zs) zero (suc j) d ei ej e =
    let there = elem-map k zs j ej in let same = ap k (some_eq ei) in cc
Distinct-index k (z ∷ zs) (suc i) zero d ei ej e =
    let there = elem-map k zs i ei in let same = ap k (some_eq ej) in cc
Distinct-index k (z ∷ zs) (suc i) (suc j) d ei ej e = ap suc (Distinct-index k zs i j d.1 ei ej e)

-- A reachable peer has a place among the states.
pub peer_states-index :
    {F : Type 0} (peers : List (PeerInfo F)) (p : PeerInfo F)
    → Memᴰ p peers
    → p.reachable ≡ true
    → (i : ℕ) × (get_elem? (peer_states peers) i ≡ some (peer_state p))
unfolding peer_states
peer_states-index [] p m up = absurd (Memᴰ.not-nil m)
peer_states-index (peer ∷ peers) p m up = elim (Memᴰ.cases_cons m) [
  | inl e ↦ (0, rw (sym e, up, peer_states) refl)
  | inr later ↦
      let (i, at) = peer_states-index peers p later up in
      elim (Bool-cases peer.reachable) [
        | inl first ↦ (suc i, rw (first, peer_states) at)
        | inr down ↦ (i, rw (down, peer_states) at)
      ]
]

module _ (f : Floats) (config : ThresholdPolicyConfig f.Float) (local : ResourceSnapshot f.Float)
    (cluster : ClusterView f.Float) (g : WorkloadDag)
    (sized : (i : ℕ) (q : PeerState f.Float)
      → get_elem? (peer_states cluster.peers) i ≡ some q
      → q.mem_available < u64_mod)
    (distinct : Distinct (map (λ p. p.id) (peer_states cluster.peers))) where
  open f use {Float}

  abbrev names : List (PeerState Float) → List NodeId
  names peers = map (λ p. p.id) peers

  abbrev initial : List (PeerState Float)
  initial = peer_states cluster.peers

  abbrev Kept : Simulation Float → ℕ → PeerState Float → Type 0
  Kept s i q =
      (p : PeerState Float) × (get_elem? s.peers i ≡ some p)
      × (p.id ≡ q.id)
      × (p.mem_available + offloaded_bytes g q.id s.decisions ≡ q.mem_available)

  record Inv (s : Simulation Float) : Type 0 where
    ids : names s.peers ≡ names initial
    kept : (i : ℕ) (q : PeerState Float) → get_elem? initial i ≡ some q → Kept s i q
    bounded :
        (i : ℕ) (p : PeerState Float) → get_elem? s.peers i ≡ some p → p.mem_available < u64_mod

  start-Inv : Inv (start f local cluster)
  unfolding start
  start-Inv = record { ids = refl; kept = λ i q at. (q, at, refl, omega arith); bounded = sized }

  -- A decision that takes nothing.
  uncharged :
      (s next : Simulation Float) (d : SchedulingDecision)
      → next.peers ≡ s.peers
      → next.decisions ≡ s.decisions ++ d ∷ []
      → is_offload d.reason ≡ false
      → Inv s
      → Inv next
  uncharged s next d peers decisions none_taken inv = record {
    ids = rw peers inv.ids;
    kept = λ i q at.
        let (p, there, named, total) = inv.kept i q at in
        (
          p,
          rw peers there,
          named,
          rw (decisions, offloaded_bytes_snoc g q.id s.decisions d, none_taken)
              (omega (arith, total)),
        );
    bounded = λ i p at. inv.bounded i p (rw peers at at);
  }

  module _ (id : TaskId) (task : Task) (s : Simulation Float) (inv : Inv s) where
    abbrev cost : ℕ
    cost = task.profile.memory_bytes

    module _ (best : ℕ) (p : PeerState Float) (at : get_elem? s.peers best ≡ some p)
        (fits : cost ≤ p.mem_available) (found : get_task id g ≡ some task) where
      abbrev decision : SchedulingDecision
      decision = record { task_id = id; assigned_node = p.id; reason = threshold_offload }

      taken : sub64 p.mem_available cost ≡ p.mem_available - cost
      taken = sub64_lem p.mem_available cost fits (inv.bounded best p at)

      charged : (q : PeerState Float) → p.id ≡ q.id → charge g q.id decision ≡ cost
      charged q same = rw (if_pos (String_discrete p.id q.id) same, found) refl

      spared : (q : PeerState Float) → p.id ≢ q.id → charge g q.id decision ≡ 0
      spared q differ = if_neg (String_discrete p.id q.id) differ _ _

      names-Distinct : Distinct (names s.peers)
      names-Distinct = rw inv.ids distinct

      offload-Kept :
          (i : ℕ) (q : PeerState Float)
          → get_elem? initial i ≡ some q
          → Kept (offload f config local id task best p s) i q
      unfolding offload
      offload-Kept i q first =
          let (r, there, named, total) = inv.kept i q first in
          elim (ℕ_discrete best i) [
            | yes same ↦
                let here : get_elem? s.peers best ≡ some r = rw same there in
                let p_r : p ≡ r = some_eq (sym at ∙ here) in
                let p_q : p.id ≡ q.id = ap (λ x. x.id) p_r ∙ named in
                (
                  offloaded f task p,
                  rw (sym same) (get_elem?-set_self s.peers best _ at),
                  p_q,
                  rw (offloaded_bytes_snoc g q.id s.decisions decision, charged q p_q, taken)
                      (omega (arith, total, ap (λ x. x.mem_available) p_r)),
                )
            | no other ↦
                let differ : p.id ≢ q.id = λ e. other (
                  Distinct-index (λ x. x.id) s.peers best i names-Distinct at there
                    (e ∙ sym named)) in
                (
                  r,
                  get_elem?-set_other s.peers best i _ other ∙ there,
                  named,
                  rw (offloaded_bytes_snoc g q.id s.decisions decision, spared q differ)
                      (omega (arith, total)),
                )
          ]

      offload-Inv : Inv (offload f config local id task best p s)
      unfolding offload
      offload-Inv = record {
        ids = map-set (λ x. x.id) s.peers best _ at refl ∙ inv.ids;
        kept = offload-Kept;
        bounded = λ i r e. elim (ℕ_discrete best i) [
          | yes same ↦
              let here = rw (sym same) at e in
              let new : offloaded f task p ≡ r =
                some_eq (sym (get_elem?-set_self s.peers best _ at) ∙ here) in
              omega (arith, taken, inv.bounded best p at, ap (λ x. x.mem_available) new)
          | no other ↦ inv.bounded i r (sym (get_elem?-set_other s.peers best i _ other) ∙ e)
        ];
      }

    picked-fits :
        (p : PeerState Float)
        → get_elem? s.peers (best_peer f task s.peers) ≡ some p
        → cost ≤ p.mem_available
    picked-fits p at = elim (best_peer_lem f task s.peers) [
      | inl (q, there, fit, _) ↦ rw (some_eq (sym at ∙ there)) fit
      | inr (absent, _) ↦ cc
    ]

    assign_task-Inv : get_task id g ≡ some task → Inv (assign_task f config local id task s)
    unfolding place_locally fall_back
    assign_task-Inv found = elim (assign_task-Branches f config local id task s) [
      | inl (_, e) ↦ rw e (uncharged s _ _ refl refl refl inv)
      | inr (_, inl (p, at, e)) ↦ rw e (offload-Inv _ p at (picked-fits p at) found)
      | inr (_, inr (_, e)) ↦ rw e (uncharged s _ _ refl refl refl inv)
    ]

  simulated-Inv : (it : Iteration) → Inv (simulated f config local it g cluster)
  unfolding simulated
  simulated-Inv it =
      each_task-keeps g (assign_task f config local) Inv
        (λ id task s found inv. assign_task-Inv id task s inv found) (topological_order it g)
        (start f local cluster) start-Inv

  -- When the states that the threshold policy builds from the cluster have distinct ids and each
  -- holds fewer than 2 ^ 64 bytes, a plan offloads to a reachable peer tasks whose memory is at
  -- most what that peer has available, whatever the policy's thresholds and the local resources.
  pub schedule-within_memory :
      (it : Iteration) (now : Timestamp) (p : PeerInfo Float)
      → Memᴰ p cluster.peers
      → p.reachable ≡ true
      → offloaded_bytes g p.node_id (schedule f config local it g cluster now).decisions
        ≤ p.resources.memory_available_bytes
  unfolding schedule
  schedule-within_memory it now p m up =
      let (i, at) = peer_states-index cluster.peers p m up in
      let inv = simulated-Inv it in
      let (r, there, named, total) = inv.kept i (peer_state p) at in omega (arith, total)
