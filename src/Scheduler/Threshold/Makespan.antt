-- ===== src/Scheduler/Threshold/Makespan.antt =====
-- The makespan that the threshold policy estimates, against the cost of the tasks that it decides.
use edge_orchestrator_ai.Prelude.{
  ℕ, zero, suc, ◌+◌, ◌*◌, ◌≤◌, ◌<◌, ◌^◌, ◌≡◌, refl, sym, ap, ◌∙◌, inl, inr, List, [], ◌∷◌, ◌++◌,
  Option, some, none, get_elem?, set, length, length-set, arith, max, some_eq,
}
use edge_orchestrator_ai.Prelude.Words.{add64, add64_lem, signed_max, signed_max_lem}
use edge_orchestrator_ai.Core.Floats.{Floats}
use edge_orchestrator_ai.Core.Types.{TaskId, Duration, Timestamp, ResourceSnapshot}
use edge_orchestrator_ai.Workload.Dag.{Task, WorkloadDag, get_task}
use edge_orchestrator_ai.Workload.Dag.Iteration.{Iteration}
use edge_orchestrator_ai.Workload.Dag.Kahn.{topological_order}
use edge_orchestrator_ai.Scheduler.Plan.{PeerInfo, ClusterView, SchedulingDecision}
use edge_orchestrator_ai.Scheduler.Rounds.{each_task-keeps}
use edge_orchestrator_ai.Scheduler.Threshold.{
  ThresholdPolicyConfig, PeerState, Simulation, peer_states, max_peer_compute, assign_task, start,
  simulated, schedule, place_locally, fall_back, offload, offloaded,
}
use edge_orchestrator_ai.Scheduler.Threshold.Step.{assign_task-Branches}

abbrev pub cost_of : Option Task → Duration
cost_of none = 0
cost_of (some task) = task.profile.compute_cost

-- The cost of the tasks that the decisions are about.
abbrev pub decided_cost : WorkloadDag → List SchedulingDecision → Duration
decided_cost g [] = 0
decided_cost g (d ∷ ds) = cost_of (get_task d.task_id g) + decided_cost g ds

decided_cost_snoc :
    (g : WorkloadDag) (ds : List SchedulingDecision) (d : SchedulingDecision)
    → decided_cost g (ds ++ d ∷ []) ≡ decided_cost g ds + cost_of (get_task d.task_id g)
decided_cost_snoc g [] d = omega arith
decided_cost_snoc g (e ∷ ds) d = omega (arith, decided_cost_snoc g ds d)

times_suc : (n k : ℕ) → suc n * k ≡ k + n * k
times_suc n k = omega arith

times_mono : (n b c : ℕ) → b ≤ c → n * b ≤ n * c
times_mono zero b c h = omega arith
times_mono (suc n) b c h = omega (arith, times_suc n b, times_suc n c, times_mono n b c h)

-- The work on one node and on n others is at most n + 1 times the longest.
shared_bound : (n a b total : ℕ) → total ≤ n * b → a + total ≤ suc n * max a b
shared_bound n a b total h =
    omega (arith, times_mono n b (max a b) (omega arith), times_suc n (max a b))

module _ {F : Type 0} where
  abbrev assigned_total : List (PeerState F) → Duration
  assigned_total [] = 0
  assigned_total (p ∷ ps) = p.assigned_compute + assigned_total ps

  assigned_total-set :
      (ps : List (PeerState F)) (i : ℕ) (q : PeerState F) {p : PeerState F}
      → get_elem? ps i ≡ some p
      → assigned_total (set ps i q) + p.assigned_compute ≡ assigned_total ps + q.assigned_compute
  assigned_total-set [] i q e = cc
  assigned_total-set (r ∷ ps) zero q e =
      omega (arith, ap (λ (x : PeerState F). x.assigned_compute) (some_eq e))
  assigned_total-set (r ∷ ps) (suc i) q e = omega (arith, assigned_total-set ps i q e)

  assigned_total-start : (peers : List (PeerInfo F)) → assigned_total (peer_states peers) ≡ 0
  unfolding peer_states
  assigned_total-start [] = refl
  assigned_total-start (peer ∷ peers) = ground (arith, assigned_total-start peers)

  assigned-le :
      (ps : List (PeerState F)) (i : ℕ) {p : PeerState F}
      → get_elem? ps i ≡ some p
      → p.assigned_compute ≤ assigned_total ps
  assigned-le [] i e = cc
  assigned-le (r ∷ ps) zero e =
      omega (arith, ap (λ (x : PeerState F). x.assigned_compute) (some_eq e))
  assigned-le (r ∷ ps) (suc i) e = omega (arith, assigned-le ps i e)

  -- The greatest, without wrap-around and sign.
  abbrev greatest : List (PeerState F) → ℕ → ℕ
  greatest [] most = most
  greatest (p ∷ ps) most = greatest ps (max most p.assigned_compute)

  max_peer_compute_lem :
      (ps : List (PeerState F)) (most : ℕ)
      → most < 2 ^ 63
      → assigned_total ps < 2 ^ 63
      → max_peer_compute ps most ≡ greatest ps most
  unfolding max_peer_compute
  max_peer_compute_lem [] most h k = refl
  max_peer_compute_lem (p ∷ ps) most h k =
      ap (max_peer_compute ps) (signed_max_lem most p.assigned_compute h (omega (arith, k)))
      ∙ max_peer_compute_lem ps (max most p.assigned_compute) (omega (arith, h, k))
          (omega (arith, k))

  most-greatest : (ps : List (PeerState F)) (most : ℕ) → most ≤ greatest ps most
  most-greatest [] most = omega arith
  most-greatest (p ∷ ps) most = omega (arith, most-greatest ps (max most p.assigned_compute))

  greatest_bound :
      (ps : List (PeerState F)) (most : ℕ) → greatest ps most ≤ most + assigned_total ps
  greatest_bound [] most = omega arith
  greatest_bound (p ∷ ps) most = omega (arith, greatest_bound ps (max most p.assigned_compute))

  total_bound :
      (ps : List (PeerState F)) (most : ℕ) → assigned_total ps ≤ length ps * greatest ps most
  total_bound [] most = omega arith
  total_bound (p ∷ ps) most =
      let high = max most p.assigned_compute in
      omega (
        arith,
        total_bound ps high,
        most-greatest ps high,
        times_suc (length ps) (greatest ps high),
      )

module _ (f : Floats) (config : ThresholdPolicyConfig f.Float) (local : ResourceSnapshot f.Float)
    (cluster : ClusterView f.Float) (g : WorkloadDag) where
  open f use {Float}

  -- The simulated work is that of the decided tasks if that is no negative word, on the peers of the start.
  record Inv (s : Simulation Float) : Type 0 where
    work :
        decided_cost g s.decisions < 2 ^ 63
        → s.local_compute + assigned_total s.peers ≡ decided_cost g s.decisions
    peer_count : length s.peers ≡ length (peer_states cluster.peers)

  start-Inv : Inv (start f local cluster)
  unfolding start
  start-Inv = record {
    work = λ h. omega (arith, assigned_total-start cluster.peers);
    peer_count = refl;
  }

  module _ (id : TaskId) (task : Task) (s : Simulation Float) (found : get_task id g ≡ some task)
      (inv : Inv s) where
    abbrev cost : Duration
    cost = task.profile.compute_cost

    charged : cost_of (get_task id g) ≡ cost
    charged = ap cost_of found

    -- With one more decision, which is about this task.
    grown :
        (d : SchedulingDecision)
        → d.task_id ≡ id
        → decided_cost g (s.decisions ++ d ∷ []) ≡ decided_cost g s.decisions + cost
    grown d e =
        let same : cost_of (get_task d.task_id g) ≡ cost_of (get_task id g) =
          ap (λ i. cost_of (get_task i g)) e in
        omega (arith, decided_cost_snoc g s.decisions d, same, charged)

    worked :
        (d : SchedulingDecision)
        → d.task_id ≡ id
        → decided_cost g (s.decisions ++ d ∷ []) < 2 ^ 63
        → s.local_compute + assigned_total s.peers + cost ≡ decided_cost g (s.decisions ++ d ∷ [])
    worked d e h =
        let whole = grown d e in
        let before = inv.work (omega (arith, h, whole)) in omega (arith, before, whole)

    placed :
        (d : SchedulingDecision)
        → d.task_id ≡ id
        → decided_cost g (s.decisions ++ d ∷ []) < 2 ^ 63
        → add64 s.local_compute cost + assigned_total s.peers
          ≡ decided_cost g (s.decisions ++ d ∷ [])
    placed d e h =
        let whole = worked d e h in
        omega (arith, whole, add64_lem s.local_compute cost (omega (arith, whole, h)))

    place_locally-Inv : Inv (place_locally f config local id task s)
    unfolding place_locally
    place_locally-Inv = record { work = λ h. placed _ refl h; peer_count = inv.peer_count }

    fall_back-Inv : Inv (fall_back f config local id task s)
    unfolding fall_back
    fall_back-Inv = record { work = λ h. placed _ refl h; peer_count = inv.peer_count }

    offload-Inv :
        (best : ℕ) (p : PeerState Float)
        → get_elem? s.peers best ≡ some p
        → Inv (offload f config local id task best p s)
    unfolding offload
    offload-Inv best p at = record {
      work = λ h.
          let whole = worked _ refl h in
          let own = assigned-le s.peers best at in
          omega (
            arith,
            whole,
            add64_lem p.assigned_compute cost (omega (arith, whole, h, own)),
            assigned_total-set s.peers best (offloaded f task p) at,
          );
      peer_count = length-set s.peers best _ ∙ inv.peer_count;
    }

    assign_task-Inv : Inv (assign_task f config local id task s)
    assign_task-Inv = elim (assign_task-Branches f config local id task s) [
      | inl (_, e) ↦ rw e place_locally-Inv
      | inr (_, inl (p, at, e)) ↦ rw e (offload-Inv _ p at)
      | inr (_, inr (_, e)) ↦ rw e fall_back-Inv
    ]

  -- When the cost of the tasks that the plan decides, each read as an unsigned word, adds up to
  -- less than 2 ^ 63, the makespan that the threshold policy estimates is at most that cost, and
  -- that cost is at most the makespan times one more than the number of reachable peers.
  pub makespan_bounds :
      (it : Iteration) (now : Timestamp)
      → decided_cost g (schedule f config local it g cluster now).decisions < 2 ^ 63
      → ((schedule f config local it g cluster now).estimated_makespan
          ≤ decided_cost g (schedule f config local it g cluster now).decisions)
        × (decided_cost g (schedule f config local it g cluster now).decisions
            ≤ suc (length (peer_states cluster.peers))
              * (schedule f config local it g cluster now).estimated_makespan)
  unfolding schedule simulated
  makespan_bounds it now h =
      let s = simulated f config local it g cluster in
      let inv =
        each_task-keeps g (assign_task f config local) Inv
          (λ id task s found inv. assign_task-Inv id task s found inv) (topological_order it g)
          (start f local cluster) start-Inv in
      let work = inv.work h in
      let most = greatest s.peers 0 in
      let high = greatest_bound s.peers 0 in
      let unsigned : signed_max s.local_compute (max_peer_compute s.peers 0)
          ≡ max s.local_compute most =
        ap (signed_max s.local_compute)
          (max_peer_compute_lem s.peers 0 (omega arith) (omega (arith, work, h)))
        ∙ signed_max_lem s.local_compute most (omega (arith, work, h))
            (omega (arith, work, h, high)) in
      let shared =
        shared_bound (length s.peers) s.local_compute most (assigned_total s.peers)
          (total_bound s.peers 0) in
      rw unsigned (omega (arith, work, high), rw (sym work, sym inv.peer_count) shared)
