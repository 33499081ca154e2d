-- ===== src/Scheduler/Optimizer/Improves.antt =====
-- What the local search makes of the estimate.
use edge_orchestrator_ai.Prelude.{
  ℕ, ◌≤◌, ◌≡◌, refl, sym, ap, ◌∙◌, true, false, List, [], ◌∷◌, some, length, ltb, get_elem?,
  string_key, elem, arith, Distinct, subst, length-map, Distinct-count, count-Distinct, elem-count,
  count-elem, elem_self,
}
use edge_orchestrator_ai.Prelude.HashMap.{
  find, assign, emplace, keys, find_or-find, find-elem, find-present,
}
use edge_orchestrator_ai.Prelude.HashMap.Writes.{assign_twice, assign_found, emplace_found}
use edge_orchestrator_ai.Core.Floats.{Floats}
use edge_orchestrator_ai.Core.Types.{NodeId, TaskId, Timestamp, Duration, ResourceSnapshot}
use edge_orchestrator_ai.Workload.Dag.{Task, WorkloadDag, get_task}
use edge_orchestrator_ai.Workload.Dag.Graph.{IsWellFormed, IsClosed}
use edge_orchestrator_ai.Workload.Dag.Iteration.{Iteration}
use edge_orchestrator_ai.Workload.Dag.Kahn.{topological_order}
use edge_orchestrator_ai.Workload.Dag.Kahn.Order.{order-tasks, topological_order_sound}
use edge_orchestrator_ai.Scheduler.Plan.{ClusterView, SchedulingDecision}
use edge_orchestrator_ai.Scheduler.Optimizer.{
  OptimizerPolicyConfig, Sorting, Random, NodeBudget, names, decided, node_budgets,
}
use edge_orchestrator_ai.Scheduler.Optimizer.LocalSearch.{
  Search, estimate, looked_up, local_search_improve, searched, search_from, placed, index_nodes,
}
use edge_orchestrator_ai.Scheduler.Optimizer.Moves.{
  Round, skips, stays, accepts, takes_back, improve-keeps, from_node, tried, new_makespan, accepted,
  taken_back,
}
use edge_orchestrator_ai.Scheduler.Optimizer.Names.{All}
use edge_orchestrator_ai.Scheduler.Optimizer.Placements.{
  Within, SearchWithin, Round-SearchWithin, packed-Within, search_from-SearchWithin,
}
use edge_orchestrator_ai.Scheduler.Optimizer.Decides.{count-packed, decided-alter}
use edge_orchestrator_ai.Scheduler.Optimizer.Indices.{
  find-index_nodes, index_nodes_has, index_of_name, assign_all, index_of_name-find, Placeable,
  place-assign_all, assign_all-alter, find-assign_all,
}
use edge_orchestrator_ai.Scheduler.Optimizer.Policy.{packed, schedule}

module _ (f : Floats) (config : OptimizerPolicyConfig f.Float) (sorting : Sorting) (random : Random)
    (it : Iteration) (g : WorkloadDag) (local : ResourceSnapshot f.Float)
    (cluster : ClusterView f.Float) where
  abbrev nodes : List NodeBudget
  nodes = node_budgets local cluster

  abbrev node_index : List (NodeId × ℕ)
  node_index = index_nodes (names nodes) 0 []

  -- The estimate of the decisions, with the tasks placed as the local search places them.
  abbrev pub estimate_of : List SchedulingDecision → Duration
  estimate_of ds =
      estimate f config random it g (placed f config random it g nodes ds).assignment (length nodes)

  record Inv (ds : List SchedulingDecision) (s : Search) : Type 0 where
    within : SearchWithin (names nodes) s
    decided_kept : decided s.decisions ≡ decided ds
    mapped : s.assignment ≡ assign_all node_index s.decisions []
    estimated : s.current_makespan ≡ estimate f config random it g s.assignment (length nodes)
    lower : s.current_makespan ≤ estimate_of ds

  length-nodes : (s : Search) → names s.nodes ≡ names nodes → length s.nodes ≡ length nodes
  length-nodes s e =
      sym (length-map _ s.nodes) ∙ ap (λ (l : List NodeId). length l) e ∙ length-map _ nodes

  module _ (unique : Distinct (names nodes)) (ds : List SchedulingDecision)
      (once : Distinct (decided ds)) where
    module _ (s : Search) (h : Inv ds s) (idx : ℕ) (d : SchedulingDecision)
        (at : get_elem? s.decisions idx ≡ some d) where
      apart : Distinct (decided s.decisions)
      apart = subst Distinct (sym h.decided_kept) once

      found : find d.task_id s.assignment ≡ some (index_of_name node_index d.assigned_node)
      found = rw h.mapped (find-assign_all node_index idx s.decisions d [] apart at)

      found_from : find d.task_id s.assignment ≡ some (from_node f config random it g d s)
      found_from =
          let same = find_or-find 0 d.task_id s.assignment ∙ rw found refl in
          found ∙ ap some (sym same)

      looked_up_same : emplace d.task_id 0 s.assignment ≡ s.assignment
      looked_up_same =
          emplace_found d.task_id 0 s.assignment (find-elem d.task_id s.assignment found)

      index_of_target :
          (to : ℕ) (target : NodeBudget)
          → get_elem? s.nodes to ≡ some target
          → index_of_name node_index target.id ≡ to
      index_of_target to target there =
          let names_same = h.within.0 in
          index_of_name-find node_index target.id (
            rw names_same at (
              find-index_nodes s.nodes 0 to [] target (subst Distinct (sym names_same) unique)
                there)
            ∙ ap some (omega arith))

      accepted-Inv :
          (task : Task) (to : ℕ) (target : NodeBudget)
          → get_elem? s.nodes to ≡ some target
          → ltb (new_makespan f config random it g d task to s) s.current_makespan ≡ true
          → SearchWithin (names nodes) (accepted f config random it g idx d task to target s)
          → Inv ds (accepted f config random it g idx d task to target s)
      accepted-Inv task to target there shorter inside = record {
        within = inside;
        decided_kept = decided-alter idx target.id s.decisions ∙ h.decided_kept;
        mapped =
            ap (λ m. assign d.task_id to m) (looked_up_same ∙ h.mapped)
            ∙ sym (
                assign_all-alter node_index idx target.id s.decisions d [] apart at
                ∙ ap (λ (i : ℕ). assign d.task_id i (assign_all node_index s.decisions []))
                    (index_of_target to target there));
        estimated =
            ap
              (λ (n : ℕ).
                estimate f config random it g (tried f config random it g d task to s).assignment n)
              (length-nodes (accepted f config random it g idx d task to target s) inside.0);
        lower = let old = h.lower in ground arith;
      }

      taken_back-Inv :
          (task : Task) (to : ℕ)
          → SearchWithin (names nodes) (taken_back f config random it g d task to s)
          → Inv ds (taken_back f config random it g d task to s)
      taken_back-Inv task to inside =
          let from = from_node f config random it g d s in
          let back : assign d.task_id from (assign d.task_id to (emplace d.task_id 0 s.assignment))
              ≡ s.assignment =
            assign_twice d.task_id from to _
            ∙ ap (λ m. assign d.task_id from m) looked_up_same
            ∙ assign_found d.task_id from s.assignment found_from in
          record {
            within = inside;
            decided_kept = h.decided_kept;
            mapped = back ∙ h.mapped;
            estimated =
                h.estimated ∙ ap (λ m. estimate f config random it g m (length nodes)) (sym back);
            lower = h.lower;
          }

      looked_up-Inv : Inv ds (looked_up f config random it g d s)
      looked_up-Inv = record {
        within = h.within;
        decided_kept = h.decided_kept;
        mapped = looked_up_same ∙ h.mapped;
        estimated =
            h.estimated
            ∙ ap (λ m. estimate f config random it g m (length nodes)) (sym looked_up_same);
        lower = h.lower;
      }

    Round-Inv : (s s' : Search) → Round f config random it g s s' → Inv ds s → Inv ds s'
    Round-Inv s s' (skips e) h = rw e h
    Round-Inv s s' (stays idx d task at known e) h = rw e (looked_up-Inv s h idx d at)
    Round-Inv s s' (accepts idx d task to target at known there shorter e) h =
        let r = accepts idx d task to target at known there shorter refl in
        rw e (
          accepted-Inv s h idx d at task to target there shorter
            (Round-SearchWithin f config sorting random it g (names nodes) s _ r h.within))
    Round-Inv s s' (takes_back idx d task to at known e) h =
        let r = takes_back idx d task to at known refl in
        rw e (
          taken_back-Inv s h idx d at task to
            (Round-SearchWithin f config sorting random it g (names nodes) s _ r h.within))

  All-Placeable :
      (ds : List SchedulingDecision)
      → All (Within (names nodes)) ds
      → ((id : TaskId) → elem id (decided ds) ≡ true → elem id (keys g.tasks) ≡ true)
      → All (Placeable node_index g) ds
  unfolding elem get_task
  All-Placeable [] h known = tt
  All-Placeable (d ∷ ds) h known =
      let here : elem d.task_id (d.task_id ∷ decided ds) ≡ true =
        elem_self d.task_id (decided ds) in
      (
        (
          find-present d.task_id g.tasks (known d.task_id here),
          index_nodes_has d.assigned_node (names nodes) 0 [] h.0.0,
        ),
        All-Placeable ds h.1 (λ id m. known id (ground arith)),
      )

  module _ (now : Timestamp) (wf : IsWellFormed g) (closed : IsClosed g) where
    abbrev packed_decisions : List SchedulingDecision
    packed_decisions = (packed f config sorting random it g local cluster now).decisions

    abbrev order : List TaskId
    order = topological_order it g

    packed_once : Distinct (decided packed_decisions)
    packed_once =
        let apart = (topological_order_sound it g wf).1 in
        count-Distinct (decided packed_decisions) (λ id.
          rw (count-packed sorting it g wf closed f config random local cluster now id)
            (Distinct-count id order apart))

    packed_known :
        (id : TaskId) → elem id (decided packed_decisions) ≡ true → elem id (keys g.tasks) ≡ true
    packed_known id m =
        let same = count-packed sorting it g wf closed f config random local cluster now id in
        order-tasks it g wf closed id
          (count-elem id order (omega (arith, same, elem-count id (decided packed_decisions) m)))

    start-Inv : Inv packed_decisions (
        search_from f config random it g packed_decisions
          (placed f config random it g nodes packed_decisions))
    start-Inv =
        let inside = packed-Within f config sorting random it g local cluster now in
        let within =
          search_from-SearchWithin f config sorting random it g local cluster now packed_decisions
            inside in
        let p = placed f config random it g nodes packed_decisions in
        let long = length-nodes (search_from f config random it g packed_decisions p) within.0 in
        let same = ap (λ (n : ℕ). estimate f config random it g p.assignment n) long in
        record {
          within = within;
          decided_kept = refl;
          mapped =
              place-assign_all node_index g packed_decisions _
                (All-Placeable packed_decisions inside packed_known);
          estimated = same;
          lower = omega (arith, same);
        }

    -- For a well-formed graph whose edges join tasks, a cluster whose nodes have distinct names
    -- and which has a reachable peer, and a plan of at least two decisions behind the first two
    -- phases: whatever the random draws, the makespan that the optimizer policy reports is the
    -- estimate for the plan that it returns, and at most the estimate for the plan before the
    -- local search.
    pub schedule-improves :
        Distinct (names nodes)
        → 2 ≤ length packed_decisions
        → 2 ≤ length nodes
        → ((schedule f config sorting random it g local cluster now).estimated_makespan
            ≡ estimate_of (schedule f config sorting random it g local cluster now).decisions)
          × ((schedule f config sorting random it g local cluster now).estimated_makespan
              ≤ estimate_of packed_decisions)
    unfolding schedule local_search_improve
    schedule-improves unique many others =
        let end =
          improve-keeps f config random it g (Inv packed_decisions)
            (Round-Inv unique packed_decisions packed_once) config.max_iterations _
            (random.seeded 42) start-Inv in
        let s = searched f config random it g nodes packed_decisions in
        let known : (id : TaskId)
            → elem id (decided s.decisions) ≡ true
            → elem id (keys g.tasks) ≡ true =
          λ id m. packed_known id (rw end.decided_kept at m) in
        let again =
          place-assign_all node_index g s.decisions (record { nodes = nodes; assignment = [] })
            (All-Placeable s.decisions end.within.1 known) in
        let enough : ltb (length packed_decisions) 2 ≡ false = ground arith in
        let shared : ltb (length nodes) 2 ≡ false = ground arith in
        rw (enough, shared)
          (
            end.estimated
                ∙ ap (λ m. estimate f config random it g m (length nodes)) (end.mapped ∙ sym again),
            end.lower,
          )
