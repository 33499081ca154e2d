-- ===== src/Scheduler/Optimizer/Moves.antt =====
-- What one round of the local search may do, and what follows for the loop.
use edge_orchestrator_ai.Prelude.{
  ℕ, zero, suc, ◌-◌, ◌==◌, ◌≡◌, refl, true, Option, none, some, ltb, length, get_elem?, string_key,
  Bool-cases, inl, inr,
}
use edge_orchestrator_ai.Prelude.HashMap.{find_or, assign}
use edge_orchestrator_ai.Core.Floats.{Floats}
use edge_orchestrator_ai.Core.Types.{Duration}
use edge_orchestrator_ai.Workload.Dag.{Task, WorkloadDag, get_task}
use edge_orchestrator_ai.Workload.Dag.Iteration.{Iteration}
use edge_orchestrator_ai.Scheduler.Plan.{SchedulingDecision}
use edge_orchestrator_ai.Scheduler.Optimizer.{
  OptimizerPolicyConfig, Random, NodeBudget, memory_remaining, alter, charge,
}
use edge_orchestrator_ai.Scheduler.Optimizer.LocalSearch.{
  Search, estimate, moved, discharge, try_move, looked_up, attempt_move, pick, iterate_once,
  improve,
}

module _ (f : Floats) (config : OptimizerPolicyConfig f.Float) (random : Random) (it : Iteration)
    (g : WorkloadDag) where
  open random use {Rng, uniform}

  abbrev pub from_node : SchedulingDecision → Search → ℕ
  from_node d s = find_or 0 d.task_id s.assignment

  -- The state in which a move is tried, and its estimate.
  abbrev pub tried : SchedulingDecision → Task → ℕ → Search → Search
  tried d task to s =
      moved f config random it g d task (from_node d s) to (looked_up f config random it g d s)

  abbrev pub new_makespan : SchedulingDecision → Task → ℕ → Search → Duration
  new_makespan d task to s =
      let s' = tried d task to s in estimate f config random it g s'.assignment (length s'.nodes)

  abbrev pub accepted : ℕ → SchedulingDecision → Task → ℕ → NodeBudget → Search → Search
  accepted idx d task to target s = record (tried d task to s) {
    current_makespan = new_makespan d task to s;
    decisions = alter idx (λ e. record e { assigned_node = target.id }) s.decisions;
  }

  abbrev pub taken_back : SchedulingDecision → Task → ℕ → Search → Search
  taken_back d task to s =
      let s' = tried d task to s in
      record s' {
        nodes = alter (from_node d s) (charge task d.task_id) (alter to (discharge task) s'.nodes);
        assignment = assign d.task_id (from_node d s) s'.assignment;
      }

  -- A round changes nothing, or looks a task up, or moves it, or also takes the move back.
  pub data Round (s s' : Search) : Type 0 where
    skips : s' ≡ s → Round s s'
    stays :
        (idx : ℕ) (d : SchedulingDecision) (task : Task)
        → get_elem? s.decisions idx ≡ some d
        → get_task d.task_id g ≡ some task
        → s' ≡ looked_up f config random it g d s
        → Round s s'
    accepts :
        (idx : ℕ) (d : SchedulingDecision) (task : Task) (to : ℕ) (target : NodeBudget)
        → get_elem? s.decisions idx ≡ some d
        → get_task d.task_id g ≡ some task
        → get_elem? s.nodes to ≡ some target
        → ltb (new_makespan d task to s) s.current_makespan ≡ true
        → s' ≡ accepted idx d task to target s
        → Round s s'
    takes_back :
        (idx : ℕ) (d : SchedulingDecision) (task : Task) (to : ℕ)
        → get_elem? s.decisions idx ≡ some d
        → get_task d.task_id g ≡ some task
        → s' ≡ taken_back d task to s
        → Round s s'

  module _ (s : Search) (idx : ℕ) (d : SchedulingDecision) (task : Task)
      (at : get_elem? s.decisions idx ≡ some d) (known : get_task d.task_id g ≡ some task) where
    try_move-Round :
        (to : ℕ) (o : Option NodeBudget)
        → get_elem? s.nodes to ≡ o
        → Round s (
            try_move f config random it g idx d task
              (from_node d s)
              to
              o
              (looked_up f config random it g d s))
    try_move-Round to none there = stays idx d task at known refl
    try_move-Round to (some target) there =
        elim (Bool-cases (ltb (memory_remaining target) task.profile.memory_bytes)) [
          | inl full ↦ rw full (stays idx d task at known refl)
          | inr fits ↦
              rw fits (elim (Bool-cases (ltb (new_makespan d task to s) s.current_makespan)) [
                | inl shorter ↦
                    rw shorter (accepts idx d task to target at known there shorter refl)
                | inr longer ↦ rw longer (takes_back idx d task to at known refl)
              ])
        ]

    attempt_move-Round :
        (rng : Rng) → Round s (attempt_move f config random it g idx d (some task) s rng).0
    attempt_move-Round rng =
        let to = (uniform 0 (length s.nodes - 1) rng).0 in
        elim (Bool-cases (to == from_node d s)) [
          | inl same ↦ rw same (stays idx d task at known refl)
          | inr other ↦ rw other (try_move-Round to (get_elem? s.nodes to) refl)
        ]

  pub iterate_once-Round :
      (s : Search) (rng : Rng) → Round s (iterate_once f config random it g s rng).0
  unfolding iterate_once
  iterate_once-Round s rng =
      let draw = uniform 0 (length s.decisions - 1) rng in
      picked draw.0 draw.1 (get_elem? s.decisions draw.0) refl
    where
      known :
          (idx : ℕ) (rng' : Rng) (d : SchedulingDecision)
          → get_elem? s.decisions idx ≡ some d
          → (o : Option Task) → get_task d.task_id g ≡ o
          → Round s (attempt_move f config random it g idx d o s rng').0
      known idx rng' d at none e = skips refl
      known idx rng' d at (some task) e = attempt_move-Round s idx d task at e rng'

      picked :
          (idx : ℕ) (rng' : Rng) (o : Option SchedulingDecision)
          → get_elem? s.decisions idx ≡ o
          → Round s (pick f config random it g idx o s rng').0
      picked idx rng' none e = skips refl
      picked idx rng' (some d) e = known idx rng' d e (get_task d.task_id g) refl

  -- What each round keeps, the loop keeps.
  pub improve-keeps {ℓ} :
      (P : Search → Type ℓ)
      → ((s s' : Search) → Round s s' → P s → P s')
      → (iterations : ℕ) (s : Search) (rng : Rng) → P s
      → P (improve f config random it g iterations s rng)
  unfolding improve
  improve-keeps P keeps zero s rng h = h
  improve-keeps P keeps (suc n) s rng h =
      improve-keeps P keeps n _ _ (keeps s _ (iterate_once-Round s rng) h)
