-- ===== src/Scheduler/Threshold/Step.antt =====
-- What one round of the threshold policy does: the three branches, and which peer it picks.
use mathlib.Core.List.{map-append}
use edge_orchestrator_ai.Prelude.{
  ℕ, ◌+◌, ◌≤◌, ◌≡◌, refl, ap, ◌∙◌, ◌⊎◌, inl, inr, true, false, List, [], ◌∷◌, ◌++◌, map, none, some,
  get_elem?, length, leb, leb→le, arith, Bool-cases, Option-cases,
}
use edge_orchestrator_ai.Core.Floats.{Floats}
use edge_orchestrator_ai.Core.Types.{TaskId, ResourceSnapshot}
use edge_orchestrator_ai.Workload.Dag.{Task}
use edge_orchestrator_ai.Scheduler.Choice.{Chosen, choose, choose-Chosen}
use edge_orchestrator_ai.Scheduler.Threshold.{
  ThresholdPolicyConfig, PeerState, Simulation, stays_local, best_peer, place_locally, fall_back,
  offload, assign_task,
}

pub get_elem?-length : {A : Type 0} (xs : List A) → get_elem? xs (length xs) ≡ none
get_elem?-length [] = refl
get_elem?-length (x ∷ xs) = get_elem?-length xs

from_zero : (j : ℕ) → 0 + j ≡ j
from_zero j = omega arith

module _ (f : Floats) where
  open f use {Float, lt, max_value, lt_irrefl, lt_trans}

  -- No peer with the memory for the task has a load below the bound.
  abbrev pub NoneLighter : Task → List (PeerState Float) → Float → Type 0
  NoneLighter task peers bound =
      (j : ℕ) (q : PeerState Float)
      → get_elem? peers j ≡ some q
      → task.profile.memory_bytes ≤ q.mem_available
      → lt q.cpu_load bound ≡ false

  fits : (a b : ℕ) → a ≤ b → leb a b ≡ true
  fits a b h = ground arith

  -- best_peer is the index of a peer that has the memory for the task, and no peer with that
  -- memory has a lower load; or it is out of range, and no peer with that memory has a load below
  -- the greatest float.
  pub best_peer_lem :
      (task : Task) (peers : List (PeerState Float))
      → ((p : PeerState Float) × (get_elem? peers (best_peer f task peers) ≡ some p)
          × (task.profile.memory_bytes ≤ p.mem_available)
          × NoneLighter task peers p.cpu_load)
        ⊎ ((get_elem? peers (best_peer f task peers) ≡ none) × NoneLighter task peers max_value)
  unfolding best_peer
  best_peer_lem task peers = elim chosen.picked [
    | inl e ↦ inr (
      rw (ap (λ r. r.1) e) (get_elem?-length peers),
      λ j q at m. rw (ap (λ r. r.0) e) at (chosen.none_better j q at (fits _ _ m)),
    )
    | inr (j, p, at, o, e) ↦ inl (
      p,
      rw (ap (λ r. r.1) e, from_zero j) at,
      leb→le _ _ o,
      λ i q there m. rw (ap (λ r. r.0) e) at (chosen.none_better i q there (fits _ _ m)),
    )
  ]
    where
      chosen :
          Chosen lt
            (λ i peer. leb task.profile.memory_bytes peer.mem_available)
            (λ i peer. peer.cpu_load)
            peers
            0
            (max_value, length peers)
            (choose lt
              (λ i peer. leb task.profile.memory_bytes peer.mem_available)
              (λ i peer. peer.cpu_load)
              peers
              0
              max_value
              (length peers))
      chosen = choose-Chosen lt _ _ lt_irrefl lt_trans peers 0 max_value (length peers)

  module _ (config : ThresholdPolicyConfig Float) (local : ResourceSnapshot Float) (id : TaskId)
      (task : Task) (s : Simulation Float) where
    abbrev best : ℕ
    best = best_peer f task s.peers

    abbrev pub Branches : Simulation Float → Type 0
    Branches next =
        ((stays_local f config local.memory_total_bytes task s ≡ true)
          × (next ≡ place_locally f config local id task s))
        ⊎ ((stays_local f config local.memory_total_bytes task s ≡ false)
            × (((p : PeerState Float) × (get_elem? s.peers best ≡ some p)
                  × (next ≡ offload f config local id task best p s))
                ⊎ ((get_elem? s.peers best ≡ none) × (next ≡ fall_back f config local id task s))))

    pub assign_task-Branches : Branches (assign_task f config local id task s)
    unfolding assign_task
    assign_task-Branches =
        elim (Bool-cases (stays_local f config local.memory_total_bytes task s)) [
          | inl stays ↦ inl (stays, rw stays refl)
          | inr leaves ↦ elim (Option-cases (get_elem? s.peers best)) [
            | inl absent ↦ inr (leaves, inr (absent, rw (leaves, absent) refl))
            | inr (p, at) ↦ inr (leaves, inl (p, at, rw (leaves, at) refl))
          ]
        ]

    abbrev pub decided : Simulation Float → List TaskId
    decided t = map (λ d. d.task_id) t.decisions

    pub decided-assign_task : decided (assign_task f config local id task s) ≡ decided s ++ id ∷ []
    unfolding place_locally fall_back offload
    decided-assign_task = elim assign_task-Branches [
      | inl (_, e) ↦ ap decided e ∙ map-append _ s.decisions _
      | inr (_, inl (p, _, e)) ↦ ap decided e ∙ map-append _ s.decisions _
      | inr (_, inr (_, e)) ↦ ap decided e ∙ map-append _ s.decisions _
    ]
