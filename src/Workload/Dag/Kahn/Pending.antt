-- ===== src/Workload/Dag/Kahn/Pending.antt =====
-- The edges into a task from tasks that are not ordered yet: what Kahn's algorithm counts down.
use edge_orchestrator_ai.Prelude.{
  ℕ, ◌+◌, ◌<◌, ◌≡◌, true, false, List, [], ◌∷◌, ◌++◌, if◌then◌else◌, string_key, arith, dec_lt,
  elem, count, Distinct, elem_snoc, elem-count, count-elem, ◌⊎◌,
}
use edge_orchestrator_ai.Prelude.HashMap.{find_or, find_or-absent, keys}
use edge_orchestrator_ai.Core.Types.{TaskId}

-- The edges into `v` whose source is not in `order`.
abbrev pub pending_in : List (TaskId × List TaskId) → List TaskId → TaskId → ℕ
pending_in [] order v = 0
pending_in ((u, ns) ∷ adj) order v =
    (if elem u order then 0 else count v ns) + pending_in adj order v

abbrev pub Edge : List (TaskId × List TaskId) → TaskId → TaskId → Type 0
Edge adj u v = elem v (find_or [] u adj) ≡ true

-- Each task stands behind the sources of its edges, which are in `seen` or before it.
abbrev pub IsTopological : List (TaskId × List TaskId) → List TaskId → List TaskId → Type 0
IsTopological adj seen [] = Unit {0}
IsTopological adj seen (v ∷ rest) =
    ((u : TaskId) → Edge adj u v → elem u seen ≡ true) × IsTopological adj (v ∷ seen) rest

pub pending_in_snoc :
    (adj : List (TaskId × List TaskId)) (order : List TaskId) (c v : TaskId)
    → Distinct (keys adj)
    → elem c order ≡ false
    → pending_in adj (order ++ c ∷ []) v + count v (find_or [] c adj) ≡ pending_in adj order v
unfolding find_or count
pending_in_snoc [] order c v h new = omega arith
pending_in_snoc ((u, ns) ∷ adj) order c v h new =
    ground
      (arith, pending_in_snoc adj order c v h.1 new, elem_snoc u c order, find_or-absent [] c adj)

-- With no edge pending, every source is ordered.
pub pending_in_zero :
    (adj : List (TaskId × List TaskId)) (order : List TaskId) (u v : TaskId)
    → pending_in adj order v ≡ 0
    → Edge adj u v
    → elem u order ≡ true
unfolding find_or elem
pending_in_zero [] order u v h e = cc
pending_in_zero ((w, ns) ∷ adj) order u v h e =
    ground (arith, pending_in_zero adj order u v, elem-count v ns)

-- A pending edge comes from a task that is not ordered.
pub pending_in_pos :
    (adj : List (TaskId × List TaskId)) (order : List TaskId) (v : TaskId)
    → Distinct (keys adj)
    → 0 < pending_in adj order v
    → (u : TaskId) × Edge adj u v × (elem u (keys adj) ≡ true) × (elem u order ≡ false)
unfolding find_or elem
pending_in_pos [] order v h pos = absurd (omega arith)
pending_in_pos ((w, ns) ∷ adj) order v h pos = elim (dec_lt 0 (pending_in adj order v)) [
  | yes p ↦
      let (u, edge, known, later) = pending_in_pos adj order v h.1 p in
      (u, ground arith, ground arith, later)
  | no n ↦ (w, ground (arith, count-elem v ns), ground arith, ground arith)
]

pub IsTopological-snoc :
    (adj : List (TaskId × List TaskId)) (seen order : List TaskId) (c : TaskId)
    → ((u : TaskId) → Edge adj u c → (elem u seen ≡ true) ⊎ (elem u order ≡ true))
    → IsTopological adj seen order
    → IsTopological adj seen (order ++ c ∷ [])
unfolding elem
IsTopological-snoc adj seen [] c sources h = (λ u e. ground (arith, sources u e), tt)
IsTopological-snoc adj seen (v ∷ order) c sources h =
    (h.0, IsTopological-snoc adj (v ∷ seen) order c (λ u e. ground (arith, sources u e)) h.1)
