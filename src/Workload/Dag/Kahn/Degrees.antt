-- ===== src/Workload/Dag/Kahn/Degrees.antt =====
-- The in-degrees that topological_order counts, and what the loop over the neighbours does to them.
use edge_orchestrator_ai.Prelude.{
  ℕ, ◌+◌, ◌≤◌, ◌<◌, ◌≡◌, refl, sym, ◌∙◌, ◌↔◌, ap, inl, inr, Bool, true, false, List, [], ◌∷◌, ◌++◌,
  if◌then◌else◌, ◌==◌, string_key, arith, elem, count, Distinct, Bool-cases, ==_iff, subst,
  append_assoc, append-nil,
}
use edge_orchestrator_ai.Prelude.Words.{pred64}
use edge_orchestrator_ai.Prelude.HashMap.{find_or, assign, find_or-assign, find_or-assign_self}
use edge_orchestrator_ai.Core.Types.{TaskId}
use edge_orchestrator_ai.Workload.Dag.{Task, WorkloadDag}
use edge_orchestrator_ai.Workload.Dag.Kahn.Pending.{pending_in}
use edge_orchestrator_ai.Workload.Dag.Kahn.{
  zero_degrees, count_neighbors, count_edges, in_degree, relax,
}

find_or-zero_degrees :
    (tasks : List (TaskId × Task)) (deg : List (TaskId × ℕ)) (v : TaskId)
    → find_or 0 v deg ≡ 0
    → find_or 0 v (zero_degrees tasks deg) ≡ 0
unfolding zero_degrees
find_or-zero_degrees [] deg v h = h
find_or-zero_degrees ((id, task) ∷ tasks) deg v h =
    find_or-zero_degrees tasks (assign id 0 deg) v (ground (arith, find_or-assign 0 id v 0 deg))

find_or-count_neighbors :
    (ns : List TaskId) (deg : List (TaskId × ℕ)) (v : TaskId)
    → find_or 0 v (count_neighbors ns deg) ≡ find_or 0 v deg + count v ns
unfolding count_neighbors count
find_or-count_neighbors [] deg v = omega arith
find_or-count_neighbors (n ∷ ns) deg v = ground (
  arith,
  find_or-count_neighbors ns (assign n (find_or 0 n deg + 1) deg) v,
  find_or-assign 0 n v (find_or 0 n deg + 1) deg,
)

find_or-count_edges :
    (adj : List (TaskId × List TaskId)) (deg : List (TaskId × ℕ)) (v : TaskId)
    → find_or 0 v (count_edges adj deg) ≡ find_or 0 v deg + pending_in adj [] v
unfolding count_edges elem
find_or-count_edges [] deg v = omega arith
find_or-count_edges ((u, ns) ∷ adj) deg v =
    ground
      (arith, find_or-count_edges adj (count_neighbors ns deg) v, find_or-count_neighbors ns deg v)

-- in_degree counts the edges into each task.
pub in_degree-pending_in :
    (g : WorkloadDag) (v : TaskId) → find_or 0 v (in_degree g) ≡ pending_in g.adj_list [] v
unfolding in_degree find_or
in_degree-pending_in g v = omega (
  arith,
  find_or-count_edges g.adj_list (zero_degrees g.tasks []) v,
  find_or-zero_degrees g.tasks [] v refl,
)

module _ (n : TaskId) (ns : List TaskId) (deg : List (TaskId × ℕ))
    (enough : (w : TaskId) → count w (n ∷ ns) ≤ find_or 0 w deg) where
  abbrev lowered : List (TaskId × ℕ)
  lowered = assign n (pred64 (find_or 0 n deg)) deg

  lowered_enough : (w : TaskId) → count w ns ≤ find_or 0 w lowered
  unfolding count pred64
  lowered_enough w =
      ground (arith, enough w, enough n, find_or-assign 0 n w (pred64 (find_or 0 n deg)) deg)

  find_or-lowered :
      (w : TaskId) → find_or 0 w lowered + count w (n ∷ ns) ≡ find_or 0 w deg + count w ns
  unfolding count pred64
  find_or-lowered w =
      ground (arith, enough w, enough n, find_or-assign 0 n w (pred64 (find_or 0 n deg)) deg)

-- Each degree falls by the number of occurrences in `ns`, when none is below that number.
pub find_or-relax :
    (ns : List TaskId) (deg : List (TaskId × ℕ)) (queue : List TaskId)
    → ((w : TaskId) → count w ns ≤ find_or 0 w deg)
    → (v : TaskId) → find_or 0 v (relax ns deg queue).0 + count v ns ≡ find_or 0 v deg
unfolding relax count
find_or-relax [] deg queue enough v = omega arith
find_or-relax (n ∷ ns) deg queue enough v = omega (
  arith,
  find_or-relax ns (lowered n ns deg enough) _ (lowered_enough n ns deg enough) v,
  find_or-lowered n ns deg enough v,
)

-- The tasks that the loop over `ns` puts on the queue.
abbrev pub released : List TaskId → List (TaskId × ℕ) → List TaskId
released ns deg = (relax ns deg []).1

append-if_one :
    (b : Bool) (n : TaskId) (queue : List TaskId)
    → (if b then queue ++ n ∷ [] else queue) ≡ queue ++ (if b then n ∷ [] else [])
append-if_one true n queue = refl
append-if_one false n queue = sym (append-nil queue)

if_one-append :
    (b : Bool) (n : TaskId) (rest : List TaskId)
    → (if b then n ∷ [] else []) ++ rest ≡ (if b then n ∷ rest else rest)
if_one-append true n rest = refl
if_one-append false n rest = refl

pub relax-released :
    (ns : List TaskId) (deg : List (TaskId × ℕ)) (queue : List TaskId)
    → (relax ns deg queue).1 ≡ queue ++ released ns deg
unfolding relax
relax-released [] deg queue = sym (append-nil queue)
relax-released (n ∷ ns) deg queue =
    relax-released ns deg' _
    ∙ ap (λ l. l ++ released ns deg') (append-if_one (d == 0) n queue)
    ∙ append_assoc queue _ (released ns deg')
    ∙ ap (◌++◌ queue) (sym (relax-released ns deg' _))
  where
    d : ℕ
    d = pred64 (find_or 0 n deg)

    deg' : List (TaskId × ℕ)
    deg' = assign n d deg

released-cons :
    (n : TaskId) (ns : List TaskId) (deg : List (TaskId × ℕ))
    → let d = pred64 (find_or 0 n deg) in
      released (n ∷ ns) deg
      ≡ (if d == 0 then n ∷ released ns (assign n d deg) else released ns (assign n d deg))
unfolding relax
released-cons n ns deg =
    relax-released ns (assign n (pred64 (find_or 0 n deg)) deg) _
    ∙ if_one-append (pred64 (find_or 0 n deg) == 0) n _

-- Exactly those whose last edges are in `ns`.
pub elem-released :
    (ns : List TaskId) (deg : List (TaskId × ℕ))
    → ((w : TaskId) → count w ns ≤ find_or 0 w deg)
    → (v : TaskId)
    → (elem v (released ns deg) ≡ true) ↔ ((0 < count v ns) × (find_or 0 v deg ≡ count v ns))
unfolding relax elem count pred64
elem-released [] deg enough v = (λ h. cc, λ h. absurd (omega arith))
elem-released (n ∷ ns) deg enough v = ground (
  arith,
  released-cons n ns deg,
  find_or-lowered n ns deg enough v,
  find_or-lowered n ns deg enough n,
  elem-released ns (lowered n ns deg enough) (lowered_enough n ns deg enough) v,
  enough v,
  enough n,
)

if_one-Distinct :
    (b : Bool) (n : TaskId) (rest : List TaskId)
    → Distinct rest
    → (b ≡ true → elem n rest ≡ false)
    → Distinct (if b then n ∷ rest else rest)
if_one-Distinct true n rest h apart = (apart refl, h)
if_one-Distinct false n rest h apart = h

-- No task is released twice.
pub Distinct-released :
    (ns : List TaskId) (deg : List (TaskId × ℕ))
    → ((w : TaskId) → count w ns ≤ find_or 0 w deg)
    → Distinct (released ns deg)
unfolding relax
Distinct-released [] deg enough = tt
Distinct-released (n ∷ ns) deg enough = subst Distinct (sym (released-cons n ns deg)) (
    if_one-Distinct (pred64 (find_or 0 n deg) == 0) n (released ns deg')
      (Distinct-released ns deg' fewer) apart)
  where
    deg' : List (TaskId × ℕ)
    deg' = lowered n ns deg enough

    fewer : (w : TaskId) → count w ns ≤ find_or 0 w deg'
    fewer = lowered_enough n ns deg enough

    apart : (pred64 (find_or 0 n deg) == 0) ≡ true → elem n (released ns deg') ≡ false
    apart e = elim (Bool-cases (elem n (released ns deg'))) [
      | inr no_more ↦ no_more
      | inl more ↦ absurd (
          omega (
            arith,
            (elem-released ns deg' fewer n).0 more,
            (==_iff (pred64 (find_or 0 n deg)) 0).0 e,
            find_or-assign_self 0 n (pred64 (find_or 0 n deg)) deg,
          ))
    ]
