-- ===== src/Workload/Dag/Kahn/Loop.antt =====
-- The while loop of topological_order: its invariant, one round, and its end.
use edge_orchestrator_ai.Prelude.{
  ℕ, zero, suc, ◌+◌, ◌≤◌, ◌<◌, ◌≡◌, refl, sym, ap, ◌∙◌, subst, true, false, List, [], ◌∷◌, ◌++◌,
  string_key, arith, dec_lt, elem_self, elem, count, Distinct, count-elem, Bool-cases, inl, inr,
  ◌⊎◌, length, append_assoc, Distinct-append_middle, Distinct-append, elem-append_left,
  elem-append_right, elem-append_true, Distinct-length, length-append,
}
use edge_orchestrator_ai.Prelude.HashMap.{find_or, keys}
use edge_orchestrator_ai.Core.Types.{TaskId}
use edge_orchestrator_ai.Workload.Dag.Kahn.{relax, drain}
use edge_orchestrator_ai.Workload.Dag.Kahn.Pending.{
  pending_in, Edge, IsTopological, IsTopological-snoc, pending_in_snoc, pending_in_zero,
}
use edge_orchestrator_ai.Workload.Dag.Kahn.Degrees.{
  released, relax-released, find_or-relax, elem-released, Distinct-released,
}

-- `nodes` are the keys of in_degree, which hold the target of each edge.
module _ (adj : List (TaskId × List TaskId)) (nodes : List TaskId)
    (adj_distinct : Distinct (keys adj))
    (targets_known : (u v : TaskId) → Edge adj u v → elem v nodes ≡ true) where
  pub record Inv (deg : List (TaskId × ℕ)) (queue order : List TaskId) : Type 0 where
    pub degrees : (v : TaskId) → find_or 0 v deg ≡ pending_in adj order v
    pub distinct : Distinct (order ++ queue)
    pub free : (v : TaskId) → elem v (order ++ queue) ≡ true → pending_in adj order v ≡ 0
    pub known : (v : TaskId) → elem v (order ++ queue) ≡ true → elem v nodes ≡ true
    pub full :
        (v : TaskId)
        → elem v nodes ≡ true
        → pending_in adj order v ≡ 0
        → elem v (order ++ queue) ≡ true
    pub topological : IsTopological adj [] order

  module _ (deg : List (TaskId × ℕ)) (current : TaskId) (queue order : List TaskId)
      (inv : Inv deg (current ∷ queue) order) where
    abbrev ns : List TaskId
    ns = find_or [] current adj

    new : elem current order ≡ false
    new = Distinct-append_middle order current queue inv.distinct

    falls :
        (v : TaskId)
        → pending_in adj (order ++ current ∷ []) v + count v ns ≡ pending_in adj order v
    falls v = pending_in_snoc adj order current v adj_distinct new

    enough : (w : TaskId) → count w ns ≤ find_or 0 w deg
    enough w = omega (arith, falls w, inv.degrees w)

    abbrev seen : List TaskId
    seen = order ++ current ∷ queue

    abbrev fresh : List TaskId
    fresh = released ns deg

    regroup : (order ++ current ∷ []) ++ (relax ns deg queue).1 ≡ seen ++ fresh
    regroup =
        append_assoc order (current ∷ []) (relax ns deg queue).1
        ∙ ap (λ q. order ++ current ∷ q) (relax-released ns deg queue)
        ∙ sym (append_assoc order (current ∷ queue) fresh)

    fresh_iff :
        (v : TaskId)
        → elem v fresh ≡ true
        → (0 < count v ns) × (pending_in adj order v ≡ count v ns)
    fresh_iff v m = omega (arith, (elem-released ns deg enough v).0 m, inv.degrees v)

    apart : (v : TaskId) → elem v seen ≡ true → elem v fresh ≡ false
    apart v m = elim (Bool-cases (elem v fresh)) [
      | inr absent ↦ absent
      | inl again ↦ absurd (omega (arith, fresh_iff v again, inv.free v m))
    ]

    cases :
        (v : TaskId) → elem v (seen ++ fresh) ≡ true → (elem v seen ≡ true) ⊎ (elem v fresh ≡ true)
    cases v = elem-append_true v seen fresh

    step-Inv : Inv (relax ns deg queue).0 (relax ns deg queue).1 (order ++ current ∷ [])
    step-Inv = record {
      degrees = λ v. omega (arith, find_or-relax ns deg queue enough v, falls v, inv.degrees v);
      distinct =
          subst Distinct (sym regroup)
            (Distinct-append seen fresh inv.distinct (Distinct-released ns deg enough) apart);
      free = λ v m. elim (cases v (rw regroup at m)) [
        | inl old ↦ omega (arith, falls v, inv.free v old)
        | inr young ↦ omega (arith, falls v, fresh_iff v young)
      ];
      known = λ v m. elim (cases v (rw regroup at m)) [
        | inl old ↦ inv.known v old
        | inr young ↦ targets_known current v (count-elem v ns (fresh_iff v young).0)
      ];
      full = λ v k z. rw regroup (elim (dec_lt 0 (count v ns)) [
        | yes p ↦
            elem-append_right v seen fresh
              ((elem-released ns deg enough v).1 (p, omega (arith, inv.degrees v, falls v)))
        | no n ↦ elem-append_left v seen fresh (inv.full v k (omega (arith, falls v)))
      ]);
      topological =
          IsTopological-snoc adj [] order current
            (λ u e. inr (
              pending_in_zero adj order u current
                (inv.free current
                  (elem-append_right current order (current ∷ queue) (elem_self current queue)))
                e))
            inv.topological;
    }

  -- With as much fuel as there are tasks left to order, the loop ends with an empty queue.
  pub drain-Inv :
      (fuel : ℕ) (deg : List (TaskId × ℕ)) (queue order : List TaskId)
      → Inv deg queue order
      → length nodes ≤ length order + fuel
      → let (final, left) = drain adj fuel deg queue order in
        (left ≡ []) × ((deg' : List (TaskId × ℕ)) × Inv deg' [] final)
  unfolding drain
  drain-Inv fuel deg [] order inv room = (refl, (deg, inv))
  drain-Inv zero deg (current ∷ queue) order inv room = absurd (
      omega (
        arith,
        Distinct-length (order ++ current ∷ queue) nodes inv.distinct inv.known,
        length-append order (current ∷ queue),
      ))
  drain-Inv (suc fuel) deg (current ∷ queue) order inv room =
      drain-Inv fuel _ _ (order ++ current ∷ []) (step-Inv deg current queue order inv)
        (omega (arith, length-append order (current ∷ [])))
