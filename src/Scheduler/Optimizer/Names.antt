-- ===== src/Scheduler/Optimizer/Names.antt =====
-- What holds of every entry of a list, and the names of the nodes, which no phase changes.
use mathlib.Core.List.{Memᴰ}
use mathlib.Core.List.Memᴰ
use edge_orchestrator_ai.Prelude.{
  ℕ, zero, suc, ◌≡◌, refl, ap, ◌∙◌, inl, inr, true, List, [], ◌∷◌, ◌++◌, Option, none, some,
  get_elem?, string_key, elem, if_pos, if_neg, String_discrete, arith,
}
use edge_orchestrator_ai.Core.Types.{NodeId, TaskId}
use edge_orchestrator_ai.Workload.Dag.{Task, WorkloadDag, get_task}
use edge_orchestrator_ai.Scheduler.Plan.{SchedulingDecision}
use edge_orchestrator_ai.Scheduler.Optimizer.{NodeBudget, alter, names}
use edge_orchestrator_ai.Scheduler.Optimizer.BinPack.{account, charge_named, account_for}

abbrev pub All : {A : Type 0} → (A → Type 0) → List A → Type 0
All P [] = Unit {0}
All P (x ∷ xs) = P x × All P xs

pub All-snoc :
    {A : Type 0} (P : A → Type 0) (xs : List A) (x : A) → All P xs → P x → All P (xs ++ x ∷ [])
All-snoc P [] x h p = (p, tt)
All-snoc P (y ∷ xs) x h p = (h.0, All-snoc P xs x h.1 p)

pub All-alter :
    {A : Type 0} (P : A → Type 0) (i : ℕ) (change : A → A) (xs : List A)
    → ((x : A) → P x → P (change x))
    → All P xs
    → All P (alter i change xs)
All-alter P i change [] keeps h = tt
All-alter P zero change (x ∷ xs) keeps h = (keeps x h.0, h.1)
All-alter P (suc i) change (x ∷ xs) keeps h = (h.0, All-alter P i change xs keeps h.1)

pub All-get :
    {A : Type 0} (P : A → Type 0) (xs : List A) (i : ℕ) {x : A}
    → All P xs
    → get_elem? xs i ≡ some x
    → P x
All-get P [] i h e = cc
All-get P (y ∷ xs) zero {x} h e = let same : y ≡ x = cc in rw same at h.0
All-get P (y ∷ xs) (suc i) h e = All-get P xs i h.1 e

pub All-mem : {A : Type 0} (P : A → Type 0) (xs : List A) (x : A) → All P xs → Memᴰ x xs → P x
All-mem P [] x h m = absurd (Memᴰ.not-nil m)
All-mem P (y ∷ xs) x h m = elim (Memᴰ.cases_cons m) [
  | inl e ↦ rw e h.0
  | inr later ↦ All-mem P xs x h.1 later
]

-- The names of the nodes stay as they are.

pub names-alter :
    (i : ℕ) (change : NodeBudget → NodeBudget) (nodes : List NodeBudget)
    → ((node : NodeBudget) → (change node).id ≡ node.id)
    → names (alter i change nodes) ≡ names nodes
names-alter i change [] h = refl
names-alter zero change (node ∷ nodes) h = ap (λ id. id ∷ names nodes) (h node)
names-alter (suc i) change (node ∷ nodes) h = ap (λ l. node.id ∷ l) (names-alter i change nodes h)

pub names-charge_named :
    (name : NodeId) (task : Task) (id : TaskId) (nodes : List NodeBudget)
    → names (charge_named name task id nodes) ≡ names nodes
unfolding charge_named
names-charge_named name task id [] = refl
names-charge_named name task id (node ∷ nodes) =
    let rest = names-charge_named name task id nodes in
    elim (String_discrete node.id name) [
      | yes p ↦ rw (if_pos (String_discrete node.id name) p) refl
      | no n ↦ rw (if_neg (String_discrete node.id name) n) (ap (λ l. node.id ∷ l) rest)
    ]

pub names-account :
    (g : WorkloadDag) (ds : List SchedulingDecision) (nodes : List NodeBudget)
    → names (account g ds nodes) ≡ names nodes
unfolding account
names-account g [] nodes = refl
names-account g (d ∷ ds) nodes = names-account g ds _ ∙ counted (get_task d.task_id g)
  where
    counted : (o : Option Task) → names (account_for d o nodes) ≡ names nodes
    counted none = refl
    counted (some task) = names-charge_named d.assigned_node task d.task_id nodes

pub elem-names :
    (nodes : List NodeBudget) (i : ℕ) (node : NodeBudget)
    → get_elem? nodes i ≡ some node
    → elem node.id (names nodes) ≡ true
unfolding elem
elem-names [] i node e = cc
elem-names (n ∷ nodes) zero node e =
    let same : node.id ≡ n.id = cc in if_pos (String_discrete node.id n.id) same _ _
elem-names (n ∷ nodes) (suc i) node e = ground (arith, elem-names nodes i node e)
