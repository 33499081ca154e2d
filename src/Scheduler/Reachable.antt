-- ===== src/Scheduler/Reachable.antt =====
-- The reachable peers of a cluster view, by name, and what holds of every decision of a plan.
use mathlib.Core.List.{Memᴰ}
use mathlib.Core.List.Memᴰ
use edge_orchestrator_ai.Prelude.{◌≡◌, ◌⊎◌, inl, inr, true, List, [], ◌∷◌, ◌++◌}
use edge_orchestrator_ai.Core.Types.{NodeId}
use edge_orchestrator_ai.Scheduler.Plan.{PeerInfo}

mem_snoc : {A : Type 0} (x y : A) (xs : List A) → Memᴰ x (xs ++ y ∷ []) → Memᴰ x xs ⊎ (x ≡ y)
mem_snoc x y [] m = elim (Memᴰ.cases_cons m) [ inl e ↦ inr e | inr later ↦ inl later ]
mem_snoc x y (z ∷ xs) m = elim (Memᴰ.cases_cons m) [
  | inl e ↦ inl (Memᴰ.head e)
  | inr later ↦ elim (mem_snoc x y xs later) [ inl there ↦ inl (Memᴰ.tail there) | inr e ↦ inr e ]
]

-- The name belongs to a reachable peer.
abbrev pub NamesReachable : {F : Type 0} → List (PeerInfo F) → NodeId → Type 0
NamesReachable {F} peers id =
    (p : PeerInfo F) × Memᴰ p peers × (p.reachable ≡ true) × (p.node_id ≡ id)

pub later-NamesReachable :
    {F : Type 0} (peer : PeerInfo F) (peers : List (PeerInfo F)) (id : NodeId)
    → NamesReachable peers id
    → NamesReachable (peer ∷ peers) id
later-NamesReachable peer peers id (p, m, up, e) = (p, Memᴰ.tail m, up, e)

-- What holds of each entry of a list and of one more holds of each of the longer list.
pub all_snoc :
    {A : Type 0} (P : A → Type 0) (xs : List A) (new : A)
    → ((x : A) → Memᴰ x xs → P x)
    → P new
    → (x : A) → Memᴰ x (xs ++ new ∷ [])
    → P x
all_snoc P xs new old last x m = elim (mem_snoc x new xs m) [
  | inl before ↦ old x before
  | inr e ↦ rw e last
]
