-- ===== src/Network/ClusterView/Refinement.antt =====
-- The manager implements a partial function from node ids to peers: every history of operations has
-- on it the effect that it has on such a function, and a snapshot shows what is reachable in it.
use mathlib.Core.List.{Memᴰ}
use mathlib.Core.List.Memᴰ
use mathlib.Core.Option
use edge_orchestrator_ai.Prelude.{
  ℕ, String, ◌≡◌, ◌≢◌, refl, sym, ap, ◌∙◌, fun_ext, ◌⊎◌, inl, inr, ◌↔◌, Bool, true, false, List, [],
  ◌∷◌, ◌++◌, Option, none, some, ite, if_pos, if_neg, String_discrete, string_key, arith,
  if◌then◌else◌, Distinct, Option-cases,
}
use edge_orchestrator_ai.Prelude.HashMap.{
  find, keys, find-assign, find-update, find-erase, keys-update, Distinct-keys-assign,
  Distinct-keys-erase, find-elem,
}
use mathlib.Core.Logic.{⊎_elim}
use edge_orchestrator_ai.Core.Types.{NodeId, ResourceSnapshot}
use edge_orchestrator_ai.Scheduler.Plan.{PeerInfo}
use edge_orchestrator_ai.Network.ClusterView.{
  Peers, refreshed, unreachable, update_resources, update_peer, mark_unreachable, remove_peer,
  clear, reachable_of, snapshot,
}

some_eq : {A : Type 0} {a b : A} → some a ≡ some b → a ≡ b
some_eq e = cc

pub data Operation (F : Type 0) : Type 0 where
  updates_resources : NodeId → ResourceSnapshot F → Operation F
  updates_peer : PeerInfo F → Operation F
  marks_unreachable removes_peer : NodeId → Operation F
  clears : Operation F

abbrev pub Registry : Type 0 → Type 0
Registry F = NodeId → Option (PeerInfo F)

module _ {F : Type 0} where
  unfoldable pub apply : Operation F → Peers F → Peers F
  apply (updates_resources id s) = update_resources id s
  apply (updates_peer info) = update_peer info
  apply (marks_unreachable id) = mark_unreachable id
  apply (removes_peer id) = remove_peer id
  apply clears = clear

  unfoldable pub run : List (Operation F) → Peers F → Peers F
  run [] peers = peers
  run (op ∷ ops) peers = run ops (apply op peers)

  -- The address and the port that an entry keeps when its resources are written; a new one has none.
  abbrev pub kept_address : Option (PeerInfo F) → String
  kept_address none = ""
  kept_address (some entry) = entry.address

  abbrev pub kept_port : Option (PeerInfo F) → ℕ
  kept_port none = 0
  kept_port (some entry) = entry.tcp_port

  -- A peer that may not be used until something is heard of it; all else of it stays.
  abbrev pub silent : PeerInfo F → PeerInfo F
  silent entry = record {
    node_id = entry.node_id;
    resources = entry.resources;
    address = entry.address;
    tcp_port = entry.tcp_port;
    reachable = false;
  }

  -- What each operation promises: the entry of the node that it names, and that no other changes.
  abbrev pub specified : Operation F → Registry F → Registry F
  specified (updates_resources id s) r x =
      ite (String_discrete x id)
        (some (record {
          node_id = id;
          resources = s;
          address = kept_address (r id);
          tcp_port = kept_port (r id);
          reachable = true;
        }))
        (r x)
  specified (updates_peer info) r x = ite (String_discrete x info.node_id) (some info) (r x)
  specified (marks_unreachable id) r x = ite (String_discrete x id) (Option.map silent (r x)) (r x)
  specified (removes_peer id) r x = ite (String_discrete x id) none (r x)
  specified clears r x = none

  abbrev pub specified_run : List (Operation F) → Registry F → Registry F
  specified_run [] r = r
  specified_run (op ∷ ops) r = specified_run ops (specified op r)

  abbrev pub registry : Peers F → Registry F
  registry peers x = find x peers

  apply-Distinct :
      (op : Operation F) (peers : Peers F)
      → Distinct (keys peers)
      → Distinct (keys (apply op peers))
  unfolding apply update_resources update_peer mark_unreachable remove_peer clear
  apply-Distinct (updates_resources id s) peers h =
      Distinct-keys-assign id (refreshed id s (find id peers)) peers h
  apply-Distinct (updates_peer info) peers h = Distinct-keys-assign info.node_id info peers h
  apply-Distinct (marks_unreachable id) peers h = rw (keys-update id unreachable peers) h
  apply-Distinct (removes_peer id) peers h = Distinct-keys-erase id peers h
  apply-Distinct clears peers h = tt

  refreshed_lem :
      (id : NodeId) (s : ResourceSnapshot F) (o : Option (PeerInfo F))
      → refreshed id s o ≡ record {
        node_id = id;
        resources = s;
        address = kept_address o;
        tcp_port = kept_port o;
        reachable = true;
      }
  refreshed_lem id s none = refl
  refreshed_lem id s (some entry) = refl

  apply-specified :
      (op : Operation F) (peers : Peers F) (x : NodeId)
      → Distinct (keys peers)
      → registry (apply op peers) x ≡ specified op (registry peers) x
  unfolding apply update_resources update_peer mark_unreachable remove_peer clear find
  apply-specified (updates_resources id s) peers x h =
      find-assign id x (refreshed id s (find id peers)) peers
      ∙ ap (λ entry. ite (String_discrete x id) (some entry) (find x peers))
          (refreshed_lem id s (find id peers))
  apply-specified (updates_peer info) peers x h = find-assign info.node_id x info peers
  apply-specified (marks_unreachable id) peers x h =
      ground (arith, find-update id x unreachable peers)
  apply-specified (removes_peer id) peers x h = find-erase id x peers h
  apply-specified clears peers x h = refl

  specified_run-cong :
      (ops : List (Operation F)) (r s : Registry F)
      → r ≡ s
      → specified_run ops r ≡ specified_run ops s
  specified_run-cong ops r s e = ap (specified_run ops) e

  run-refines :
      (ops : List (Operation F)) (peers : Peers F)
      → Distinct (keys peers)
      → registry (run ops peers) ≡ specified_run ops (registry peers)
  unfolding run
  run-refines [] peers h = refl
  run-refines (op ∷ ops) peers h =
      run-refines ops (apply op peers) (apply-Distinct op peers h)
      ∙ specified_run-cong ops _ _ (fun_ext (λ x. apply-specified op peers x h))

  -- After any history of operations on an empty manager, what it stores for each node is what the
  -- operations make of the empty partial function from node ids to peers, where a write of
  -- resources makes the node reachable and keeps the address and port that it had, and a mark
  -- makes it unreachable and keeps the rest.
  pub history_refines :
      (ops : List (Operation F)) (x : NodeId)
      → find x (run ops []) ≡ specified_run ops (λ _. none) x
  unfolding find
  history_refines ops x = ap (λ (r : Registry F). r x) (run-refines ops [] tt)

  run-Distinct :
      (ops : List (Operation F)) (peers : Peers F)
      → Distinct (keys peers)
      → Distinct (keys (run ops peers))
  unfolding run
  run-Distinct [] peers h = h
  run-Distinct (op ∷ ops) peers h = run-Distinct ops (apply op peers) (apply-Distinct op peers h)

  mem_if :
      (b : Bool) (p info : PeerInfo F) (rest : List (PeerInfo F))
      → Memᴰ p (if b then info ∷ rest else rest)
      → ((b ≡ true) × (p ≡ info)) ⊎ Memᴰ p rest
  mem_if true p info rest m = ⊎_elim (λ e. inl (refl, e)) inr (Memᴰ.cases_cons m)
  mem_if false p info rest m = inr m

  if-mem :
      (b : Bool) (p info : PeerInfo F) (rest : List (PeerInfo F))
      → ((b ≡ true) × (p ≡ info)) ⊎ Memᴰ p rest
      → Memᴰ p (if b then info ∷ rest else rest)
  if-mem true p info rest h = ⊎_elim (λ e. Memᴰ.head e.1) Memᴰ.tail h
  if-mem false p info rest h = ⊎_elim (λ e. cc) (λ m. m) h

  mem-reachable_of :
      (peers : Peers F) (p : PeerInfo F)
      → Distinct (keys peers)
      → Memᴰ p (reachable_of peers)
      → (id : NodeId) × (find id peers ≡ some p) × (p.reachable ≡ true)
  unfolding reachable_of find
  mem-reachable_of [] p h m = absurd (Memᴰ.not-nil m)
  mem-reachable_of ((y, info) ∷ peers) p h m =
      elim (mem_if info.reachable p info (reachable_of peers) m) [
        | inl (up, e) ↦ (y, rw (if_pos _ refl) (ap some (sym e)), ap (λ q. q.reachable) e ∙ up)
        | inr later ↦
            let (id, at, up) = mem-reachable_of peers p h.1 later in
            (id, ground (arith, find-elem id peers at), up)
      ]

  reachable_of-mem :
      (peers : Peers F) (p : PeerInfo F) (id : NodeId)
      → find id peers ≡ some p
      → p.reachable ≡ true
      → Memᴰ p (reachable_of peers)
  unfolding reachable_of find
  reachable_of-mem [] p id e up = cc
  reachable_of-mem ((y, info) ∷ peers) p id e up =
      if-mem info.reachable p info (reachable_of peers) (elim (String_discrete id y) [
        | yes q ↦
            let same : info ≡ p = some_eq (rw (if_pos _ q) at e) in
            inl (ap (λ r. r.reachable) same ∙ up, sym same)
        | no n ↦ inr (reachable_of-mem peers p id (rw (if_neg _ n) at e) up)
      ])

  -- After any history of operations on an empty manager, a snapshot holds exactly the peers that
  -- the partial function of that history holds and that are reachable.
  pub snapshot_history :
      (ops : List (Operation F)) (p : PeerInfo F)
      → Memᴰ p (snapshot (run ops [])).peers
        ↔ ((id : NodeId) × (specified_run ops (λ _. none) id ≡ some p) × (p.reachable ≡ true))
  unfolding snapshot
  snapshot_history ops p = (
    λ m.
        let (id, at, up) = mem-reachable_of (run ops []) p (run-Distinct ops [] tt) m in
        (id, sym (history_refines ops id) ∙ at, up),
    λ h. reachable_of-mem (run ops []) p h.0 (history_refines ops h.0 ∙ h.1) h.2,
  )

  -- Each peer is registered under its own node id.
  abbrev Names : Registry F → Type 0
  Names r = (id : NodeId) (p : PeerInfo F) → r id ≡ some p → p.node_id ≡ id

  specified-Names : (op : Operation F) (r : Registry F) → Names r → Names (specified op r)
  specified-Names (updates_resources id s) r h x p e = ground (arith, h x p)
  specified-Names (updates_peer info) r h x p e = ground (arith, h x p)
  specified-Names (marks_unreachable id) r h x p e = elim (Option-cases (r x)) [
    | inl absent ↦ ground arith
    | inr (q, at) ↦ ground (arith, h x q at)
  ]
  specified-Names (removes_peer id) r h x p e = ground (arith, h x p)
  specified-Names clears r h x p e = cc

  specified_run-Names :
      (ops : List (Operation F)) (r : Registry F) → Names r → Names (specified_run ops r)
  specified_run-Names [] r h = h
  specified_run-Names (op ∷ ops) r h =
      specified_run-Names ops (specified op r) (specified-Names op r h)

  specified_run_snoc :
      (ops : List (Operation F)) (op : Operation F) (r : Registry F)
      → specified_run (ops ++ op ∷ []) r ≡ specified op (specified_run ops r)
  specified_run_snoc [] op r = refl
  specified_run_snoc (o ∷ ops) op r = specified_run_snoc ops op (specified o r)

  silenced :
      (op : Operation F) (id : NodeId)
      → (op ≡ marks_unreachable id) ⊎ (op ≡ removes_peer id)
      → (r : Registry F) (x : NodeId) (p : PeerInfo F) → specified op r x ≡ some p
      → p.reachable ≡ true
      → x ≢ id
  silenced op id (inl marks) r x p e up same = elim (Option-cases (r x)) [
    | inl absent ↦
        let at : specified (marks_unreachable id) r x ≡ some p = rw marks at e in ground arith
    | inr (q, found) ↦
        let at : specified (marks_unreachable id) r x ≡ some p = rw marks at e in ground arith
  ]
  silenced op id (inr removes) r x p e up same =
      let at : specified (removes_peer id) r x ≡ some p = rw removes at e in ground arith

  -- When a history ends by marking a node unreachable or by removing it, no peer in a snapshot
  -- has that node's id.
  pub silenced_absent :
      (ops : List (Operation F)) (op : Operation F) (id : NodeId) (p : PeerInfo F)
      → (op ≡ marks_unreachable id) ⊎ (op ≡ removes_peer id)
      → Memᴰ p (snapshot (run (ops ++ op ∷ []) [])).peers
      → p.node_id ≢ id
  silenced_absent ops op id p which m =
      let (x, at, up) = (snapshot_history (ops ++ op ∷ []) p).0 m in
      let named = specified_run-Names (ops ++ op ∷ []) (λ _. none) (λ y q e. cc) x p at in
      let before = rw (specified_run_snoc ops op (λ _. none)) at at in
      λ e. silenced op id which (specified_run ops (λ _. none)) x p before up (sym named ∙ e)
