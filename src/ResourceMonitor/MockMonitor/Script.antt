-- ===== src/ResourceMonitor/MockMonitor/Script.antt =====
-- A script of snapshots, pushed and read.
use edge_orchestrator_ai.Prelude.{
  suc, ◌≡◌, refl, sym, ap, ◌∙◌, false, List, [], ◌∷◌, ◌++◌, length, get_elem?, map, append_assoc,
  append-nil, arith, length-append,
}
use edge_orchestrator_ai.Core.Floats.{Floats}
use edge_orchestrator_ai.Core.Types.{NodeId, Timestamp, ResourceSnapshot}
use edge_orchestrator_ai.Core.Result.{Result, ok, Error, make_error}
use edge_orchestrator_ai.ResourceMonitor.MockMonitor.{
  MockMonitor, make_mock_monitor, stamped, renamed, read, push_snapshot,
}

get_elem?-append_length :
    {A : Type 0} (xs ys : List A) → get_elem? (xs ++ ys) (length xs) ≡ get_elem? ys 0
get_elem?-append_length [] ys = refl
get_elem?-append_length (x ∷ xs) ys = get_elem?-append_length xs ys

module _ {F : Type 0} where
  abbrev pub push_all : List (ResourceSnapshot F) → MockMonitor F → MockMonitor F
  push_all [] s = s
  push_all (snap ∷ snaps) s = push_all snaps (push_snapshot snap s)

  -- One read for each time.
  abbrev pub read_all : List Timestamp → MockMonitor F → List (Result (ResourceSnapshot F) Error)
  read_all [] s = []
  read_all (now ∷ times) s = let r = read now s in r.0 ∷ read_all times r.1

  -- What a script gives: its snapshots with the node's id and the times of the reads, then errors.
  abbrev pub played :
      NodeId → List Timestamp → List (ResourceSnapshot F) → List (Result (ResourceSnapshot F) Error)
  played node_id [] snaps = []
  played node_id (now ∷ times) [] = make_error "Mock sequence exhausted" ∷ played node_id times []
  played node_id (now ∷ times) (snap ∷ snaps) =
      ok (stamped now (renamed node_id snap)) ∷ played node_id times snaps

  -- The monitor when it has read `before` of its script and has `snaps` left.
  abbrev playing :
      MockMonitor F → List (ResourceSnapshot F) → List (ResourceSnapshot F) → MockMonitor F
  playing s before snaps = record s {
    use_static = false;
    sequence = before ++ map (λ snap. renamed s.node_id snap) snaps;
    index = length before;
  }

  push_all-playing :
      (s : MockMonitor F) (pushed snaps : List (ResourceSnapshot F))
      → push_all snaps (record s { use_static = false; sequence = pushed; index = 0 }) ≡ record s {
        use_static = false;
        sequence = pushed ++ map (λ snap. renamed s.node_id snap) snaps;
        index = 0;
      }
  unfolding push_snapshot
  push_all-playing s pushed [] =
      ap (λ l. record s { use_static = false; sequence = l; index = 0 }) (sym (append-nil pushed))
  push_all-playing s pushed (snap ∷ snaps) =
      push_all-playing s (pushed ++ renamed s.node_id snap ∷ []) snaps
      ∙ ap (λ l. record s { use_static = false; sequence = l; index = 0 })
          (append_assoc pushed (renamed s.node_id snap ∷ []) _)

  read_all-playing :
      (s : MockMonitor F) (times : List Timestamp) (before snaps : List (ResourceSnapshot F))
      → read_all times (playing s before snaps) ≡ played s.node_id times snaps
  unfolding read
  read_all-playing s [] before snaps = refl
  read_all-playing s (now ∷ times) before [] =
      let end = get_elem?-append_length before [] in
      rw end
        (ap (λ l. make_error "Mock sequence exhausted" ∷ l) (read_all-playing s times before []))
  read_all-playing s (now ∷ times) before (snap ∷ snaps) =
      let named = renamed s.node_id snap in
      let next = get_elem?-append_length before (named ∷ map (λ q. renamed s.node_id q) snaps) in
      let rest = map (λ q. renamed s.node_id q) snaps in
      let one_more : suc (length before) ≡ length (before ++ named ∷ []) =
        omega (arith, length-append before (named ∷ [])) in
      let moved : record s {
        use_static = false;
        sequence = before ++ named ∷ rest;
        index = suc (length before);
      }
          ≡ playing s (before ++ named ∷ []) snaps =
        λ i. record s {
          use_static = false;
          sequence = sym (append_assoc before (named ∷ []) rest) i;
          index = one_more i;
        } in
      rw next (
        ap (λ l. ok (stamped now named) ∷ l)
          (ap (λ t. read_all times t) moved
            ∙ read_all-playing s times (before ++ named ∷ []) snaps))

-- When at least one snapshot is pushed to a new mock monitor, any number of reads give these
-- snapshots in their order, with the monitor's node id and the times of the reads, and from then
-- on the error that the sequence is exhausted.
pub read_all-push_all :
    (f : Floats) (node_id : NodeId) (first : ResourceSnapshot f.Float)
    (snaps : List (ResourceSnapshot f.Float)) (times : List Timestamp)
    → read_all times (push_all (first ∷ snaps) (make_mock_monitor f node_id))
      ≡ played node_id times (first ∷ snaps)
unfolding push_snapshot
read_all-push_all f node_id first snaps times =
    let s = make_mock_monitor f node_id in
    ap (λ t. read_all times t) (push_all-playing s (renamed node_id first ∷ []) snaps)
    ∙ read_all-playing s times [] (first ∷ snaps)
