-- ===== src/Executor/TaskQueue/Runs.antt =====
-- The invariant holds after any sequence of events.
use edge_orchestrator_ai.Prelude.{
  ℕ, ◌+◌, ◌^◌, ◌≤◌, ◌<◌, ◌≡◌, refl, sym, subst, inl, inr, Bool, List, [], ◌∷◌, ◌++◌, arith, length,
  ℕ_discrete,
}
use edge_orchestrator_ai.Prelude.Words.{add64_lem}
use edge_orchestrator_ai.Executor.TaskQueue.{
  Pc, idle, push_loaded, push_seen, push_claimed, push_written, pop_loaded, pop_seen, pop_claimed,
  pop_read, QueueEvent, push, pop, go, System, access, event, events, goes, update, cell,
  push_called, pop_called, store_sequence,
}
use edge_orchestrator_ai.Executor.TaskQueue.Invariant.{Stage, full, done, At, Owns, Inv}
use edge_orchestrator_ai.Executor.TaskQueue.Publishes.{publish-Inv}
use edge_orchestrator_ai.Executor.TaskQueue.Frees.{release-Inv}
use edge_orchestrator_ai.Executor.TaskQueue.Values.{write-Inv, take-Inv}
use edge_orchestrator_ai.Executor.TaskQueue.Exchanges.{
  Small, Next, calm, compares-push, compares-pop,
}

module _ {A : Type 0} {s : System A} {stage : ℕ → Stage} (inv : Inv stage s) (t : ℕ) where
  open inv use {lap, order, bounded, at, owned}

  -- A number that is read now is up to date.
  loads-push :
      (v : A) (pos : ℕ)
      → pos ≤ s.queue.enqueue_pos
      → Owns s stage t (push_seen v pos (cell s.queue pos).sequence)
  loads-push v pos h = (
    h,
    λ e. elim (ℕ_discrete pos s.queue.enqueue_pos) [
      | yes now ↦ inr (subst (λ p. (cell s.queue p).sequence ≡ p) now e)
      | no n ↦ inl (omega (arith, h, n))
    ],
  )

  loads-pop :
      (pos : ℕ)
      → pos ≤ s.queue.dequeue_pos
      → Owns s stage t (pop_seen pos (cell s.queue pos).sequence)
  loads-pop pos h = (
    h,
    λ e. elim (ℕ_discrete pos s.queue.dequeue_pos) [
      | yes now ↦ inr (subst (λ p. (cell s.queue p).sequence ≡ p + 1) now e)
      | no n ↦ inl (omega (arith, h, n))
    ],
  )

  access-Next : (c : Pc A) (spurious : Bool) → Small s → s.pc t ≡ c → Next s (access c t spurious s)
  unfolding access
  access-Next idle spurious small h = record {
    stage = stage;
    inv = inv;
    more = omega arith;
    lap = refl;
  }
  access-Next (push_loaded v pos) spurious small h =
      calm inv t _ h tt _ (loads-push v pos (subst (Owns s stage t) h (owned t)))
  access-Next (push_seen v pos seq) spurious small h =
      compares-push inv t _ spurious v pos seq small h refl
  access-Next (push_claimed v p) spurious small h = record {
    stage = stage;
    inv = write-Inv inv t p v h;
    more = omega arith;
    lap = refl;
  }
  access-Next (push_written p) spurious small h = record {
    stage = update stage p full;
    inv =
        subst
          (λ n.
            Inv (update stage p full)
              (goes t idle (record s { queue = store_sequence p n s.queue })))
          (sym (add64_lem p 1 (omega (arith, high, small)))) (publish-Inv inv t p h);
    more = omega arith;
    lap = refl;
  }
    where
      high : p < s.queue.enqueue_pos
      high = (subst (At s p) (subst (Owns s stage t) h (owned t)) (at p)).high
  access-Next (pop_loaded pos) spurious small h =
      calm inv t _ h tt _ (loads-pop pos (subst (Owns s stage t) h (owned t)))
  access-Next (pop_seen pos seq) spurious small h =
      compares-pop inv t _ spurious pos seq small h refl
  access-Next (pop_claimed p) spurious small h = record {
    stage = stage;
    inv = take-Inv inv t p h;
    more = omega arith;
    lap = refl;
  }
  access-Next (pop_read p out) spurious small h = record {
    stage = update stage p done;
    inv =
        subst
          (λ n. Inv (update stage p done) (
            goes t idle (record s {
              queue = store_sequence p n s.queue;
              returned = update s.returned p (s.returned p ++ (out ∷ []));
            })))
          (sym (add64_lem p s.queue.capacity (omega (arith, high, small, order))))
          (release-Inv inv t p out h);
    more = omega arith;
    lap = refl;
  }
    where
      high : p < s.queue.dequeue_pos
      high = (subst (At s p) (subst (Owns s stage t) h (owned t)) (at p)).high

  push_called-Next : (c : Pc A) (v : A) → s.pc t ≡ c → Next s (push_called c t v s)
  push_called-Next idle v h = calm inv t idle h tt _ (omega arith)
  push_called-Next busy v h = record { stage = stage; inv = inv; more = omega arith; lap = refl }

  pop_called-Next : (c : Pc A) → s.pc t ≡ c → Next s (pop_called c t s)
  pop_called-Next idle h = calm inv t idle h tt _ (omega arith)
  pop_called-Next busy h = record { stage = stage; inv = inv; more = omega arith; lap = refl }

module _ {A : Type 0} where
  event-Next :
      {s : System A} {stage : ℕ → Stage} (e : QueueEvent A)
      → Inv stage s
      → Small s
      → Next s (event e s)
  unfolding event
  event-Next {s} (push t v) inv small = push_called-Next inv t (s.pc t) v refl
  event-Next {s} (pop t) inv small = pop_called-Next inv t (s.pc t) refl
  event-Next {s} (go t spurious) inv small = access-Next inv t (s.pc t) spurious small refl

  -- A run from a state in which the invariant holds, short of the range of intptr_t.
  pub events-Inv :
      (es : List (QueueEvent A)) (s : System A) (stage : ℕ → Stage)
      → Inv stage s
      → length es + s.queue.enqueue_pos + s.queue.capacity < 2 ^ 63
      → (stage' : ℕ → Stage) × Inv stage' (events es s) × Small (events es s)
  events-Inv [] s stage inv small = (stage, inv, omega (arith, small))
  events-Inv (e ∷ es) s stage inv small =
      let n = event-Next e inv (omega (arith, small)) in
      events-Inv es (event e s) n.stage n.inv (omega (arith, small, n.more, n.lap))
