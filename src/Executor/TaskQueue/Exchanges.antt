-- ===== src/Executor/TaskQueue/Exchanges.antt =====
-- What a thread does with the number that it has read keeps the invariant.
use edge_orchestrator_ai.Prelude.{
  ℕ, ◌+◌, ◌^◌, ◌≤◌, ◌<◌, ◌≡◌, refl, sym, ◌∙◌, subst, ap, inl, inr, Bool, true, false, ◌&&◌, not,
  ◌==◌, [], ◌∷◌, ◌++◌, arith,
}
use edge_orchestrator_ai.Prelude.Words.{add64, add64_lem, signed_lt}
use edge_orchestrator_ai.Executor.TaskQueue.{
  Pc, idle, push_loaded, push_seen, push_claimed, push_written, pop_loaded, pop_seen, pop_claimed,
  pop_read, System, goes, update, push_compared, push_exchanged, push_unequal, pop_compared,
  pop_exchanged, pop_unequal,
}
use edge_orchestrator_ai.Executor.TaskQueue.Invariant.{
  Stage, filling, draining, CanPush, CanPop, Owns, Inv,
}
use edge_orchestrator_ai.Executor.TaskQueue.Moves.{Idle, quiet-Inv}
use edge_orchestrator_ai.Executor.TaskQueue.Claims.{push_claims-Inv, pop_claims-Inv}

-- No position, and no number of a cell, comes near the range of intptr_t.
abbrev pub Small : {A : Type 0} → System A → Type 0
Small s = s.queue.enqueue_pos + s.queue.capacity < 2 ^ 63

-- The thread holds no position.
abbrev pub Roams : {A : Type 0} → Pc A → Type 0
Roams (push_claimed v p) = ⊥
Roams (push_written p) = ⊥
Roams (pop_claimed p) = ⊥
Roams (pop_read p out) = ⊥
Roams elsewhere = Unit {0}

Roams-Idle : {A : Type 0} (c : Pc A) → Roams c → Idle c
Roams-Idle (push_claimed v p) r = absurd r
Roams-Idle (push_written p) r = absurd r
Roams-Idle (pop_claimed p) r = absurd r
Roams-Idle (pop_read p out) r = absurd r
Roams-Idle elsewhere r = λ p. record { fills = λ q x v f. absurd f; drains = λ q x v f. absurd f }

pub record Next {A : Type 0} (s s' : System A) : Type 0 where
  pub stage : ℕ → Stage
  pub inv : Inv stage s'
  pub more : s'.queue.enqueue_pos ≤ s.queue.enqueue_pos + 1
  pub lap : s'.queue.capacity ≡ s.queue.capacity

module _ {A : Type 0} {s : System A} {stage : ℕ → Stage} (inv : Inv stage s) (t : ℕ) where
  open inv use {lap, order, bounded, at, owned}

  pub calm :
      (c : Pc A)
      → s.pc t ≡ c
      → Roams c
      → (next : Pc A) → Owns s stage t next
      → Next s (goes t next s)
  calm c h roams next true_of = record {
    stage = stage;
    inv = quiet-Inv inv t next (subst Idle (sym h) (Roams-Idle c roams)) true_of;
    more = omega arith;
    lap = refl;
  }

  exchanges-push :
      (b spurious : Bool) (v : A) (pos seq : ℕ)
      → Small s
      → s.pc t ≡ push_seen v pos seq
      → seq ≡ pos
      → ((s.queue.enqueue_pos == pos) && not spurious) ≡ b
      → Next s (push_exchanged b t v pos s)
  exchanges-push true spurious v pos seq small h same e = record {
    stage = update stage s.queue.enqueue_pos (filling t);
    inv =
        subst (Inv (update stage s.queue.enqueue_pos (filling t))) moved
          (push_claims-Inv inv t v pos seq h can);
    more = omega (arith, add64_lem pos 1, there);
    lap = refl;
  }
    where
      there : s.queue.enqueue_pos ≡ pos
      there = ground (arith, e)

      can : CanPush s
      can = elim ((subst (Owns s stage t) h (owned t)).1 same) [
        | inl gone ↦ absurd (omega (arith, gone, there))
        | inr c ↦ c
      ]

      X : ℕ → ℕ → System A
      X n m = record s {
        queue = record (s.queue) { enqueue_pos = n };
        pc = update s.pc t (push_claimed v m);
        pushed = s.pushed ++ (v ∷ []);
      }

      moved : X (s.queue.enqueue_pos + 1) s.queue.enqueue_pos ≡ X (add64 pos 1) pos
      moved =
          ap (λ m. X (m + 1) m) there
          ∙ ap (λ n. X n pos) (sym (add64_lem pos 1 (omega (arith, there, small, order))))
  exchanges-push false spurious v pos seq small h same e =
      calm (push_seen v pos seq) h tt (push_loaded v s.queue.enqueue_pos) (omega arith)

  pub compares-push :
      (b spurious : Bool) (v : A) (pos seq : ℕ)
      → Small s
      → s.pc t ≡ push_seen v pos seq
      → (seq == pos) ≡ b
      → Next s (push_compared b t v pos seq spurious s)
  compares-push true spurious v pos seq small h e =
      exchanges-push _ spurious v pos seq small h (ground (arith, e)) refl
  compares-push false spurious v pos seq small h e = unequal (signed_lt seq pos)
    where
      unequal : (b : Bool) → Next s (push_unequal b t v s)
      unequal true = calm (push_seen v pos seq) h tt idle tt
      unequal false =
          calm (push_seen v pos seq) h tt (push_loaded v s.queue.enqueue_pos) (omega arith)

  exchanges-pop :
      (b spurious : Bool) (pos seq : ℕ)
      → Small s
      → s.pc t ≡ pop_seen pos seq
      → seq ≡ pos + 1
      → ((s.queue.dequeue_pos == pos) && not spurious) ≡ b
      → Next s (pop_exchanged b t pos s)
  exchanges-pop true spurious pos seq small h same e = record {
    stage = update stage s.queue.dequeue_pos (draining t);
    inv =
        subst (Inv (update stage s.queue.dequeue_pos (draining t))) moved
          (pop_claims-Inv inv t pos seq h can);
    more = omega arith;
    lap = refl;
  }
    where
      there : s.queue.dequeue_pos ≡ pos
      there = ground (arith, e)

      can : CanPop s
      can = elim ((subst (Owns s stage t) h (owned t)).1 same) [
        | inl gone ↦ absurd (omega (arith, gone, there))
        | inr c ↦ c
      ]

      X : ℕ → ℕ → System A
      X n m = record s {
        queue = record (s.queue) { dequeue_pos = n };
        pc = update s.pc t (pop_claimed m);
      }

      moved : X (s.queue.dequeue_pos + 1) s.queue.dequeue_pos ≡ X (add64 pos 1) pos
      moved =
          ap (λ m. X (m + 1) m) there
          ∙ ap (λ n. X n pos) (sym (add64_lem pos 1 (omega (arith, there, small, order))))
  exchanges-pop false spurious pos seq small h same e =
      calm (pop_seen pos seq) h tt (pop_loaded s.queue.dequeue_pos) (omega arith)

  pub compares-pop :
      (b spurious : Bool) (pos seq : ℕ)
      → Small s
      → s.pc t ≡ pop_seen pos seq
      → (seq == add64 pos 1) ≡ b
      → Next s (pop_compared b t pos seq spurious s)
  compares-pop true spurious pos seq small h e = exchanges-pop _ spurious pos seq small h next refl
    where
      next : seq ≡ pos + 1
      next =
          let f : seq ≡ add64 pos 1 = ground (arith, e) in
          f ∙ add64_lem pos 1 (omega (arith, (subst (Owns s stage t) h (owned t)).0, order))
  compares-pop false spurious pos seq small h e = unequal (signed_lt seq (add64 pos 1))
    where
      unequal : (b : Bool) → Next s (pop_unequal b t s)
      unequal true = calm (pop_seen pos seq) h tt idle tt
      unequal false = calm (pop_seen pos seq) h tt (pop_loaded s.queue.dequeue_pos) (omega arith)
