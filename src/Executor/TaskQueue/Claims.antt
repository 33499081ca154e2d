-- ===== src/Executor/TaskQueue/Claims.antt =====
-- A thread that has won the exchange holds the position.
use edge_orchestrator_ai.Prelude.{
  ℕ, suc, zero, ◌+◌, ◌≤◌, ◌<◌, ◌≡◌, ◌≢◌, refl, sym, ◌∙◌, subst, ap, inl, inr, List, [], ◌∷◌, ◌++◌,
  some, ℕ_discrete, arith, length, get_elem?, length-append,
}
use edge_orchestrator_ai.Executor.TaskQueue.{
  push_seen, push_claimed, pop_seen, pop_claimed, System, update,
}
use edge_orchestrator_ai.Executor.TaskQueue.Invariant.{
  Stage, untouched, filling, full, draining, Fills, Drains, Full, At, Free, CanPush, CanPop, Owns,
  Inv, Away, At-keeps, Owns-keeps, value_at, pushed_at,
}
use edge_orchestrator_ai.Executor.TaskQueue.Moves.{update_at}
use edge_orchestrator_ai.Executor.TaskQueue.Releases.{update_here, update_away, number_lap}
use edge_orchestrator_ai.Executor.TaskQueue.Room.{above-untouched, CanPush-room, CanPop-Full}

pub get_elem?-last :
    {A : Type 0} (xs : List A) (v : A) → get_elem? (xs ++ (v ∷ [])) (length xs) ≡ some v
get_elem?-last [] v = refl
get_elem?-last (x ∷ xs) v = get_elem?-last xs v

get_elem?-before :
    {A : Type 0} (xs ys : List A) (i : ℕ) → i < length xs → get_elem? (xs ++ ys) i ≡ get_elem? xs i
get_elem?-before [] ys i h = absurd (omega arith)
get_elem?-before (x ∷ xs) ys zero h = refl
get_elem?-before (x ∷ xs) ys (suc i) h = get_elem?-before xs ys i (omega arith)

-- A position that is in another stage is not the one that changes.
pub stage-stays :
    (stage : ℕ → Stage) (p q : ℕ) (g g' : Stage)
    → stage q ≡ g'
    → stage p ≢ g'
    → update stage p g q ≡ g'
stage-stays stage p q g g' e n =
    update_at (λ x. x ≡ g') stage p g q (λ same. absurd (n (ap stage same ∙ e))) (λ m. e)

module _ {A : Type 0} {s : System A} {stage : ℕ → Stage} (inv : Inv stage s) (t : ℕ) where
  open inv use {lap, order, bounded, counted, at, free, owned}

  abbrev pub push_claims : A → System A
  push_claims v = record s {
    queue = record (s.queue) { enqueue_pos = s.queue.enqueue_pos + 1 };
    pc = update s.pc t (push_claimed v s.queue.enqueue_pos);
    pushed = s.pushed ++ (v ∷ []);
  }

  abbrev pub pop_claims : System A
  pop_claims = record s {
    queue = record (s.queue) { dequeue_pos = s.queue.dequeue_pos + 1 };
    pc = update s.pc t (pop_claimed s.queue.dequeue_pos);
  }

  push-Away :
      (v : A) (pos seq : ℕ)
      → s.pc t ≡ push_seen v pos seq
      → (q : ℕ) → s.queue.enqueue_pos ≢ q
      → CanPush s
      → Away s (push_claims v) q
  push-Away v pos seq h q n can = record {
    lap = refl;
    later = omega arith;
    more = omega arith;
    unclaimed = λ l. l;
    unpushed = λ l. omega (arith, l, n);
    within = λ l numbered. elim (ℕ_discrete s.queue.enqueue_pos (q + s.queue.capacity)) [
      | yes e ↦ absurd (
          let lapped = number_lap inv t q s.queue.enqueue_pos e in
          omega (arith, lapped, can, numbered, e, lap))
      | no m ↦ omega (arith, l, m)
    ];
    sequence = λ l k. refl;
    value = λ l k. refl;
    pushed = λ l. get_elem?-before s.pushed (v ∷ []) q (omega (arith, l, counted));
    returned = refl;
    fills = λ j x w f.
        update_at (Fills x w q) s.pc t (push_claimed v s.queue.enqueue_pos) j
          (λ e. absurd (subst (Fills x w q) (ap s.pc (sym e) ∙ h) f)) (λ m. f);
    drains = λ j x w f.
        update_at (Drains x w q) s.pc t (push_claimed v s.queue.enqueue_pos) j
          (λ e. absurd (subst (Drains x w q) (ap s.pc (sym e) ∙ h) f)) (λ m. f);
  }

  pub push_claims-Inv :
      (v : A) (pos seq : ℕ)
      → s.pc t ≡ push_seen v pos seq
      → CanPush s
      → Inv (update stage s.queue.enqueue_pos (filling t)) (push_claims v)
  push_claims-Inv v pos seq h can = record {
    lap = lap;
    order = omega (arith, order);
    bounded = omega (arith, CanPush-room inv t can);
    counted = omega (arith, length-append s.pushed (v ∷ []), counted);
    at = λ q. elim (ℕ_discrete s.queue.enqueue_pos q) [
      | yes e ↦
          subst (λ i. At s' i (stage' i)) e
            (subst (At s' s.queue.enqueue_pos) (sym (update_here stage _ _)) here)
      | no n ↦
          subst (At s' q) (sym (update_away stage _ _ q n))
            (At-keeps q (stage q) order bounded (push-Away v pos seq h q n can) (at q))
    ];
    free = λ q l k. elim (free q (omega (arith, l)) k) [
      | inl numbered ↦ inl numbered
      | inr (q', j, e, m) ↦
          inr (q', j, e, stage-stays stage _ q' _ _ m (λ c. absurd (let f = sym fresh.0 ∙ c in cc)))
    ];
    owned = λ j.
        update_at (Owns s' stage' j) s.pc t (push_claimed v s.queue.enqueue_pos) j
          (λ e. update_here stage s.queue.enqueue_pos (filling t) ∙ ap filling e)
          (λ n.
            Owns-keeps s s' stage stage' j (s.pc j) (omega arith) (omega arith)
              (λ e. absurd (omega (arith, e))) (λ e can'. can')
              (λ q e. stage-stays stage _ q _ _ e (λ c. absurd (let f = sym fresh.0 ∙ c in cc)))
              (λ q e. stage-stays stage _ q _ _ e (λ c. absurd (let f = sym fresh.0 ∙ c in cc)))
              (owned j));
  }
    where
      s' : System A
      s' = push_claims v

      stage' : ℕ → Stage
      stage' = update stage s.queue.enqueue_pos (filling t)

      fresh : (stage s.queue.enqueue_pos ≡ untouched) × (s.returned s.queue.enqueue_pos ≡ [])
      fresh =
          above-untouched inv t s.queue.enqueue_pos (stage s.queue.enqueue_pos) (omega arith)
            (at s.queue.enqueue_pos)

      last : pushed_at s' s.queue.enqueue_pos ≡ some v
      last = ap (λ n. get_elem? (s.pushed ++ (v ∷ [])) n) (sym counted) ∙ get_elem?-last s.pushed v

      here : At s' s.queue.enqueue_pos (filling t)
      here = record {
        low = order;
        high = omega arith;
        numbered = can;
        owner =
            subst
              (Fills (pushed_at s' s.queue.enqueue_pos) (value_at s' s.queue.enqueue_pos)
                s.queue.enqueue_pos)
              (sym (update_here s.pc t (push_claimed v s.queue.enqueue_pos))) (refl, last);
        unreturned = fresh.1;
      }

  pop-Away :
      (pos seq : ℕ)
      → s.pc t ≡ pop_seen pos seq
      → (q : ℕ) → s.queue.dequeue_pos ≢ q
      → Away s pop_claims q
  pop-Away pos seq h q n = record {
    lap = refl;
    later = omega arith;
    more = omega arith;
    unclaimed = λ l. omega (arith, l, n);
    unpushed = λ l. l;
    within = λ l numbered. l;
    sequence = λ l k. refl;
    value = λ l k. refl;
    pushed = λ l. refl;
    returned = refl;
    fills = λ j x w f.
        update_at (Fills x w q) s.pc t (pop_claimed s.queue.dequeue_pos) j
          (λ e. absurd (subst (Fills x w q) (ap s.pc (sym e) ∙ h) f)) (λ m. f);
    drains = λ j x w f.
        update_at (Drains x w q) s.pc t (pop_claimed s.queue.dequeue_pos) j
          (λ e. absurd (subst (Drains x w q) (ap s.pc (sym e) ∙ h) f)) (λ m. f);
  }

  pub pop_claims-Inv :
      (pos seq : ℕ)
      → s.pc t ≡ pop_seen pos seq
      → CanPop s
      → Inv (update stage s.queue.dequeue_pos (draining t)) pop_claims
  pop_claims-Inv pos seq h can = record {
    lap = lap;
    order = omega (arith, held.1.high);
    bounded = omega (arith, bounded);
    counted = counted;
    at = λ q. elim (ℕ_discrete s.queue.dequeue_pos q) [
      | yes e ↦
          subst (λ i. At pop_claims i (stage' i)) e
            (subst (At pop_claims s.queue.dequeue_pos) (sym (update_here stage _ _)) here)
      | no n ↦
          subst (At pop_claims q) (sym (update_away stage _ _ q n))
            (At-keeps q (stage q) order bounded (pop-Away pos seq h q n) (at q))
    ];
    free = free';
    owned = λ j.
        update_at (Owns pop_claims stage' j) s.pc t (pop_claimed s.queue.dequeue_pos) j
          (λ e. update_here stage s.queue.dequeue_pos (draining t) ∙ ap draining e)
          (λ n.
            Owns-keeps s pop_claims stage stage' j (s.pc j) (omega arith) (omega arith)
              (λ e can'. can') (λ e. absurd (omega (arith, e)))
              (λ q e. stage-stays stage _ q _ _ e (λ c. absurd (let f = sym held.0 ∙ c in cc)))
              (λ q e. stage-stays stage _ q _ _ e (λ c. absurd (let f = sym held.0 ∙ c in cc)))
              (owned j));
  }
    where
      stage' : ℕ → Stage
      stage' = update stage s.queue.dequeue_pos (draining t)

      held : (stage s.queue.dequeue_pos ≡ full) × Full s s.queue.dequeue_pos
      held = CanPop-Full inv t (stage s.queue.dequeue_pos) refl (at s.queue.dequeue_pos) can

      here : At pop_claims s.queue.dequeue_pos (draining t)
      here = record {
        low = bounded;
        high = omega arith;
        numbered = can;
        owner =
            subst
              (Drains (pushed_at s s.queue.dequeue_pos) (value_at s s.queue.dequeue_pos)
                s.queue.dequeue_pos)
              (sym (update_here s.pc t (pop_claimed s.queue.dequeue_pos))) (refl, held.1.value);
        unreturned = held.1.unreturned;
      }

      free' :
          (q : ℕ)
          → s.queue.enqueue_pos ≤ q
          → q < s.queue.dequeue_pos + 1 + s.queue.capacity
          → Free pop_claims stage' q
      free' q l k = elim (ℕ_discrete (s.queue.dequeue_pos + s.queue.capacity) q) [
        | yes e ↦
            inr (s.queue.dequeue_pos, t, e, update_here stage s.queue.dequeue_pos (draining t))
        | no n ↦ elim (free q l (omega (arith, k, n))) [
          | inl numbered ↦ inl numbered
          | inr (q', j, e, m) ↦
              inr (
                q',
                j,
                e,
                stage-stays stage _ q' _ _ m (λ c. absurd (let f = sym held.0 ∙ c in cc)),
              )
        ]
      ]
