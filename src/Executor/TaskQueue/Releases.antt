-- ===== src/Executor/TaskQueue/Releases.antt =====
-- A thread that has written or taken the value gives the cell on by its sequence number.
use edge_orchestrator_ai.Prelude.{
  ℕ, ◌+◌, ◌%◌, ◌≤◌, ◌<◌, ◌≡◌, ◌≢◌, refl, sym, ◌∙◌, subst, ap, List, Option, ℕ_discrete, arith,
}
use edge_orchestrator_ai.Executor.TaskQueue.{idle, Cell, System, update, cell}
use edge_orchestrator_ai.Executor.TaskQueue.Positions.{mod-lap}
use edge_orchestrator_ai.Executor.TaskQueue.Invariant.{
  Stage, filling, draining, done, At, Free, CanPush, CanPop, Owns, Inv, At-keeps, Owns-keeps,
  sequence_at,
}
use edge_orchestrator_ai.Executor.TaskQueue.Moves.{
  update_at, Only, written, cell_away, written-Away,
}

pub update_here {ℓ} : {B : Type ℓ} (f : ℕ → B) (i : ℕ) (b : B) → update f i b i ≡ b
update_here f i b = update_at (λ x. x ≡ b) f i b i (λ e. refl) (λ n. absurd (n refl))

pub update_away {ℓ} :
    {B : Type ℓ} (f : ℕ → B) (i : ℕ) (b : B) (j : ℕ) → i ≢ j → update f i b j ≡ f j
update_away f i b j n = update_at (λ x. x ≡ f j) f i b j (λ e. absurd (n e)) (λ m. refl)

module _ {A : Type 0} {s : System A} {stage : ℕ → Stage} (inv : Inv stage s) (t : ℕ) where
  open inv use {lap, order, bounded, counted, at, free, owned}

  -- The position p, which no other thread holds, goes to the stage g, and the thread is in no call.
  module _ (p seq : ℕ) (g : Stage) (returned : ℕ → List (Option A)) where
    abbrev pub numbered_cell : Cell A
    numbered_cell = record (cell s.queue p) { sequence = seq }

    abbrev pub released : System A
    released = written inv t p numbered_cell idle returned

    pub released-Inv :
        s.queue.enqueue_pos ≤ p + s.queue.capacity
        → p < s.queue.enqueue_pos
        → Only p (s.pc t)
        → ((q : ℕ) → q ≢ p → returned q ≡ s.returned q)
        → ((j : ℕ) → stage p ≡ filling j → j ≡ t)
        → ((j : ℕ) → stage p ≡ draining j → j ≡ t)
        → At released p g
        → ((q : ℕ)
            → s.queue.enqueue_pos ≤ q
            → q < s.queue.dequeue_pos + s.queue.capacity
            → Free released (update stage p g) q)
        → (CanPush s → CanPush released)
        → (CanPop s → CanPop released)
        → Inv (update stage p g) released
    released-Inv near early only same fills drains here free' push pop = record {
      lap = lap;
      order = order;
      bounded = bounded;
      counted = counted;
      at = λ q. elim (ℕ_discrete p q) [
        | yes e ↦
            subst (λ i. At released i (update stage p g i)) e
              (subst (At released p) (sym (update_here stage p g)) here)
        | no n ↦ subst (At released q) (sym (update_away stage p g q n)) (
            At-keeps q (stage q) order bounded
              (written-Away inv t p q numbered_cell idle returned near early only
                (same q (λ e. n (sym e))) (λ e. n (sym e)))
              (at q))
      ];
      free = free';
      owned = λ j.
          update_at (Owns released (update stage p g) j) s.pc t idle j (λ e. tt)
            (λ n.
              Owns-keeps s released stage (update stage p g) j (s.pc j) (omega arith) (omega arith)
                (λ e. push) (λ e. pop) (λ q e. stays j q n e fills) (λ q e. stays' j q n e drains)
                (owned j));
    }
      where
        stays :
            (j q : ℕ)
            → t ≢ j
            → stage q ≡ filling j
            → ((i : ℕ) → stage p ≡ filling i → i ≡ t)
            → update stage p g q ≡ filling j
        stays j q n e mine =
            update_at (λ x. x ≡ filling j) stage p g q
              (λ same_place. absurd (n (sym (mine j (ap stage same_place ∙ e))))) (λ m. e)

        stays' :
            (j q : ℕ)
            → t ≢ j
            → stage q ≡ draining j
            → ((i : ℕ) → stage p ≡ draining i → i ≡ t)
            → update stage p g q ≡ draining j
        stays' j q n e mine =
            update_at (λ x. x ≡ draining j) stage p g q
              (λ same_place. absurd (n (sym (mine j (ap stage same_place ∙ e))))) (λ m. e)

  -- Another cell keeps its number.
  pub kept_number :
      (p seq q : ℕ) (returned : ℕ → List (Option A))
      → q ≢ p
      → q < p + s.queue.capacity
      → p < q + s.queue.capacity
      → sequence_at (released p seq done returned) q ≡ sequence_at s q
  kept_number p seq q returned other near close =
      ap (λ (c : Cell A). c.sequence)
        (cell_away inv t p q (numbered_cell p seq done returned) other near close)

  -- A position has the cell of the one a lap before.
  pub number_lap : (p q : ℕ) → q ≡ p + s.queue.capacity → sequence_at s q ≡ sequence_at s p
  number_lap p q e =
      ap (λ i. (s.queue.cells i).sequence)
        (ap (λ n. n % s.queue.capacity) e ∙ mod-lap s.queue.capacity p (omega (arith, lap)))
