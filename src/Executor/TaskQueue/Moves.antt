-- ===== src/Executor/TaskQueue/Moves.antt =====
-- A move that touches no claimed position, and a write to the cell of one that the thread holds.
use edge_orchestrator_ai.Prelude.{
  ℕ, ◌+◌, ◌%◌, ◌≤◌, ◌<◌, ◌≡◌, ◌≢◌, refl, sym, ◌∙◌, subst, ap, List, Option, ℕ_discrete, arith,
  dec_lt, if_pos, if_neg, inl, inr,
}
use edge_orchestrator_ai.Executor.TaskQueue.{Pc, Cell, System, update, goes, cell}
use edge_orchestrator_ai.Executor.TaskQueue.Positions.{mod-apart}
use edge_orchestrator_ai.Executor.TaskQueue.Invariant.{
  Stage, Fills, Drains, At, Owns, Inv, Away, At-keeps, Owns-keeps,
}

pub update_at {ℓ κ} :
    {B : Type ℓ} (P : B → Type κ) (f : ℕ → B) (i : ℕ) (b : B) (j : ℕ)
    → (i ≡ j → P b)
    → (i ≢ j → P (f j))
    → P (update f i b j)
update_at P f i b j same other = elim (ℕ_discrete i j) [
  | yes e ↦ subst P (sym (if_pos (ℕ_discrete i j) e b (f j))) (same e)
  | no n ↦ subst P (sym (if_neg (ℕ_discrete i j) n b (f j))) (other n)
]

-- The thread holds no position but p.
pub record Only {A : Type 0} (p : ℕ) (c : Pc A) : Type 0 where
  pub fills : (q : ℕ) (x v : Option A) → Fills x v q c → q ≡ p
  pub drains : (q : ℕ) (x v : Option A) → Drains x v q c → q ≡ p

abbrev pub Idle : {A : Type 0} → Pc A → Type 0
Idle {A} c = (p : ℕ) → Only p c

module _ {A : Type 0} {s : System A} {stage : ℕ → Stage} (inv : Inv stage s) (t : ℕ) where
  open inv use {lap, order, bounded, counted, at, free, owned}

  quiet-Away : (next : Pc A) → Idle (s.pc t) → (p : ℕ) → Away s (goes t next s) p
  quiet-Away next calm p = record {
    lap = refl;
    later = omega arith;
    more = omega arith;
    unclaimed = λ h. h;
    unpushed = λ h. h;
    within = λ h e. h;
    sequence = λ h k. refl;
    value = λ h k. refl;
    pushed = λ h. refl;
    returned = refl;
    fills = λ j x v f.
        update_at (Fills x v p) s.pc t next j
          (λ e.
            absurd
              (clash (λ q. (calm q).fills p x v (subst (λ i. Fills x v p (s.pc i)) (sym e) f))))
          (λ n. f);
    drains = λ j x v f.
        update_at (Drains x v p) s.pc t next j
          (λ e.
            absurd
              (clash (λ q. (calm q).drains p x v (subst (λ i. Drains x v p (s.pc i)) (sym e) f))))
          (λ n. f);
  }
    where
      clash : ((q : ℕ) → p ≡ q) → ⊥
      clash all = omega (arith, all (p + 1))

  -- A step of a thread that holds no position, to locals that are true.
  pub quiet-Inv : (next : Pc A) → Idle (s.pc t) → Owns s stage t next → Inv stage (goes t next s)
  quiet-Inv next calm true_of = record {
    lap = lap;
    order = order;
    bounded = bounded;
    counted = counted;
    at = λ p. At-keeps p (stage p) order bounded (quiet-Away next calm p) (at p);
    free = free;
    owned = λ j.
        update_at (Owns s stage j) s.pc t next j (λ e. subst (λ i. Owns s stage i next) e true_of)
          (λ n. owned j);
  }

  -- The cell of position p becomes c.
  abbrev pub written : ℕ → Cell A → Pc A → (ℕ → List (Option A)) → System A
  written p c next returned = record s {
    queue = record (s.queue) { cells = update s.queue.cells (p % s.queue.capacity) c };
    pc = update s.pc t next;
    returned = returned;
  }

  pub cell_apart :
      (p q : ℕ) (c : Cell A)
      → p % s.queue.capacity ≢ q % s.queue.capacity
      → update s.queue.cells (p % s.queue.capacity) c (q % s.queue.capacity) ≡ cell s.queue q
  cell_apart p q c apart =
      if_neg (ℕ_discrete (p % s.queue.capacity) (q % s.queue.capacity)) apart c _

  -- Another position of the same lap has another cell.
  pub cell_away :
      (p q : ℕ) (c : Cell A)
      → q ≢ p
      → q < p + s.queue.capacity
      → p < q + s.queue.capacity
      → update s.queue.cells (p % s.queue.capacity) c (q % s.queue.capacity) ≡ cell s.queue q
  cell_away p q c other near close = cell_apart p q c apart
    where
      apart : p % s.queue.capacity ≢ q % s.queue.capacity
      apart = elim (dec_lt p q) [
        | yes below ↦ λ e. mod-apart s.queue.capacity p q below near (sym e)
        | no not_below ↦ λ e. mod-apart s.queue.capacity q p (omega arith) close e
      ]

  pub cell_here :
      (p : ℕ) (c : Cell A)
      → update s.queue.cells (p % s.queue.capacity) c (p % s.queue.capacity) ≡ c
  cell_here p c = if_pos (ℕ_discrete (p % s.queue.capacity) (p % s.queue.capacity)) refl c _

  pub written-Away :
      (p q : ℕ) (c : Cell A) (next : Pc A) (returned : ℕ → List (Option A))
      → s.queue.enqueue_pos ≤ p + s.queue.capacity
      → p < s.queue.enqueue_pos
      → Only p (s.pc t)
      → returned q ≡ s.returned q
      → q ≢ p
      → Away s (written p c next returned) q
  written-Away p q c next returned near early only same other = record {
    lap = refl;
    later = omega arith;
    more = omega arith;
    unclaimed = λ h. h;
    unpushed = λ h. h;
    within = λ h e. h;
    sequence = λ h k.
        ap (λ (d : Cell A). d.sequence)
          (cell_away p q c other (omega (arith, near, early, h, k))
            (omega (arith, near, early, h, k)));
    value = λ h k.
        ap (λ (d : Cell A). d.value)
          (cell_away p q c other (omega (arith, near, early, h, k))
            (omega (arith, near, early, h, k)));
    pushed = λ h. refl;
    returned = same;
    fills = λ j x v f.
        update_at (Fills x v q) s.pc t next j
          (λ e. absurd (other (only.fills q x v (subst (λ i. Fills x v q (s.pc i)) (sym e) f))))
          (λ n. f);
    drains = λ j x v f.
        update_at (Drains x v q) s.pc t next j
          (λ e. absurd (other (only.drains q x v (subst (λ i. Drains x v q (s.pc i)) (sym e) f))))
          (λ n. f);
  }

  -- A write of the value alone.
  module _ (p : ℕ) (v : Option A) where
    abbrev pub valued : Cell A
    valued = record (cell s.queue p) { value = v }

    same_sequence :
        (n : ℕ)
        → (update s.queue.cells (p % s.queue.capacity) valued n).sequence
          ≡ (s.queue.cells n).sequence
    same_sequence n =
        update_at (λ (c : Cell A). c.sequence ≡ (s.queue.cells n).sequence) s.queue.cells
          (p % s.queue.capacity) valued n (λ e. ap (λ i. (s.queue.cells i).sequence) e) (λ n. refl)

    pub valued-Inv :
        (next : Pc A)
        → s.queue.enqueue_pos ≤ p + s.queue.capacity
        → p < s.queue.enqueue_pos
        → Only p (s.pc t)
        → At (written p valued next s.returned) p (stage p)
        → Owns s stage t next
        → Inv stage (written p valued next s.returned)
    valued-Inv next near early only here true_of = record {
      lap = lap;
      order = order;
      bounded = bounded;
      counted = counted;
      at = λ q. elim (ℕ_discrete q p) [
        | yes e ↦ subst (λ i. At (written p valued next s.returned) i (stage i)) (sym e) here
        | no n ↦
            At-keeps q (stage q) order bounded
              (written-Away p q valued next s.returned near early only refl n) (at q)
      ];
      free = λ q h k. elim (free q h k) [
        | inl numbered ↦ inl (same_sequence (q % s.queue.capacity) ∙ numbered)
        | inr last ↦ inr last
      ];
      owned = λ j.
          update_at (Owns (written p valued next s.returned) stage j) s.pc t next j
            (λ e.
              subst (λ i. Owns (written p valued next s.returned) stage i next) e
                (keep t next true_of))
            (λ n. keep j (s.pc j) (owned j));
    }
      where
        keep :
            (j : ℕ) (d : Pc A)
            → Owns s stage j d
            → Owns (written p valued next s.returned) stage j d
        keep j d =
            Owns-keeps s (written p valued next s.returned) stage stage j d (omega arith)
              (omega arith) (λ e can. same_sequence (s.queue.enqueue_pos % s.queue.capacity) ∙ can)
              (λ e can. same_sequence (s.queue.dequeue_pos % s.queue.capacity) ∙ can) (λ q e. e)
              (λ q e. e)
