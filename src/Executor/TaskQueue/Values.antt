-- ===== src/Executor/TaskQueue/Values.antt =====
-- A thread that holds a position moves the value into the cell, or out of it.
use edge_orchestrator_ai.Prelude.{ℕ, ◌≡◌, refl, sym, ◌∙◌, subst, ap, Option, none, some, arith}
use edge_orchestrator_ai.Executor.TaskQueue.{
  Pc, push_claimed, push_written, pop_claimed, pop_read, Cell, System, cell,
}
use edge_orchestrator_ai.Executor.TaskQueue.Invariant.{
  Stage, filling, draining, Fills, Drains, Filling, Draining, At, Owns, Inv, value_at, pushed_at,
}
use edge_orchestrator_ai.Executor.TaskQueue.Moves.{Only, written, valued, valued-Inv, cell_here}
use edge_orchestrator_ai.Executor.TaskQueue.Releases.{update_here}

module _ {A : Type 0} {s : System A} {stage : ℕ → Stage} (inv : Inv stage s) (t : ℕ) where
  open inv use {lap, order, bounded, at, owned}

  abbrev pub with_value : ℕ → Option A → Pc A → System A
  with_value p v next = written inv t p (valued inv t p v) next s.returned

  pub write-Inv :
      (p : ℕ) (v : A)
      → s.pc t ≡ push_claimed v p
      → Inv stage (with_value p (some v) (push_written p))
  write-Inv p v h =
      valued-Inv inv t p (some v) (push_written p) (omega (arith, a.low, bounded)) a.high only
        (subst (At s' p) (sym mine) here) mine
    where
      s' : System A
      s' = with_value p (some v) (push_written p)

      mine : stage p ≡ filling t
      mine = subst (Owns s stage t) h (owned t)

      a : Filling s p t
      a = subst (At s p) mine (at p)

      only : Only p (s.pc t)
      only =
          subst (Only p) (sym h)
            (record { fills = λ q x w f. sym f.0; drains = λ q x w f. absurd f })

      here_cell : cell s'.queue p ≡ valued inv t p (some v)
      here_cell = cell_here inv t p (valued inv t p (some v))

      put : value_at s' p ≡ pushed_at s p
      put =
          ap (λ (d : Cell A). d.value) here_cell
          ∙ sym (subst (Fills (pushed_at s p) (value_at s p) p) h a.owner).1

      here : Filling s' p t
      here = record {
        low = a.low;
        high = a.high;
        numbered = ap (λ (d : Cell A). d.sequence) here_cell ∙ a.numbered;
        owner =
            subst (Fills (pushed_at s p) (value_at s' p) p)
              (sym (update_here s.pc t (push_written p))) (refl, put);
        unreturned = a.unreturned;
      }

  pub take-Inv :
      (p : ℕ) → s.pc t ≡ pop_claimed p → Inv stage (with_value p none (pop_read p (value_at s p)))
  take-Inv p h =
      valued-Inv inv t p none (pop_read p (value_at s p)) a.low (omega (arith, a.high, order)) only
        (subst (At s' p) (sym mine) here) mine
    where
      s' : System A
      s' = with_value p none (pop_read p (value_at s p))

      mine : stage p ≡ draining t
      mine = subst (Owns s stage t) h (owned t)

      a : Draining s p t
      a = subst (At s p) mine (at p)

      only : Only p (s.pc t)
      only =
          subst (Only p) (sym h)
            (record { fills = λ q x w f. absurd f; drains = λ q x w f. sym f.0 })

      here_cell : cell s'.queue p ≡ valued inv t p none
      here_cell = cell_here inv t p (valued inv t p none)

      got : value_at s p ≡ pushed_at s p
      got = (subst (Drains (pushed_at s p) (value_at s p) p) h a.owner).1

      here : Draining s' p t
      here = record {
        low = a.low;
        high = a.high;
        numbered = ap (λ (d : Cell A). d.sequence) here_cell ∙ a.numbered;
        owner =
            subst (Drains (pushed_at s p) (value_at s' p) p)
              (sym (update_here s.pc t (pop_read p (value_at s p)))) (refl, got);
        unreturned = a.unreturned;
      }
