-- ===== src/Workload/Dag/Iteration.antt =====
-- The order in which a range-for visits a std::unordered_map that a function builds. The standard
-- leaves it open; it promises that each entry is visited once.
use mathlib.Core.List.{Perm, Permᴰ}
use mathlib.Core.List.Perm
use mathlib.Core.Logic.{∥∥₁_elim}
use edge_orchestrator_ai.Prelude.{
  List, [], ◌∷◌, ◌≡◌, ◌∙◌, refl, sym, elem, Distinct, string_key, arith, subst,
}
use edge_orchestrator_ai.Prelude.HashMap.{keys, find}
use edge_orchestrator_ai.Core.Types.{TaskId}

pub record Iteration : Type 1 where
  pub visit : {V : Type 0} → List (TaskId × V) → List (TaskId × V)
  pub visit-perm : {V : Type 0} (m : List (TaskId × V)) → Perm (visit m) m

Distinct-prop : (xs : List TaskId) → IsProp (Distinct xs)
Distinct-prop [] = hlevel
Distinct-prop (x ∷ xs) = hlevel (Distinct-prop xs)

module _ {V : Type 0} where
  -- The two lists are the same map.
  pub record SameMap (l m : List (TaskId × V)) : Type 0 where
    pub distinct : Distinct (keys m)
    pub same_keys : (v : TaskId) → elem v (keys l) ≡ elem v (keys m)
    pub same_values : (v : TaskId) → find v l ≡ find v m

  SameMap-cons :
      (x : TaskId) (a : V) (l m : List (TaskId × V))
      → Distinct (keys ((x, a) ∷ l))
      → SameMap l m
      → SameMap ((x, a) ∷ l) ((x, a) ∷ m)
  unfolding elem find
  SameMap-cons x a l m h same = record {
    distinct = (sym (same.same_keys x) ∙ h.0, same.distinct);
    same_keys = λ v. rw (same.same_keys v);
    same_values = λ v. rw (same.same_values v);
  }

  SameMap-swap :
      (x y : TaskId) (a b : V) (l : List (TaskId × V))
      → Distinct (keys ((x, a) ∷ (y, b) ∷ l))
      → SameMap ((x, a) ∷ (y, b) ∷ l) ((y, b) ∷ (x, a) ∷ l)
  unfolding elem find
  SameMap-swap x y a b l h = record {
    distinct = ground arith;
    same_keys = λ v. ground arith;
    same_values = λ v. ground arith;
  }

  Permᴰ-SameMap : {l m : List (TaskId × V)} → Permᴰ l m → Distinct (keys l) → SameMap l m
  unfolding elem find
  Permᴰ-SameMap Permᴰ.nil h = record {
    distinct = tt;
    same_keys = λ v. refl;
    same_values = λ v. refl;
  }
  Permᴰ-SameMap (Permᴰ.cons {a} {b} {l₁} {l₂} e p) h =
      subst (λ x. SameMap (a ∷ l₁) (x ∷ l₂)) e (SameMap-cons a.0 a.1 l₁ l₂ h (Permᴰ-SameMap p h.1))
  Permᴰ-SameMap (Permᴰ.swap {a} {b} {a'} {b'} {l} e f) h =
      subst (λ x. SameMap (a ∷ b ∷ l) (x ∷ b' ∷ l)) f
        (subst (λ x. SameMap (a ∷ b ∷ l) (b ∷ x ∷ l)) e (SameMap-swap a.0 b.0 a.1 b.1 l h))
  Permᴰ-SameMap (Permᴰ.trans p q) h =
      let first = Permᴰ-SameMap p h in
      let second = Permᴰ-SameMap q first.distinct in
      record {
        distinct = second.distinct;
        same_keys = λ v. first.same_keys v ∙ second.same_keys v;
        same_values = λ v. first.same_values v ∙ second.same_values v;
      }

  -- Visiting changes nothing but the order.
  pub visit-SameMap :
      (it : Iteration) (m : List (TaskId × V))
      → IsSet V
      → Distinct (keys m)
      → SameMap m (it.visit m)
  visit-SameMap it m v h = record {
    distinct = ∥∥₁_elim p (Distinct-prop (keys (it.visit m))) (λ q. (Permᴰ-SameMap q h).distinct);
    same_keys = λ w. ∥∥₁_elim p (hlevel) (λ q. (Permᴰ-SameMap q h).same_keys w);
    same_values = λ w. ∥∥₁_elim p (hlevel v) (λ q. (Permᴰ-SameMap q h).same_values w);
  }
    where
      p : Perm m (it.visit m)
      p = Perm.symm (it.visit-perm m)
