-- ===== src/Scheduler/Choice.antt =====
-- The loop by which a policy picks a node: over the indices of its list, it keeps the best key so
-- far and where it stands.
use edge_orchestrator_ai.Prelude.{
  ℕ, zero, suc, ◌+◌, ◌≡◌, refl, sym, ◌⊎◌, inl, inr, Bool, true, false, List, [], ◌∷◌, ◌&&◌, some,
  get_elem?, arith, Bool-cases, if◌then◌else◌,
}

module _ {A K : Type 0} (better : K → K → Bool) (ok : ℕ → A → Bool) (key : ℕ → A → K) where
  unfoldable pub choose : List A → ℕ → K → ℕ → K × ℕ
  choose [] i best best_idx = (best, best_idx)
  choose (x ∷ xs) i best best_idx =
      let improves = ok i x && better (key i x) best in
      choose xs (i + 1) (if improves then key i x else best) (if improves then i else best_idx)

  -- What the loop over xs, whose indices start at i, makes of the best so far.
  pub record Chosen (xs : List A) (i : ℕ) (from to : K × ℕ) : Type 0 where
    pub bound : (x : K) → better x from.0 ≡ false → better x to.0 ≡ false
    pub none_better :
        (j : ℕ) (x : A)
        → get_elem? xs j ≡ some x
        → ok (i + j) x ≡ true
        → better (key (i + j) x) to.0 ≡ false
    pub picked :
        (to ≡ from)
        ⊎ ((j : ℕ) × (x : A) × (get_elem? xs j ≡ some x)
            × (ok (i + j) x ≡ true)
            × (to ≡ (key (i + j) x, i + j)))

  module _ (irreflexive : (a : K) → better a a ≡ false)
      (transitive : (a b c : K) → better a b ≡ true → better b c ≡ true → better a c ≡ true) where
    better_false_trans : (x y z : K) → better y z ≡ true → better x z ≡ false → better x y ≡ false
    better_false_trans x y z yz xz = elim (Bool-cases (better x y)) [
      | inl xy ↦ let bad = transitive x y z xy yz in cc
      | inr not_xy ↦ not_xy
    ]

    next_index : (i j : ℕ) → i + suc j ≡ i + 1 + j
    next_index i j = omega arith

    first_index : (i : ℕ) → i + 0 ≡ i
    first_index i = omega arith

    -- The key that stands first is beaten by none of its own and by what beats the best.
    module _ (x : A) (xs : List A) (i : ℕ) (from to : K × ℕ) where
      take-Chosen :
          ok i x ≡ true
          → better (key i x) from.0 ≡ true
          → Chosen xs (i + 1) (key i x, i) to
          → Chosen (x ∷ xs) i from to
      take-Chosen fits less h = record {
        bound = λ y e. h.bound y (better_false_trans y (key i x) from.0 less e);
        none_better = none_better;
        picked = elim h.picked [
          | inl e ↦ inr (0, x, refl, rw (first_index i) fits, rw (first_index i) e)
          | inr (j, y, at, o, e) ↦ inr (suc j, y, at, rw (next_index i j) o, rw (next_index i j) e)
        ];
      }
        where
          none_better :
              (j : ℕ) (y : A)
              → get_elem? (x ∷ xs) j ≡ some y
              → ok (i + j) y ≡ true
              → better (key (i + j) y) to.0 ≡ false
          none_better zero y at o =
              let same : x ≡ y = cc in
              rw (first_index i, sym same) (h.bound (key i x) (irreflexive (key i x)))
          none_better (suc j) y at o =
              rw (next_index i j) (h.none_better j y at (rw (next_index i j) at o))

      pass-Chosen :
          (ok i x && better (key i x) from.0) ≡ false
          → Chosen xs (i + 1) from to
          → Chosen (x ∷ xs) i from to
      pass-Chosen worse h = record {
        bound = h.bound;
        none_better = none_better;
        picked = elim h.picked [
          | inl e ↦ inl e
          | inr (j, y, at, o, e) ↦ inr (suc j, y, at, rw (next_index i j) o, rw (next_index i j) e)
        ];
      }
        where
          none_better :
              (j : ℕ) (y : A)
              → get_elem? (x ∷ xs) j ≡ some y
              → ok (i + j) y ≡ true
              → better (key (i + j) y) to.0 ≡ false
          none_better zero y at o =
              let same : x ≡ y = cc in
              let fits : ok i x ≡ true = rw (first_index i, sym same) at o in
              rw (first_index i, sym same) (h.bound (key i x) (ground arith))
          none_better (suc j) y at o =
              rw (next_index i j) (h.none_better j y at (rw (next_index i j) at o))

    pub choose-Chosen :
        (xs : List A) (i : ℕ) (best : K) (best_idx : ℕ)
        → Chosen xs i (best, best_idx) (choose xs i best best_idx)
    unfolding choose
    choose-Chosen [] i best best_idx = record {
      bound = λ x e. e;
      none_better = λ j x at. cc;
      picked = inl refl;
    }
    choose-Chosen (x ∷ xs) i best best_idx = elim (Bool-cases (ok i x && better (key i x) best)) [
      | inl improves ↦
          rw (improves, choose)
            (take-Chosen x xs i (best, best_idx) _ (ground arith) (ground arith)
              (choose-Chosen xs (i + 1) (key i x) i))
      | inr worse ↦
          rw (worse, choose)
            (pass-Chosen x xs i (best, best_idx) _ worse (choose-Chosen xs (i + 1) best best_idx))
    ]
