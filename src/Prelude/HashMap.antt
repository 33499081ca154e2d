-- ===== src/Prelude/HashMap.antt =====
-- std::unordered_map as an association list whose keys are distinct. The list's order is the order
-- in which a range-for visits the map; a new key is linked in at the end.
pub mod Writes
use Prim.Native.Nat.{suc}
use mathlib.Core.Path.{◌≡◌, refl, sym, ◌∙◌, ap}
use mathlib.Core.Logic.{ite, if_pos, if_neg}
use mathlib.Core.Bool.{true, false}
use mathlib.Core.Option.{Option, none, some}
use mathlib.Core.List.{List, [], ◌∷◌}
use native.Mathlib.Omega.{arith}
use edge_orchestrator_ai.Prelude.Lists.{length}
use edge_orchestrator_ai.Prelude.Keys.{Key, elem, Distinct}

module _ {ℓ} {K V : Type ℓ} ⦃k : Key K⦄ where
  -- find
  unfoldable pub find : K → List (K × V) → Option V
  find x [] = none
  find x ((y, v) ∷ m) = ite (k.dec x y) (some v) (find x m)

  -- find, with a default for a missing key
  unfoldable pub find_or : V → K → List (K × V) → V
  find_or d x [] = d
  find_or d x ((y, v) ∷ m) = ite (k.dec x y) v (find_or d x m)

  -- m[x] = v, or insert_or_assign
  unfoldable pub assign : K → V → List (K × V) → List (K × V)
  assign x v [] = (x, v) ∷ []
  assign x v ((y, w) ∷ m) = ite (k.dec x y) ((x, v) ∷ m) ((y, w) ∷ assign x v m)

  -- emplace: a key that is there keeps its value. `m[x];` is `emplace` of the default value.
  unfoldable pub emplace : K → V → List (K × V) → List (K × V)
  emplace x v [] = (x, v) ∷ []
  emplace x v ((y, w) ∷ m) = ite (k.dec x y) ((y, w) ∷ m) ((y, w) ∷ emplace x v m)

  -- A write through the iterator that find returned; no effect on end().
  unfoldable pub update : K → (V → V) → List (K × V) → List (K × V)
  update x f [] = []
  update x f ((y, w) ∷ m) = ite (k.dec x y) ((y, f w) ∷ m) ((y, w) ∷ update x f m)

  unfoldable pub erase : K → List (K × V) → List (K × V)
  erase x [] = []
  erase x ((y, w) ∷ m) = ite (k.dec x y) m ((y, w) ∷ erase x m)

  abbrev pub keys : List (K × V) → List K
  keys [] = []
  keys ((y, w) ∷ m) = y ∷ keys m

  pub find-assign :
      (x z : K) (v : V) (m : List (K × V))
      → find z (assign x v m) ≡ ite (k.dec z x) (some v) (find z m)
  unfolding find assign
  find-assign x z v [] = refl
  find-assign x z v ((y, w) ∷ m) = ground (arith, find-assign x z v m)

  pub find_or-assign :
      (d : V) (x z : K) (v : V) (m : List (K × V))
      → find_or d z (assign x v m) ≡ ite (k.dec z x) v (find_or d z m)
  unfolding find_or assign
  find_or-assign d x z v [] = refl
  find_or-assign d x z v ((y, w) ∷ m) = ground (arith, find_or-assign d x z v m)

  pub find_or-assign_self :
      (d : V) (x : K) (v : V) (m : List (K × V)) → find_or d x (assign x v m) ≡ v
  find_or-assign_self d x v m = rw (find_or-assign d x x v m) (if_pos (k.dec x x) refl _ _)

  pub find-emplace :
      (x z : K) (v : V) (m : List (K × V))
      → find z (emplace x v m)
        ≡ elim (find z m) [ some w ↦ some w | none ↦ ite (k.dec z x) (some v) none ]
  unfolding find emplace
  find-emplace x z v [] = refl
  find-emplace x z v ((y, w) ∷ m) = ground (arith, find-emplace x z v m)

  pub find_or-emplace :
      (d : V) (x z : K) (m : List (K × V)) → find_or d z (emplace x d m) ≡ find_or d z m
  unfolding find_or emplace
  find_or-emplace d x z [] = ground arith
  find_or-emplace d x z ((y, w) ∷ m) = ground (arith, find_or-emplace d x z m)

  pub find-update :
      (x z : K) (f : V → V) (m : List (K × V))
      → find z (update x f m)
        ≡ elim (find z m) [ none ↦ none | some w ↦ some (ite (k.dec z x) (f w) w) ]
  unfolding find update
  find-update x z f [] = refl
  find-update x z f ((y, w) ∷ m) = ground (arith, find-update x z f m)

  pub keys-update : (x : K) (f : V → V) (m : List (K × V)) → keys (update x f m) ≡ keys m
  unfolding update
  keys-update x f [] = refl
  keys-update x f ((y, w) ∷ m) = ground (arith, keys-update x f m)

  pub elem-keys-assign :
      (x z : K) (v : V) (m : List (K × V))
      → elem z (keys (assign x v m)) ≡ ite (k.dec z x) true (elem z (keys m))
  unfolding elem assign
  elem-keys-assign x z v [] = refl
  elem-keys-assign x z v ((y, w) ∷ m) = elim (k.dec x y) [
    | yes p ↦ rw (if_pos _ p) (ground arith)
    | no n ↦ rw (if_neg _ n) (ground (arith, elem-keys-assign x z v m))
  ]

  pub Distinct-keys-assign :
      (x : K) (v : V) (m : List (K × V)) → Distinct (keys m) → Distinct (keys (assign x v m))
  unfolding elem assign
  Distinct-keys-assign x v [] h = (refl, tt)
  Distinct-keys-assign x v ((y, w) ∷ m) h = elim (k.dec x y) [
    | yes p ↦ rw (if_pos _ p) (rw p h)
    | no n ↦
        rw (if_neg _ n) (ground (arith, elem-keys-assign x y v m), Distinct-keys-assign x v m h.1)
  ]

  pub elem-keys-emplace :
      (x z : K) (v : V) (m : List (K × V))
      → elem z (keys (emplace x v m)) ≡ ite (k.dec z x) true (elem z (keys m))
  unfolding elem emplace
  elem-keys-emplace x z v [] = refl
  elem-keys-emplace x z v ((y, w) ∷ m) = elim (k.dec x y) [
    | yes p ↦ rw (if_pos _ p) (ground arith)
    | no n ↦ rw (if_neg _ n) (ground (arith, elem-keys-emplace x z v m))
  ]

  pub Distinct-keys-emplace :
      (x : K) (v : V) (m : List (K × V)) → Distinct (keys m) → Distinct (keys (emplace x v m))
  unfolding elem emplace
  Distinct-keys-emplace x v [] h = (refl, tt)
  Distinct-keys-emplace x v ((y, w) ∷ m) h = elim (k.dec x y) [
    | yes p ↦ rw (if_pos _ p) h
    | no n ↦
        rw (if_neg _ n) (ground (arith, elem-keys-emplace x y v m), Distinct-keys-emplace x v m h.1)
  ]

  pub elem-keys-erase :
      (x z : K) (m : List (K × V))
      → Distinct (keys m)
      → elem z (keys (erase x m)) ≡ ite (k.dec z x) false (elem z (keys m))
  unfolding elem erase
  elem-keys-erase x z [] h = ground arith
  elem-keys-erase x z ((y, w) ∷ m) h = elim (k.dec x y) [
    | yes p ↦ rw (if_pos _ p) (elim (k.dec z x) [
      | yes q ↦ rw (if_pos _ q, q, p) h.0
      | no n ↦ rw (if_neg _ n, if_neg (k.dec z y) (λ e. n (e ∙ sym p))) refl
    ])
    | no n ↦ rw (if_neg _ n) (ground (arith, elem-keys-erase x z m h.1))
  ]

  pub Distinct-keys-erase :
      (x : K) (m : List (K × V)) → Distinct (keys m) → Distinct (keys (erase x m))
  unfolding elem erase
  Distinct-keys-erase x [] h = tt
  Distinct-keys-erase x ((y, w) ∷ m) h = elim (k.dec x y) [
    | yes p ↦ rw (if_pos _ p) h.1
    | no n ↦
        rw (if_neg _ n) (ground (arith, elem-keys-erase x y m h.1), Distinct-keys-erase x m h.1)
  ]

  -- A key is in the map exactly when find has a value for it.
  pub find-absent : (x : K) (m : List (K × V)) → elem x (keys m) ≡ false → find x m ≡ none
  unfolding elem find
  find-absent x [] h = refl
  find-absent x ((y, v) ∷ m) h = elim (k.dec x y) [
    | yes p ↦ let bad : true ≡ false = rw (if_pos _ p) at h in cc
    | no n ↦ rw (if_neg _ n) (find-absent x m (rw (if_neg _ n) at h))
  ]

  pub find-present :
      (x : K) (m : List (K × V)) → elem x (keys m) ≡ true → (v : V) × (find x m ≡ some v)
  unfolding elem find
  find-present x [] h = cc
  find-present x ((y, v) ∷ m) h = elim (k.dec x y) [
    | yes p ↦ (v, rw (if_pos _ p))
    | no n ↦ rw (if_neg _ n) (find-present x m (rw (if_neg _ n) at h))
  ]

  pub find-elem : (x : K) (m : List (K × V)) {v : V} → find x m ≡ some v → elem x (keys m) ≡ true
  unfolding elem find
  find-elem x [] h = cc
  find-elem x ((y, v) ∷ m) h = elim (k.dec x y) [
    | yes p ↦ rw (if_pos _ p)
    | no n ↦ rw (if_neg _ n) (find-elem x m (rw (if_neg _ n) at h))
  ]

  pub find-erase :
      (x z : K) (m : List (K × V))
      → Distinct (keys m)
      → find z (erase x m) ≡ ite (k.dec z x) none (find z m)
  unfolding find erase
  find-erase x z [] h = ground arith
  find-erase x z ((y, w) ∷ m) h = elim (k.dec x y) [
    | yes p ↦ rw (if_pos _ p) (elim (k.dec z x) [
      | yes q ↦ rw (if_pos _ q) (find-absent z m (rw (q, p) h.0))
      | no n ↦ rw (if_neg _ n, if_neg (k.dec z y) (λ e. n (e ∙ sym p))) refl
    ])
    | no n ↦ rw (if_neg _ n) (ground (arith, find-erase x z m h.1))
  ]

  pub find_or-absent :
      (d : V) (x : K) (m : List (K × V)) → elem x (keys m) ≡ false → find_or d x m ≡ d
  unfolding elem find_or
  find_or-absent d x [] h = refl
  find_or-absent d x ((y, v) ∷ m) h = elim (k.dec x y) [
    | yes p ↦ let bad : true ≡ false = rw (if_pos _ p) at h in cc
    | no n ↦ rw (if_neg _ n) (find_or-absent d x m (rw (if_neg _ n) at h))
  ]

  pub find_or-find :
      (d : V) (x : K) (m : List (K × V)) → find_or d x m ≡ elim (find x m) [ none ↦ d | some v ↦ v ]
  unfolding find find_or
  find_or-find d x [] = refl
  find_or-find d x ((y, v) ∷ m) = ground (arith, find_or-find d x m)

  pub length-keys : (m : List (K × V)) → length (keys m) ≡ length m
  length-keys [] = refl
  length-keys ((y, v) ∷ m) = ap suc (length-keys m)
