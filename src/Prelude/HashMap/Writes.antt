-- ===== src/Prelude/HashMap/Writes.antt =====
-- Writes to a map, one after another.
use mathlib.Core.Path.{◌≡◌, refl, sym, ◌∙◌, ap}
use mathlib.Core.Logic.{◌≢◌, if_pos, if_neg}
use mathlib.Core.Bool.{true}
use mathlib.Core.Option.{some}
use mathlib.Core.List.{List, [], ◌∷◌}
use edge_orchestrator_ai.Prelude.Keys.{Key, elem}
use edge_orchestrator_ai.Prelude.HashMap.{find, assign, emplace, keys}

module _ {ℓ} {K V : Type ℓ} ⦃k : Key K⦄ where
  assign_here :
      (x y : K) (v u : V) (m : List (K × V)) → x ≡ y → assign x v ((y, u) ∷ m) ≡ (x, v) ∷ m
  unfolding assign
  assign_here x y v u m p = if_pos (k.dec x y) p _ _

  assign_there :
      (x y : K) (v u : V) (m : List (K × V))
      → x ≢ y
      → assign x v ((y, u) ∷ m) ≡ (y, u) ∷ assign x v m
  unfolding assign
  assign_there x y v u m n = if_neg (k.dec x y) n _ _

  -- The last write to a key is the one that counts.
  pub assign_twice : (x : K) (v w : V) (m : List (K × V)) → assign x v (assign x w m) ≡ assign x v m
  unfolding assign
  assign_twice x v w [] = if_pos (k.dec x x) refl _ _
  assign_twice x v w ((y, u) ∷ m) = elim (k.dec x y) [
    | yes p ↦
        ap (λ l. assign x v l) (assign_here x y w u m p)
        ∙ assign_here x x v w m refl
        ∙ sym (assign_here x y v u m p)
    | no n ↦
        ap (λ l. assign x v l) (assign_there x y w u m n)
        ∙ assign_there x y v u (assign x w m) n
        ∙ ap (λ l. (y, u) ∷ l) (assign_twice x v w m)
        ∙ sym (assign_there x y v u m n)
  ]

  -- A write of the value that is there.
  pub assign_found : (x : K) (v : V) (m : List (K × V)) → find x m ≡ some v → assign x v m ≡ m
  unfolding assign find
  assign_found x v [] h = cc
  assign_found x v ((y, u) ∷ m) h = elim (k.dec x y) [
    | yes p ↦
        let same : u ≡ v = let e : some u ≡ some v = rw (if_pos (k.dec x y) p) at h in cc in
        rw (if_pos (k.dec x y) p, p, same) refl
    | no n ↦
        rw (if_neg (k.dec x y) n)
          (ap (λ l. (y, u) ∷ l) (assign_found x v m (rw (if_neg (k.dec x y) n) at h)))
  ]

  -- A write to a key that is there commutes with one to another key.
  pub assign_comm :
      (x y : K) (v w : V) (m : List (K × V))
      → x ≢ y
      → elem x (keys m) ≡ true
      → assign x v (assign y w m) ≡ assign y w (assign x v m)
  unfolding elem
  assign_comm x y v w [] n h = cc
  assign_comm x y v w ((z, u) ∷ m) n h = elim (k.dec x z) [
    | yes p ↦
        ap (λ l. assign x v l) (assign_there y z w u m (λ e. n (p ∙ sym e)))
        ∙ assign_here x z v u (assign y w m) p
        ∙ sym (assign_there y x w v m (λ e. n (sym e)))
        ∙ ap (λ l. assign y w l) (sym (assign_here x z v u m p))
    | no m' ↦
        let here = rw (if_neg (k.dec x z) m') at h in
        let later = ap (λ l. assign y w l) (sym (assign_there x z v u m m')) in
        elim (k.dec y z) [
          | yes q ↦
              ap (λ l. assign x v l) (assign_here y z w u m q)
              ∙ assign_there x y v w m n
              ∙ sym (assign_here y z w u (assign x v m) q)
              ∙ later
          | no n' ↦
              ap (λ l. assign x v l) (assign_there y z w u m n')
              ∙ assign_there x z v u (assign y w m) m'
              ∙ ap (λ l. (z, u) ∷ l) (assign_comm x y v w m n here)
              ∙ sym (assign_there y z w u (assign x v m) n')
              ∙ later
        ]
  ]

  pub emplace_found :
      (x : K) (v : V) (m : List (K × V)) → elem x (keys m) ≡ true → emplace x v m ≡ m
  unfolding emplace elem
  emplace_found x v [] h = cc
  emplace_found x v ((y, u) ∷ m) h = elim (k.dec x y) [
    | yes p ↦ if_pos (k.dec x y) p _ _
    | no n ↦
        rw (if_neg (k.dec x y) n)
          (ap (λ l. (y, u) ∷ l) (emplace_found x v m (rw (if_neg (k.dec x y) n) at h)))
  ]
