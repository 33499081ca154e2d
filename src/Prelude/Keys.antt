-- ===== src/Prelude/Keys.antt =====
-- Keys whose equality is decided, and membership, multiplicity and distinctness in lists of keys.
use Prim.Native.Nat.{ℕ, zero, suc, ◌+◌, ◌-◌, ◌≤◌}
use Prim.Native.String.{String}
use mathlib.Core.Path.{◌≡◌, refl, sym, ◌∙◌}
use mathlib.Core.Logic.{◌≢◌, ite, ◌⊎◌, inl, inr, if_pos, if_neg}
use mathlib.Core.Bool.{Bool, true, false}
use mathlib.Core.Option.{some}
use mathlib.Core.List.{List, [], ◌∷◌, ◌++◌}
use native.Mathlib.Omega.{arith}
use native.Mathlib.Decide.{ℕ_discrete}
use text.Mathlib.Text.{◌==◌ as str_eq}
use text.Mathlib.TextEquality.{eq_iff}
use edge_orchestrator_ai.Prelude.Lists.{length, get_elem?}
use edge_orchestrator_ai.Prelude.Tests.{Bool-cases}

pub record Key {ℓ} (K : Type ℓ) : Type ℓ where
  pub dec : Discrete K

String-dec_by : (s t : String) (b : Bool) → str_eq s t ≡ b → Dec (s ≡ t)
String-dec_by s t true e = yes ((eq_iff s t).0 e)
String-dec_by s t false e = no (λ p. cc ((eq_iff s t).1 p))

unfoldable pub String_discrete : Discrete String
unfolding String-dec_by
String_discrete s t = String-dec_by s t (str_eq s t) refl

instance abbrev pub string_key : Key String
string_key = record { dec = String_discrete }

instance abbrev pub nat_key : Key ℕ
nat_key = record { dec = ℕ_discrete }

module _ {ℓ} {K : Type ℓ} ⦃k : Key K⦄ where
  unfoldable pub elem : K → List K → Bool
  elem x [] = false
  elem x (y ∷ ys) = ite (k.dec x y) true (elem x ys)

  unfoldable pub count : K → List K → ℕ
  count x [] = 0
  count x (y ∷ ys) = ite (k.dec x y) (suc (count x ys)) (count x ys)

  abbrev pub Distinct : List K → Type 0
  Distinct [] = Unit {0}
  Distinct (x ∷ xs) = (elem x xs ≡ false) × Distinct xs

  pub elem-append_true :
      (x : K) (xs ys : List K) → elem x (xs ++ ys) ≡ true → (elem x xs ≡ true) ⊎ (elem x ys ≡ true)
  unfolding elem
  elem-append_true x [] ys h = inr h
  elem-append_true x (y ∷ xs) ys h = ground (arith, elem-append_true x xs ys)

  pub elem-append_left : (x : K) (xs ys : List K) → elem x xs ≡ true → elem x (xs ++ ys) ≡ true
  unfolding elem
  elem-append_left x [] ys h = cc
  elem-append_left x (y ∷ xs) ys h = ground (arith, elem-append_left x xs ys)

  pub elem-append_right : (x : K) (xs ys : List K) → elem x ys ≡ true → elem x (xs ++ ys) ≡ true
  unfolding elem
  elem-append_right x [] ys h = h
  elem-append_right x (y ∷ xs) ys h = ground (arith, elem-append_right x xs ys)

  pub elem-append_false :
      (x : K) (xs ys : List K) → elem x xs ≡ false → elem x ys ≡ false → elem x (xs ++ ys) ≡ false
  unfolding elem
  elem-append_false x [] ys h e = e
  elem-append_false x (y ∷ xs) ys h e = ground (arith, elem-append_false x xs ys)

  pub elem_self : (x : K) (xs : List K) → elem x (x ∷ xs) ≡ true
  unfolding elem
  elem_self x xs = if_pos (k.dec x x) refl _ _

  pub elem_snoc : (x y : K) (xs : List K) → elem x (xs ++ y ∷ []) ≡ ite (k.dec x y) true (elem x xs)
  unfolding elem
  elem_snoc x y [] = refl
  elem_snoc x y (z ∷ xs) = ground (arith, elem_snoc x y xs)

  pub count_snoc : (x y : K) (xs : List K) → count x (xs ++ y ∷ []) ≡ count x xs + count x (y ∷ [])
  unfolding count
  count_snoc x y [] = omega arith
  count_snoc x y (z ∷ xs) = ground (arith, count_snoc x y xs)

  pub count-append : (x : K) (xs ys : List K) → count x (xs ++ ys) ≡ count x xs + count x ys
  unfolding count
  count-append x [] ys = omega arith
  count-append x (y ∷ xs) ys = ground (arith, count-append x xs ys)

  pub Distinct-append_middle :
      (xs : List K) (y : K) (ys : List K) → Distinct (xs ++ y ∷ ys) → elem y xs ≡ false
  unfolding elem
  Distinct-append_middle [] y ys h = refl
  Distinct-append_middle (x ∷ xs) y ys h =
      ground (arith, Distinct-append_middle xs y ys h.1, elem-append_right x xs (y ∷ ys))

  pub elem-count : (x : K) (xs : List K) → elem x xs ≡ true → 1 ≤ count x xs
  unfolding elem count
  elem-count x [] h = cc
  elem-count x (y ∷ xs) h = ground (arith, elem-count x xs)

  pub count-elem : (x : K) (xs : List K) → 1 ≤ count x xs → elem x xs ≡ true
  unfolding elem count
  count-elem x [] h = absurd (omega arith)
  count-elem x (y ∷ xs) h = ground (arith, count-elem x xs)

  pub Distinct-count : (x : K) (xs : List K) → Distinct xs → count x xs ≤ 1
  unfolding elem count
  Distinct-count x [] h = omega arith
  Distinct-count x (y ∷ xs) h = ground (arith, Distinct-count x xs h.1, count-elem x xs, h.0)

  pub count-Distinct : (xs : List K) → ((x : K) → count x xs ≤ 1) → Distinct xs
  unfolding elem count
  count-Distinct [] h = tt
  count-Distinct (y ∷ xs) h =
      (absent (elem y xs) refl, count-Distinct xs (λ x. ground (arith, h x)))
    where
      absent : (b : Bool) → elem y xs ≡ b → elem y xs ≡ false
      absent true e =
          let twice = if_pos {C = ℕ} (k.dec y y) refl (suc (count y xs)) (count y xs) in
          absurd (omega (arith, h y, twice, elem-count y xs e))
      absent false e = e

  -- Distinct keys, one after another.
  pub Distinct-append :
      (xs ys : List K)
      → Distinct xs
      → Distinct ys
      → ((x : K) → elem x xs ≡ true → elem x ys ≡ false)
      → Distinct (xs ++ ys)
  unfolding elem
  Distinct-append [] ys h g apart = g
  Distinct-append (x ∷ xs) ys h g apart = (
    elem-append_false x xs ys h.0 (apart x (ground arith)),
    Distinct-append xs ys h.1 g (λ y m. apart y (ground arith)),
  )

  unfoldable pub remove_one : K → List K → List K
  remove_one x [] = []
  remove_one x (y ∷ ys) = ite (k.dec x y) ys (y ∷ remove_one x ys)

  pub remove_one-first : (x : K) (ys : List K) → remove_one x (x ∷ ys) ≡ ys
  unfolding remove_one
  remove_one-first x ys = if_pos (k.dec x x) refl _ _

  count_same : (z y : K) (ys : List K) → z ≡ y → count z (y ∷ ys) ≡ suc (count z ys)
  unfolding count
  count_same z y ys e = if_pos (k.dec z y) e _ _

  count_other : (z y : K) (ys : List K) → z ≢ y → count z (y ∷ ys) ≡ count z ys
  unfolding count
  count_other z y ys n = if_neg (k.dec z y) n _ _

  count_nil : (z : K) → count z [] ≡ 0
  unfolding count
  count_nil z = refl

  pub count-remove_one :
      (z x : K) (ys : List K) → count z (remove_one x ys) ≡ count z ys - ite (k.dec z x) 1 0
  unfolding remove_one
  count-remove_one z x [] = omega (arith, count_nil z)
  count-remove_one z x (y ∷ ys) =
      let rest = count-remove_one z x ys in
      elim (k.dec x y) [
        | yes p ↦ rw (if_pos (k.dec x y) p) (elim (k.dec z x) [
          | yes q ↦ omega (arith, count_same z y ys (q ∙ p), if_pos {C = ℕ} (k.dec z x) q 1 0)
          | no n ↦
              omega
                (arith, count_other z y ys (λ e. n (e ∙ sym p)), if_neg {C = ℕ} (k.dec z x) n 1 0)
        ])
        | no m ↦ rw (if_neg (k.dec x y) m) (elim (k.dec z y) [
          | yes q ↦
              let other : z ≢ x = λ e. m (sym e ∙ q) in
              omega (
                arith,
                rest,
                count_same z y ys q,
                count_same z y (remove_one x ys) q,
                if_neg {C = ℕ} (k.dec z x) other 1 0,
              )
          | no n ↦ omega (arith, rest, count_other z y ys n, count_other z y (remove_one x ys) n)
        ])
      ]

  pub length-remove_one :
      (x : K) (ys : List K) → elem x ys ≡ true → suc (length (remove_one x ys)) ≡ length ys
  unfolding elem remove_one
  length-remove_one x [] h = cc
  length-remove_one x (y ∷ ys) h = elim (k.dec x y) [
    | yes p ↦ rw (if_pos _ p)
    | no n ↦ rw (if_neg _ n) (omega (arith, length-remove_one x ys (rw (if_neg _ n) at h)))
  ]

  pub elem-remove_one :
      (z x : K) (ys : List K) → z ≢ x → elem z ys ≡ true → elem z (remove_one x ys) ≡ true
  unfolding elem remove_one
  elem-remove_one z x [] n h = cc
  elem-remove_one z x (y ∷ ys) n h = elim (k.dec x y) [
    | yes p ↦ rw (if_pos _ p) (rw (if_neg _ (λ e. n (e ∙ sym p))) at h)
    | no m ↦ rw (if_neg _ m) (ground (arith, elem-remove_one z x ys n))
  ]

  -- A list of distinct keys is no longer than a list that holds them all.
  pub Distinct-length :
      (xs ys : List K)
      → Distinct xs
      → ((x : K) → elem x xs ≡ true → elem x ys ≡ true)
      → length xs ≤ length ys
  unfolding elem
  Distinct-length [] ys h sub = omega arith
  Distinct-length (x ∷ xs) ys h sub =
      let here : elem x ys ≡ true = sub x (ground arith) in
      omega (
        arith,
        length-remove_one x ys here,
        Distinct-length xs (remove_one x ys) h.1
            (λ z m. elem-remove_one z x ys (λ e. ground arith) (sub z (ground arith))),
      )

  -- If it is as long, it holds them all.
  pub Distinct-fills :
      (xs ys : List K)
      → Distinct xs
      → ((x : K) → elem x xs ≡ true → elem x ys ≡ true)
      → length ys ≤ length xs
      → (y : K) → elem y ys ≡ true
      → elem y xs ≡ true
  unfolding elem
  Distinct-fills xs ys h sub short y m = elim (Bool-cases (elem y xs)) [
    | inl here ↦ here
    | inr absent ↦ absurd (omega (arith, Distinct-length (y ∷ xs) ys (absent, h) (λ z e. cons z e)))
  ]
    where
      cons : (z : K) → elem z (y ∷ xs) ≡ true → elem z ys ≡ true
      cons z e = elim (k.dec z y) [ yes p ↦ rw p m | no n ↦ sub z (rw (if_neg _ n) at e) ]

  pub elem-get_elem? :
      (x : K) (xs : List K) → elem x xs ≡ true → (i : ℕ) × (get_elem? xs i ≡ some x)
  unfolding elem
  elem-get_elem? x [] h = cc
  elem-get_elem? x (y ∷ ys) h = elim (k.dec x y) [
    | yes p ↦ (0, rw p)
    | no n ↦ let (i, at) = elem-get_elem? x ys (rw (if_neg _ n) at h) in (suc i, at)
  ]

  pub get_elem?-elem : (x : K) (xs : List K) (i : ℕ) → get_elem? xs i ≡ some x → elem x xs ≡ true
  unfolding elem
  get_elem?-elem x [] i h = cc
  get_elem?-elem x (y ∷ ys) zero h = if_pos (k.dec x y) (cc) _ _
  get_elem?-elem x (y ∷ ys) (suc i) h = elim (k.dec x y) [
    | yes p ↦ if_pos (k.dec x y) p _ _
    | no n ↦ rw (if_neg _ n) (get_elem?-elem x ys i h)
  ]
