-- ===== src/Executor/TaskQueue/Capacity.antt =====
-- The capacity is the power of two that the requested one is rounded up to.
use edge_orchestrator_ai.Prelude.{
  ℕ, zero, suc, ◌+◌, ◌*◌, ◌^◌, ◌≤◌, ◌<◌, ◌≡◌, ◌⊎◌, refl, sym, subst, inl, inr, leb, ltb, true,
  false, Bool, if◌then◌else◌, arith,
}
use native.Mathlib.Nat.{pow-succ'}
use edge_orchestrator_ai.Executor.TaskQueue.{queue_capacity, bit_ceil, doubled_until}

pub record RoundedUp (n c : ℕ) : Type 0 where
  pub exponent : ℕ
  pub power : c ≡ 2 ^ exponent
  pub enough : n ≤ c
  pub least : (c ≡ 1) ⊎ (c < 2 * n)

doubled_until-RoundedUp :
    (fuel k n : ℕ)
    → n ≤ 2 ^ (fuel + k)
    → (2 ^ k ≡ 1) ⊎ (2 ^ k < 2 * n)
    → RoundedUp n (doubled_until fuel (2 ^ k) n)
unfolding doubled_until
doubled_until-RoundedUp zero k n h l = record {
  exponent = k;
  power = refl;
  enough = subst (λ e. n ≤ 2 ^ e) none_left h;
  least = l;
}
  where
    none_left : 0 + k ≡ k
    none_left = omega arith
doubled_until-RoundedUp (suc fuel) k n h l = from (leb n (2 ^ k)) refl (λ more.
    subst (λ p. RoundedUp n (doubled_until fuel p n)) (sym doubled)
      (doubled_until-RoundedUp fuel (suc k) n (subst (λ e. n ≤ 2 ^ e) shift h)
        (inr (omega (arith, more, doubled)))))
  where
    doubled : 2 * 2 ^ k ≡ 2 ^ suc k
    doubled = omega (arith, pow-succ' 2 k)

    shift : suc fuel + k ≡ fuel + suc k
    shift = omega arith

    from :
        (b : Bool)
        → leb n (2 ^ k) ≡ b
        → (2 ^ k < n → RoundedUp n (doubled_until fuel (2 * 2 ^ k) n))
        → RoundedUp n (if b then 2 ^ k else doubled_until fuel (2 * 2 ^ k) n)
    from true e next = record { exponent = k; power = refl; enough = ground (arith, e); least = l }
    from false e next = next (ground (arith, e))

lap-doubled_until : (fuel power n : ℕ) → power ≤ doubled_until fuel power n
unfolding doubled_until
lap-doubled_until zero power n = omega arith
lap-doubled_until (suc fuel) power n = ground (arith, lap-doubled_until fuel (2 * power) n)

doubled_until-two : (fuel m : ℕ) → 2 ≤ m → 2 ≤ doubled_until (suc fuel) 1 m
unfolding doubled_until
doubled_until-two fuel m h = ground (arith, lap-doubled_until fuel 2 m)

pub lap-queue_capacity : (n : ℕ) → 2 ≤ queue_capacity n
unfolding queue_capacity bit_ceil
lap-queue_capacity n = doubled_until-two 63 (if ltb n 2 then 2 else n) (ground arith)

doubled_until_2 : doubled_until 64 1 2 ≡ 2
unfolding doubled_until
doubled_until_2 = refl

-- For a requested capacity of at most 2 ^ 63, that of the queue is a power of two, at least 2 and
-- at least the one that is asked for, and it is 2 or less than twice that.
pub queue_capacity-power :
    (n : ℕ)
    → n ≤ 2 ^ 63
    → ((k : ℕ) × (queue_capacity n ≡ 2 ^ k))
      × (2 ≤ queue_capacity n)
      × (n ≤ queue_capacity n)
      × ((queue_capacity n ≡ 2) ⊎ (queue_capacity n < 2 * n))
unfolding queue_capacity bit_ceil
queue_capacity-power n h = from (ltb n 2) refl
  where
    from :
        (b : Bool)
        → ltb n 2 ≡ b
        → ((k : ℕ) × (doubled_until 64 1 (if b then 2 else n) ≡ 2 ^ k))
          × (2 ≤ doubled_until 64 1 (if b then 2 else n))
          × (n ≤ doubled_until 64 1 (if b then 2 else n))
          × ((doubled_until 64 1 (if b then 2 else n) ≡ 2)
              ⊎ (doubled_until 64 1 (if b then 2 else n) < 2 * n))
    from true e =
        let below : n < 2 = ground (arith, e) in
        (
          (1, doubled_until_2),
          omega (arith, doubled_until_2),
          omega (arith, doubled_until_2, below),
          inl doubled_until_2,
        )
    from false e =
        let large : 2 ≤ n = ground (arith, e) in
        let r = doubled_until-RoundedUp 64 0 n (omega (arith, h)) (inl refl) in
        let two = doubled_until-two 63 n large in
        (
          (r.exponent, r.power),
          two,
          r.enough,
          elim r.least [ inl one ↦ absurd (omega (arith, one, two)) | inr less ↦ inr less ],
        )
