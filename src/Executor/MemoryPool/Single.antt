-- ===== src/Executor/MemoryPool/Single.antt =====
-- One call of allocate, with no other thread in between.
use edge_orchestrator_ai.Prelude.{
  ℕ, ◌+◌, ◌-◌, ◌%◌, ◌≤◌, ◌<◌, ◌≡◌, ◌⊎◌, refl, inl, inr, false, some, none, ltb, arith, Bool-cases,
  nat_key,
}
use edge_orchestrator_ai.Prelude.Words.{u64_mod, add64, sub64, add64_lem}
use edge_orchestrator_ai.Prelude.Bits.{bit_and-align}
use edge_orchestrator_ai.Prelude.HashMap.{}
use edge_orchestrator_ai.Executor.MemoryPool.{MemoryPool, max_align, align_up, allocate}

-- A request whose arithmetic does not wrap.
abbrev pub Modest : ℕ → ℕ → ℕ → Type 0
Modest capacity size alignment = (alignment ≡ max_align) × (capacity + 16 + size ≤ u64_mod)

align_up_lem :
    (current : ℕ)
    → current + 16 ≤ u64_mod
    → (current ≤ align_up current 16)
      × (align_up current 16 ≤ current + 15)
      × (align_up current 16 % 16 ≡ 0)
unfolding align_up add64 sub64
align_up_lem current h =
    let word : sub64 (add64 current 16) 1 ≡ current + 15 = omega arith in
    let down = bit_and-align (current + 15) (omega arith) in
    rw (word, down) (omega arith, omega arith, omega arith)

pub align_up-default :
    (current alignment : ℕ)
    → alignment ≡ max_align
    → current + 16 ≤ u64_mod
    → (current ≤ align_up current alignment)
      × (align_up current alignment ≤ current + 15)
      × (align_up current alignment % 16 ≡ 0)
align_up-default current alignment default h = rw default (align_up_lem current h)

-- On a pool whose offset is at most its capacity, a request of the default alignment whose size,
-- the capacity and 16 add up to at most 2 ^ 64 is refused, and then the pool is as before and the
-- size does not fit behind the offset plus 15; or it gets a block inside the capacity that starts
-- at a multiple of 16 at most 15 behind the offset, and the offset moves to its end.
pub allocate_lem :
    (size : ℕ) (pool : MemoryPool)
    → pool.offset ≤ pool.capacity
    → pool.capacity + 16 + size ≤ u64_mod
    → ((allocate size max_align pool ≡ (none, pool)) × (pool.capacity < pool.offset + 15 + size))
      ⊎ ((start : ℕ) × (allocate size max_align pool
            ≡ (some start, record pool { offset = start + size }))
          × (start % 16 ≡ 0)
          × (pool.offset ≤ start)
          × (start ≤ pool.offset + 15)
          × (start + size ≤ pool.capacity))
unfolding allocate
allocate_lem size pool bound small =
    let (above, below, multiple) = align_up_lem pool.offset (omega arith) in
    let sum = add64_lem (align_up pool.offset 16) size (omega arith) in
    elim (Bool-cases (ltb pool.capacity (add64 (align_up pool.offset 16) size))) [
      | inl over ↦ inl (rw (over, allocate) refl, ground arith)
      | inr within ↦ inr (
        align_up pool.offset 16,
        rw (within, sum, allocate) refl,
        multiple,
        above,
        below,
        ground arith,
      )
    ]

aligned-align_up : (n : ℕ) → n % 16 ≡ 0 → n + 16 ≤ u64_mod → align_up n 16 ≡ n
aligned-align_up n multiple h = let (above, below, rounded) = align_up_lem n h in omega arith

-- A pool whose offset is a positive multiple of 16 and at most 2 ^ 64 - 16 grants a request of
-- the default alignment for 2 ^ 64 minus the offset bytes, whatever its capacity, and its offset
-- becomes 0.
pub allocate-wraps :
    (pool : MemoryPool)
    → pool.offset % 16 ≡ 0
    → 0 < pool.offset
    → pool.offset + 16 ≤ u64_mod
    → allocate (u64_mod - pool.offset) max_align pool
      ≡ (some pool.offset, record pool { offset = 0 })
unfolding allocate add64
allocate-wraps pool multiple used h =
    let here = aligned-align_up pool.offset multiple h in
    let wrapped : (pool.offset + (u64_mod - pool.offset)) % u64_mod ≡ 0 = omega arith in
    let fits : ltb pool.capacity 0 ≡ false = ground arith in rw (here, wrapped, fits, allocate) refl
