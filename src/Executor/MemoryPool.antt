-- ===== src/Executor/MemoryPool.antt =====
-- src/executor/memory_pool.hpp and memory_pool.cpp: MemoryPool. A block is its place in the arena.
-- The atomic accesses of the threads are the events of a history, in one order.
pub mod Blocks
pub mod Single
pub mod Safety
use Prim.Native.Nat.{bit_and}
use edge_orchestrator_ai.Prelude.{
  ℕ, ◌+◌, ◌-◌, Bool, true, false, not, ◌&&◌, List, [], ◌∷◌, Option, none, some, ltb, leb, ◌==◌,
  nat_key, if◌then◌else◌,
}
use edge_orchestrator_ai.Prelude.Words.{u64_mod, add64, sub64}
use edge_orchestrator_ai.Prelude.HashMap.{find, assign, erase}

pub record MemoryPool : Type 0 where
  pub capacity : ℕ
  pub offset : ℕ

unfoldable pub make_pool : ℕ → MemoryPool
make_pool capacity_bytes = record { capacity = capacity_bytes; offset = 0 }

-- alignof(std::max_align_t), the default
abbrev pub max_align : ℕ
max_align = 16

-- (current + alignment - 1) & ~(alignment - 1)
unfoldable pub align_up : ℕ → ℕ → ℕ
align_up current alignment =
    bit_and (sub64 (add64 current alignment) 1) (u64_mod - 1 - sub64 alignment 1)

-- allocate without another thread in between
unfoldable pub allocate : ℕ → ℕ → MemoryPool → Option ℕ × MemoryPool
allocate size alignment pool =
    let aligned = align_up pool.offset alignment in
    let end = add64 aligned size in
    if ltb pool.capacity end then (none, pool) else (some aligned, record pool { offset = end })

unfoldable pub reset : MemoryPool → MemoryPool
reset pool = record pool { offset = 0 }

abbrev pub used : MemoryPool → ℕ
used pool = pool.offset

unfoldable pub can_allocate : ℕ → MemoryPool → Bool
can_allocate size pool = leb (add64 (used pool) size) pool.capacity

-- A thread inside allocate: its arguments, and what it last read of the offset.
pub record Request : Type 0 where
  pub size : ℕ
  pub alignment : ℕ
  pub current : ℕ

abbrev pub request : ℕ → ℕ → ℕ → Request
request size alignment current = record { size = size; alignment = alignment; current = current }

-- The pool, the threads inside allocate, and the blocks granted since the last reset, the newest
-- first, each with its place and its size.
pub record Arena : Type 0 where
  pub pool : MemoryPool
  pub requests : List (ℕ × Request)
  pub granted : List (ℕ × ℕ)

-- A thread enters allocate and loads the offset; it goes once through the loop, in which the
-- exchange may fail spuriously; or the arena is reset.
pub data Event : Type 0 where
  loads : (thread size alignment : ℕ) → Event
  attempts : (thread : ℕ) (spurious : Bool) → Event
  resets : Event

abbrev pub load_offset : ℕ → ℕ → ℕ → Arena → Arena
load_offset thread size alignment s = record s {
  requests = assign thread (request size alignment s.pool.offset) s.requests;
}

-- allocate returns to its thread.
abbrev pub leaves : ℕ → Arena → Arena
leaves thread s = record s { requests = erase thread s.requests }

abbrev pub grant : ℕ → ℕ → ℕ → Arena → Arena
grant thread aligned size s = record {
  pool = record s.pool { offset = add64 aligned size };
  requests = erase thread s.requests;
  granted = (aligned, size) ∷ s.granted;
}

-- One round of the loop: the test, and the exchange.
unfoldable pub attempt : ℕ → Bool → Request → Arena → Arena
attempt thread spurious r s =
    let aligned = align_up r.current r.alignment in
    if ltb s.pool.capacity (add64 aligned r.size)
    then leaves thread s
    else if not spurious && r.current == s.pool.offset
    then grant thread aligned r.size s
    else load_offset thread r.size r.alignment s

abbrev pub attempt_of : ℕ → Bool → Option Request → Arena → Arena
attempt_of thread spurious none s = s
attempt_of thread spurious (some r) s = attempt thread spurious r s

unfoldable pub step : Event → Arena → Arena
step (loads thread size alignment) s = load_offset thread size alignment s
step (attempts thread spurious) s = attempt_of thread spurious (find thread s.requests) s
step resets s = record s { pool = reset s.pool; granted = [] }

unfoldable pub steps : List Event → Arena → Arena
steps [] s = s
steps (e ∷ es) s = steps es (step e s)

abbrev pub fresh : ℕ → Arena
fresh capacity = record { pool = make_pool capacity; requests = []; granted = [] }
