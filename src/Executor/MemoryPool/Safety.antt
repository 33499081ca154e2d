-- ===== src/Executor/MemoryPool/Safety.antt =====
-- The blocks that threads hold at the same time.
use edge_orchestrator_ai.Prelude.{
  ℕ, ◌+◌, ◌%◌, ◌≤◌, ◌<◌, ◌≡◌, refl, sym, ◌∙◌, inl, inr, not, ◌&&◌, List, [], ◌∷◌, Option, some,
  none, get_elem?, ltb, ◌==◌, arith, Bool, Bool-cases, nat_key, Distinct,
}
use edge_orchestrator_ai.Prelude.Words.{u64_mod, add64, add64_lem}
use edge_orchestrator_ai.Prelude.HashMap.{
  find, keys, find-assign, find-erase, Distinct-keys-assign, Distinct-keys-erase,
}
use edge_orchestrator_ai.Executor.MemoryPool.Single.{Modest, align_up-default}
use edge_orchestrator_ai.Executor.MemoryPool.Blocks.{
  Stacked, Stacked-below, Stacked-inside, Stacked-apart,
}
use edge_orchestrator_ai.Executor.MemoryPool.{
  Request, request, Arena, Event, loads, attempts, resets, make_pool, align_up, load_offset, leaves,
  grant, attempt, attempt_of, step, steps, fresh, reset,
}

record Inv (s : Arena) : Type 0 where
  bound : s.pool.offset ≤ s.pool.capacity
  distinct : Distinct (keys s.requests)
  ready :
      (t : ℕ) (r : Request)
      → find t s.requests ≡ some r
      → (r.current ≤ s.pool.capacity) × Modest s.pool.capacity r.size r.alignment
  stacked : Stacked s.granted s.pool.offset

load_offset-Inv :
    (t size alignment : ℕ) (s : Arena)
    → Modest s.pool.capacity size alignment
    → Inv s
    → Inv (load_offset t size alignment s)
load_offset-Inv t size alignment s modest inv = record {
  bound = inv.bound;
  distinct = Distinct-keys-assign t _ s.requests inv.distinct;
  ready = λ u r e.
      ground
        (arith, find-assign t u (request size alignment s.pool.offset) s.requests, inv.ready u r);
  stacked = inv.stacked;
}

leaves-Inv : (t : ℕ) (s : Arena) → Inv s → Inv (leaves t s)
leaves-Inv t s inv = record {
  bound = inv.bound;
  distinct = Distinct-keys-erase t s.requests inv.distinct;
  ready = λ u r e. ground (arith, find-erase t u s.requests inv.distinct, inv.ready u r);
  stacked = inv.stacked;
}

grant-Inv :
    (t aligned size : ℕ) (s : Arena)
    → s.pool.offset ≤ aligned
    → aligned % 16 ≡ 0
    → aligned + size < u64_mod
    → add64 aligned size ≤ s.pool.capacity
    → Inv s
    → Inv (grant t aligned size s)
grant-Inv t aligned size s above multiple small fits inv =
    let sum = add64_lem aligned size small in
    record {
      bound = fits;
      distinct = Distinct-keys-erase t s.requests inv.distinct;
      ready = λ u r e. ground (arith, find-erase t u s.requests inv.distinct, inv.ready u r);
      stacked = (omega (arith, sum), multiple, Stacked-below s.granted _ aligned above inv.stacked);
    }

attempt-Inv :
    (t : ℕ) (spurious : Bool) (r : Request) (s : Arena)
    → find t s.requests ≡ some r
    → Inv s
    → Inv (attempt t spurious r s)
unfolding attempt
attempt-Inv t spurious r s found inv =
    let (low, modest) = inv.ready t r found in
    let aligned = align_up r.current r.alignment in
    let (above, below, multiple) =
      align_up-default r.current r.alignment modest.0 (omega (arith, modest.1)) in
    elim (Bool-cases (ltb s.pool.capacity (add64 aligned r.size))) [
      | inl over ↦ rw (over, attempt) (leaves-Inv t s inv)
      | inr within ↦ elim (Bool-cases (not spurious && r.current == s.pool.offset)) [
        | inl taken ↦
            rw (within, taken, attempt)
              (grant-Inv t aligned r.size s (ground arith) multiple (omega (arith, modest.1))
                (ground arith) inv)
        | inr lost ↦ rw (within, lost, attempt) (load_offset-Inv t r.size r.alignment s modest inv)
      ]
    ]

-- The requests of a history are small.
abbrev pub Requested : ℕ → List Event → Type 0
Requested capacity [] = Unit {0}
Requested capacity (loads t size alignment ∷ es) =
    Modest capacity size alignment × Requested capacity es
Requested capacity (attempts t spurious ∷ es) = Requested capacity es
Requested capacity (resets ∷ es) = Requested capacity es

attempt-capacity :
    (t : ℕ) (spurious : Bool) (r : Request) (s : Arena)
    → (attempt t spurious r s).pool.capacity ≡ s.pool.capacity
unfolding attempt
attempt-capacity t spurious r s =
    elim (Bool-cases (ltb s.pool.capacity (add64 (align_up r.current r.alignment) r.size))) [
      | inl over ↦ rw (over, attempt) refl
      | inr within ↦ elim (Bool-cases (not spurious && r.current == s.pool.offset)) [
        | inl taken ↦ rw (within, taken, attempt) refl
        | inr lost ↦ rw (within, lost, attempt) refl
      ]
    ]

Safe : ℕ → Arena → Type 0
Safe capacity s = (s.pool.capacity ≡ capacity) × Inv s

attempt_of-Safe :
    (c t : ℕ) (spurious : Bool) (s : Arena) (o : Option Request)
    → find t s.requests ≡ o
    → Safe c s
    → Safe c (attempt_of t spurious o s)
unfolding Safe
attempt_of-Safe c t spurious s none e safe = safe
attempt_of-Safe c t spurious s (some r) e safe =
    (attempt-capacity t spurious r s ∙ safe.0, attempt-Inv t spurious r s e safe.1)

steps-Safe : (c : ℕ) (es : List Event) (s : Arena) → Requested c es → Safe c s → Safe c (steps es s)
unfolding steps step Safe reset
steps-Safe c [] s small safe = safe
steps-Safe c (loads t size alignment ∷ es) s small safe =
    steps-Safe c es _ small.1
      (safe.0, load_offset-Inv t size alignment s (rw (sym safe.0) at small.0) safe.1)
steps-Safe c (attempts t spurious ∷ es) s small safe =
    steps-Safe c es _ small (attempt_of-Safe c t spurious s (find t s.requests) refl safe)
steps-Safe c (resets ∷ es) s small safe =
    let inv = safe.1 in
    steps-Safe c es _ small (
      safe.0,
      record { bound = omega arith; distinct = inv.distinct; ready = inv.ready; stacked = tt },
    )

fresh-Safe : (c : ℕ) → Safe c (fresh c)
unfolding Safe make_pool find
fresh-Safe c =
    (refl, record { bound = omega arith; distinct = tt; ready = λ t r e. cc; stacked = tt })

-- In any interleaving of the atomic steps of threads that allocate from an empty pool, spurious
-- failures of the exchange and resets included, and where each request has the default alignment
-- and its size, the capacity and 16 add up to at most 2 ^ 64: of two blocks granted since the
-- last reset, the older ends at or below the start of the newer.
pub granted_apart :
    (capacity : ℕ) (es : List Event) (i j : ℕ) {a b : ℕ × ℕ}
    → Requested capacity es
    → i < j
    → get_elem? (steps es (fresh capacity)).granted i ≡ some a
    → get_elem? (steps es (fresh capacity)).granted j ≡ some b
    → b.0 + b.1 ≤ a.0
unfolding Safe
granted_apart c es i j small less ei ej =
    let (_, inv) = steps-Safe c es (fresh c) small (fresh-Safe c) in
    Stacked-apart _ _ i j inv.stacked less ei ej

-- In any interleaving of the atomic steps of threads that allocate from an empty pool, spurious
-- failures of the exchange and resets included, and where each request has the default alignment
-- and its size, the capacity and 16 add up to at most 2 ^ 64: each block granted since the last
-- reset lies inside the capacity and starts at a multiple of 16.
pub granted_inside :
    (capacity : ℕ) (es : List Event) (i : ℕ) {a : ℕ × ℕ}
    → Requested capacity es
    → get_elem? (steps es (fresh capacity)).granted i ≡ some a
    → (a.0 + a.1 ≤ capacity) × (a.0 % 16 ≡ 0)
unfolding Safe
granted_inside c es i small e =
    let (same, inv) = steps-Safe c es (fresh c) small (fresh-Safe c) in
    let (below, multiple) = Stacked-inside _ _ i inv.stacked e in
    (omega (arith, inv.bound, same), multiple)
