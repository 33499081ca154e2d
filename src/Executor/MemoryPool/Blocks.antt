-- ===== src/Executor/MemoryPool/Blocks.antt =====
-- Lists of blocks, the newest first, that lie one below the other at multiples of 16.
use edge_orchestrator_ai.Prelude.{
  ℕ, zero, suc, ◌+◌, ◌%◌, ◌≤◌, ◌<◌, ◌≡◌, sym, List, [], ◌∷◌, some, get_elem?, arith, nat_key,
  some_eq,
}
use edge_orchestrator_ai.Prelude.HashMap.{}
use edge_orchestrator_ai.Executor.MemoryPool.{}

-- Blocks below a bound, each below the one before it.
abbrev pub Stacked : List (ℕ × ℕ) → ℕ → Type 0
Stacked [] top = Unit {0}
Stacked ((start, size) ∷ rest) top = (start + size ≤ top) × (start % 16 ≡ 0) × Stacked rest start

pub Stacked-below : (blocks : List (ℕ × ℕ)) (a b : ℕ) → a ≤ b → Stacked blocks a → Stacked blocks b
Stacked-below [] a b h s = tt
Stacked-below ((start, size) ∷ rest) a b h s = (omega (arith, s.0), s.1, s.2)

pub Stacked-inside :
    (blocks : List (ℕ × ℕ)) (top i : ℕ) {a : ℕ × ℕ}
    → Stacked blocks top
    → get_elem? blocks i ≡ some a
    → (a.0 + a.1 ≤ top) × (a.0 % 16 ≡ 0)
Stacked-inside [] top i h e = cc
Stacked-inside (b ∷ rest) top zero h e = rw (sym (some_eq e)) (h.0, h.1)
Stacked-inside (b ∷ rest) top (suc i) h e =
    let (below, multiple) = Stacked-inside rest b.0 i h.2 e in (omega (arith, h.0), multiple)

pub Stacked-apart :
    (blocks : List (ℕ × ℕ)) (top i j : ℕ) {a b : ℕ × ℕ}
    → Stacked blocks top
    → i < j
    → get_elem? blocks i ≡ some a
    → get_elem? blocks j ≡ some b
    → b.0 + b.1 ≤ a.0
Stacked-apart [] top i j h less ei ej = cc
Stacked-apart (c ∷ rest) top zero zero h less ei ej = absurd (omega arith)
Stacked-apart (c ∷ rest) top zero (suc j) h less ei ej =
    rw (sym (some_eq ei)) (Stacked-inside rest c.0 j h.2 ej).0
Stacked-apart (c ∷ rest) top (suc i) zero h less ei ej = absurd (omega arith)
Stacked-apart (c ∷ rest) top (suc i) (suc j) h less ei ej =
    Stacked-apart rest c.0 i j h.2 (omega arith) ei ej
