-- ===== src/Executor/TaskQueue/Positions.antt =====
-- The cells of the positions in a lap.
use edge_orchestrator_ai.Prelude.{ℕ, ◌+◌, ◌-◌, ◌%◌, ◌<◌, ◌≡◌, ◌≢◌, ◌∙◌, ap, arith, dec_lt}
use native.Mathlib.Nat.{mod-add-mod, mod-eq_of_lt, mod-eq-sub-mod, mod-lt}

-- The position that is a lap later has the same cell.
pub mod-lap : (c p : ℕ) → 0 < c → (p + c) % c ≡ p % c
mod-lap c p h =
    let e : p + c - c ≡ p = omega arith in
    mod-eq-sub-mod {n = p + c} {m = c} (omega arith) ∙ ap (λ n. n % c) e

-- Two positions within less than a lap have different cells.
pub mod-apart : (c p q : ℕ) → p < q → q < p + c → q % c ≢ p % c
mod-apart c p q lo hi e = elim (dec_lt (p % c + (q - p)) c) [
  | yes below ↦ let f = mod-eq_of_lt below in omega (arith, f, moved, e)
  | no over ↦
      let r = mod-lt p {m = c} (omega arith) in
      let f = mod-eq-sub-mod {n = p % c + (q - p)} {m = c} (omega arith) in
      let g = mod-eq_of_lt {n = p % c + (q - p) - c} {m = c} (omega arith) in
      omega (arith, f, g, moved, e)
]
  where
    moved : (p % c + (q - p)) % c ≡ q % c
    moved = let d : p + (q - p) ≡ q = omega arith in mod-add-mod p c (q - p) ∙ ap (λ n. n % c) d
