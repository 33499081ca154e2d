-- ===== src/Prelude/Words.antt =====
-- uint64_t and size_t arithmetic, with its wrap-around.
use Prim.Native.Nat.{ℕ, max, ◌+◌, ◌-◌, ◌%◌, ◌^◌, ◌≤◌, ◌<◌}
use mathlib.Core.Path.{◌≡◌}
use native.Mathlib.Omega.{arith}
use mathlib.Core.Bool.{Bool}
use edge_orchestrator_ai.Prelude.Tests.{ltb, ◌==◌, if◌then◌else◌}

abbrev pub u64_mod : ℕ
u64_mod = 2 ^ 64

unfoldable pub add64 : ℕ → ℕ → ℕ
add64 a b = (a + b) % u64_mod

unfoldable pub sub64 : ℕ → ℕ → ℕ
sub64 a b = (a + u64_mod - b) % u64_mod

-- The order of two words that are read as signed: the sign bit counts as negative.
abbrev pub signed_lt : ℕ → ℕ → Bool
signed_lt a b = ltb ((a + 2 ^ 63) % u64_mod) ((b + 2 ^ 63) % u64_mod)

-- std::max of two signed words
unfoldable pub signed_max : ℕ → ℕ → ℕ
signed_max a b = if signed_lt a b then b else a

-- --n
unfoldable pub pred64 : ℕ → ℕ
pred64 n = if n == 0 then u64_mod - 1 else n - 1

pub add64_lem : (a b : ℕ) → a + b < u64_mod → add64 a b ≡ a + b
unfolding add64
add64_lem a b h = omega arith

pub sub64_lem : (a b : ℕ) → b ≤ a → a < u64_mod → sub64 a b ≡ a - b
unfolding sub64
sub64_lem a b h k = omega arith

pub signed_max_lem : (a b : ℕ) → a < 2 ^ 63 → b < 2 ^ 63 → signed_max a b ≡ max a b
unfolding signed_max
signed_max_lem a b h k = ground arith
