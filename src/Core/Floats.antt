-- ===== src/Core/Floats.antt =====
-- float. The program's arithmetic on it is a parameter: a type, the operations that the code uses,
-- and the two facts of IEEE-754 comparison on which the choices of the policies rest. They hold for
-- every float, NaN included.
use edge_orchestrator_ai.Prelude.{ℕ, ◌≡◌, Bool, true, false}

pub record Floats : Type 1 where
  pub Float : Type 0
  -- static_cast<float> of an unsigned integer, and of a signed count that is not negative
  pub of_ℕ : ℕ → Float
  -- The literal n / d, such as 0.5f.
  pub literal : ℕ → ℕ → Float
  pub add : Float → Float → Float
  pub sub : Float → Float → Float
  pub mul : Float → Float → Float
  pub div : Float → Float → Float
  pub neg : Float → Float
  pub lt : Float → Float → Bool
  -- static_cast<int64_t>, at values that are not negative
  pub truncate : Float → ℕ
  -- std::numeric_limits<float>::max()
  pub max_value : Float
  pub lt_irrefl : (a : Float) → lt a a ≡ false
  pub lt_trans : (a b c : Float) → lt a b ≡ true → lt b c ≡ true → lt a c ≡ true

-- std::min(a, b)
unfoldable pub minimum : (f : Floats) → f.Float → f.Float → f.Float
minimum f a b = elim (f.lt b a) [ true ↦ b | false ↦ a ]
