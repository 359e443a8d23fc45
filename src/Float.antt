-- ===== src/Float.antt =====
-- `float64` and the functions of package `math`, which the repository does not implement: the
-- operations that it calls, and the facts about them that the theorems use.
use memmy.Prelude.{ℕ, ◌≡◌, Bool, true, false}
use memmy.Prelude.Int.{ℤ}

-- A comparison is a Boolean, so that a NaN can fail all of them.
pub record Float : Type 1 where
  pub F : Type 0
  pub lt : F → F → Bool
  pub le : F → F → Bool
  pub add : F → F → F
  pub sub : F → F → F
  pub mul : F → F → F
  pub div : F → F → F
  pub neg : F → F
  pub nought : F
  pub one : F
  pub of_int : ℤ → F
  -- A decimal literal: `decimal 15 1` is `1.5`.
  pub decimal : ℕ → ℕ → F
  -- `time.Duration.Seconds`.
  pub seconds : ℤ → F
  -- `math.Exp`, `math.Pow`, `math.Log2`.
  pub exp : F → F
  pub pow : F → F → F
  pub log2 : F → F
  -- `math.Min`.
  pub min : F → F → F
  -- `math.Sqrt`, and the rounding to `float32`.
  pub sqrt : F → F
  pub narrow : F → F

module _ (f : Float) where
  open f use {F, lt}

  -- `<` is a strict order, as IEEE 754 has it, with the NaNs included.
  pub record IsOrdered : Type 0 where
    pub lt_irrefl : (a : F) → lt a a ≡ false
    pub lt_asymm : (a b : F) → lt a b ≡ true → lt b a ≡ false
