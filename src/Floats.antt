-- ===== src/Floats.antt =====
-- The floating-point operations that the code uses: `float` and `double` with their arithmetic and
-- comparisons, and the functions of <cmath>. They are parameters of the models.
pub mod Naturals
use rl_aiserver.Common.{Bool, List, [], ◌∷◌, all}

pub record Floats : Type 1 where
  pub Single : Type 0
  pub Double : Type 0
  pub widen : Single → Double
  pub narrow : Double → Single
  pub add : Double → Double → Double
  pub sub : Double → Double → Double
  pub mul : Double → Double → Double
  pub div : Double → Double → Double
  pub exp : Double → Double
  pub log : Double → Double
  pub lt : Double → Double → Bool
  pub lt_single : Single → Single → Bool
  pub eq_single : Single → Single → Bool
  pub is_finite : Double → Bool
  pub is_finite_single : Single → Bool
  pub zero : Double
  pub zero_single : Single
  pub float_max : Double
  pub neg_float_max : Double
  pub neg_infinity : Double

-- `FiniteVector`.
abbrev pub finite_vector : (f : Floats) → List f.Single → Bool
finite_vector f = all f.is_finite_single
