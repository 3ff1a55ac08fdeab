-- ===== src/Floats/Naturals.antt =====
-- A concrete instance of the floating-point parameters for the tests: every value is a natural
-- number. With it, a sampler that takes the first index with a weight.
use rl_aiserver.Common.{ℕ, zero, suc, ◌+◌, ◌-◌, ◌*◌, ◌/◌, true, List, [], ◌∷◌, ltb, ◌==◌}
use rl_aiserver.Floats.{Floats}
use rl_aiserver.Policy.Select.{Sampler}

abbrev pub naturals : Floats
naturals = record {
  Single = ℕ;
  Double = ℕ;
  widen = λ x. x;
  narrow = λ x. x;
  add = λ a b. a + b;
  sub = λ a b. a - b;
  mul = λ a b. a * b;
  div = λ a b. a / b;
  exp = λ x. x + 1;
  log = λ x. x;
  lt = ltb;
  lt_single = ltb;
  eq_single = λ a b. a == b;
  is_finite = λ x. true;
  is_finite_single = λ x. true;
  zero = 0;
  zero_single = 0;
  float_max = 1000;
  neg_float_max = 0;
  neg_infinity = 0;
}

unfoldable pub first_weight : List ℕ → ℕ
first_weight [] = 0
first_weight (zero ∷ ws) = suc (first_weight ws)
first_weight (suc n ∷ ws) = 0

abbrev pub first : Sampler naturals
first = record { Generator = ℕ; draw = λ ws g. (first_weight ws, g + 1) }
