-- ===== src/Policy/Examples.antt =====
-- The claims on the selected action at three logits.
use rl_aiserver.Common.{
  ℕ, zero, suc, ◌<◌, ◌≡◌, ◌≢◌, refl, Bool, true, false, List, [], ◌∷◌, length, get_or, ltb, arith,
}
use rl_aiserver.Floats.Naturals.{naturals, first_weight, first}
use rl_aiserver.Policy.Select.{
  training, evaluation, selected, available, logit, best, maximum, weights, weight_sum, sample,
  select_action,
}
use rl_aiserver.Policy.Choice.{DrawsPositive, IsStrict, training_available, evaluation_best}

first_weight_lem :
    (ws : List ℕ)
    → 0 < weight_sum naturals 0 ws
    → (first_weight ws < length ws) × (get_or ws (first_weight ws) 0 ≢ 0)
unfolding first_weight weight_sum
first_weight_lem [] h = absurd (omega (arith, h))
first_weight_lem (zero ∷ ws) h = let (a, b) = first_weight_lem ws h in (omega (arith, a), b)
first_weight_lem (suc n ∷ ws) h = (omega arith, λ z. absurd (omega (arith, z)))

first-DrawsPositive : DrawsPositive naturals first
first-DrawsPositive ws g e h = first_weight_lem ws (ground (arith, h))

ltb-IsStrict : IsStrict naturals
ltb-IsStrict = (λ x. ground arith, λ x y z a b. ground (arith, a, b))

abbrev three : List ℕ
three = 4 ∷ 9 ∷ 7 ∷ []

abbrev without_second : List Bool
without_second = true ∷ false ∷ true ∷ []

evaluated : (select_action naturals first three without_second evaluation 1 5).1 ≡ selected 2 0
unfolding select_action best
evaluated = refl

trained : (select_action naturals first three without_second training 1 5).1 ≡ selected 0 0
unfolding select_action sample weights weight_sum maximum first_weight
trained = refl

training_available_example : (0 < 3) × (available without_second 0 ≡ true)
training_available_example =
    training_available naturals first three without_second 1 5 0 0 first-DrawsPositive trained

evaluation_best_example :
    (2 < 3)
    × (available without_second 2 ≡ true)
    × ((j : ℕ)
        → j < 3
        → available without_second j ≡ true
        → ltb (logit naturals three 2) (logit naturals three j) ≡ false)
evaluation_best_example =
    evaluation_best naturals first three without_second 1 5 2 0 ltb-IsStrict evaluated
