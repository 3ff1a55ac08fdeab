-- ===== src/Policy/Select.antt =====
-- `ValidateEpisodeModelOutput` and `SelectEpisodeAction` (src/task/policy/episode_action_policy.cpp,
-- src/task/policy/episode_mode.h).
use rl_aiserver.Common.{
  ℕ, ◌+◌, String, Bool, false, not, ◌&&◌, ◌||◌, Option, none, some, List, [], ◌∷◌, all, any, length,
  get_or, is_nil, ◌==◌, if◌then◌else◌,
}
use rl_aiserver.Common.Int.{ℤ, pos, pos_part, leb_ℤ}
use rl_aiserver.Floats.{Floats}

-- `PolicyMode`.
pub data PolicyMode : Type 0 where
  unspecified training evaluation : PolicyMode

-- `std::discrete_distribution` over weights: a draw takes a generator and gives one back.
pub record Sampler (f : Floats) : Type 1 where
  pub Generator : Type 0
  pub draw : List f.Double → Generator → ℕ × Generator

-- The error text, or an action with its log-probability.
pub data Selected (f : Floats) : Type 0 where
  refused : String → Selected f
  selected : ℕ → f.Single → Selected f

-- `available`.
abbrev pub available : List Bool → ℕ → Bool
available mask i = is_nil mask || get_or mask i false

module _ (f : Floats) where
  -- `ValidateEpisodeModelOutput`: the error text, if there is one.
  unfoldable pub validate_model_output : List f.Single → ℤ → f.Single → Option String
  validate_model_output logits dim value =
      if leb_ℤ dim (pos 0) || not (length logits == pos_part dim)
      then some "action logits do not match the expected action dimension"
      else if not (all f.is_finite_single logits)
      then some "action logits contain a non-finite value"
      else if not (f.is_finite_single value)
      then some "state value is non-finite"
      else none

  abbrev pub logit : List f.Single → ℕ → f.Single
  logit logits i = get_or logits i f.zero_single

  -- The loop of the evaluation mode from index `i`, over the logits that are left.
  unfoldable pub best : List f.Single → List Bool → ℕ → ℕ → List f.Single → ℕ
  best logits mask i chosen [] = chosen
  best logits mask i chosen (x ∷ xs) =
      best logits mask (i + 1)
        (if available mask i && ((chosen == length logits) || f.lt_single (logit logits chosen) x)
          then i
          else chosen)
        xs

  -- `std::max` of the available logits.
  unfoldable pub maximum : List Bool → ℕ → f.Double → List f.Single → f.Double
  maximum mask i m [] = m
  maximum mask i m (x ∷ xs) =
      maximum mask (i + 1) (if available mask i && f.lt m (f.widen x) then f.widen x else m) xs

  -- The weights of the softmax.
  unfoldable pub weights : List Bool → f.Double → f.Double → ℕ → List f.Single → List f.Double
  weights mask temperature m i [] = []
  weights mask temperature m i (x ∷ xs) =
      (if available mask i then f.exp (f.div (f.sub (f.widen x) m) temperature) else f.zero)
      ∷ weights mask temperature m (i + 1) xs

  unfoldable pub weight_sum : f.Double → List f.Double → f.Double
  weight_sum s [] = s
  weight_sum s (w ∷ ws) = weight_sum (f.add s w) ws

  -- The branch of the training mode.
  unfoldable pub sample :
      (r : Sampler f)
      → List f.Single
      → List Bool
      → f.Double
      → r.Generator
      → r.Generator × Selected f
  sample r logits mask temperature g =
      let ws = weights mask temperature (maximum mask 0 f.neg_infinity logits) 0 logits in
      let sum = weight_sum f.zero ws in
      let drawn = r.draw ws g in
      if not (f.is_finite sum) || not (f.lt f.zero sum)
      then (g, refused "softmax normalization is invalid")
      else (drawn.1, selected drawn.0 (f.narrow (f.log (f.div (get_or ws drawn.0 f.zero) sum))))

  -- `SelectEpisodeAction`.
  unfoldable pub select_action :
      (r : Sampler f)
      → List f.Single
      → List Bool
      → PolicyMode
      → f.Double
      → r.Generator
      → r.Generator × Selected f
  select_action r logits mask mode temperature g =
      if is_nil logits || (not (f.is_finite temperature) || not (f.lt f.zero temperature))
      then (g, refused "action logits or temperature are invalid")
      else if not (all f.is_finite_single logits)
      then (g, refused "action logits contain a non-finite value")
      else if not (is_nil mask) && (not (length mask == length logits) || not (any (λ b. b) mask))
      then (g, refused "action mask does not define an available model action")
      else elim mode [
        | evaluation ↦ (g, selected (best logits mask 0 (length logits) logits) f.zero_single)
        | training ↦ sample r logits mask temperature g
        | unspecified ↦ (g, refused "Episode mode does not define a model action policy")
      ]
