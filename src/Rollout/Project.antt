-- ===== src/Rollout/Project.antt =====
-- `ProjectProcessedSegment` (src/task/sample/training_transition_builder.cpp).
use Prim.Native.String.{◌++◌ as append}
use rl_aiserver.Common.{
  ℕ, ◌+◌, ◌%◌, ◌^◌, String, Bool, true, false, not, ◌&&◌, ◌||◌, none, some, List, [], ◌∷◌, length,
  get_or, is_nil, is_empty, ◌==◌,
}
use rl_aiserver.Common.Int.{pos, ltb_ℤ, leb_ℤ, to_size}
use rl_aiserver.Floats.{Floats, finite_vector}
use rl_aiserver.Rollout.Types.{
  Result, refuse_if, ok, and_then, RawTransition, RolloutConfig, ModelIdentity, ProcessedTransition,
}
use rl_aiserver.Rollout.Build.{mask_valid}

-- `==` of two vectors of floats.
unfoldable pub vector_eq : (f : Floats) → List f.Single → List f.Single → Bool
vector_eq f [] [] = true
vector_eq f [] (y ∷ ys) = false
vector_eq f (x ∷ xs) [] = false
vector_eq f (x ∷ xs) (y ∷ ys) = f.eq_single x y && vector_eq f xs ys

abbrev pub model_step_or_0 : ModelIdentity → ℕ
model_step_or_0 m = elim m.model_step [ none ↦ 0 | some n ↦ n ]

abbrev pub has_model_step : ModelIdentity → Bool
has_model_step m = elim m.model_step [ none ↦ false | some n ↦ true ]

module _ {f : Floats} (c : RolloutConfig f) where
  -- What the loop asks of one transition alone.
  unfoldable pub sound : RawTransition f → Bool
  sound raw =
      (length raw.observation == to_size c.expected_obs_dim)
      && (length raw.next_observation == to_size c.expected_obs_dim)
      && leb_ℤ (pos 0) raw.action
      && ltb_ℤ raw.action c.expected_action_dim
      && mask_valid c.action_mask_mode raw.action_mask raw.action c.expected_action_dim
      && ltb_ℤ (pos 0) raw.created_at_unix_ms
      && finite_vector f raw.observation
      && finite_vector f raw.next_observation
      && f.is_finite_single raw.reward
      && f.is_finite_single raw.behavior_log_probability
      && f.is_finite_single raw.behavior_value

  -- The next observation is the next transition's observation, if there is one.
  abbrev pub links : RawTransition f → List (RawTransition f) → Bool
  links raw [] = true
  links raw (y ∷ ys) = vector_eq f raw.next_observation y.observation

  module _ (to_string : ℕ → String) (segment_id : String) (model : ModelIdentity)
      (advantages value_targets : List f.Single) where
    abbrev pub item_at : ℕ → RawTransition f → ProcessedTransition f
    item_at index raw = record {
      item_id = append segment_id (append "/transition-" (to_string index));
      item_observation = raw.observation;
      item_action = raw.action;
      item_log_probability = raw.behavior_log_probability;
      item_value = raw.behavior_value;
      advantage = get_or advantages index f.zero_single;
      value_target = get_or value_targets index f.zero_single;
      behavior_model_step = model_step_or_0 model;
      item_created_at_unix_ms = raw.created_at_unix_ms;
      item_mask = raw.action_mask;
    }

    -- The condition of the loop's body, negated.
    abbrev pub accepted : ℕ → ℕ → RawTransition f → List (RawTransition f) → Bool
    accepted index expected raw rest =
        sound raw
        && (raw.action_step == expected)
        && f.is_finite_single (get_or advantages index f.zero_single)
        && f.is_finite_single (get_or value_targets index f.zero_single)
        && links raw rest

    -- The loop over the transitions that are left. A failure clears what was pushed.
    unfoldable pub project_loop :
        ℕ → ℕ → List (RawTransition f) → Result (List (ProcessedTransition f))
    project_loop index expected [] = ok []
    project_loop index expected (raw ∷ rest) =
        let next = project_loop (index + 1) ((expected + 1) % 2 ^ 64) rest in
        refuse_if (not (accepted index expected raw rest))
          "processed segment contains an invalid transition"
          (and_then next (λ processed. ok (item_at index raw ∷ processed)))

    abbrev pub first_step : List (RawTransition f) → ℕ
    first_step [] = 0
    first_step (raw ∷ rest) = raw.action_step

    unfoldable pub project_processed_segment :
        List (RawTransition f) → Result (List (ProcessedTransition f))
    project_processed_segment raw_segment =
        refuse_if
          (is_nil raw_segment
            || not (length advantages == length raw_segment)
            || not (length value_targets == length raw_segment)
            || is_empty segment_id
            || leb_ℤ c.expected_obs_dim (pos 0)
            || leb_ℤ c.expected_action_dim (pos 0)
            || is_empty model.model_lineage_id
            || not (has_model_step model))
          "processed segment identity or estimator output is incomplete"
          (project_loop 0 (first_step raw_segment) raw_segment)
