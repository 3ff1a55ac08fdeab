-- ===== src/Rollout/Build.antt =====
-- `BuildRawRolloutTransition` (src/task/sample/rollout_transition_builder.cpp).
use rl_aiserver.Common.{
  ◌+◌, ◌%◌, ◌^◌, String, str_eq, Bool, true, false, not, ◌&&◌, ◌||◌, List, [], ◌∷◌, any, length,
  get_or, is_nil, ◌==◌,
}
use rl_aiserver.Common.Int.{ℤ, pos, pos_part, ltb_ℤ, leb_ℤ, eq_ℤ, to_int32, to_size}
use rl_aiserver.Floats.{Floats, finite_vector}
use rl_aiserver.Rollout.Types.{
  Result, refuse_if, ok, RawTransition, RewardResult, AgentTrainingState, RolloutConfig,
  is_prepared,
}

-- `action_mask[action]` is read only when the action is inside the mask.
unfoldable pub mask_valid : String → List Bool → ℤ → ℤ → Bool
mask_valid mode mask action action_count =
    (str_eq mode "disabled" && is_nil mask)
    || (str_eq mode "required"
        && (length mask == to_size action_count)
        && any (λ available. available) mask
        && leb_ℤ (pos 0) action
        && ltb_ℤ action action_count
        && get_or mask (pos_part action) false)

-- `segment_transitions.back()`, or `d` for an empty segment.
abbrev pub last_or {ℓ} : {A : Type ℓ} → List A → A → A
last_or [] d = d
last_or (x ∷ xs) d = last_or xs x

-- The segment is empty or the pending action follows its last one.
unfoldable pub follows : {f : Floats} → List (RawTransition f) → ℤ → Bool
follows [] frame_id = true
follows (x ∷ xs) frame_id = to_size frame_id == ((last_or xs x).action_step + 1) % 2 ^ 64

module _ {f : Floats} (c : RolloutConfig f) where
  -- The first condition of the function, negated.
  unfoldable pub trusted : AgentTrainingState f → List f.Single → RewardResult f → Bool
  trusted agent next_observation reward =
      agent.has_pending_action
      && agent.segment_open
      && is_prepared agent.pinned_prepared_model
      && reward.valid
      && leb_ℤ (pos 0) agent.pending_action_frame_id
      && leb_ℤ (pos 0) agent.pending_action
      && ltb_ℤ agent.pending_action c.expected_action_dim
      && eq_ℤ (to_int32 (length agent.pending_obs)) c.expected_obs_dim
      && eq_ℤ (to_int32 (length next_observation)) c.expected_obs_dim
      && finite_vector f agent.pending_obs
      && finite_vector f next_observation
      && f.is_finite_single agent.pending_log_prob
      && f.is_finite_single agent.pending_value
      && mask_valid c.action_mask_mode agent.pending_action_mask agent.pending_action
          c.expected_action_dim
      && f.is_finite_single reward.reward_total

  -- `now` is the system clock in milliseconds.
  unfoldable pub build_raw_rollout_transition :
      AgentTrainingState f → List f.Single → RewardResult f → ℤ → Result (RawTransition f)
  build_raw_rollout_transition agent next_observation reward now =
      refuse_if (not (trusted agent next_observation reward))
        "trusted rollout transition inputs are incomplete or non-finite"
        (refuse_if (not (follows agent.segment_transitions agent.pending_action_frame_id))
          "single-Agent segment action steps are not contiguous"
          (ok (record {
            observation = agent.pending_obs;
            next_observation = next_observation;
            action = agent.pending_action;
            reward = reward.reward_total;
            behavior_log_probability = agent.pending_log_prob;
            behavior_value = agent.pending_value;
            action_mask = agent.pending_action_mask;
            action_step = to_size agent.pending_action_frame_id;
            created_at_unix_ms = now;
          })))
