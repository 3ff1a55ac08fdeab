-- ===== src/Rollout/Finalize.antt =====
-- `FinalizePendingTransition` (src/task/runtime/training_runtime.tpp) and `RewardMetricWindow::Observe`
-- (src/task/metrics/reward_metrics.h).
use Prim.Native.String.{◌++◌ as append}
use rl_aiserver.Common.{
  ℕ, ◌+◌, String, str_eq, Bool, true, false, not, ◌||◌, List, [], ◌∷◌, ◌++◌, Option, none, some,
  is_empty, ◌==◌, min, max, if◌then◌else◌,
}
use rl_aiserver.Common.Int.{ℤ, negsuc}
use rl_aiserver.Floats.{Floats}
use rl_aiserver.Rollout.Types.{
  Result, error, ok, refuse_if, and_then, map_error, RawTransition, RewardResult,
  AgentTrainingState, RolloutConfig, has_model_identity, is_prepared, lineage, step,
}
use rl_aiserver.Rollout.Build.{build_raw_rollout_transition}

-- `RewardMetricWindow`.
pub record RewardMetricWindow (f : Floats) : Type 0 where
  pub started_at : ℤ
  pub count : ℕ
  pub total : f.Double
  pub components : List (String × f.Double)

module _ (f : Floats) where
  -- `sums[id] += value`.
  unfoldable pub add_component :
      List (String × f.Double) → String → f.Double → List (String × f.Double)
  add_component [] id value = (id, f.add f.zero value) ∷ []
  add_component (x ∷ xs) id value =
      let rest = add_component xs id value in
      if str_eq x.0 id then (x.0, f.add x.1 value) ∷ xs else x ∷ rest

  unfoldable pub add_components :
      List (String × f.Double) → List (String × f.Single) → List (String × f.Double)
  add_components sums [] = sums
  add_components sums (item ∷ items) =
      add_components (add_component sums item.0 (f.widen item.1)) items

  -- `Observe` at a time of the steady clock.
  unfoldable pub observe :
      RewardMetricWindow f → f.Single → List (String × f.Single) → ℤ → RewardMetricWindow f
  observe w value items at = record {
    started_at = if w.count == 0 then at else w.started_at;
    count = w.count + 1;
    total = f.add w.total (f.widen value);
    components = add_components w.components items;
  }

module _ {f : Floats} (c : RolloutConfig f) where
  -- The range of behaviour models that the episode has used.
  unfoldable pub note_model : AgentTrainingState f → Result (AgentTrainingState f)
  note_model agent =
      refuse_if (is_empty (lineage agent.pinned_model))
        "training transition behavior model identity is incomplete"
        (if not agent.episode_behavior_model_seen
          then ok (record agent {
            episode_behavior_model_seen = true;
            minimum_episode_behavior_model_step = step agent.pinned_model;
            maximum_episode_behavior_model_step = step agent.pinned_model;
            episode_behavior_model_lineage_id = lineage agent.pinned_model;
          })
          else refuse_if
              (not (str_eq agent.episode_behavior_model_lineage_id (lineage agent.pinned_model)))
              "training Episode contains mixed model lineages"
              (ok (record agent {
                minimum_episode_behavior_model_step =
                    min agent.minimum_episode_behavior_model_step (step agent.pinned_model);
                maximum_episode_behavior_model_step =
                    max agent.maximum_episode_behavior_model_step (step agent.pinned_model);
              })))

  -- The pending action is over.
  abbrev pub without_pending : AgentTrainingState f → AgentTrainingState f
  without_pending agent = record agent {
    has_pending_action = false;
    pending_action_frame_id = negsuc 0;
    pending_obs = [];
    pending_action_mask = [];
  }

  abbrev pub with_transition :
      AgentTrainingState f → RewardResult f → RawTransition f → AgentTrainingState f
  with_transition agent reward transition = record agent {
    episode_transition_count = agent.episode_transition_count + 1;
    episode_return = f.add agent.episode_return (f.widen reward.reward_total);
    reward_component_sums = add_components f agent.reward_component_sums reward.items;
    last_completed_transition_at_unix_ms = transition.created_at_unix_ms;
    segment_transitions = agent.segment_transitions ++ (transition ∷ []);
  }

  -- The transition of a training sample.
  unfoldable pub collect :
      AgentTrainingState f
      → RewardMetricWindow f
      → RewardResult f
      → List f.Single
      → ℤ
      → ℤ
      → Result (AgentTrainingState f × RewardMetricWindow f)
  collect agent window reward next_observation now steady_now =
      refuse_if
        (not agent.segment_open
          || not (has_model_identity agent.pinned_model)
          || not (is_prepared agent.pinned_prepared_model))
        "training action result has no pinned Agent segment"
        (refuse_if (not reward.valid) reward.reward_error (
          and_then
            (map_error (append "training transition continuity is invalid: ")
              (build_raw_rollout_transition c agent next_observation reward now))
            (λ transition. and_then (note_model agent) (λ noted. ok (
              without_pending (with_transition noted reward transition),
              observe f window reward.reward_total reward.items steady_now,
            )))))

  -- `agent` is what the session has under the agent's number.
  unfoldable pub finalize_pending_transition :
      Option (AgentTrainingState f)
      → RewardMetricWindow f
      → RewardResult f
      → List f.Single
      → Bool
      → ℤ
      → ℤ
      → Result (AgentTrainingState f × RewardMetricWindow f)
  finalize_pending_transition none window reward next_observation collect_training_sample now
        steady_now =
      error "transition Agent identity is unknown"
  finalize_pending_transition (some agent) window reward next_observation collect_training_sample
        now steady_now =
      if not agent.has_pending_action
      then ok (agent, window)
      else if collect_training_sample
      then collect agent window reward next_observation now steady_now
      else ok (
        without_pending
            (record agent { episode_transition_count = agent.episode_transition_count + 1 }),
        window,
      )
