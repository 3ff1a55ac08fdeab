-- ===== src/Rollout/Examples.antt =====
-- A segment of three transitions that is closed with a bootstrap value, an agent that acts and gets
-- its result, and the claims at them.
use Prim.Native.String.{◌++◌ as append}
use rl_aiserver.Common.{
  ℕ, zero, suc, ◌+◌, ◌*◌, ◌≡◌, refl, String, str_eq, true, false, some, List, [], ◌∷◌, ◌++◌, length,
}
use rl_aiserver.Common.Int.{ℤ, pos, negsuc}
use rl_aiserver.Floats.Naturals.{naturals, first_weight, first}
use rl_aiserver.Policy.Select.{
  training, validate_model_output, select_action, sample, weights, weight_sum, maximum,
}
use rl_aiserver.Rollout.Types.{
  Result, ok, refuse_if, refuse_some, ModelIdentity, ModelManifest, PreparedModel, RawTransition,
  RewardResult, AgentTrainingState, RolloutConfig, ProcessedTransition, ServiceIdentity, Envelope,
  at_tmax, reset_for_episode,
}
use rl_aiserver.Rollout.Build.{mask_valid, follows, trusted, build_raw_rollout_transition}
use rl_aiserver.Rollout.Estimate.{
  Estimates, IsEstimate, estimate_loop, estimate_rollout_segment,
  estimate_rollout_segment-IsEstimate,
}
use rl_aiserver.Rollout.Project.{vector_eq, sound, project_loop, project_processed_segment}
use rl_aiserver.Rollout.Projection.{IsProjection, project_processed_segment-IsProjection}
use rl_aiserver.Rollout.Chunk.{Ends, fill, cut, cut_all-Ends}
use rl_aiserver.Rollout.Pin.{
  Counters, Place, ensure_agent_segment_pin, act, act_pinned, select_and_store, store_action,
  prepare_model_action,
}
use rl_aiserver.Rollout.Finalize.{
  RewardMetricWindow, observe, note_model, collect, finalize_pending_transition,
}
use rl_aiserver.Rollout.Close.{
  Produced, released, add_count, build_envelopes, cut_processed, commit_close,
  prepare_agent_segment_close,
}
use rl_aiserver.Rollout.Produce.{IsClose, sample_count, prepare_agent_segment_close_conserves}
use rl_aiserver.Rollout.Steps.{IsAgent, SamePin}
use rl_aiserver.Rollout.Reach.{
  Step, acts, finalizes, Reachable, created, then_step, Reachable-IsAgent, Step-SamePin,
}

abbrev marks : ℕ → String
marks zero = "0"
marks (suc n) = append "I" (marks n)

abbrev signed_marks : ℤ → String
signed_marks (pos n) = marks n
signed_marks (negsuc n) = append "-" (marks (suc n))

abbrev config : RolloutConfig naturals
config = record {
  expected_obs_dim = pos 1;
  expected_action_dim = pos 2;
  action_mask_mode = "disabled";
  training_temperature = 1;
  gamma = 1;
  gae_lambda = 1;
  tmax = 3;
  envelope_max_transitions = pos 2;
  envelope_max_bytes = 100;
}

abbrev bytes : Envelope naturals → ℕ
bytes e = 10 + 20 * length e.samples

abbrev producer : ServiceIdentity
producer = record { component = "sample-distributor"; instance_id = "server"; lifecycle_epoch = 1 }

abbrev identity : ModelIdentity
identity = record { model_lineage_id = "lineage"; model_step = some 7 }

abbrev manifest : ModelManifest
manifest = record { identity = some identity; trained_samples = 0; model_path = "model" }

abbrev prepared : PreparedModel
prepared = record { session = some 1; prepared_path = "model" }

abbrev transition : ℕ → ℕ → ℕ → RawTransition naturals
transition n next reward = record {
  observation = n ∷ [];
  next_observation = next ∷ [];
  action = pos 1;
  reward = reward;
  behavior_log_probability = 2;
  behavior_value = 1;
  action_mask = [];
  action_step = n;
  created_at_unix_ms = pos 50;
}

abbrev segment : List (RawTransition naturals)
segment = transition 5 6 3 ∷ transition 6 7 2 ∷ transition 7 8 1 ∷ []

abbrev estimates : Estimates naturals
estimates = record { advantages = 9 ∷ 6 ∷ 4 ∷ []; value_targets = 10 ∷ 7 ∷ 5 ∷ [] }

segment_estimates : estimate_rollout_segment naturals 1 1 4 segment ≡ ok estimates
unfolding estimate_rollout_segment estimate_loop refuse_if
segment_estimates = refl

estimate_rollout_segment-IsEstimate_example : IsEstimate naturals 1 1 4 segment estimates
estimate_rollout_segment-IsEstimate_example =
    estimate_rollout_segment-IsEstimate naturals 1 1 4 segment estimates segment_estimates

abbrev item : ℕ → ℕ → ℕ → ProcessedTransition naturals
item index n adv = record {
  item_id = append "name/transition-" (marks index);
  item_observation = n ∷ [];
  item_action = pos 1;
  item_log_probability = 2;
  item_value = 1;
  advantage = adv;
  value_target = adv + 1;
  behavior_model_step = 7;
  item_created_at_unix_ms = pos 50;
  item_mask = [];
}

abbrev items : List (ProcessedTransition naturals)
items = item 0 5 9 ∷ item 1 6 6 ∷ item 2 7 4 ∷ []

segment_items :
    project_processed_segment config marks "name" identity estimates.advantages
      estimates.value_targets segment
    ≡ ok items
unfolding project_processed_segment project_loop refuse_if sound mask_valid vector_eq str_eq
segment_items = refl

project_processed_segment-IsProjection_example :
    IsProjection config marks "name" identity estimates.advantages estimates.value_targets segment
      items
project_processed_segment-IsProjection_example =
    project_processed_segment-IsProjection config marks "name" identity estimates.advantages
      estimates.value_targets segment items segment_items

abbrev envelope : ℕ → List (ProcessedTransition naturals) → Envelope naturals
envelope index samples = record {
  envelope_id = append "name/envelope-" (marks index);
  producer = producer;
  behavior_model = some identity;
  samples = samples;
}

abbrev envelopes : List (Envelope naturals)
envelopes = envelope 0 (item 0 5 9 ∷ item 1 6 6 ∷ []) ∷ envelope 1 (item 2 7 4 ∷ []) ∷ []

items_cut :
    cut config bytes marks "name" producer (some identity) 3 0 items [] ≡ some (ok envelopes)
unfolding cut fill
items_cut = refl

cut_all-Ends_example :
    Ends config bytes marks "name" producer
      (some identity)
      items
      (cut config bytes marks "name" producer (some identity) 3 0 items [])
cut_all-Ends_example = cut_all-Ends config bytes marks "name" producer (some identity) items

abbrev closing : AgentTrainingState naturals
closing = record {
  done_collected = false;
  has_pending_action = false;
  pending_action = pos 1;
  pending_action_frame_id = negsuc 0;
  pending_log_prob = 2;
  pending_value = 1;
  pending_obs = [];
  pending_action_mask = [];
  segment_open = true;
  segment_id = "name";
  pinned_model = manifest;
  pinned_prepared_model = prepared;
  segment_transitions = segment;
  activated_model_seen = true;
  last_activated_model_step = 7;
  last_activated_model_lineage_id = "lineage";
  last_completed_transition_at_unix_ms = pos 50;
  observation_done = false;
  last_observation_frame_id = pos 8;
  terminal_frame_id = negsuc 0;
  episode_return = 6;
  episode_transition_count = 3;
  episode_behavior_model_seen = true;
  minimum_episode_behavior_model_step = 7;
  maximum_episode_behavior_model_step = 7;
  episode_behavior_model_lineage_id = "lineage";
  reward_component_sums = [];
}

abbrev nothing_produced : Produced naturals
nothing_produced = record {
  transitions = 0;
  envelope_count = 0;
  by_model = [];
  envelopes = [];
  close_counts = [];
}

abbrev produced : Produced naturals
produced = record {
  transitions = 3;
  envelope_count = 2;
  by_model = (7, 3) ∷ [];
  envelopes = envelopes;
  close_counts = (3, 1) ∷ [];
}

closed :
    prepare_agent_segment_close config marks bytes producer
      (some closing)
      at_tmax
      4
      true
      nothing_produced
    ≡ some (ok (released closing, produced))
unfolding prepare_agent_segment_close commit_close build_envelopes cut_processed refuse_some
    estimate_rollout_segment estimate_loop project_processed_segment project_loop refuse_if sound
    mask_valid vector_eq str_eq cut fill add_count
closed = refl

prepare_agent_segment_close_conserves_example :
    (es : List (Envelope naturals)) × IsClose config marks bytes producer closing 4 es
    × (released closing ≡ released closing)
    × (envelopes ≡ [] ++ es)
    × (3 ≡ 0 + sample_count config marks bytes producer es)
    × (2 ≡ 0 + length es)
prepare_agent_segment_close_conserves_example =
    prepare_agent_segment_close_conserves config marks bytes producer closing (released closing)
      at_tmax 4 true nothing_produced produced closed

-- A model with two actions: both have the same logit.
abbrev run : PreparedModel → List ℕ → Result (List ℕ × ℕ)
run p observation = ok (3 ∷ 3 ∷ [], 1)

abbrev place : Place
place = record {
  producer_instance_id = "server";
  session_id = "session";
  current_episode_id = "episode";
  agent_id = pos 0;
}

abbrev counters : Counters
counters = record { next_segment_sequence = 1; activations = 0; latest_model_used = false }

abbrev ready : AgentTrainingState naturals
ready = reset_for_episode closing

-- The agent after its first training action.
abbrev acting : AgentTrainingState naturals
acting =
    (prepare_model_action config marks signed_marks run first training (5 ∷ []) (pos 5) [] place
      manifest prepared prepared ready counters 0).agent

abbrev InLife : AgentTrainingState naturals → Type 0
InLife = Reachable config marks signed_marks run first bytes producer

acting-Step : Step config marks signed_marks run first bytes producer ready acting
acting-Step = acts training (5 ∷ []) (pos 5) [] place manifest prepared prepared ready counters 0

acting-Reachable : InLife acting
acting-Reachable = then_step (created closing) acting-Step

abbrev window : RewardMetricWindow naturals
window = record { started_at = pos 0; count = 0; total = 0; components = [] }

abbrev reward : RewardResult naturals
reward = record { valid = true; reward_error = ""; reward_total = 3; items = ("goal", 3) ∷ [] }

abbrev finalized : Result (AgentTrainingState naturals × RewardMetricWindow naturals)
finalized =
    finalize_pending_transition config (some acting) window reward (6 ∷ []) true (pos 50) (pos 9)

-- The agent after the result of this action.
abbrev resulting : AgentTrainingState naturals
resulting = elim finalized [ ok x ↦ x.0 | Result.error e ↦ ready ]

finalized_ok : finalized ≡ ok (resulting, observe naturals window 3 (("goal", 3) ∷ []) (pos 9))
unfolding reset_for_episode prepare_model_action act_pinned act select_and_store store_action
    ensure_agent_segment_pin finalize_pending_transition collect note_model
    build_raw_rollout_transition trusted follows mask_valid refuse_if str_eq validate_model_output
    select_action sample weights weight_sum maximum first_weight
finalized_ok = refl

finalizing-Step : Step config marks signed_marks run first bytes producer acting resulting
finalizing-Step =
    finalizes acting resulting window (observe naturals window 3 (("goal", 3) ∷ []) (pos 9)) reward
      (6 ∷ []) true (pos 50) (pos 9) finalized_ok

Reachable-IsAgent_example : IsAgent resulting
Reachable-IsAgent_example =
    Reachable-IsAgent config marks signed_marks run first bytes producer resulting
      (then_step acting-Reachable finalizing-Step)

acting_open : acting.segment_open ≡ true
unfolding reset_for_episode prepare_model_action act_pinned act select_and_store store_action
    ensure_agent_segment_pin refuse_if str_eq validate_model_output select_action sample weights
    weight_sum maximum first_weight
acting_open = refl

resulting_open : resulting.segment_open ≡ true
unfolding reset_for_episode prepare_model_action act_pinned act select_and_store store_action
    ensure_agent_segment_pin finalize_pending_transition collect note_model
    build_raw_rollout_transition trusted follows mask_valid refuse_if str_eq validate_model_output
    select_action sample weights weight_sum maximum first_weight
resulting_open = refl

Step-SamePin_example : SamePin config acting resulting
Step-SamePin_example =
    Step-SamePin config marks signed_marks run first bytes producer acting resulting
      acting-Reachable finalizing-Step acting_open resulting_open
