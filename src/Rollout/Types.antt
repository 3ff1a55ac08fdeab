-- ===== src/Rollout/Types.antt =====
-- The data of a rollout segment (src/task/sample/rollout_types.h, src/task/session/training_session.h,
-- src/task/model/model_manifest.h, proto/training/training.proto).
use rl_aiserver.Common.{
  ℕ, String, ◌≡◌, refl, Bool, true, false, not, ◌&&◌, Option, none, some, List, [], is_empty,
}
use rl_aiserver.Common.Int.{ℤ, pos, negsuc}
use rl_aiserver.Floats.{Floats}

-- A function that returns false and an error text, or true and what it has written.
pub data Result (A : Type 0) : Type 0 where
  error : String → Result A
  ok : A → Result A

-- `if (refused) { error = text; return false; }`, and the code after it.
unfoldable pub refuse_if : {A : Type 0} → Bool → String → Result A → Result A
refuse_if true text rest = error text
refuse_if false text rest = rest

-- A guard that let a result pass was false.
pub guard_ok :
    {A : Type 0} (b : Bool) (m : String) (r : Result A) {x : A}
    → refuse_if b m r ≡ ok x
    → (b ≡ false) × (r ≡ ok x)
unfolding refuse_if
guard_ok true m r e = cc
guard_ok false m r e = (refl, e)

-- The same in a function with loops, where `none` is a run without end.
unfoldable pub refuse_some : {A : Type 0} → Bool → String → Option (Result A) → Option (Result A)
refuse_some true text rest = some (error text)
refuse_some false text rest = rest

pub guard_some :
    {A : Type 0} (b : Bool) (m : String) (r : Option (Result A)) {x : A}
    → refuse_some b m r ≡ some (ok x)
    → (b ≡ false) × (r ≡ some (ok x))
unfolding refuse_some
guard_some true m r e = cc
guard_some false m r e = (refl, e)

pub refuse_some_returns :
    {A : Type 0} (b : Bool) (m : String) (r : Option (Result A))
    → (x : Result A) × (r ≡ some x)
    → (x : Result A) × (refuse_some b m r ≡ some x)
unfolding refuse_some
refuse_some_returns true m r h = (error m, refl)
refuse_some_returns false m r h = h

pub ok_eq : {A : Type 0} {a b : A} → ok a ≡ ok b → a ≡ b
ok_eq e = cc e

abbrev pub and_then : {A B : Type 0} → Result A → (A → Result B) → Result B
and_then (error m) k = error m
and_then (ok a) k = k a

pub and_then_ok :
    {A B : Type 0} (r : Result A) {k : A → Result B} {x : B}
    → and_then r k ≡ ok x
    → (a : A) × (r ≡ ok a) × (k a ≡ ok x)
and_then_ok (error m) e = cc
and_then_ok (ok a) e = (a, refl, e)

-- The same failure under another text.
abbrev pub map_error : {A : Type 0} → (String → String) → Result A → Result A
map_error g (error m) = error (g m)
map_error g (ok a) = ok a

pub map_error_ok :
    {A : Type 0} (g : String → String) (r : Result A) {x : A} → map_error g r ≡ ok x → r ≡ ok x
map_error_ok g (error m) e = cc
map_error_ok g (ok a) e = e

-- `ModelIdentity`.
pub record ModelIdentity : Type 0 where
  pub model_lineage_id : String
  pub model_step : Option ℕ

-- `ModelManifest`.
pub record ModelManifest : Type 0 where
  pub identity : Option ModelIdentity
  pub trained_samples : ℕ
  pub model_path : String

abbrev pub empty_manifest : ModelManifest
empty_manifest = record { identity = none; trained_samples = 0; model_path = "" }

-- `ModelManifest::model_lineage_id`; a message that is not set reads as one with default fields.
abbrev pub lineage : ModelManifest → String
lineage m = elim m.identity [ none ↦ "" | some i ↦ i.model_lineage_id ]

-- `ModelManifest::model_step`.
abbrev pub step : ModelManifest → ℕ
step m = elim m.identity [ none ↦ 0 | some i ↦ elim i.model_step [ none ↦ 0 | some n ↦ n ] ]

abbrev pub has_step : ModelManifest → Bool
has_step m = elim m.identity [
  | none ↦ false
  | some i ↦ elim i.model_step [ none ↦ false | some n ↦ true ]
]

-- `ModelManifest::HasModelIdentity`.
abbrev pub has_model_identity : ModelManifest → Bool
has_model_identity m = has_step m && not (is_empty (lineage m))

-- `OnnxInferencer::PreparedModel`: a shared session, given by its address, and the path of its file.
pub record PreparedModel : Type 0 where
  pub session : Option ℕ
  pub prepared_path : String

abbrev pub no_model : PreparedModel
no_model = record { session = none; prepared_path = "" }

abbrev pub is_prepared : PreparedModel → Bool
is_prepared p = elim p.session [ none ↦ false | some a ↦ true ]

-- `RawRolloutTransition`.
pub record RawTransition (f : Floats) : Type 0 where
  pub observation : List f.Single
  pub next_observation : List f.Single
  pub action : ℤ
  pub reward : f.Single
  pub behavior_log_probability : f.Single
  pub behavior_value : f.Single
  pub action_mask : List Bool
  pub action_step : ℕ
  pub created_at_unix_ms : ℤ

abbrev pub raw_default : (f : Floats) → RawTransition f
raw_default f = record {
  observation = [];
  next_observation = [];
  action = pos 0;
  reward = f.zero_single;
  behavior_log_probability = f.zero_single;
  behavior_value = f.zero_single;
  action_mask = [];
  action_step = 0;
  created_at_unix_ms = pos 0;
}

-- `RewardResult`.
pub record RewardResult (f : Floats) : Type 0 where
  pub valid : Bool
  pub reward_error : String
  pub reward_total : f.Single
  pub items : List (String × f.Single)

-- `AgentTrainingState`.
pub record AgentTrainingState (f : Floats) : Type 0 where
  pub done_collected : Bool
  pub has_pending_action : Bool
  pub pending_action : ℤ
  pub pending_action_frame_id : ℤ
  pub pending_log_prob : f.Single
  pub pending_value : f.Single
  pub pending_obs : List f.Single
  pub pending_action_mask : List Bool
  pub segment_open : Bool
  pub segment_id : String
  pub pinned_model : ModelManifest
  pub pinned_prepared_model : PreparedModel
  pub segment_transitions : List (RawTransition f)
  pub activated_model_seen : Bool
  pub last_activated_model_step : ℕ
  pub last_activated_model_lineage_id : String
  pub last_completed_transition_at_unix_ms : ℤ
  pub observation_done : Bool
  pub last_observation_frame_id : ℤ
  pub terminal_frame_id : ℤ
  pub episode_return : f.Double
  pub episode_transition_count : ℕ
  pub episode_behavior_model_seen : Bool
  pub minimum_episode_behavior_model_step : ℕ
  pub maximum_episode_behavior_model_step : ℕ
  pub episode_behavior_model_lineage_id : String
  pub reward_component_sums : List (String × f.Double)

-- `AgentTrainingState::ResetForEpisode`.
unfoldable pub reset_for_episode : {f : Floats} → AgentTrainingState f → AgentTrainingState f
reset_for_episode {f} agent = record agent {
  done_collected = false;
  has_pending_action = false;
  pending_action = pos 0;
  pending_action_frame_id = negsuc 0;
  pending_log_prob = f.zero_single;
  pending_value = f.zero_single;
  pending_obs = [];
  pending_action_mask = [];
  segment_open = false;
  segment_id = "";
  pinned_model = empty_manifest;
  pinned_prepared_model = no_model;
  segment_transitions = [];
  last_completed_transition_at_unix_ms = pos 0;
  observation_done = false;
  last_observation_frame_id = negsuc 0;
  terminal_frame_id = negsuc 0;
  episode_return = f.zero;
  episode_transition_count = 0;
  episode_behavior_model_seen = false;
  minimum_episode_behavior_model_step = 0;
  maximum_episode_behavior_model_step = 0;
  episode_behavior_model_lineage_id = "";
  reward_component_sums = [];
}

-- The part of the configuration that the segments use.
pub record RolloutConfig (f : Floats) : Type 0 where
  pub expected_obs_dim : ℤ
  pub expected_action_dim : ℤ
  pub action_mask_mode : String
  pub training_temperature : f.Double
  pub gamma : f.Double
  pub gae_lambda : f.Double
  pub tmax : ℕ
  pub envelope_max_transitions : ℤ
  pub envelope_max_bytes : ℕ

-- `ProcessedTransition`.
pub record ProcessedTransition (f : Floats) : Type 0 where
  pub item_id : String
  pub item_observation : List f.Single
  pub item_action : ℤ
  pub item_log_probability : f.Single
  pub item_value : f.Single
  pub advantage : f.Single
  pub value_target : f.Single
  pub behavior_model_step : ℕ
  pub item_created_at_unix_ms : ℤ
  pub item_mask : List Bool

-- `ServiceInstanceIdentity`.
pub record ServiceIdentity : Type 0 where
  pub component : String
  pub instance_id : String
  pub lifecycle_epoch : ℕ

-- `ProcessedTransitionEnvelope`.
pub record Envelope (f : Floats) : Type 0 where
  pub envelope_id : String
  pub producer : ServiceIdentity
  pub behavior_model : Option ModelIdentity
  pub samples : List (ProcessedTransition f)

-- `SegmentCloseReason`.
pub data SegmentCloseReason : Type 0 where
  unspecified environment_terminated at_tmax client_controlled_close client_recovery_timeout
        controlled_shutdown :
      SegmentCloseReason
