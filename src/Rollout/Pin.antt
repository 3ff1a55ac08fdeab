-- ===== src/Rollout/Pin.antt =====
-- `EnsureAgentSegmentPin`, `InferPinnedValue` and `PrepareModelAction`
-- (src/task/runtime/training_runtime.tpp).
use Prim.Native.String.{◌++◌ as append}
use rl_aiserver.Common.{
  ℕ, ◌+◌, ◌%◌, ◌^◌, String, str_eq, Bool, true, not, ◌||◌, Option, none, some, List, [], length,
  is_empty, ◌==◌, if◌then◌else◌,
}
use rl_aiserver.Common.Int.{ℤ, eq_ℤ, to_int32}
use rl_aiserver.Floats.{Floats}
use rl_aiserver.Policy.Select.{
  PolicyMode, training, evaluation, unspecified, Sampler, Selected, refused, selected,
  validate_model_output, select_action,
}
use rl_aiserver.Rollout.Types.{
  Result, error, ok, refuse_if, AgentTrainingState, RolloutConfig, ModelManifest,
  has_model_identity, PreparedModel, is_prepared,
}

-- What the command has counted.
pub record Counters : Type 0 where
  pub next_segment_sequence : ℕ
  pub activations : ℕ
  pub latest_model_used : Bool

-- Where the agent acts: the text before the segment's number.
pub record Place : Type 0 where
  pub producer_instance_id : String
  pub session_id : String
  pub current_episode_id : String
  pub agent_id : ℤ

-- The increment of an unsigned counter that skips 0.
unfoldable pub next_sequence : ℕ → ℕ
next_sequence n = let m = (n + 1) % 2 ^ 64 in if m == 0 then (m + 1) % 2 ^ 64 else m

-- The texts of numbers are those of `<<`; `infer` runs a prepared model: logits and value, unless it
-- fails with an error text.
module _ {f : Floats} (c : RolloutConfig f) (to_string : ℕ → String)
    (int_to_string : ℤ → String) where
  abbrev pub segment_text : Place → ℕ → String
  segment_text p n = append p.producer_instance_id (
      append "/" (
        append p.session_id (
          append "/" (
            append p.current_episode_id (
              append "/agent-"
                (append (int_to_string p.agent_id) (append "/segment-" (to_string n))))))))

  unfoldable pub ensure_agent_segment_pin :
      Place
      → ModelManifest
      → PreparedModel
      → AgentTrainingState f
      → Counters
      → Result (AgentTrainingState f × Counters)
  ensure_agent_segment_pin p manifest prepared agent n =
      if agent.segment_open
      then refuse_if
          (not (has_model_identity agent.pinned_model)
            || not (is_prepared agent.pinned_prepared_model)
            || is_empty agent.segment_id)
          "open Agent segment has incomplete pinned model state" (ok (agent, n))
      else refuse_if (not (has_model_identity manifest))
          "latest prepared training model has no identity"
          (refuse_if
            (not (is_prepared prepared) || not (str_eq prepared.prepared_path manifest.model_path))
            "latest model manifest and prepared ORT session disagree"
            (refuse_if (c.tmax == 0) "AIServer rollout tmax is invalid" (
              ok (
                record agent {
                  segment_open = true;
                  segment_id = segment_text p n.next_segment_sequence;
                  pinned_model = manifest;
                  pinned_prepared_model = prepared;
                  segment_transitions = [];
                },
                record {
                  next_segment_sequence = next_sequence n.next_segment_sequence;
                  activations = n.activations + 1;
                  latest_model_used = true;
                },
              ))))

  module _ (infer : PreparedModel → List f.Single → Result (List f.Single × f.Single)) where
    -- An error is the text that the runtime is marked degraded with.
    unfoldable pub infer_pinned_value : AgentTrainingState f → List f.Single → Result f.Single
    infer_pinned_value agent observation =
        refuse_if
          (not agent.segment_open
            || not (is_prepared agent.pinned_prepared_model)
            || not (eq_ℤ (to_int32 (length observation)) c.expected_obs_dim))
          "pinned bootstrap inference inputs are incomplete"
          (elim (infer agent.pinned_prepared_model observation) [
            | error e ↦ error (append "pinned bootstrap inference failed: " e)
            | ok output ↦ elim (validate_model_output f output.0 c.expected_action_dim output.1) [
              | some e ↦ error (append "pinned bootstrap inference failed: " e)
              | none ↦ ok output.1
            ]
          ])

    -- What `PrepareModelAction` leaves: the agent and the counters keep the pin on every path.
    pub record Prepared (r : Sampler f) : Type 0 where
      pub agent : AgentTrainingState f
      pub counters : Counters
      pub generator : r.Generator
      pub outcome : Result (ℕ × f.Single × f.Single)

    abbrev pub degraded :
        (r : Sampler f) → AgentTrainingState f → Counters → r.Generator → String → Prepared r
    degraded r a n g text = record { agent = a; counters = n; generator = g; outcome = error text }

    abbrev pub with_pending :
        AgentTrainingState f
        → List f.Single
        → List Bool
        → ℤ
        → ℕ
        → f.Single
        → f.Single
        → AgentTrainingState f
    with_pending a obs mask frame_id action log_prob value = record a {
      pending_obs = obs;
      pending_action_mask = mask;
      pending_action = ℤ.pos action;
      pending_action_frame_id = frame_id;
      pending_log_prob = log_prob;
      pending_value = value;
      has_pending_action = true;
    }

    module _ (r : Sampler f) (mode : PolicyMode) (obs : List f.Single) (frame_id : ℤ)
        (mask : List Bool) where
      -- Store the action that was selected.
      unfoldable pub store_action :
          AgentTrainingState f → Counters → f.Single → r.Generator → Selected f → Prepared r
      store_action a n value g (refused e) = degraded r a n g e
      store_action a n value g (selected action log_prob) =
          if a.has_pending_action
          then degraded r a n g "Agent action would overwrite a pending transition"
          else record {
            agent = with_pending a obs mask frame_id action log_prob value;
            counters = n;
            generator = g;
            outcome = ok (action, log_prob, value);
          }

      -- The model's output with the error of its validation, if there is one.
      unfoldable pub select_and_store :
          AgentTrainingState f
          → Counters
          → r.Generator
          → List f.Single × f.Single
          → Option String
          → Prepared r
      select_and_store a n g o (some e) =
          degraded r a n g (append "ONNX model output is invalid: " e)
      select_and_store a n g o none =
          let choice = select_action f r o.0 mask mode c.training_temperature g in
          store_action a n o.1 choice.0 choice.1

      -- The agent is pinned and its model has run.
      unfoldable pub act :
          AgentTrainingState f
          → Counters
          → r.Generator
          → Result (List f.Single × f.Single)
          → Prepared r
      act a n g (error e) = degraded r a n g (append "ONNX inference failed: " e)
      act a n g (ok o) =
          select_and_store a n g o (validate_model_output f o.0 c.expected_action_dim o.1)

      -- The pin of a training episode.
      unfoldable pub act_pinned :
          AgentTrainingState f
          → Counters
          → r.Generator
          → Result (AgentTrainingState f × Counters)
          → Prepared r
      act_pinned a n g (error e) = degraded r a n g (append "Agent segment pin failed: " e)
      act_pinned a n g (ok s) = act s.0 s.1 g (infer s.0.pinned_prepared_model obs)

      -- `active` is the model that an evaluation episode runs.
      unfoldable pub prepare_model_action :
          Place
          → ModelManifest
          → PreparedModel
          → PreparedModel
          → AgentTrainingState f
          → Counters
          → r.Generator
          → Prepared r
      prepare_model_action p manifest prepared active agent n g = elim mode [
        | training ↦ act_pinned agent n g (ensure_agent_segment_pin p manifest prepared agent n)
        | evaluation ↦ act agent n g (infer active obs)
        | unspecified ↦ act agent n g (infer active obs)
      ]
