-- ===== src/Rollout/Close.antt =====
-- `PrepareAgentSegmentClose` and `DiscardAgentSegment` (src/task/runtime/training_runtime.tpp).
use rl_aiserver.Common.{
  ℕ, ◌+◌, String, Bool, false, not, ◌&&◌, ◌||◌, List, [], ◌∷◌, ◌++◌, Option, none, some, length,
  is_nil, is_empty, ◌==◌, if◌then◌else◌,
}
use rl_aiserver.Common.Int.{negsuc}
use rl_aiserver.Floats.{Floats}
use rl_aiserver.Rollout.Types.{
  Result, error, ok, refuse_some, and_then, AgentTrainingState, RolloutConfig, ModelIdentity,
  ProcessedTransition, ServiceIdentity, Envelope, SegmentCloseReason, unspecified,
  environment_terminated, at_tmax, client_controlled_close, client_recovery_timeout,
  controlled_shutdown, has_model_identity, is_prepared, step, empty_manifest, no_model,
}
use rl_aiserver.Rollout.Estimate.{estimate_rollout_segment}
use rl_aiserver.Rollout.Project.{project_processed_segment}
use rl_aiserver.Rollout.Chunk.{cut}

abbrev pub reason_number : SegmentCloseReason → ℕ
reason_number unspecified = 0
reason_number environment_terminated = 1
reason_number at_tmax = 3
reason_number client_controlled_close = 4
reason_number client_recovery_timeout = 5
reason_number controlled_shutdown = 6

-- `counts[key] += n`.
unfoldable pub add_count : List (ℕ × ℕ) → ℕ → ℕ → List (ℕ × ℕ)
add_count [] key n = (key, n) ∷ []
add_count (x ∷ xs) key n =
    let rest = add_count xs key n in if x.0 == key then (key, x.1 + n) ∷ xs else x ∷ rest

-- What the function adds to, of the command's transaction.
pub record Produced (f : Floats) : Type 0 where
  pub transitions : ℕ
  pub envelope_count : ℕ
  pub by_model : List (ℕ × ℕ)
  pub envelopes : List (Envelope f)
  pub close_counts : List (ℕ × ℕ)

-- What `DiscardAgentSegment` adds to.
pub record Discarded : Type 0 where
  pub quarantined : ℕ
  pub excluded : ℕ
  pub closed_segments : ℕ
  pub discard_counts : List (ℕ × ℕ)

-- The segment is over.
abbrev pub released : {f : Floats} → AgentTrainingState f → AgentTrainingState f
released agent = record agent {
  segment_open = false;
  segment_id = "";
  pinned_model = empty_manifest;
  pinned_prepared_model = no_model;
  segment_transitions = [];
}

-- A message that is not set reads as one with default fields.
abbrev pub identity_of : {f : Floats} → AgentTrainingState f → ModelIdentity
identity_of agent = elim agent.pinned_model.identity [
  | none ↦ record { model_lineage_id = ""; model_step = none }
  | some i ↦ i
]

module _ {f : Floats} (c : RolloutConfig f) (to_string : ℕ → String) (byte_size : Envelope f → ℕ)
    (producer : ServiceIdentity) where
  abbrev pub closable : AgentTrainingState f → Bool
  closable agent =
      agent.segment_open
      && not (is_nil agent.segment_transitions)
      && not (is_empty agent.segment_id)
      && has_model_identity agent.pinned_model
      && is_prepared agent.pinned_prepared_model

  -- The bootstrap facts contradict the reason.
  abbrev pub contradicts : SegmentCloseReason → f.Single → Bool → Bool
  contradicts reason bootstrap_value bootstrap_applied =
      let terminal = reason_number reason == 1 in
      (terminal && (bootstrap_applied || not (f.eq_single bootstrap_value f.zero_single)))
      || (not terminal && not bootstrap_applied)
      || not (f.is_finite_single bootstrap_value)

  abbrev pub add_envelopes :
      AgentTrainingState f → SegmentCloseReason → Produced f → List (Envelope f) → Produced f
  add_envelopes agent reason out built = record {
    transitions = out.transitions + length agent.segment_transitions;
    envelope_count = out.envelope_count + length built;
    by_model = add_count out.by_model (step agent.pinned_model) (length agent.segment_transitions);
    envelopes = out.envelopes ++ built;
    close_counts = add_count out.close_counts (reason_number reason) 1;
  }

  unfoldable pub cut_processed :
      AgentTrainingState f
      → Result (List (ProcessedTransition f))
      → Option (Result (List (Envelope f)))
  cut_processed agent (error e) = some (error e)
  cut_processed agent (ok processed) =
      cut c byte_size to_string agent.segment_id producer (some (identity_of agent))
        (length processed) 0 processed []

  -- The envelopes of the segment; `none` when the loops would not end.
  unfoldable pub build_envelopes :
      AgentTrainingState f → f.Single → Option (Result (List (Envelope f)))
  build_envelopes agent bootstrap_value = cut_processed agent (
      and_then
        (estimate_rollout_segment f c.gamma c.gae_lambda (f.widen bootstrap_value)
          agent.segment_transitions)
        (λ estimates.
          project_processed_segment c to_string agent.segment_id (identity_of agent)
            estimates.advantages estimates.value_targets agent.segment_transitions))

  -- The envelopes are built: count them and release the agent.
  unfoldable pub commit_close :
      AgentTrainingState f
      → SegmentCloseReason
      → Produced f
      → Option (Result (List (Envelope f)))
      → Option (Result (AgentTrainingState f × Produced f))
  commit_close agent reason out none = none
  commit_close agent reason out (some (error e)) = some (error e)
  commit_close agent reason out (some (ok built)) =
      some (ok (released agent, add_envelopes agent reason out built))

  -- `agent` is what the session has under the agent's number.
  unfoldable pub prepare_agent_segment_close :
      Option (AgentTrainingState f)
      → SegmentCloseReason
      → f.Single
      → Bool
      → Produced f
      → Option (Result (AgentTrainingState f × Produced f))
  prepare_agent_segment_close none reason bootstrap_value bootstrap_applied out =
      some (error "segment close Agent identity is unknown")
  prepare_agent_segment_close (some agent) reason bootstrap_value bootstrap_applied out =
      refuse_some (not (closable agent)) "cannot close an empty or unpinned Agent segment" (
        refuse_some (reason_number reason == 0) "segment close reason must be explicit" (
          refuse_some (contradicts reason bootstrap_value bootstrap_applied)
            "segment close bootstrap facts contradict the close reason"
            (commit_close agent reason out (build_envelopes agent bootstrap_value))))

-- `DiscardAgentSegment`.
unfoldable pub discard_agent_segment :
    {f : Floats}
    → Option (AgentTrainingState f)
    → SegmentCloseReason
    → Bool
    → Discarded
    → Option (AgentTrainingState f) × Discarded
discard_agent_segment none reason exclude_pending_action d = (none, d)
discard_agent_segment {f} (some agent) reason exclude_pending_action d =
    let closes =
      agent.segment_open || agent.has_pending_action || not (is_nil agent.segment_transitions) in
    (
      some (
          released (record agent {
            has_pending_action = false;
            pending_action_frame_id = negsuc 0;
            pending_obs = [];
            pending_action_mask = [];
          })),
      record {
        excluded =
            if exclude_pending_action && agent.has_pending_action
            then d.excluded + 1
            else d.excluded;
        quarantined =
            if closes then d.quarantined + length agent.segment_transitions else d.quarantined;
        discard_counts =
            if closes
            then add_count d.discard_counts (reason_number reason) 1
            else d.discard_counts;
        closed_segments = if closes then d.closed_segments + 1 else d.closed_segments;
      },
    )
