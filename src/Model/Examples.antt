-- ===== src/Model/Examples.antt =====
-- A model that is staged, acknowledged without an answer and then published; and the claims at it.
use rl_aiserver.Common.{
  ℕ, ◌+◌, ◌*◌, ◌%◌, ◌≡◌, ◌⊎◌, refl, arith, str_eq, String, true, false, none, some, [], ◌∷◌,
}
use rl_aiserver.Common.Int.{pos, pos_part, ltb_ℤ, leb_ℤ}
use rl_aiserver.Rollout.Types.{ModelManifest, PreparedModel, empty_manifest, no_model}
use rl_aiserver.Model.Boundary.{
  should_flush_agent_fragment, samples_to_boundary, select_in_quantum,
  select_per_agent_fragment_samples, all_local_agents_at_fragment_boundary,
  select_per_agent_fragment_samples_bounds, select_per_agent_fragment_samples_reaches,
}
use rl_aiserver.Model.Activate.{
  applied, uncertain, probe_ready, ready, Models, Answers, no_authority,
  validate_staged_model_progress, should_fetch_model_candidate, stage_candidate, finish_activation,
  probed, activate_staged_model, try_promote_staged_model, switch_model, retry_applied,
  retry_answered, retry_resume, same_model,
}
use rl_aiserver.Model.Published.{
  Advances, stages, promotes, resumes, Reachable, started, then_step, Step-Advances,
  retry_resume_publishes,
}

-- 1000 samples, a quantum of 256 and 4 agents: 24 samples are left, 6 for each.
shares : select_per_agent_fragment_samples (pos 1000) (pos 256) (pos 4) (pos 128) true ≡ pos 6
unfolding select_per_agent_fragment_samples select_in_quantum samples_to_boundary
shares = refl

flushes : should_flush_agent_fragment 5 (pos 8) true ≡ true
unfolding should_flush_agent_fragment
flushes = refl

not_at_boundary :
    all_local_agents_at_fragment_boundary (
      record { has_pending_action = false; has_cached_samples = true; has_pending_batch = false }
      ∷ [])
    ≡ false
unfolding all_local_agents_at_fragment_boundary
not_at_boundary = refl

select_per_agent_fragment_samples_bounds_example :
    (ltb_ℤ (pos 0) (select_per_agent_fragment_samples (pos 1000) (pos 256) (pos 4) (pos 128) true)
      ≡ true)
    × (leb_ℤ
          (select_per_agent_fragment_samples (pos 1000) (pos 256) (pos 4) (pos 128) true)
          (pos 128)
        ≡ true)
select_per_agent_fragment_samples_bounds_example =
    select_per_agent_fragment_samples_bounds (pos 1000) (pos 256) (pos 4) (pos 128) true refl

select_per_agent_fragment_samples_reaches_example :
    (select_per_agent_fragment_samples (pos 1000) (pos 256) (pos 4) (pos 128) true ≡ pos 128)
    ⊎ ((1000
            + 4
              * pos_part
                  (select_per_agent_fragment_samples (pos 1000) (pos 256) (pos 4) (pos 128) true))
          % 256
        ≡ 0)
select_per_agent_fragment_samples_reaches_example =
    select_per_agent_fragment_samples_reaches 1000 256 4 128 true (omega arith)

abbrev manifest : ℕ → ModelManifest
manifest n = record {
  identity = some (record { model_lineage_id = "lineage"; model_step = some n });
  trained_samples = n;
  model_path = "model";
}

abbrev prepared : PreparedModel
prepared = record { session = some 9; prepared_path = "model" }

abbrev initial : Models
initial = record {
  active = manifest 3;
  active_prepared = prepared;
  staged = empty_manifest;
  staged_prepared = no_model;
  model_ack_pending = false;
  pending = record {
    manifest = empty_manifest;
    authority = no_authority;
    deadline = 0;
    ack_error = "";
    cause = "";
  };
  latest_used = false;
  superseded = 0;
  switches = 0;
  model_state = ready;
  is_degraded = false;
  last_error = "";
  feedback = record { candidate = none; stage = ""; feedback_error = "" };
  shutdown_started = false;
}

abbrev answers : Answers
answers = record {
  probe = probe_ready;
  probe_error = "";
  authority = no_authority;
  ack = uncertain;
  ack_text = "timeout";
  ack_deadline = 100;
}

abbrev text_of : ℕ → String
text_of n = "n"

abbrev with_staged : Models
with_staged = stage_candidate initial (manifest 5) prepared

abbrev waiting_ack : Models
waiting_ack = (try_promote_staged_model with_staged answers).0

waiting-Reachable : Reachable text_of waiting_ack
waiting-Reachable =
    then_step (then_step (started initial refl) (stages initial (manifest 5) prepared refl))
      (promotes with_staged answers)

is_waiting : waiting_ack.model_ack_pending ≡ true
unfolding try_promote_staged_model activate_staged_model probed finish_activation stage_candidate
    should_fetch_model_candidate validate_staged_model_progress
is_waiting = refl

published :
    ((retry_resume text_of waiting_ack waiting_ack.pending applied "" 50).0.active ≡ manifest 5)
    × ((retry_resume text_of waiting_ack waiting_ack.pending applied "" 50).0.switches ≡ 1)
unfolding try_promote_staged_model activate_staged_model probed finish_activation stage_candidate
    should_fetch_model_candidate validate_staged_model_progress retry_resume retry_answered
    retry_applied switch_model str_eq
published = (refl, refl)

Step-Advances_example :
    Advances waiting_ack (retry_resume text_of waiting_ack waiting_ack.pending applied "" 50).0
Step-Advances_example =
    Step-Advances text_of waiting_ack
      (retry_resume text_of waiting_ack waiting_ack.pending applied "" 50).0 waiting-Reachable
      (resumes waiting_ack waiting_ack.pending applied "" 50)

same_pending : same_model waiting_ack.pending.manifest waiting_ack.pending.manifest ≡ true
unfolding try_promote_staged_model activate_staged_model probed finish_activation stage_candidate
    should_fetch_model_candidate validate_staged_model_progress str_eq
same_pending = refl

retry_resume_publishes_example :
    ((retry_resume text_of waiting_ack waiting_ack.pending applied "" 50).1 ≡ true)
    × ((retry_resume text_of waiting_ack waiting_ack.pending applied "" 50).0.active
        ≡ waiting_ack.staged)
retry_resume_publishes_example =
    retry_resume_publishes text_of waiting_ack waiting_ack.pending "" 50 waiting-Reachable
      is_waiting same_pending
