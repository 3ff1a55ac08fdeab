-- ===== src/Model/Activate.antt =====
-- Staging a model, activating it and repeating its acknowledgement
-- (src/task/runtime/training_runtime.tpp: `ModelWatchLoop`, `ActivateStagedModel`,
-- `TryPromoteStagedModelForWatcher`, `RetryPendingModelAck`).
use Prim.Native.String.{◌++◌ as append}
use rl_aiserver.Common.{
  ℕ, ◌+◌, String, str_eq, Bool, true, false, not, ◌&&◌, ◌||◌, Option, none, some, is_empty, ltb,
  leb, ◌==◌, if◌then◌else◌,
}
use rl_aiserver.Rollout.Types.{
  ModelIdentity, ModelManifest, PreparedModel, ServiceIdentity, empty_manifest, no_model,
  has_model_identity, is_prepared, lineage, step,
}

-- `AckDisposition`.
pub data AckDisposition : Type 0 where
  applied rejected not_applied uncertain : AckDisposition

-- `AuthorityProbeDisposition`.
pub data ProbeDisposition : Type 0 where
  probe_ready probe_retryable probe_rejected : ProbeDisposition

-- `ModelState`.
pub data ModelState : Type 0 where
  unspecified waiting ready failed : ModelState

abbrev pub is_failed : ModelState → Bool
is_failed unspecified = false
is_failed waiting = false
is_failed ready = false
is_failed failed = true

-- The pending acknowledgement.
pub record PendingAck : Type 0 where
  pub manifest : ModelManifest
  pub authority : ServiceIdentity
  pub deadline : ℕ
  pub ack_error : String
  pub cause : String

pub record Feedback : Type 0 where
  pub candidate : Option ModelIdentity
  pub stage : String
  pub feedback_error : String

-- The fields of the runtime that these operations read and write.
pub record Models : Type 0 where
  pub active : ModelManifest
  pub active_prepared : PreparedModel
  pub staged : ModelManifest
  pub staged_prepared : PreparedModel
  pub model_ack_pending : Bool
  pub pending : PendingAck
  pub latest_used : Bool
  pub superseded : ℕ
  pub switches : ℕ
  pub model_state : ModelState
  pub is_degraded : Bool
  pub last_error : String
  pub feedback : Feedback
  pub shutdown_started : Bool

abbrev pub no_authority : ServiceIdentity
no_authority = record { component = ""; instance_id = ""; lifecycle_epoch = 0 }

-- `MarkDegraded`.
abbrev pub mark_degraded : Models → String → Models
mark_degraded m text = record m { is_degraded = true; last_error = text }

-- `RecordModelFeedback`.
abbrev pub record_feedback : Models → Option ModelIdentity → String → String → Models
record_feedback m candidate stage text = record m {
  feedback = record { candidate = candidate; stage = stage; feedback_error = text };
}

-- `ValidateStagedModelProgress`.
unfoldable pub validate_staged_model_progress : ModelManifest → ModelManifest → Bool
validate_staged_model_progress active candidate =
    has_model_identity active
    && has_model_identity candidate
    && ltb (step active) (step candidate)
    && leb active.trained_samples candidate.trained_samples

abbrev pub staged_step : Models → Option ℕ
staged_step m = if has_model_identity m.staged then some (step m.staged) else none

-- The runtime's own `ShouldFetchModelCandidate`: a newer candidate replaces a staged model, unlike in
-- the function of that name in include/task/model/model_boundary.h (Model.Boundary).
unfoldable pub should_fetch_model_candidate : ℕ → Option ℕ → ℕ → Bool
should_fetch_model_candidate latest_prepared_step none latest_step =
    ltb latest_prepared_step latest_step
should_fetch_model_candidate latest_prepared_step (some staged) latest_step =
    ltb latest_prepared_step latest_step && ltb staged latest_step

-- What the watch loop does with a fetched candidate, under the lock.
unfoldable pub stage_candidate : Models → ModelManifest → PreparedModel → Models
stage_candidate m candidate prepared =
    if should_fetch_model_candidate (step m.active) (staged_step m) (step candidate)
    then record m { staged = candidate; staged_prepared = prepared }
    else m

-- `RecordPendingModelAck`.
abbrev pub record_pending_ack : Models → ModelManifest → ServiceIdentity → ℕ → String → Models
record_pending_ack m manifest authority deadline text =
    let cause =
      append "model ACK remains outcome-uncertain before latest-prepared publish: " text in
    record m {
      model_ack_pending = true;
      pending = record {
        manifest = manifest;
        authority = authority;
        deadline = deadline;
        ack_error = text;
        cause = cause;
      };
      feedback = record {
        candidate = manifest.identity;
        stage = "ack_pending";
        feedback_error = cause;
      };
    }

-- The staged model becomes the active one.
unfoldable pub switch_model : Models → Models
switch_model m = record m {
  superseded =
      if has_model_identity m.active && not m.latest_used then m.superseded + 1 else m.superseded;
  active_prepared = record m.staged_prepared { prepared_path = m.staged.model_path };
  active = m.staged;
  staged = empty_manifest;
  staged_prepared = no_model;
  switches = m.switches + 1;
  latest_used = false;
  model_state = ready;
}

-- The end of `ActivateStagedModel`, after the acknowledgement.
unfoldable pub finish_activation :
    Models → AckDisposition → String → ServiceIdentity → ℕ → Models × Bool
finish_activation m applied text authority deadline = (switch_model m, true)
finish_activation m uncertain text authority deadline =
    (record_pending_ack m m.staged authority deadline text, false)
finish_activation m rejected text authority deadline = (
  record_feedback
      (record (mark_degraded m (append "model ACK was rejected: " text)) { model_state = failed })
      m.staged.identity "ack_rejected" (append "model ACK was rejected: " text),
  false,
)
finish_activation m not_applied text authority deadline = (
  record_feedback
      (record (mark_degraded m (append "model ACK was rejected: " text)) { model_state = failed })
      m.staged.identity "ack_rejected" (append "model ACK was rejected: " text),
  false,
)

-- What the model distributor answers: to the probe, and then to the acknowledgement.
pub record Answers : Type 0 where
  pub probe : ProbeDisposition
  pub probe_error : String
  pub authority : ServiceIdentity
  pub ack : AckDisposition
  pub ack_text : String
  pub ack_deadline : ℕ

unfoldable pub probed : Models → ProbeDisposition → Answers → Models × Bool
probed m probe_ready a = finish_activation m a.ack a.ack_text a.authority a.ack_deadline
probed m probe_retryable a = (m, false)
probed m probe_rejected a =
    let text = append "model ACK authority probe was rejected: " a.probe_error in
    (
      record_feedback (record (mark_degraded m text) { model_state = failed }) m.staged.identity
          "ack_rejected" text,
      false,
    )

-- `ActivateStagedModel`.
unfoldable pub activate_staged_model : Models → Answers → Models × Bool
activate_staged_model m a =
    if not (has_model_identity m.staged) || not (is_prepared m.staged_prepared)
    then (m, true)
    else if not (validate_staged_model_progress m.active m.staged)
    then (
      mark_degraded m (
          append "staged model progress is invalid: "
            "staged publication must advance without training-counter rollback"),
      false,
    )
    else probed m a.probe a

-- `TryPromoteStagedModelForWatcher`.
unfoldable pub try_promote_staged_model : Models → Answers → Models × Bool
try_promote_staged_model m a =
    if m.shutdown_started
      || m.model_ack_pending
      || not (has_model_identity m.staged)
      || not (is_prepared m.staged_prepared)
    then (m, false)
    else activate_staged_model m a

-- The first critical section of `RetryPendingModelAck`: what it reads, if it goes on.
unfoldable pub retry_enter : Models → Option PendingAck
retry_enter m = if not m.model_ack_pending || is_failed m.model_state then none else some m.pending

abbrev pub same_model : ModelManifest → ModelManifest → Bool
same_model a b = (step a == step b) && str_eq (lineage a) (lineage b)

-- The answer is that the acknowledgement was applied.
unfoldable pub retry_applied : Models → PendingAck → Models × Bool
retry_applied m taken =
    if not (has_model_identity m.staged)
      || not (same_model m.staged taken.manifest)
      || not (is_prepared m.staged_prepared)
    then (
      record (mark_degraded m "acknowledged staged model is no longer available locally") {
        model_state = failed;
      },
      false,
    )
    else (
      record (switch_model m) {
        model_ack_pending = false;
        pending = record m.pending {
          manifest = empty_manifest;
          authority = no_authority;
          ack_error = "";
          cause = "";
        };
        feedback = record { candidate = m.staged.identity; stage = "loaded"; feedback_error = "" };
      },
      true,
    )

abbrev pub retry_refused : Models → PendingAck → String → Models × Bool
retry_refused m taken text =
    let shown = append "pending model ACK was explicitly rejected: " text in
    (
      record (mark_degraded m shown) {
        model_ack_pending = false;
        pending = record m.pending { ack_error = text };
        model_state = failed;
        feedback = record {
          candidate = taken.manifest.identity;
          stage = "ack_rejected";
          feedback_error = shown;
        };
      },
      false,
    )

module _ (to_string : ℕ → String) where
  -- The outcome is still unknown at the time `now`.
  unfoldable pub retry_uncertain : Models → PendingAck → String → ℕ → Models × Bool
  retry_uncertain m taken text now =
      let kept = if is_empty text then m.pending.ack_error else text in
      let elapsed = append "model ACK recovery deadline elapsed with outcome unknown: lineage=" (
        append (lineage taken.manifest) (
          append " model_step=" (
            append (to_string (step taken.manifest))
              (append " authority=" (append taken.authority.instance_id (append ": " kept)))))) in
      let remains = append "pending model ACK remains outcome-uncertain: " kept in
      if leb taken.deadline now
      then (
        record (mark_degraded m elapsed) {
          pending = record m.pending { ack_error = kept; cause = elapsed };
          model_state = failed;
          feedback = record {
            candidate = taken.manifest.identity;
            stage = "ack_unconfirmed";
            feedback_error = elapsed;
          };
        },
        false,
      )
      else (
        record m {
          pending = record m.pending { ack_error = kept; cause = remains };
          feedback = record {
            candidate = taken.manifest.identity;
            stage = "ack_pending";
            feedback_error = remains;
          };
        },
        false,
      )

  unfoldable pub retry_answered : Models → PendingAck → AckDisposition → String → ℕ → Models × Bool
  retry_answered m taken applied text now = retry_applied m taken
  retry_answered m taken rejected text now = retry_refused m taken text
  retry_answered m taken not_applied text now = retry_refused m taken text
  retry_answered m taken uncertain text now = retry_uncertain m taken text now

  -- The second critical section of `RetryPendingModelAck`: `taken` is what the first one has read.
  unfoldable pub retry_resume : Models → PendingAck → AckDisposition → String → ℕ → Models × Bool
  retry_resume m taken ack text now =
      if not m.model_ack_pending || not (same_model m.pending.manifest taken.manifest)
      then (m, not m.model_ack_pending)
      else retry_answered m taken ack text now
