-- ===== src/Sender/Delivery.antt =====
-- The delivery state of src/task/sample/sample_sender.cpp: `MarkDegraded`, `MarkTransient`,
-- `MarkHealthy`, `RecordFinalDrop`, the probe and refresh of the SamplePool status, and the
-- questions that other components ask.
use Prim.Native.String.{◌++◌ as append}
use rl_aiserver.Common.{
  ℕ, ◌+◌, ◌-◌, String, Bool, true, false, not, ◌&&◌, ◌||◌, ltb, leb, ◌==◌, str_eq, is_empty,
  if◌then◌else◌, Option, none, some,
}
use rl_aiserver.Sender.Types.{
  Sender, starting, healthy, transient_retry, terminal_fault, is_healthy, is_transient, is_ended,
  set_delivery_state, producer_capacity_constrained, retry_backoff_ms,
}

-- `MarkDegraded`.
unfoldable pub mark_degraded : Sender → String → Sender
unfolding set_delivery_state
mark_degraded s error =
    let t =
      set_delivery_state (record s { degraded = true; ready = false; recovery_active = false })
        terminal_fault in
    record t { transient_retry_after_ms = 0; last_error = error }

-- The test that `MarkTransient` and `MarkHealthy` begin with.
abbrev pub is_over : Sender → Bool
is_over s = s.degraded || is_ended s.delivery_state

-- `if (!recovery_active_) { … }`.
abbrev begin_recovery : Sender → ℕ → Sender
begin_recovery s now =
    if s.recovery_active then s else record s { recovery_active = true; recovery_started = now }

-- `MarkTransient` at the steady time `now`; the flag is its return value. The text of the deadline
-- error leaves out the elapsed time and the cause.
unfoldable pub mark_transient : Sender → String → ℕ → ℕ → Sender × Bool
unfolding set_delivery_state
mark_transient s error retry_after_ms now =
    let t = record (begin_recovery s now) { ready = false } in
    if is_over s
    then (s, false)
    else if leb s.config.recovery_timeout_ms (now - t.recovery_started)
    then (
      record (set_delivery_state (record t { degraded = true; recovery_active = false })
          terminal_fault) {
            transient_retry_after_ms = 0;
            last_error = "SamplePool ingress recovery deadline exceeded";
          },
      false,
    )
    else (
      record (set_delivery_state t transient_retry) {
        transient_retry_after_ms = retry_after_ms;
        last_error = error;
      },
      true,
    )

-- `MarkHealthy`.
unfoldable pub mark_healthy : Sender → Sender
unfolding set_delivery_state
mark_healthy s =
    if is_over s
    then s
    else record (set_delivery_state
        (record s { status_failure_attempts = 0; ready = true; recovery_active = false }) healthy) {
          transient_retry_after_ms = 0;
          last_error = "";
        }

-- `RecordFinalDrop`.
unfoldable pub record_final_drop : Sender → ℕ → ℕ → String → Sender
unfolding set_delivery_state
record_final_drop s transitions envelopes error =
    let t = record s {
      final_drop_unique_transitions = s.final_drop_unique_transitions + transitions;
      final_drop_unique_envelopes = s.final_drop_unique_envelopes + envelopes;
      degraded = true;
    } in
    record (set_delivery_state t terminal_fault) { last_error = error }

-- `SamplePoolStatusRsp`, with its service identity.
pub record PoolStatus : Type 0 where
  pub component : String
  pub instance_id : String
  pub lifecycle_epoch : ℕ
  pub ready : Bool
  pub ingress_ready : Bool
  pub finalized : Bool

-- `ValidateSamplePoolStatus`: the error text, if the status is refused.
unfoldable pub validate_sample_pool_status : PoolStatus → Option String
validate_sample_pool_status r =
    if is_empty r.component || (is_empty r.instance_id || r.lifecycle_epoch == 0)
    then some "SamplePool ingress lifecycle identity is invalid"
    else if not r.ready || (not r.ingress_ready || r.finalized)
    then some "SamplePool ingress is not accepting transitions"
    else none

-- `SameSamplePool`.
unfoldable pub same_sample_pool : String → ℕ → String → ℕ → Bool
same_sample_pool instance epoch expected_instance expected_epoch =
    str_eq instance expected_instance && epoch == expected_epoch

-- The outcome of a gRPC call: its response, or a failure that `IsRetryableOutcomeUnknownTransport`
-- takes for retryable or not, with the error text that the caller composes from the status.
pub data Rpc {ℓ} (A : Type ℓ) : Type ℓ where
  ok : A → Rpc A
  retryable : String → Rpc A
  fatal : String → Rpc A

-- The end of `ProbeSamplePool`, which `Start` runs, on the outcome of `GetStatus`.
unfoldable pub probe_sample_pool : Sender → Rpc PoolStatus → Sender × Bool
unfolding set_delivery_state
probe_sample_pool s (retryable e) = (mark_degraded s e, false)
probe_sample_pool s (fatal e) = (mark_degraded s e, false)
probe_sample_pool s (ok r) = elim (validate_sample_pool_status r) [
  | some e ↦ (mark_degraded s e, false)
  | none ↦ (
    record (set_delivery_state
        (record s {
          sample_pool_instance_id = r.instance_id;
          sample_pool_lifecycle_epoch = r.lifecycle_epoch;
          ready = true;
          degraded = false;
        })
        healthy) { transient_retry_after_ms = 0; last_error = "" },
    true,
  )
]

-- `Start`, which runs once, before there are other threads: `connected` is whether the channel to
-- `target` connected in time, and `outcome` that of the probe's `GetStatus`.
unfoldable pub start : Sender → String → Bool → Rpc PoolStatus → Sender × Bool
unfolding set_delivery_state
start s target connected outcome =
    let begun = set_delivery_state s starting in
    let (t, fine) = probe_sample_pool begun outcome in
    if not s.config.enabled
    then (mark_degraded begun "AIServer SampleDistributor is disabled", false)
    else if not connected
    then (mark_degraded begun (append "SamplePool ingress connection timeout: " target), false)
    else if fine
    then (
      set_delivery_state
          (record t {
            accepting = true;
            stop_requested = false;
            force_stop = false;
            recovery_active = false;
            transient_retry_after_ms = 0;
            status_failure_attempts = 0;
          })
          healthy,
      true,
    )
    else (t, false)

-- `StatusRefreshResult`.
pub data Refresh : Type 0 where
  refreshed delayed ended : Refresh

abbrev pub refresh_of : Sender × Bool → Sender × Refresh
refresh_of (s, true) = (s, delayed)
refresh_of (s, false) = (s, ended)

-- The section that counts a retryable failure of `GetStatus`.
abbrev pub count_status_failure : Sender → Sender
count_status_failure s = record s { status_failure_attempts = s.status_failure_attempts + 1 }

-- `RefreshSamplePoolStatus` on the outcome of `GetStatus`, where other threads do `mid` between its
-- two locked sections.
unfoldable pub refresh_sample_pool_status :
    (Sender → Sender) → Sender → Rpc PoolStatus → ℕ → Sender × Refresh
refresh_sample_pool_status mid s (retryable e) now =
    let t = count_status_failure s in
    refresh_of (mark_transient (mid t) e (retry_backoff_ms t.status_failure_attempts) now)
refresh_sample_pool_status mid s (fatal e) now = (mark_degraded s e, ended)
refresh_sample_pool_status mid s (ok r) now = elim (validate_sample_pool_status r) [
  | some e ↦ (mark_degraded s e, ended)
  | none ↦
      if not (
        same_sample_pool r.instance_id r.lifecycle_epoch s.sample_pool_instance_id
          s.sample_pool_lifecycle_epoch)
      then (mark_degraded (mid s) "SamplePool identity changed during training", ended)
      else (mark_healthy (mid s), refreshed)
]

-- `IsTrainingDeliveryReady`.
unfoldable pub is_training_delivery_ready : Sender → Bool
is_training_delivery_ready s =
    s.accepting
    && (s.ready
        && (not s.degraded
            && (is_healthy s.delivery_state && not (producer_capacity_constrained s))))

-- `IsPausedAtSafeBoundary`.
unfoldable pub is_paused_at_safe_boundary : Sender → Bool
is_paused_at_safe_boundary s = is_transient s.delivery_state || producer_capacity_constrained s

-- `PauseRetryAfterMs`.
unfoldable pub pause_retry_after_ms : Sender → ℕ
pause_retry_after_ms s =
    if ltb 0 s.transient_retry_after_ms
    then s.transient_retry_after_ms
    else s.config.enqueue_timeout_ms
