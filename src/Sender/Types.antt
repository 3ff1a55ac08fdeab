-- ===== src/Sender/Types.antt =====
-- The configuration, the queue item and the fields of `SampleDistributor`
-- (src/task/sample/sample_sender.h, src/task/config/training_runtime_config.h).
use rl_aiserver.Common.{
  ℕ, ◌+◌, String, Bool, true, false, List, [], leb, ◌==◌, ◌||◌, if◌then◌else◌, add_u64, length, min,
  ◌-◌, ◌*◌, ◌^◌,
}

-- The part of `SampleDistributorConfig` that the sender reads.
pub record Config : Type 0 where
  pub enabled : Bool
  pub max_attempts : ℕ
  pub enqueue_timeout_ms : ℕ
  pub recovery_timeout_ms : ℕ
  pub outbound_max_envelopes : ℕ
  pub outbound_max_estimated_bytes : ℕ

-- `ProcessedTransitionEnvelope`, with the number of its samples.
pub record Envelope : Type 0 where
  pub envelope_id : String
  pub samples_size : ℕ

-- `QueueItem`.
pub record QueueItem : Type 0 where
  pub envelope : Envelope
  pub transitions : ℕ
  pub estimated_bytes : ℕ
  pub attempts : ℕ
  pub push_outcome_unknown : Bool

-- `DeliveryState`.
pub data DeliveryState : Type 0 where
  starting healthy local_backpressure transient_retry terminal_fault draining stopped :
      DeliveryState

pub DeliveryState-discrete : Discrete DeliveryState
DeliveryState-discrete = hlevel

-- The fields of `SampleDistributor` but for threads, channels and latency sums.
pub record Sender : Type 0 where
  pub config : Config
  pub queue : List QueueItem
  pub reserved_items : List QueueItem
  pub active_reservation_id : ℕ
  pub active_reservation_generation : ℕ
  pub active_reservation_sealed : Bool
  pub next_reservation_id : ℕ
  pub reserved_transitions : ℕ
  pub reserved_estimated_bytes : ℕ
  pub queue_transitions : ℕ
  pub queue_estimated_bytes : ℕ
  pub accepting : Bool
  pub stop_requested : Bool
  pub force_stop : Bool
  pub ready : Bool
  pub degraded : Bool
  pub delivery_state : DeliveryState
  pub delivery_generation : ℕ
  pub transient_retry_after_ms : ℕ
  pub status_failure_attempts : ℕ
  pub recovery_active : Bool
  pub recovery_started : ℕ
  pub queue_high_watermark : ℕ
  pub push_attempt_count : ℕ
  pub accepted_unique_transitions : ℕ
  pub accepted_unique_envelopes : ℕ
  pub duplicate_push_attempt_count : ℕ
  pub rejected_push_attempt_count : ℕ
  pub retry_attempt_count : ℕ
  pub final_drop_unique_transitions : ℕ
  pub final_drop_unique_envelopes : ℕ
  pub unresolved_transitions : ℕ
  pub unresolved_envelopes : ℕ
  pub push_rpc_count : ℕ
  pub sample_pool_instance_id : String
  pub sample_pool_lifecycle_epoch : ℕ
  pub last_error : String

-- The member initialisers.
abbrev pub new_sender : Config → Sender
new_sender config = record {
  config = config;
  queue = [];
  reserved_items = [];
  active_reservation_id = 0;
  active_reservation_generation = 0;
  active_reservation_sealed = false;
  next_reservation_id = 1;
  reserved_transitions = 0;
  reserved_estimated_bytes = 0;
  queue_transitions = 0;
  queue_estimated_bytes = 0;
  accepting = false;
  stop_requested = false;
  force_stop = false;
  ready = false;
  degraded = false;
  delivery_state = stopped;
  delivery_generation = 0;
  transient_retry_after_ms = 0;
  status_failure_attempts = 0;
  recovery_active = false;
  recovery_started = 0;
  queue_high_watermark = 0;
  push_attempt_count = 0;
  accepted_unique_transitions = 0;
  accepted_unique_envelopes = 0;
  duplicate_push_attempt_count = 0;
  rejected_push_attempt_count = 0;
  retry_attempt_count = 0;
  final_drop_unique_transitions = 0;
  final_drop_unique_envelopes = 0;
  unresolved_transitions = 0;
  unresolved_envelopes = 0;
  push_rpc_count = 0;
  sample_pool_instance_id = "";
  sample_pool_lifecycle_epoch = 0;
  last_error = "";
}

abbrev pub is_terminal_fault : DeliveryState → Bool
is_terminal_fault terminal_fault = true
is_terminal_fault _ = false

abbrev pub is_healthy : DeliveryState → Bool
is_healthy healthy = true
is_healthy _ = false

abbrev pub is_transient : DeliveryState → Bool
is_transient transient_retry = true
is_transient _ = false

-- TerminalFault, Draining, Stopped or Starting: no reservation is possible.
abbrev pub is_closed : DeliveryState → Bool
is_closed starting = true
is_closed terminal_fault = true
is_closed draining = true
is_closed stopped = true
is_closed _ = false

-- TerminalFault, Draining or Stopped: the state is no longer the sender's to change.
abbrev pub is_ended : DeliveryState → Bool
is_ended terminal_fault = true
is_ended draining = true
is_ended stopped = true
is_ended _ = false

abbrev pub same_state : DeliveryState → DeliveryState → Bool
same_state starting starting = true
same_state healthy healthy = true
same_state local_backpressure local_backpressure = true
same_state transient_retry transient_retry = true
same_state terminal_fault terminal_fault = true
same_state draining draining = true
same_state stopped stopped = true
same_state _ _ = false

-- `delivery_generation_` after a change: 0 is skipped when it wraps.
abbrev next_nonzero : ℕ → ℕ
next_nonzero n = if add_u64 n 1 == 0 then add_u64 (add_u64 n 1) 1 else add_u64 n 1

-- `SetDeliveryStateLocked`.
unfoldable pub set_delivery_state : Sender → DeliveryState → Sender
set_delivery_state s state = if same_state s.delivery_state state then s else record s {
  delivery_state = state;
  delivery_generation = next_nonzero s.delivery_generation;
}

-- `ProducerCapacityConstrainedLocked`.
unfoldable pub producer_capacity_constrained : Sender → Bool
producer_capacity_constrained s =
    leb s.config.outbound_max_envelopes (length s.queue + length s.reserved_items)
    || leb s.config.outbound_max_estimated_bytes
        (s.queue_estimated_bytes + s.reserved_estimated_bytes)

-- `RetryBackoffMs`.
unfoldable pub retry_backoff_ms : ℕ → ℕ
retry_backoff_ms attempts = min 1000 (50 * 2 ^ min 5 (attempts - 1))
