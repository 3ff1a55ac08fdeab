-- ===== src/Journal/Types.antt =====
-- Messages of proto/metrics/transport.proto and the fields of `MetricEventJournal`
-- (src/task/metrics/episode_metrics.h), with the small predicates of episode_metrics.cpp.
use rl_aiserver.Common.{
  ℕ, String, Bool, false, not, ◌&&◌, Option, none, some, List, [], ◌∷◌, ltb, ◌==◌, str_eq, is_empty,
  add_u64, sub_u64,
}
use rl_aiserver.Common.Int.{ℤ}

-- `ServiceInstanceIdentity`.
pub record Identity : Type 0 where
  pub component : String
  pub instance_id : String
  pub lifecycle_epoch : ℕ

-- `MetricEvent`; every event has the fact kind REGISTERED_METRICS.
pub record Event : Type 0 where
  pub event_sequence : ℕ
  pub observed_at_unix_ms : ℤ
  pub fact_payload : String

-- `MetricSequenceGap`.
pub record Gap : Type 0 where
  pub first_unavailable : ℕ
  pub last_unavailable : ℕ
  pub oldest_available : ℕ
  pub reason : String

-- `MetricBatch`.
pub record Batch : Type 0 where
  pub source : Identity
  pub batch_sequence : ℕ
  pub created_at_unix_ms : ℤ
  pub first_event_sequence : ℕ
  pub last_event_sequence : ℕ
  pub events : List Event
  pub heartbeat : Bool
  pub source_final : Bool
  pub final_event_sequence : ℕ
  pub gap : Option Gap

-- `MetricBatchCursor`.
pub record Cursor : Type 0 where
  pub source : Identity
  pub acknowledged_batch_sequence : ℕ
  pub acknowledged_event_sequence : ℕ

-- `GetMetricBatchReq`.
pub record GetReq : Type 0 where
  pub consumer : Identity
  pub cursor : Cursor
  pub max_events : ℕ
  pub max_bytes : ℤ
  pub wait_timeout_ms : ℤ

-- `AckMetricBatchReq`.
pub record AckReq : Type 0 where
  pub consumer : Identity
  pub cursor : Cursor

-- `MetricBatchResult`.
pub data GetResult : Type 0 where
  unspecified delivered wait final rejected_cursor rejected_invalid : GetResult

-- `GetMetricBatchRsp`.
pub record GetRsp : Type 0 where
  pub producer : Identity
  pub oldest_available : ℕ
  pub latest_available : ℕ
  pub result : GetResult
  pub message : String
  pub batch : Option Batch

-- `MetricBatchAckResult`.
pub data AckResult : Type 0 where
  ack_unspecified applied already_applied not_found rejected_cursor rejected_invalid : AckResult

-- `AckMetricBatchRsp`.
pub record AckRsp : Type 0 where
  pub producer : Identity
  pub oldest_available : ℕ
  pub latest_available : ℕ
  pub committed_cursor : Cursor
  pub result : AckResult
  pub message : String

-- The generated Protobuf code that the journal calls: `ByteSizeLong` of an event and of a batch,
-- and `SerializeAsString` of a cursor.
pub record Wire : Type 0 where
  pub event_size : Event → ℕ
  pub batch_size : Batch → ℕ
  pub serialize : Cursor → String

-- The fields of `MetricEventJournal`.
pub record Journal : Type 0 where
  pub source : Identity
  pub capacity : ℕ
  pub byte_capacity : ℕ
  pub flush_interval : ℕ
  pub events : List Event
  pub event_enqueued_at : List ℕ
  pub event_bytes : ℕ
  pub next_event_sequence : ℕ
  pub next_batch_sequence : ℕ
  pub committed_cursor : Cursor
  pub pending_batch : Option Batch
  pub consumer : Option Identity
  pub source_final : Bool
  pub final_batch_acknowledged : Bool
  pub final_event_sequence : ℕ
  pub last_event_observed_at : Option ℤ
  pub last_batch_created_at : ℕ

-- The constructor, run at the steady time `now`.
unfoldable pub new_journal : Identity → ℕ → ℕ → ℕ → ℕ → Journal
new_journal source capacity byte_capacity flush_interval now = record {
  source = source;
  capacity = capacity;
  byte_capacity = byte_capacity;
  flush_interval = flush_interval;
  events = [];
  event_enqueued_at = [];
  event_bytes = 0;
  next_event_sequence = 1;
  next_batch_sequence = 1;
  committed_cursor = record {
    source = source;
    acknowledged_batch_sequence = 0;
    acknowledged_event_sequence = 0;
  };
  pending_batch = none;
  consumer = none;
  source_final = false;
  final_batch_acknowledged = false;
  final_event_sequence = 0;
  last_event_observed_at = none;
  last_batch_created_at = now;
}

-- `SameIdentity`.
unfoldable pub same_identity : Identity → Identity → Bool
same_identity left right =
    str_eq left.component right.component
    && (str_eq left.instance_id right.instance_id && left.lifecycle_epoch == right.lifecycle_epoch)

-- `ValidConsumer`.
unfoldable pub valid_consumer : Identity → Bool
valid_consumer c =
    not (is_empty c.component) && (not (is_empty c.instance_id) && ltb 0 c.lifecycle_epoch)

-- `SameConsumer`: the pinned consumer, if there is one, is `c`.
unfoldable pub same_consumer : Option Identity → Identity → Bool
unfolding same_identity
same_consumer none c = false
same_consumer (some pinned) c = same_identity pinned c

-- `CursorMatchesCommitted`.
unfoldable pub cursor_matches_committed : Journal → Cursor → Bool
cursor_matches_committed j c =
    same_identity c.source j.source
    && (c.acknowledged_batch_sequence == j.committed_cursor.acknowledged_batch_sequence
        && c.acknowledged_event_sequence == j.committed_cursor.acknowledged_event_sequence)

-- `events_.empty() ? next_event_sequence_ : events_.front().event_sequence()`.
abbrev pub oldest_or : ℕ → List Event → ℕ
oldest_or next [] = next
oldest_or next (e ∷ es) = e.event_sequence

abbrev pub oldest : Journal → ℕ
oldest j = oldest_or j.next_event_sequence j.events

-- `committed_cursor_.acknowledged_event_sequence() + 1`.
abbrev pub next_requested : Journal → ℕ
next_requested j = add_u64 j.committed_cursor.acknowledged_event_sequence 1

-- `FillAvailability` on a cleared response.
unfoldable pub available : Journal → GetRsp
available j = record {
  producer = j.source;
  oldest_available = oldest j;
  latest_available = sub_u64 j.next_event_sequence 1;
  result = unspecified;
  message = "";
  batch = none;
}
