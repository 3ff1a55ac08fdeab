-- ===== src/Journal/Ack.antt =====
-- `Ack` of src/task/metrics/episode_metrics.cpp.
use rl_aiserver.Common.{
  ℕ, String, not, ◌||◌, none, some, List, [], ◌∷◌, leb, ◌==◌, str_eq, if◌then◌else◌, is_nil, tail,
  sub_u64,
}
use rl_aiserver.Journal.Types.{
  Event, Batch, Cursor, AckReq, AckResult, AckRsp, applied, already_applied, rejected_cursor,
  rejected_invalid, Wire, Journal, same_identity, valid_consumer, same_consumer, oldest,
}
use rl_aiserver.Journal.Deliver.{has_gap}

abbrev pub ack_response : Journal → AckResult → String → AckRsp
ack_response j result message = record {
  producer = j.source;
  oldest_available = oldest j;
  latest_available = sub_u64 j.next_event_sequence 1;
  committed_cursor = j.committed_cursor;
  result = result;
  message = message;
}

-- `expected_event`: the event cursor that an acknowledgement of the batch carries.
-- `acknowledged` is the committed event sequence.
unfoldable pub expected_event : ℕ → Batch → ℕ
expected_event acknowledged b =
    if not (is_nil b.events) || has_gap b.gap then b.last_event_sequence else acknowledged

-- The loop that removes the acknowledged events from the front.
unfoldable pub drop_acknowledged : Wire → ℕ → List Event → List ℕ → ℕ → List Event × List ℕ × ℕ
drop_acknowledged w upto [] stamps bytes = ([], stamps, bytes)
drop_acknowledged w upto (e ∷ es) stamps bytes =
    let rest = drop_acknowledged w upto es (tail stamps) (sub_u64 bytes (w.event_size e)) in
    if leb e.event_sequence upto then rest else (e ∷ es, stamps, bytes)

-- The state after the acknowledgement of `b` with the cursor `c`.
unfoldable pub ack_commit : Wire → Journal → Batch → Cursor → Journal
unfolding drop_acknowledged
ack_commit w j b c =
    let kept =
      drop_acknowledged w c.acknowledged_event_sequence j.events j.event_enqueued_at
        j.event_bytes in
    record j {
      committed_cursor = c;
      events = kept.0;
      event_enqueued_at = kept.1;
      event_bytes = kept.2;
      pending_batch = none;
      final_batch_acknowledged = b.source_final || j.final_batch_acknowledged;
    }

abbrev cursor_refused : Journal → Journal × AckRsp
cursor_refused j =
    (j, ack_response j rejected_cursor "metric ACK does not identify the pending batch")

-- The checks of the cursor against the pending batch.
unfoldable pub ack_pending : Wire → Journal → Cursor → Journal × AckRsp
unfolding ack_commit expected_event
ack_pending w j c = elim j.pending_batch [
  | none ↦ cursor_refused j
  | some b ↦
      if not (same_identity c.source j.source)
        || not (c.acknowledged_batch_sequence == b.batch_sequence)
      then cursor_refused j
      else if not (
          c.acknowledged_event_sequence
          == expected_event j.committed_cursor.acknowledged_event_sequence b)
      then (j, ack_response j rejected_cursor "metric ACK event cursor is invalid")
      else (
        ack_commit w j b c,
        ack_response (ack_commit w j b c) applied "metric batch acknowledged",
      )
]

-- `Ack`.
unfoldable pub ack : Wire → Journal → AckReq → Journal × AckRsp
unfolding ack_pending
ack w j req =
    if not (valid_consumer req.consumer) || not (same_consumer j.consumer req.consumer)
    then (j, ack_response j rejected_invalid "metric ACK consumer lifecycle is invalid")
    else if str_eq (w.serialize req.cursor) (w.serialize j.committed_cursor)
    then (j, ack_response j already_applied "metric batch was already acknowledged")
    else ack_pending w j req.cursor
