-- ===== src/Journal/Examples.antt =====
-- Two events of a journal that holds eight, collected, acknowledged and closed; the claims at it.
use rl_aiserver.Common.{
  zero, suc, str_eq, str_eq_iff, subst, ap, ◌+◌, ◌*◌, ◌≡◌, ◌≢◌, refl, true, false, none, some, [],
  ◌∷◌, length, arith,
}
use rl_aiserver.Common.Int.{pos}
use rl_aiserver.Journal.Types.{
  Identity, Event, Batch, Cursor, GetReq, AckReq, AckResult, applied, already_applied, delivered,
  Wire, Journal, new_journal, available, same_identity, valid_consumer, same_consumer,
  cursor_matches_committed,
}
use rl_aiserver.Journal.Append.{trim, append_open, append_fact, finalize}
use rl_aiserver.Journal.Deliver.{
  ready_scan, ready_to_seal, collect, built, build_pending_batch, limits_invalid, get_admitted, pin,
  get_enter, get_resume,
}
use rl_aiserver.Journal.Ack.{drop_acknowledged, ack_response, ack_commit, ack_pending, ack}
use rl_aiserver.Journal.Invariant.{IsValid, new_journal-IsValid, append_fact-IsValid}
use rl_aiserver.Journal.History.{
  Tiles, Reach, here, next, appends, finalizes, enters, resumes, acks, acked, Reach-Tiles,
}
use rl_aiserver.Journal.Waiting.{
  Delivers, get_resume-Delivers, ack_again, ready_when_due, resume_replaces_pending,
}
use rl_aiserver.Journal.Batches.{Window}
use rl_aiserver.Journal.Final.{final_acknowledged_complete}

abbrev wire : Wire
wire = record {
  event_size = λ e. 10;
  batch_size = λ b. length b.events * 10 + 5;
  serialize = λ c. elim c.acknowledged_batch_sequence [ zero ↦ "start" | suc n ↦ "later" ];
}

abbrev server : Identity
server = record { component = "aiserver"; instance_id = "a"; lifecycle_epoch = 1 }

abbrev agent : Identity
agent = record { component = "agent"; instance_id = "b"; lifecycle_epoch = 1 }

abbrev fresh : Journal
fresh = new_journal server 8 1000 5 0

abbrev event_x : Event
event_x = record { event_sequence = 1; observed_at_unix_ms = pos 1; fact_payload = "x" }

abbrev event_y : Event
event_y = record { event_sequence = 2; observed_at_unix_ms = pos 2; fact_payload = "y" }

abbrev at_start : Cursor
at_start = record {
  source = server;
  acknowledged_batch_sequence = 0;
  acknowledged_event_sequence = 0;
}

abbrev at_end : Cursor
at_end = record {
  source = server;
  acknowledged_batch_sequence = 1;
  acknowledged_event_sequence = 2;
}

abbrev one : Journal
one = record {
  source = server;
  capacity = 8;
  byte_capacity = 1000;
  flush_interval = 5;
  events = event_x ∷ [];
  event_enqueued_at = 1 ∷ [];
  event_bytes = 10;
  next_event_sequence = 2;
  next_batch_sequence = 1;
  committed_cursor = at_start;
  pending_batch = none;
  consumer = none;
  source_final = false;
  final_batch_acknowledged = false;
  final_event_sequence = 0;
  last_event_observed_at = some (pos 1);
  last_batch_created_at = 0;
}

one_eq : (append_fact wire fresh "x" (pos 1) 1).0 ≡ one
unfolding new_journal append_fact append_open trim
one_eq = refl

abbrev two : Journal
two = record one {
  events = event_x ∷ event_y ∷ [];
  event_enqueued_at = 1 ∷ 2 ∷ [];
  event_bytes = 20;
  next_event_sequence = 3;
  last_event_observed_at = some (pos 2);
}

two_eq : (append_fact wire one "y" (pos 2) 2).0 ≡ two
unfolding append_fact append_open trim
two_eq = refl

abbrev closed : Journal
closed = record two { source_final = true; final_event_sequence = 2 }

closed_eq : finalize two ≡ closed
unfolding finalize
closed_eq = refl

abbrev request : GetReq
request = record {
  consumer = agent;
  cursor = at_start;
  max_events = 4;
  max_bytes = pos 100;
  wait_timeout_ms = pos 0;
}

abbrev entered : Journal
entered = record closed { consumer = some agent }

entered_eq : (get_enter closed request).0 ≡ entered
unfolding get_enter get_admitted pin same_consumer same_identity valid_consumer
    cursor_matches_committed limits_invalid str_eq
entered_eq = refl

abbrev batch : Batch
batch = record {
  source = server;
  batch_sequence = 1;
  created_at_unix_ms = pos 7;
  first_event_sequence = 1;
  last_event_sequence = 2;
  events = event_x ∷ event_y ∷ [];
  heartbeat = false;
  source_final = true;
  final_event_sequence = 2;
  gap = none;
}

abbrev pending : Journal
pending = record entered {
  next_batch_sequence = 2;
  pending_batch = some batch;
  last_batch_created_at = 7;
}

pending_eq :
    get_resume wire entered request (available entered) 7 (pos 7)
    ≡ (pending, record (available entered) { result = delivered; batch = some batch })
unfolding get_resume ready_to_seal ready_scan build_pending_batch collect available
pending_eq = refl

abbrev confirm : AckReq
confirm = record { consumer = agent; cursor = at_end }

abbrev done : Journal
done = record pending {
  events = [];
  event_enqueued_at = [];
  event_bytes = 0;
  committed_cursor = at_end;
  pending_batch = none;
  final_batch_acknowledged = true;
}

done_eq : (ack wire pending confirm).0 ≡ done
unfolding ack ack_pending ack_commit same_consumer same_identity valid_consumer str_eq
    drop_acknowledged
done_eq = refl

acked_eq : acked wire pending confirm ≡ batch ∷ []
unfolding acked ack ack_pending ack_commit same_consumer same_identity valid_consumer str_eq
    drop_acknowledged
acked_eq = refl

resumed : Reach wire fresh pending []
unfolding new_journal
resumed =
    let a =
      subst (λ k. Reach wire fresh k []) one_eq
        (next here (appends fresh [] "x" (pos 1) 1 (omega arith) (omega arith))) in
    let b =
      subst (λ k. Reach wire fresh k []) two_eq
        (next a (appends one [] "y" (pos 2) 2 (omega arith) (omega arith))) in
    let c = subst (λ k. Reach wire fresh k []) closed_eq (next b (finalizes two [])) in
    let d = subst (λ k. Reach wire fresh k []) entered_eq (next c (enters closed [] request)) in
    subst (λ k. Reach wire fresh k []) (ap (λ r. r.0) pending_eq)
      (next d (resumes entered [] request (available entered) 7 (pos 7)))

run : Reach wire fresh done (batch ∷ [])
run =
    subst (λ k. Reach wire fresh k (batch ∷ [])) done_eq
      (subst (λ l. Reach wire fresh (ack wire pending confirm).0 l) acked_eq
        (next resumed (acks pending [] confirm)))

Reach-Tiles_example : IsValid wire done × Tiles 0 (batch ∷ []) 2
Reach-Tiles_example = Reach-Tiles wire server 8 1000 5 0 done (batch ∷ []) (omega arith) run

final_acknowledged_complete_example : (true ≡ true) × (2 + 1 ≡ 3) × Tiles 0 (batch ∷ []) 2
final_acknowledged_complete_example =
    final_acknowledged_complete wire server 8 1000 5 0 done (batch ∷ []) (omega arith) run refl

one-IsValid : IsValid wire one
unfolding new_journal
one-IsValid = subst (IsValid wire) one_eq (
    append_fact-IsValid wire fresh "x" (pos 1) 1
      (new_journal-IsValid wire server 8 1000 5 0 (omega arith)) (omega arith) (omega arith))

append_fact-IsValid_example : IsValid wire (append_fact wire one "y" (pos 2) 2).0
append_fact-IsValid_example =
    append_fact-IsValid wire one "y" (pos 2) 2 one-IsValid (omega arith) (omega arith)

two-IsValid : IsValid wire two
two-IsValid =
    subst (IsValid wire) two_eq
      (append_fact-IsValid wire one "y" (pos 2) 2 one-IsValid (omega arith) (omega arith))

entered-Window : Window entered
entered-Window = record {
  numbered = (refl, (refl, tt));
  unacknowledged = omega arith;
  small = omega arith;
}

get_resume-Delivers_example :
    Delivers wire entered request 7 (get_resume wire entered request (available entered) 7 (pos 7))
get_resume-Delivers_example =
    get_resume-Delivers wire entered request (available entered) 7 (pos 7) entered-Window
      (ap (λ r. r.1.result) pending_eq)

confirm_applied : (ack wire pending confirm).1.result ≡ applied
unfolding ack ack_pending ack_commit same_consumer same_identity valid_consumer str_eq
    drop_acknowledged
confirm_applied = refl

ack_again_example :
    let k = (ack wire pending confirm).0 in
    ack wire k confirm ≡ (k, ack_response k already_applied "metric batch was already acknowledged")
ack_again_example = ack_again wire pending confirm confirm_applied

ready_when_due_example : ready_to_seal wire two 6 ≡ true
ready_when_due_example =
    ready_when_due wire two event_x (event_y ∷ []) 1 (2 ∷ []) 6 two-IsValid refl refl (omega arith)

-- A second call of `Get` that waited builds a batch of its own over the delivered one.
abbrev rebuilt : Batch
rebuilt = record batch { batch_sequence = 2; created_at_unix_ms = pos 8 }

abbrev replaced : Journal
replaced = record pending {
  next_batch_sequence = 3;
  pending_batch = some rebuilt;
  last_batch_created_at = 8;
}

rebuilt_eq : build_pending_batch wire pending request (pos 8) 8 ≡ built replaced rebuilt
unfolding build_pending_batch collect
rebuilt_eq = refl

pending-Window : Window pending
pending-Window = record {
  numbered = (refl, (refl, tt));
  unacknowledged = omega arith;
  small = omega arith;
}

texts_differ : wire.serialize confirm.cursor ≢ wire.serialize pending.committed_cursor
unfolding str_eq
texts_differ e = absurd (ground (arith, (str_eq_iff "later" "start").1 e))

resume_replaces_pending_example : ack wire replaced confirm ≡ (
  replaced,
  ack_response replaced AckResult.rejected_cursor "metric ACK does not identify the pending batch",
)
unfolding valid_consumer same_consumer same_identity str_eq
resume_replaces_pending_example =
    resume_replaces_pending wire pending replaced batch rebuilt request confirm 8 (pos 8)
      pending-Window refl (λ e. omega (arith, e)) rebuilt_eq refl texts_differ refl
