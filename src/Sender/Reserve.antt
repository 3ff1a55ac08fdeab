-- ===== src/Sender/Reserve.antt =====
-- Filling the outbound queue (src/task/sample/sample_sender.cpp): `Enqueue` and the reservation of
-- an envelope set, its seal, commit and cancellation.
use rl_aiserver.Common.{
  ℕ, ◌+◌, ◌-◌, String, Bool, true, false, not, ◌&&◌, ◌||◌, Option, none, some, List, [], ◌∷◌, ◌++◌,
  ltb, leb, ◌==◌, is_empty, if◌then◌else◌, length, is_nil, add_u64, int64_max, max,
}
use rl_aiserver.Sender.Types.{
  Envelope, QueueItem, Sender, terminal_fault, is_healthy, is_transient, is_closed,
  set_delivery_state,
}

-- `item.transitions = samples_size(); item.estimated_bytes = ByteSizeLong();`
abbrev pub queue_item : (Envelope → ℕ) → Envelope → QueueItem
queue_item size e = record {
  envelope = e;
  transitions = e.samples_size;
  estimated_bytes = size e;
  attempts = 0;
  push_outcome_unknown = false;
}

abbrev pub push_back : Sender → QueueItem → Sender
push_back s item = record s {
  queue = s.queue ++ (item ∷ []);
  queue_transitions = s.queue_transitions + item.transitions;
  queue_estimated_bytes = s.queue_estimated_bytes + item.estimated_bytes;
  queue_high_watermark = max s.queue_high_watermark (length s.queue + 1);
}

-- The predicate that `Enqueue` waits for.
abbrev pub enqueue_has_capacity : Sender → QueueItem → Bool
enqueue_has_capacity s item =
    s.force_stop
    || (not s.accepting
        || (s.degraded
            || (ltb (length s.queue + length s.reserved_items) s.config.outbound_max_envelopes
                && leb (s.queue_estimated_bytes + s.reserved_estimated_bytes + item.estimated_bytes)
                    s.config.outbound_max_estimated_bytes)))

-- `Enqueue`; the state is the one at the end of its wait.
unfoldable pub enqueue : (Envelope → ℕ) → Sender → Envelope → Sender × Bool
enqueue size s e =
    let item = queue_item size e in
    if item.transitions == 0 || item.estimated_bytes == 0
    then (s, false)
    else if not (enqueue_has_capacity s item)
    then (s, false)
    else if not s.accepting || (s.force_stop || s.degraded)
    then (s, false)
    else (push_back s item, true)

-- The items of a reservation with their sums.
pub record Bundle : Type 0 where
  pub items : List QueueItem
  pub transitions : ℕ
  pub estimated_bytes : ℕ

abbrev pub no_items : Bundle
no_items = record { items = []; transitions = 0; estimated_bytes = 0 }

abbrev pub add_item : Bundle → QueueItem → Bundle
add_item b item = record {
  items = b.items ++ (item ∷ []);
  transitions = b.transitions + item.transitions;
  estimated_bytes = b.estimated_bytes + item.estimated_bytes;
}

-- The loop that makes the items; `none` is "processed envelope reservation is invalid".
unfoldable pub make_items : (Envelope → ℕ) → Bundle → List Envelope → Option Bundle
make_items size b [] = some b
make_items size b (e ∷ es) =
    let item = queue_item size e in
    let rest = make_items size (add_item b item) es in
    if (item.transitions == 0 || item.estimated_bytes == 0)
      || (ltb (int64_max - item.transitions) b.transitions
          || ltb (int64_max - item.estimated_bytes) b.estimated_bytes)
    then none
    else rest

-- `ReservationResult`, `SealResult` and `CommitResult`: done, or one of the two failures.
pub data Outcome : Type 0 where
  done retryable_unavailable terminal : Outcome

-- A result with the reservation id (0 where there is none) and the error text.
pub record Reply : Type 0 where
  pub outcome : Outcome
  pub reservation_id : ℕ
  pub error : String

abbrev pub fails : Outcome → String → Reply
fails outcome error = record { outcome = outcome; reservation_id = 0; error = error }

-- The predicate that `ReserveEnqueueEnvelopeSet` waits for.
abbrev pub reserve_has_capacity : Sender → Bundle → Bool
reserve_has_capacity s b =
    s.force_stop
    || (not s.accepting
        || (s.degraded
            || (not (is_healthy s.delivery_state)
                || (is_nil s.reserved_items
                    && (leb (length s.queue + length b.items) s.config.outbound_max_envelopes
                        && leb (s.queue_estimated_bytes + b.estimated_bytes)
                            s.config.outbound_max_estimated_bytes)))))

-- `!accepting_ || force_stop_ || degraded_ || !ready_` or a closed delivery state.
abbrev pub is_terminal : Sender → Bool
is_terminal s =
    not s.accepting || (s.force_stop || (s.degraded || (not s.ready || is_closed s.delivery_state)))

abbrev pub error_or : Sender → String → String
error_or s text = if is_empty s.last_error then text else s.last_error

-- `active_reservation_id_ = next_reservation_id_++`, once more if that was 0.
abbrev take_id : ℕ → ℕ × ℕ
take_id n = if n == 0 then (add_u64 n 1, add_u64 (add_u64 n 1) 1) else (n, add_u64 n 1)

unfoldable pub hold : Sender → Bundle → Sender
hold s b =
    let ids = take_id s.next_reservation_id in
    record s {
      active_reservation_id = ids.0;
      next_reservation_id = ids.1;
      reserved_items = s.reserved_items ++ b.items;
      reserved_transitions = b.transitions;
      reserved_estimated_bytes = b.estimated_bytes;
      active_reservation_generation = s.delivery_generation;
      active_reservation_sealed = false;
    }

-- What follows the wait of `ReserveEnqueueEnvelopeSet`.
unfoldable pub reserve_bundle : Sender → Bundle → Sender × Reply
unfolding hold
reserve_bundle s b =
    if not (reserve_has_capacity s b)
    then (s, fails retryable_unavailable "outbound envelope-set reservation timeout")
    else if is_terminal s
    then (s, fails terminal (error_or s "outbound queue is not accepting reservations"))
    else if not (is_healthy s.delivery_state)
    then (
      s,
      fails retryable_unavailable (
          if is_transient s.delivery_state
          then "sample delivery is recovering"
          else "sample delivery is locally backpressured"),
    )
    else if not (is_nil s.reserved_items)
    then (s, fails terminal "another outbound envelope-set reservation is active")
    else (
      hold s b,
      record { outcome = done; reservation_id = (hold s b).active_reservation_id; error = "" },
    )

-- `ReserveEnqueueEnvelopeSet`; the state is the one at the end of its wait.
unfoldable pub reserve : (Envelope → ℕ) → Sender → List Envelope → Sender × Reply
unfolding reserve_bundle make_items
reserve size s [] = (s, fails done "")
reserve size s (e ∷ es) = elim (make_items size no_items (e ∷ es)) [
  | none ↦ (s, fails terminal "processed envelope reservation is invalid")
  | some b ↦ reserve_bundle s b
]

-- The lambda `release_reservation`.
abbrev pub release_reservation : Sender → Sender
release_reservation s = record s {
  reserved_items = [];
  reserved_transitions = 0;
  reserved_estimated_bytes = 0;
  active_reservation_id = 0;
  active_reservation_generation = 0;
  active_reservation_sealed = false;
}

-- A broken reservation identity degrades the sender for good.
abbrev pub identity_fault : Sender → String → Sender
identity_fault s error =
    release_reservation (record (set_delivery_state (record s { degraded = true }) terminal_fault) {
      last_error = error;
    })

-- `SealEnqueueEnvelopeSet`.
unfoldable pub seal : Sender → ℕ → Sender × Reply
unfolding set_delivery_state
seal s id =
    if id == 0
    then (s, fails done "")
    else if not (id == s.active_reservation_id) || is_nil s.reserved_items
    then (
      identity_fault s "outbound reservation identity invariant failed before seal",
      fails terminal "outbound reservation identity invariant failed before seal",
    )
    else if is_terminal s
    then (
      release_reservation s,
      fails terminal (error_or s "sample delivery became terminal before seal"),
    )
    else if not (is_healthy s.delivery_state)
        || not (s.active_reservation_generation == s.delivery_generation)
    then (
      release_reservation s,
      fails retryable_unavailable (
          if is_transient s.delivery_state
          then "sample delivery became transient before seal"
          else "sample delivery state changed before seal"),
    )
    else (
      record s { active_reservation_sealed = true },
      record { outcome = done; reservation_id = id; error = "" },
    )

-- The reserved items join the queue.
abbrev pub splice : Sender → Sender
splice s = release_reservation (record s {
  queue = s.queue ++ s.reserved_items;
  queue_transitions = s.queue_transitions + s.reserved_transitions;
  queue_estimated_bytes = s.queue_estimated_bytes + s.reserved_estimated_bytes;
  queue_high_watermark = max s.queue_high_watermark (length (s.queue ++ s.reserved_items));
})

-- `CommitEnqueueEnvelopeSet`.
unfoldable pub commit : Sender → ℕ → Sender × Reply
unfolding set_delivery_state
commit s id =
    if id == 0
    then (s, fails done "")
    else if s.active_reservation_sealed && not (id == s.active_reservation_id)
    then (
      identity_fault s "sealed outbound reservation identity invariant failed",
      fails terminal "sealed outbound reservation identity invariant failed",
    )
    else if s.active_reservation_sealed
    then (splice s, fails done "")
    else if not (id == s.active_reservation_id)
    then (
      identity_fault s "outbound reservation identity invariant failed",
      fails terminal "outbound reservation identity invariant failed",
    )
    else if is_terminal s
    then (
      release_reservation s,
      fails terminal (error_or s "sample delivery became terminal before commit"),
    )
    else if not (is_healthy s.delivery_state)
        || not (s.active_reservation_generation == s.delivery_generation)
    then (
      release_reservation s,
      fails retryable_unavailable (
          if is_transient s.delivery_state
          then "sample delivery became transient before commit"
          else "sample delivery state changed before commit"),
    )
    else (splice s, fails done "")

-- `HasEnqueueReservation`.
unfoldable pub has_enqueue_reservation : Sender → ℕ → Bool
has_enqueue_reservation s id =
    if id == 0
    then true
    else id == s.active_reservation_id
      && (not (is_nil s.reserved_items)
          && (not s.degraded
              && (s.ready
                  && (s.accepting
                      && (is_healthy s.delivery_state
                          && s.active_reservation_generation == s.delivery_generation)))))

-- `CancelEnqueueEnvelopeSet`.
unfoldable pub cancel : Sender → ℕ → Sender
cancel s id =
    if id == 0 then s else if not (id == s.active_reservation_id) then s else release_reservation s
