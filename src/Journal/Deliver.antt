-- ===== src/Journal/Deliver.antt =====
-- `ReadyToSeal`, `BuildPendingBatch` and `Get` of src/task/metrics/episode_metrics.cpp. `Get`
-- releases the mutex while it waits: `get_enter` runs up to the wait, `get_resume` after it.
use rl_aiserver.Common.{
  ℕ, ◌+◌, ◌*◌, String, Bool, true, false, not, ◌&&◌, ◌||◌, Option, none, some, List, [], ◌∷◌, ◌++◌,
  ltb, leb, ◌==◌, if◌then◌else◌, length, is_nil, tail, add_u64, sub_u64,
}
use rl_aiserver.Common.Int.{ℤ, pos, negsuc, ltb_ℤ, leb_ℤ}
use rl_aiserver.Journal.Types.{
  Event, Gap, Batch, Wire, Journal, GetReq, GetRsp, GetResult, delivered, wait, final,
  rejected_cursor, rejected_invalid, valid_consumer, same_consumer, cursor_matches_committed,
  oldest, next_requested, available,
}

abbrev pub sixteen_mib : ℕ
sixteen_mib = 16 * 1024 * 1024

abbrev head_or : List ℕ → ℕ → ℕ
head_or [] d = d
head_or (x ∷ xs) d = x

-- The loop of `ReadyToSeal` over the events and their enqueue times, and what follows it.
-- `wanted` is the first event that is not acknowledged.
unfoldable pub ready_scan : Wire → ℕ → ℕ → ℕ → ℕ → ℕ → ℕ → List Event → List ℕ → Bool
ready_scan w wanted now flush created count bytes [] stamps =
    if ltb 0 count then false else leb (created + flush) now
ready_scan w wanted now flush created count bytes (e ∷ es) stamps =
    let skip = ready_scan w wanted now flush created count bytes es (tail stamps) in
    let more =
      ready_scan w wanted now flush created (count + 1) (add_u64 bytes (w.event_size e)) es
        (tail stamps) in
    if ltb e.event_sequence wanted
    then skip
    else if count == 0 && leb (head_or stamps 0 + flush) now
    then true
    else if leb 1024 (count + 1) || leb sixteen_mib (add_u64 bytes (w.event_size e))
    then true
    else more

-- `ReadyToSeal`.
unfoldable pub ready_to_seal : Wire → Journal → ℕ → Bool
unfolding ready_scan
ready_to_seal w j now =
    if j.source_final
    then true
    else if ltb (next_requested j) (oldest j)
    then true
    else ready_scan w (next_requested j) now j.flush_interval j.last_batch_created_at 0 0 j.events
        j.event_enqueued_at

abbrev pub with_event : Batch → Event → Batch
with_event b e = record b { events = b.events ++ (e ∷ []) }

-- The loop of `BuildPendingBatch` that fills the batch: the flag is `next_event_exists`. The code
-- compares the limit as an `int`; `Get` has refused a limit above 1024, so the numbers are the same.
unfoldable pub collect : Wire → ℕ → ℕ → ℕ → Batch → Bool → List Event → Bool × Batch
collect w wanted max_events max_bytes b found [] = (found, b)
collect w wanted max_events max_bytes b found (e ∷ es) =
    let skip = collect w wanted max_events max_bytes b found es in
    let more = collect w wanted max_events max_bytes (with_event b e) true es in
    if ltb e.event_sequence wanted
    then skip
    else if leb max_events (length b.events)
    then (true, b)
    else if ltb max_bytes (w.batch_size (with_event b e))
    then (true, b)
    else more

-- `static_cast<std::size_t>(max_bytes)`.
abbrev pub to_size : ℤ → ℕ
to_size (pos n) = n
to_size (negsuc n) = sub_u64 0 (n + 1)

abbrev pub first_of_events : List Event → ℕ
first_of_events [] = 0
first_of_events (e ∷ es) = e.event_sequence

abbrev pub last_of_events : List Event → ℕ
last_of_events [] = 0
last_of_events (e ∷ []) = e.event_sequence
last_of_events (e ∷ (f ∷ es)) = last_of_events (f ∷ es)

abbrev pub empty_batch : Journal → ℤ → Batch
empty_batch j now_unix = record {
  source = j.source;
  batch_sequence = j.next_batch_sequence;
  created_at_unix_ms = now_unix;
  first_event_sequence = 0;
  last_event_sequence = 0;
  events = [];
  heartbeat = false;
  source_final = false;
  final_event_sequence = 0;
  gap = none;
}

abbrev pub gap_batch : Journal → ℤ → Batch
gap_batch j now_unix = record (empty_batch j now_unix) {
  first_event_sequence = next_requested j;
  last_event_sequence = sub_u64 (oldest j) 1;
  gap = some (record {
    first_unavailable = next_requested j;
    last_unavailable = sub_u64 (oldest j) 1;
    oldest_available = oldest j;
    reason = "bounded metric event journal overflow";
  });
}

-- The three ways out of the loop: events, an event that does not fit, a heartbeat.
unfoldable pub filled_batch : Bool × Batch → Option Batch
filled_batch (found, b) =
    if not (is_nil b.events)
    then some (record b {
      first_event_sequence = first_of_events b.events;
      last_event_sequence = last_of_events b.events;
    })
    else if found
    then none
    else some (record b { heartbeat = true })

-- The batch before the final marks; `none` is "max_bytes is smaller than the next metric event".
unfoldable pub draft_batch : Wire → Journal → GetReq → ℤ → Option Batch
unfolding filled_batch
draft_batch w j req now_unix =
    if ltb (next_requested j) (oldest j)
    then some (gap_batch j now_unix)
    else filled_batch (
        collect w (next_requested j) req.max_events (to_size req.max_bytes) (empty_batch j now_unix)
          false j.events)

abbrev pub has_gap : Option Gap → Bool
has_gap none = false
has_gap (some g) = true

-- `source_final_ && (final_event_batch || final_gap_batch || final_heartbeat)`.
unfoldable pub ends_stream : Journal → Batch → Bool
ends_stream j b =
    let final_event_batch =
      not (is_nil b.events) && b.last_event_sequence == j.final_event_sequence in
    let final_gap_batch = has_gap b.gap && b.last_event_sequence == j.final_event_sequence in
    let final_heartbeat =
      b.heartbeat && j.committed_cursor.acknowledged_event_sequence == j.final_event_sequence in
    j.source_final && (final_event_batch || (final_gap_batch || final_heartbeat))

-- `source_final` and `final_event_sequence` are set on the batch that ends the stream.
unfoldable pub mark_final : Journal → Batch → Batch
mark_final j b =
    if ends_stream j b
    then record b { source_final = true; final_event_sequence = j.final_event_sequence }
    else b

-- `BuildPendingBatch`: the error text, or the new state, whose pending batch is the built one.
pub data Build : Type 0 where
  built : Journal → Batch → Build
  failed : String → Build

unfoldable pub build_pending_batch : Wire → Journal → GetReq → ℤ → ℕ → Build
unfolding draft_batch mark_final ends_stream
build_pending_batch w j req now_unix now = elim (draft_batch w j req now_unix) [
  | none ↦ failed "max_bytes is smaller than the next metric event"
  | some draft ↦
      let b = mark_final j draft in
      if ltb (to_size req.max_bytes) (w.batch_size b)
      then failed "max_bytes is smaller than the next metric batch"
      else built
          (record j {
            pending_batch = some b;
            next_batch_sequence = add_u64 j.next_batch_sequence 1;
            last_batch_created_at = now;
          })
          b
]

abbrev is_zero : ℤ → Bool
is_zero (pos n) = n == 0
is_zero (negsuc n) = false

-- A call of `Get` returns, or waits with the response begun.
pub data Entered : Type 0 where
  replied : GetRsp → Entered
  waiting : GetRsp → Entered

abbrev pub respond : GetRsp → GetResult → String → GetRsp
respond rsp result message = record rsp { result = result; message = message }

unfoldable pub limits_invalid : GetReq → Bool
limits_invalid req =
    req.max_events == 0
    || (ltb 1024 req.max_events
        || (leb_ℤ req.max_bytes (pos 0)
            || (ltb_ℤ (pos sixteen_mib) req.max_bytes
                || (ltb_ℤ req.wait_timeout_ms (pos 0) || ltb_ℤ (pos 5000) req.wait_timeout_ms))))

-- `!events_.empty() && events_.back().event_sequence() >= next_requested`.
abbrev pub has_uncommitted : Journal → Bool
has_uncommitted j = not (is_nil j.events) && leb (next_requested j) (last_of_events j.events)

-- After the checks of the request.
unfoldable pub get_admitted : Journal → GetReq → GetRsp → Entered
unfolding available
get_admitted j req rsp = elim j.pending_batch [
  | some b ↦ replied (record (available j) { result = delivered; batch = some b })
  | none ↦
      if j.source_final && j.final_batch_acknowledged
      then replied (respond rsp final "metric source final batch is acknowledged")
      else if not j.source_final
          && (not (has_uncommitted j)
              && (not (ltb (next_requested j) (oldest j)) && is_zero req.wait_timeout_ms))
      then replied (respond rsp wait "no metric event is currently available")
      else waiting rsp
]

-- `if (!consumer_) consumer_ = request.consumer();`
unfoldable pub pin : Journal → GetReq → Journal
pin j req = elim j.consumer [ none ↦ record j { consumer = some req.consumer } | some _ ↦ j ]

abbrev pub is_pinned : Journal → Bool
is_pinned j = elim j.consumer [ none ↦ false | some _ ↦ true ]

-- `Get` up to its wait.
unfoldable pub get_enter : Journal → GetReq → Journal × Entered
unfolding get_admitted pin limits_invalid
get_enter j req =
    let rsp = available j in
    if not (valid_consumer req.consumer)
    then (j, replied (respond rsp rejected_invalid "metric consumer lifecycle identity is invalid"))
    else if is_pinned j && not (same_consumer j.consumer req.consumer)
    then (j, replied (respond rsp rejected_invalid "metric journal is pinned to another consumer"))
    else if not (cursor_matches_committed j req.cursor)
    then (j, replied (respond rsp rejected_cursor "metric cursor does not match committed cursor"))
    else if limits_invalid req
    then (j, replied (respond rsp rejected_invalid "metric batch limits are invalid"))
    else (pin j req, get_admitted (pin j req) req rsp)

abbrev pub finish_build : Journal → GetRsp → Build → Journal × GetRsp
finish_build j rsp (failed message) = (j, respond rsp rejected_invalid message)
finish_build j rsp (built j' b) = (j', record (available j') { result = delivered; batch = some b })

-- `Get` after its wait, at the steady time `now` and the wall-clock time `now_unix`.
unfoldable pub get_resume : Wire → Journal → GetReq → GetRsp → ℕ → ℤ → Journal × GetRsp
unfolding ready_to_seal build_pending_batch
get_resume w j req rsp now now_unix =
    if not (ready_to_seal w j now)
    then (j, respond rsp wait "metric flush window has not closed")
    else finish_build j rsp (build_pending_batch w j req now_unix now)

abbrev pub finish_get : Wire → GetReq → ℕ → ℤ → Journal × Entered → Journal × GetRsp
finish_get w req now now_unix (j, replied rsp) = (j, rsp)
finish_get w req now now_unix (j, waiting rsp) = get_resume w j req rsp now now_unix

-- A whole call of `Get` during which no other call runs; its wait ends at `now`.
unfoldable pub get : Wire → Journal → GetReq → ℕ → ℤ → Journal × GetRsp
unfolding get_enter get_resume
get w j req now now_unix = finish_get w req now now_unix (get_enter j req)
