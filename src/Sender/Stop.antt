-- ===== src/Sender/Stop.antt =====
-- `StopAndDrain` of src/task/sample/sample_sender.cpp, in its locked sections.
use rl_aiserver.Common.{◌+◌, Bool, true, false, List, [], ◌∷◌, ltb, if◌then◌else◌, is_nil}
use rl_aiserver.Sender.Types.{
  QueueItem, Sender, draining, stopped, terminal_fault, is_terminal_fault, set_delivery_state,
}
use rl_aiserver.Sender.Reserve.{release_reservation}

-- The first section where no sender thread runs: the result is whether the queue is empty.
unfoldable pub stop_idle : Sender → Sender × Bool
unfolding set_delivery_state
stop_idle s =
    let t = record (release_reservation s) { accepting = false; ready = false } in
    (if is_terminal_fault t.delivery_state then t else set_delivery_state t stopped, is_nil s.queue)

-- The first section where the sender thread runs.
unfoldable pub stop_begin : Sender → Sender
unfolding set_delivery_state
stop_begin s =
    let t = record (release_reservation s) { accepting = false; stop_requested = true } in
    if is_terminal_fault t.delivery_state then t else set_delivery_state t draining

-- The end of the drain wait: past the deadline the sender thread is told to give up.
unfoldable pub stop_wait : Sender → Sender × Bool
stop_wait s = if is_nil s.queue then (s, true) else (record s { force_stop = true }, false)

-- A drained item is a final drop, or its outcome is unknown: the two are counted apart.
abbrev pub count_item : Sender → QueueItem → Sender
count_item s item =
    if item.push_outcome_unknown
    then record s {
      unresolved_transitions = s.unresolved_transitions + item.transitions;
      unresolved_envelopes = s.unresolved_envelopes + 1;
    }
    else record s {
      final_drop_unique_transitions = s.final_drop_unique_transitions + item.transitions;
      final_drop_unique_envelopes = s.final_drop_unique_envelopes + 1;
    }

-- The loop over the items that are left.
unfoldable pub count_left : Sender → List QueueItem → Sender
count_left s [] = s
count_left s (item ∷ items) = count_left (count_item s item) items

-- The last section, after the sender thread has been joined.
unfoldable pub stop_finish : Sender → Bool → Sender × Bool
unfolding count_left set_delivery_state
stop_finish s drained =
    if drained
    then (s, true)
    else if is_nil s.queue
    then (s, true)
    else let t = count_left s s.queue in
      (
        record (set_delivery_state
            (record t {
              queue = [];
              queue_transitions = 0;
              queue_estimated_bytes = 0;
              degraded = true;
            })
            terminal_fault) {
              last_error =
                  if ltb 0 t.unresolved_envelopes
                  then "outbound drain deadline exceeded with unresolved PushSamples outcomes"
                  else "outbound drain deadline exceeded";
            },
        false,
      )
