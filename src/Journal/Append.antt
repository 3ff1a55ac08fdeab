-- ===== src/Journal/Append.antt =====
-- `AppendFact`, `Finalize` and `WaitForFinalAcknowledgement` of
-- src/task/metrics/episode_metrics.cpp.
use rl_aiserver.Common.{
  ℕ, String, Bool, true, false, ◌||◌, Option, none, some, List, [], ◌∷◌, ◌++◌, ltb, if◌then◌else◌,
  length, tail, add_u64, sub_u64,
}
use rl_aiserver.Common.Int.{ℤ, pos, ltb_ℤ}
use rl_aiserver.Journal.Types.{Event, Wire, Journal}

-- `AppendResult::Code`.
pub data AppendCode : Type 0 where
  applied source_final : AppendCode

-- `AppendResult`.
pub record AppendResult : Type 0 where
  pub code : AppendCode
  pub wall_clock_regressed : Bool
  pub previous_observed_at_unix_ms : ℤ

-- The `while` loop that drops events from the front while the buffer is over a bound. With no
-- event left `front()` is undefined in the source; the loop stops there.
unfoldable pub trim : Wire → ℕ → ℕ → List Event → List ℕ → ℕ → List Event × List ℕ × ℕ
trim w capacity byte_capacity [] stamps bytes = ([], stamps, bytes)
trim w capacity byte_capacity (e ∷ es) stamps bytes =
    let rest = trim w capacity byte_capacity es (tail stamps) (sub_u64 bytes (w.event_size e)) in
    if ltb capacity (length (e ∷ es)) || ltb byte_capacity bytes
    then rest
    else (e ∷ es, stamps, bytes)

-- `last_event_observed_at_unix_ms_ && observed < *last_event_observed_at_unix_ms_`.
unfoldable pub append_result : Option ℤ → ℤ → AppendResult
append_result none observed = record {
  code = applied;
  wall_clock_regressed = false;
  previous_observed_at_unix_ms = pos 0;
}
append_result (some previous) observed =
    if ltb_ℤ observed previous
    then record {
      code = applied;
      wall_clock_regressed = true;
      previous_observed_at_unix_ms = previous;
    }
    else record {
      code = applied;
      wall_clock_regressed = false;
      previous_observed_at_unix_ms = pos 0;
    }

abbrev pub new_event : Journal → String → ℤ → Event
new_event j payload observed = record {
  event_sequence = j.next_event_sequence;
  observed_at_unix_ms = observed;
  fact_payload = payload;
}

-- The part of `AppendFact` that runs while the source is open.
unfoldable pub append_open : Wire → Journal → String → ℤ → ℕ → Journal
append_open w j payload observed now =
    let event = new_event j payload observed in
    let kept =
      trim w j.capacity j.byte_capacity (j.events ++ (event ∷ []))
        (j.event_enqueued_at ++ (now ∷ [])) (add_u64 j.event_bytes (w.event_size event)) in
    record j {
      events = kept.0;
      event_enqueued_at = kept.1;
      event_bytes = kept.2;
      next_event_sequence = add_u64 j.next_event_sequence 1;
      last_event_observed_at = some observed;
    }

-- `AppendFact`.
unfoldable pub append_fact : Wire → Journal → String → ℤ → ℕ → Journal × AppendResult
unfolding append_open append_result
append_fact w j payload observed now =
    if j.source_final
    then (
      j,
      record {
        code = source_final;
        wall_clock_regressed = false;
        previous_observed_at_unix_ms = pos 0;
      },
    )
    else (append_open w j payload observed now, append_result j.last_event_observed_at observed)

-- `Finalize`.
unfoldable pub finalize : Journal → Journal
finalize j =
    if j.source_final
    then j
    else record j { source_final = true; final_event_sequence = sub_u64 j.next_event_sequence 1 }

-- `WaitForFinalAcknowledgement`, on the state `j` where the call starts and the state `later` where
-- its wait ends (notified, or at the timeout).
unfoldable pub wait_for_final_acknowledgement : Journal → Journal → ℤ → Bool
wait_for_final_acknowledgement j later timeout = elim j.consumer [
  | none ↦ true
  | some _ ↦
      if j.final_batch_acknowledged
      then true
      else if ltb_ℤ (pos 0) timeout
      then later.final_batch_acknowledged
      else false
]
