-- ===== src/Sender/Send.antt =====
-- The sender thread of src/task/sample/sample_sender.cpp: `ValidatePushResponse`, `SendFront` and
-- one round of `SenderLoop`.
--
-- `Env` is what the other threads do to the state while the sender thread does not hold the mutex:
-- `env (4 * n)` runs before attempt `n`, `env (4 * n + 1)` during its RPC, and the next two between
-- the locked sections that follow the RPC.
use rl_aiserver.Common.{
  ℕ, zero, suc, ◌+◌, ◌-◌, ◌*◌, String, Bool, true, false, not, ◌&&◌, ◌||◌, Option, none, some, List,
  [], ◌∷◌, ltb, ◌==◌, str_eq, is_empty, if◌then◌else◌, is_nil,
}
use rl_aiserver.Sender.Types.{
  QueueItem, Sender, stopped, is_terminal_fault, set_delivery_state, retry_backoff_ms,
}
use rl_aiserver.Sender.Delivery.{
  Rpc, ok, retryable, fatal, PoolStatus, Refresh, refreshed, delayed, ended, mark_degraded,
  mark_transient, mark_healthy, same_sample_pool, refresh_sample_pool_status,
}

-- `PushResult`.
pub data PushResult : Type 0 where
  unspecified accepted duplicate rejected_capacity rejected_invalid rejected_conflict
        rejected_finalized :
      PushResult

-- `PushSamplesRsp`, with its service identity.
pub record PushRsp : Type 0 where
  pub instance_id : String
  pub lifecycle_epoch : ℕ
  pub envelope_id : String
  pub result : PushResult
  pub message : String

-- `IsTerminalPushRejection`.
abbrev pub is_terminal_push_rejection : PushResult → Bool
is_terminal_push_rejection rejected_invalid = true
is_terminal_push_rejection rejected_conflict = true
is_terminal_push_rejection rejected_finalized = true
is_terminal_push_rejection _ = false

abbrev is_capacity : PushResult → Bool
is_capacity rejected_capacity = true
is_capacity _ = false

abbrev pub is_accepted : PushResult → Bool
is_accepted accepted = true
is_accepted _ = false

abbrev pub is_duplicate : PushResult → Bool
is_duplicate duplicate = true
is_duplicate _ = false

abbrev invalid_count : QueueItem → Bool
invalid_count item = item.transitions == 0 || not (item.transitions == item.envelope.samples_size)

-- `ValidatePushResponse`: the error text, if the response is refused.
unfoldable pub validate_push_response : QueueItem → PushRsp → String → ℕ → Option String
unfolding same_sample_pool
validate_push_response item r instance epoch =
    if not (same_sample_pool r.instance_id r.lifecycle_epoch instance epoch)
    then some "PushSamples response SamplePool identity changed"
    else if not (str_eq r.envelope_id item.envelope.envelope_id)
    then some "PushSamples response does not echo the exact envelope_id"
    else if is_accepted r.result
    then if invalid_count item
      then some "PushSamples ACCEPTED response has an invalid count"
      else none
    else if is_duplicate r.result
    then if invalid_count item
      then some "PushSamples DUPLICATE response has an invalid count"
      else none
    else if is_capacity r.result || is_terminal_push_rejection r.result
    then none
    else some "PushSamples response result is unspecified"

-- `SendResult`.
pub data SendResult : Type 0 where
  committed transient rejected : SendResult

-- The return value and the output arguments of `SendFront`.
pub record Report : Type 0 where
  pub result : SendResult
  pub duplicate : Bool
  pub attempts_used : ℕ
  pub retry_after_ms : ℕ
  pub error : String

-- `queue_.front().envelope.envelope_id() == item.envelope.envelope_id()` of a front that exists.
abbrev pub is_front : List QueueItem → QueueItem → Bool
is_front [] item = false
is_front (x ∷ xs) item = str_eq x.envelope.envelope_id item.envelope.envelope_id

abbrev pub set_unknown : Bool → List QueueItem → List QueueItem
set_unknown unknown [] = []
set_unknown unknown (x ∷ xs) = record x { push_outcome_unknown = unknown } ∷ xs

abbrev pub add_attempts : ℕ → List QueueItem → List QueueItem
add_attempts n [] = []
add_attempts n (x ∷ xs) = record x { attempts = x.attempts + n } ∷ xs

-- The front of the queue, if it is the item, has an unknown outcome or a known one.
unfoldable pub mark_front : Sender → QueueItem → Bool → Sender
mark_front s item unknown =
    if is_front s.queue item then record s { queue = set_unknown unknown s.queue } else s

-- The section that begins attempt `n`.
unfoldable pub begin_attempt : Sender → QueueItem → ℕ → Sender
unfolding mark_front
begin_attempt s item n =
    mark_front
      (record s {
        push_attempt_count = s.push_attempt_count + 1;
        retry_attempt_count =
            if ltb 0 (item.attempts + n) then s.retry_attempt_count + 1 else s.retry_attempt_count;
      })
      item true

abbrev pub count_rpc : Sender → Sender
count_rpc s = record s { push_rpc_count = s.push_rpc_count + 1 }

abbrev pub count_rejected : Sender → Sender
count_rejected s = record s { rejected_push_attempt_count = s.rejected_push_attempt_count + 1 }

abbrev pub report : SendResult → Bool → ℕ → ℕ → String → Report
report result dup attempts_used retry_after_ms error = record {
  result = result;
  duplicate = dup;
  attempts_used = attempts_used;
  retry_after_ms = retry_after_ms;
  error = error;
}

-- What `SendFront` does with a response, in two locked sections with `mid` between them.
unfoldable pub on_response :
    (Sender → Sender) → Sender → QueueItem → ℕ → PushRsp → String → ℕ → Sender × Report
on_response mid s item used r instance epoch =
    let t = mid (mark_front s item false) in
    elim (validate_push_response item r instance epoch) [
      | some e ↦ (count_rejected t, report rejected false used 0 e)
      | none ↦
          if is_accepted r.result || is_duplicate r.result
          then (mark_healthy t, report committed (is_duplicate r.result) used 0 "")
          else if is_capacity r.result
          then (
            count_rejected t,
            report transient false used (retry_backoff_ms (item.attempts + used)) (
                if is_empty r.message
                then "SamplePool rejected the immutable envelope"
                else r.message),
          )
          else (
            count_rejected t,
            report rejected false used 0 (
                if is_empty r.message
                then "SamplePool rejected the immutable envelope"
                else r.message),
          )
    ]

abbrev pub Env : Type 0
Env = ℕ → Sender → Sender

-- The loop of `SendFront` from attempt `n`, with `left` attempts left.
unfoldable pub send_loop :
    Env → (ℕ → Rpc PushRsp) → QueueItem → String → ℕ → ℕ → ℕ → Sender → Sender × Report
send_loop env rpc item instance epoch zero n s = (s, report rejected false n 0 "")
send_loop env rpc item instance epoch (suc left) n s =
    let s0 = env (4 * n) s in
    let s1 = count_rpc (env (4 * n + 1) (begin_attempt s0 item n)) in
    let s2 = env (4 * n + 2) s1 in
    let rest = send_loop env rpc item instance epoch left (n + 1) s1 in
    if s0.force_stop
    then (s0, report rejected false n 0 "distributor forced to stop")
    else elim (rpc n) [
      | ok r ↦ on_response (env (4 * n + 3)) s2 item (n + 1) r instance epoch
      | fatal e ↦ (count_rejected (mark_front s2 item false), report rejected false (n + 1) 0 e)
      | retryable e ↦ elim left [
        | zero ↦ (s1, report transient false (n + 1) (retry_backoff_ms (item.attempts + (n + 1))) e)
        | suc _ ↦ rest
      ]
    ]

-- `SendFront`.
unfoldable pub send_front : Env → (ℕ → Rpc PushRsp) → QueueItem → Sender → Sender × Report
send_front env rpc item s =
    send_loop env rpc item s.sample_pool_instance_id s.sample_pool_lifecycle_epoch
      s.config.max_attempts 0 s

abbrev front_size : (QueueItem → ℕ) → List QueueItem → ℕ
front_size f [] = 0
front_size f (x ∷ xs) = f x

abbrev pub pop_front : List QueueItem → List QueueItem
pop_front [] = []
pop_front (x ∷ xs) = xs

-- The section after a committed push: the front leaves the queue and is counted.
unfoldable pub pop_committed : Sender → QueueItem → Bool → Sender
pop_committed s item dup =
    if is_front s.queue item
    then record s {
      queue_transitions = s.queue_transitions - front_size (λ x. x.transitions) s.queue;
      queue_estimated_bytes = s.queue_estimated_bytes - front_size (λ x. x.estimated_bytes) s.queue;
      queue = pop_front s.queue;
      duplicate_push_attempt_count =
          if dup then s.duplicate_push_attempt_count + 1 else s.duplicate_push_attempt_count;
      accepted_unique_transitions =
          if dup
          then s.accepted_unique_transitions
          else s.accepted_unique_transitions + item.transitions;
      accepted_unique_envelopes =
          if dup then s.accepted_unique_envelopes else s.accepted_unique_envelopes + 1;
    }
    else s

-- The front counts the attempts that were made for it.
unfoldable pub note_attempts : Sender → QueueItem → ℕ → Sender
note_attempts s item n =
    if is_front s.queue item then record s { queue = add_attempts n s.queue } else s

-- A round of the loop goes on or leaves the loop.
pub data Round : Type 0 where
  goes_on leaves : Round

abbrev pub round_of : Sender × Bool → Sender × Round
round_of (s, true) = (s, goes_on)
round_of (s, false) = (s, leaves)

abbrev pub text_or : String → String → String
text_or e d = if is_empty e then d else e

-- What `SenderLoop` does with the report of `SendFront`, where other threads do `mid` between its two
-- locked sections.
unfoldable pub after_send : (Sender → Sender) → Sender → QueueItem → Report → ℕ → Sender × Round
after_send mid s item r now = elim r.result [
  | committed ↦ (pop_committed s item r.duplicate, goes_on)
  | transient ↦
      let t = note_attempts s item r.attempts_used in
      if t.force_stop
      then (t, leaves)
      else round_of (
          mark_transient (mid t) (text_or r.error "SamplePool ingress transport is unavailable")
            r.retry_after_ms now)
  | rejected ↦ (
    mark_degraded (mid (note_attempts s item r.attempts_used))
        (text_or r.error "PushSamples failed"),
    leaves,
  )
]

abbrev pub round_of_refresh : Sender × Refresh → Sender × Round
round_of_refresh (s, refreshed) = (s, goes_on)
round_of_refresh (s, delayed) = (s, goes_on)
round_of_refresh (s, ended) = (s, leaves)

-- One round of `SenderLoop`, from the state at the end of its wait. The other threads do `around 0`
-- before `SendFront` or `RefreshSamplePoolStatus`, `around 1` after `SendFront`, and `around 2`
-- between the two sections that follow or that the refresh has.
unfoldable pub sender_round :
    Env → Env → (ℕ → Rpc PushRsp) → Rpc PoolStatus → Sender → ℕ → Sender × Round
sender_round env around rpc status s now =
    if s.force_stop || (s.stop_requested && is_nil s.queue) then (s, leaves) else elim s.queue [
      | [] ↦ round_of_refresh (refresh_sample_pool_status (around 2) (around 0 s) status now)
      | item ∷ _ ↦
          let sent = send_front env rpc item (around 0 s) in
          after_send (around 2) (around 1 sent.0) item sent.1 now
    ]

-- What follows the loop.
unfoldable pub loop_exit : Sender → Sender
unfolding set_delivery_state
loop_exit s =
    let t = record s { ready = false } in
    if is_terminal_fault t.delivery_state then t else set_delivery_state t stopped
