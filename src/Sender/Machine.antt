-- ===== src/Sender/Machine.antt =====
-- The locked sections of the threads of a running sender as one step relation, with what entered and
-- left the queue. `Start`, which runs once before the sender thread, is not among them.
use rl_aiserver.Common.{
  ℕ, String, Bool, true, false, not, ◌&&◌, List, [], ◌∷◌, map, arith, ◌==◌, if◌then◌else◌,
}
use rl_aiserver.Sender.Types.{Envelope, QueueItem, Sender}
use rl_aiserver.Sender.Delivery.{
  mark_degraded, mark_transient, mark_healthy, record_final_drop, count_status_failure,
}
use rl_aiserver.Sender.Reserve.{Outcome, done, enqueue, reserve, seal, commit, cancel}
use rl_aiserver.Sender.Send.{
  is_front, mark_front, begin_attempt, count_rpc, count_rejected, pop_committed, note_attempts,
  loop_exit,
}
use rl_aiserver.Sender.Stop.{stop_idle, stop_begin, stop_wait, stop_finish}
use rl_aiserver.Sender.Invariant.{
  IsValid, mark_degraded-IsValid, mark_transient-IsValid, mark_healthy-IsValid,
  record_final_drop-IsValid, enqueue-IsValid, reserve-IsValid, seal-IsValid, commit-IsValid,
  cancel-IsValid, mark_front-IsValid, begin_attempt-IsValid, note_attempts-IsValid,
  pop_committed-IsValid, loop_exit-IsValid, stop_idle-IsValid, stop_begin-IsValid,
  stop_wait-IsValid, stop_finish-IsValid,
}

abbrev pub envelopes : List QueueItem → List Envelope
envelopes = map (λ x. x.envelope)

-- What a section adds to the queue and takes from it.
pub record Flow : Type 0 where
  pub entered : List Envelope
  pub left : List Envelope

abbrev pub still : Flow
still = record { entered = []; left = [] }

-- The items that a step of the filling side appends.
abbrev pub enqueued : (Envelope → ℕ) → Sender → Envelope → List Envelope
enqueued size s e = if (enqueue size s e).1 then e ∷ [] else []

abbrev is_done : Outcome → Bool
is_done done = true
is_done _ = false

-- The envelopes that a call of `CommitEnqueueEnvelopeSet` reports as committed.
abbrev pub committed : Sender → ℕ → List Envelope
committed s id =
    if not (id == 0) && is_done (commit s id).1.outcome then envelopes s.reserved_items else []

abbrev first : List Envelope → List Envelope
first [] = []
first (e ∷ es) = e ∷ []

-- The envelope that leaves when the sender thread removes a delivered front.
abbrev pub popped : Sender → QueueItem → List Envelope
popped s item = if is_front s.queue item then first (envelopes s.queue) else []

-- One locked section of some thread after `Start`. The sender thread, the trainer threads and the
-- stopping thread take turns in any order, and a function with several sections is as many steps.
pub data Step : Sender → Flow → Sender → Type 0 where
  enqueues :
      (size : Envelope → ℕ) (s : Sender) (e : Envelope)
      → Step s (record { entered = enqueued size s e; left = [] }) (enqueue size s e).0
  reserves :
      (size : Envelope → ℕ) (s : Sender) (es : List Envelope) → Step s still (reserve size s es).0
  seals : (s : Sender) (id : ℕ) → Step s still (seal s id).0
  commits :
      (s : Sender) (id : ℕ)
      → Step s (record { entered = committed s id; left = [] }) (commit s id).0
  cancels : (s : Sender) (id : ℕ) → Step s still (cancel s id)
  degrades : (s : Sender) (e : String) → Step s still (mark_degraded s e)
  drops : (s : Sender) (t n : ℕ) (e : String) → Step s still (record_final_drop s t n e)
  heals : (s : Sender) → Step s still (mark_healthy s)
  counts_status_failure : (s : Sender) → Step s still (count_status_failure s)
  begins : (s : Sender) (item : QueueItem) (n : ℕ) → Step s still (begin_attempt s item n)
  counts_rpc : (s : Sender) → Step s still (count_rpc s)
  learns : (s : Sender) (item : QueueItem) → Step s still (mark_front s item false)
  counts_rejected : (s : Sender) → Step s still (count_rejected s)
  refuses :
      (s : Sender) (item : QueueItem) → Step s still (count_rejected (mark_front s item false))
  pops :
      (s : Sender) (item : QueueItem) (dup : Bool)
      → Step s (record { entered = []; left = popped s item }) (pop_committed s item dup)
  notes : (s : Sender) (item : QueueItem) (n : ℕ) → Step s still (note_attempts s item n)
  slows : (s : Sender) (e : String) (retry now : ℕ) → Step s still (mark_transient s e retry now).0
  exits : (s : Sender) → Step s still (loop_exit s)
  stops_idle : (s : Sender) → Step s still (stop_idle s).0
  stops : (s : Sender) → Step s still (stop_begin s)
  waits : (s : Sender) → Step s still (stop_wait s).0
  finishes :
      (s : Sender) (d : Bool)
      → Step s
          (record { entered = []; left = if d then [] else envelopes s.queue })
          (stop_finish s d).0

count_rpc-IsValid : (s : Sender) → IsValid s → IsValid (count_rpc s)
count_rpc-IsValid s v = ground arith

count_rejected-IsValid : (s : Sender) → IsValid s → IsValid (count_rejected s)
count_rejected-IsValid s v = ground arith

count_status_failure-IsValid : (s : Sender) → IsValid s → IsValid (count_status_failure s)
count_status_failure-IsValid s v = ground arith

-- Every such section keeps the invariant of the sender: the bounds of the
-- queue, the counts of transitions and bytes, the reservation and the agreement of the fault
-- flag with the delivery state.
pub Step-IsValid : {s k : Sender} {f : Flow} → Step s f k → IsValid s → IsValid k
Step-IsValid (enqueues size s e) v = enqueue-IsValid size s e v
Step-IsValid (reserves size s es) v = reserve-IsValid size s es v
Step-IsValid (seals s id) v = seal-IsValid s id v
Step-IsValid (commits s id) v = commit-IsValid s id v
Step-IsValid (cancels s id) v = cancel-IsValid s id v
Step-IsValid (degrades s e) v = mark_degraded-IsValid s e v
Step-IsValid (drops s t n e) v = record_final_drop-IsValid s t n e v
Step-IsValid (heals s) v = mark_healthy-IsValid s v
Step-IsValid (counts_status_failure s) v = count_status_failure-IsValid s v
Step-IsValid (begins s item n) v = begin_attempt-IsValid s item n v
Step-IsValid (counts_rpc s) v = count_rpc-IsValid s v
Step-IsValid (learns s item) v = mark_front-IsValid s item false v
Step-IsValid (counts_rejected s) v = count_rejected-IsValid s v
Step-IsValid (refuses s item) v = count_rejected-IsValid _ (mark_front-IsValid s item false v)
Step-IsValid (pops s item dup) v = pop_committed-IsValid s item dup v
Step-IsValid (notes s item n) v = note_attempts-IsValid s item n v
Step-IsValid (slows s e retry now) v = mark_transient-IsValid s e retry now v
Step-IsValid (exits s) v = loop_exit-IsValid s v
Step-IsValid (stops_idle s) v = stop_idle-IsValid s v
Step-IsValid (stops s) v = stop_begin-IsValid s v
Step-IsValid (waits s) v = stop_wait-IsValid s v
Step-IsValid (finishes s d) v = stop_finish-IsValid s d v
