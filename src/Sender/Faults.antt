-- ===== src/Sender/Faults.antt =====
-- A terminal fault of a running sender is final.
use rl_aiserver.Common.{ℕ, ◌+◌, ◌≡◌, ◌≢◌, String, Bool, true, false, List, [], ◌∷◌, arith}
use rl_aiserver.Sender.Types.{Envelope, QueueItem, Sender}
use rl_aiserver.Sender.Delivery.{
  mark_degraded, mark_transient, mark_healthy, record_final_drop, is_training_delivery_ready,
}
use rl_aiserver.Sender.Reserve.{done, enqueue, reserve_bundle, reserve, seal, commit, cancel}
use rl_aiserver.Sender.Send.{mark_front, begin_attempt, pop_committed, note_attempts, loop_exit}
use rl_aiserver.Sender.Stop.{stop_idle, stop_begin, stop_wait, stop_finish}
use rl_aiserver.Sender.Machine.{
  Step, enqueues, reserves, seals, commits, cancels, degrades, drops, heals, counts_status_failure,
  begins, counts_rpc, learns, counts_rejected, refuses, pops, notes, slows, exits, stops_idle,
  stops, waits, finishes, Flow,
}
use rl_aiserver.Sender.Fifo.{Reach, here, next}

abbrev IsBroken : Sender → Type 0
IsBroken s = s.degraded ≡ true

mark_front-broken :
    (s : Sender) (item : QueueItem) (u : Bool) → (mark_front s item u).degraded ≡ s.degraded
unfolding mark_front
mark_front-broken s item u = ground arith

mark_healthy-broken : (s : Sender) → IsBroken s → mark_healthy s ≡ s
unfolding mark_healthy
mark_healthy-broken s h = ground arith

mark_transient-broken :
    (s : Sender) (e : String) (r now : ℕ) → IsBroken s → (mark_transient s e r now).0 ≡ s
unfolding mark_transient
mark_transient-broken s e r now h = ground arith

stop_finish-IsBroken : (s : Sender) (d : Bool) → IsBroken s → IsBroken (stop_finish s d).0
unfolding stop_finish
stop_finish-IsBroken s d h = ground arith

Step-IsBroken : {s k : Sender} {f : Flow} → Step s f k → IsBroken s → IsBroken k
unfolding enqueue reserve reserve_bundle seal commit cancel mark_degraded record_final_drop
    begin_attempt pop_committed note_attempts loop_exit stop_idle stop_begin stop_wait
Step-IsBroken (enqueues size s e) h = ground arith
Step-IsBroken (reserves size s []) h = h
Step-IsBroken (reserves size s (e ∷ es)) h = ground arith
Step-IsBroken (seals s id) h = ground arith
Step-IsBroken (commits s id) h = ground arith
Step-IsBroken (cancels s id) h = ground arith
Step-IsBroken (degrades s e) h = ground arith
Step-IsBroken (drops s t n e) h = ground arith
Step-IsBroken (heals s) h = ground (arith, mark_healthy-broken s h)
Step-IsBroken (counts_status_failure s) h = h
Step-IsBroken (begins s item n) h = ground (
  arith,
  mark_front-broken (record s { push_attempt_count = s.push_attempt_count + 1 }) item true,
)
Step-IsBroken (counts_rpc s) h = h
Step-IsBroken (learns s item) h = ground (arith, mark_front-broken s item false)
Step-IsBroken (counts_rejected s) h = h
Step-IsBroken (refuses s item) h = ground (arith, mark_front-broken s item false)
Step-IsBroken (pops s item dup) h = ground arith
Step-IsBroken (notes s item n) h = ground arith
Step-IsBroken (slows s e r now) h = ground (arith, mark_transient-broken s e r now h)
Step-IsBroken (exits s) h = ground arith
Step-IsBroken (stops_idle s) h = ground arith
Step-IsBroken (stops s) h = ground arith
Step-IsBroken (waits s) h = ground arith
Step-IsBroken (finishes s d) h = stop_finish-IsBroken s d h

reserve_broken :
    (size : Envelope → ℕ) (s : Sender) (e : Envelope) (es : List Envelope)
    → IsBroken s
    → (reserve size s (e ∷ es)).1.outcome ≢ done
unfolding reserve reserve_bundle
reserve_broken size s e es h q = ground arith

-- After any locked sections of the running sender's threads from a degraded state, the sender is
-- degraded, does not report that it is ready for training data and refuses every non-empty
-- reservation. `Start`, which ran before these threads, is not one of the sections.
pub fault_is_final :
    {s k : Sender} {f : Flow} (size : Envelope → ℕ) (e : Envelope) (es : List Envelope)
    → Reach s f k
    → s.degraded ≡ true
    → (k.degraded ≡ true)
      × (is_training_delivery_ready k ≡ false)
      × ((reserve size k (e ∷ es)).1.outcome ≢ done)
unfolding is_training_delivery_ready
fault_is_final {k = k} size e es r h =
    let b = go r h in (b, ground arith, reserve_broken size k e es b)
  where
    go : {s k : Sender} {f : Flow} → Reach s f k → IsBroken s → IsBroken k
    go here h = h
    go (next r st) h = Step-IsBroken st (go r h)
