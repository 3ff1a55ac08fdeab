-- ===== src/Sender/Fifo.antt =====
-- The outbound queue is a FIFO: under any interleaving of the locked sections every envelope that
-- entered has left or is queued, in the order in which it entered.
use mathlib.Core.List.{append_assoc, append-nil, map-append}
use rl_aiserver.Common.{
  ℕ, ◌≡◌, refl, sym, ap, ◌∙◌, String, Bool, true, false, List, [], ◌∷◌, ◌++◌, arith, if◌then◌else◌,
}
use rl_aiserver.Sender.Types.{Envelope, QueueItem, Sender, Config, new_sender}
use rl_aiserver.Sender.Delivery.{mark_degraded, mark_transient, mark_healthy, record_final_drop}
use rl_aiserver.Sender.Reserve.{queue_item, enqueue, reserve_bundle, reserve, seal, commit, cancel}
use rl_aiserver.Sender.Send.{
  set_unknown, add_attempts, mark_front, begin_attempt, pop_committed, note_attempts, loop_exit,
}
use rl_aiserver.Sender.Stop.{stop_idle, stop_begin, stop_wait, stop_finish}
use rl_aiserver.Sender.Invariant.{IsValid, count_left-frame}
use rl_aiserver.Sender.Machine.{
  Step, enqueues, reserves, seals, commits, cancels, degrades, drops, heals, counts_status_failure,
  begins, counts_rpc, learns, counts_rejected, refuses, pops, notes, slows, exits, stops_idle,
  stops, waits, finishes, Flow, still, envelopes, enqueued, committed, popped, Step-IsValid,
}

-- The envelopes that one section keeps, adds and removes.
abbrev pub Balanced : Sender → Flow → Sender → Type 0
Balanced s f k = envelopes s.queue ++ f.entered ≡ f.left ++ envelopes k.queue

same_queue : {xs ys : List QueueItem} → ys ≡ xs → envelopes xs ++ [] ≡ envelopes ys
same_queue {xs} e = append-nil (envelopes xs) ∙ ap envelopes (sym e)

envelopes-set_unknown :
    (u : Bool) (xs : List QueueItem) → envelopes (set_unknown u xs) ≡ envelopes xs
envelopes-set_unknown u [] = refl
envelopes-set_unknown u (x ∷ xs) = refl

envelopes-add_attempts :
    (n : ℕ) (xs : List QueueItem) → envelopes (add_attempts n xs) ≡ envelopes xs
envelopes-add_attempts n [] = refl
envelopes-add_attempts n (x ∷ xs) = refl

enqueue-Balanced :
    (size : Envelope → ℕ) (s : Sender) (e : Envelope)
    → Balanced s (record { entered = enqueued size s e; left = [] }) (enqueue size s e).0
unfolding enqueue
enqueue-Balanced size s e = ground (
  arith,
  append-nil (envelopes s.queue),
  map-append (λ (x : QueueItem). x.envelope) s.queue (queue_item size e ∷ []),
)

reserve-queue :
    (size : Envelope → ℕ) (s : Sender) (es : List Envelope) → (reserve size s es).0.queue ≡ s.queue
unfolding reserve reserve_bundle
reserve-queue size s [] = refl
reserve-queue size s (e ∷ es) = ground arith

seal-queue : (s : Sender) (id : ℕ) → (seal s id).0.queue ≡ s.queue
unfolding seal
seal-queue s id = ground arith

commit-Balanced :
    (s : Sender) (id : ℕ)
    → Balanced s (record { entered = committed s id; left = [] }) (commit s id).0
unfolding commit
commit-Balanced s id = ground (
  arith,
  append-nil (envelopes s.queue),
  map-append (λ (x : QueueItem). x.envelope) s.queue s.reserved_items,
)

cancel-queue : (s : Sender) (id : ℕ) → (cancel s id).queue ≡ s.queue
unfolding cancel
cancel-queue s id = ground arith

degraded-queue : (s : Sender) (e : String) → (mark_degraded s e).queue ≡ s.queue
unfolding mark_degraded
degraded-queue s e = ground arith

healthy-queue : (s : Sender) → (mark_healthy s).queue ≡ s.queue
unfolding mark_healthy
healthy-queue s = ground arith

transient-queue : (s : Sender) (e : String) (r n : ℕ) → (mark_transient s e r n).0.queue ≡ s.queue
unfolding mark_transient
transient-queue s e r n = ground arith

drop-queue : (s : Sender) (t n : ℕ) (e : String) → (record_final_drop s t n e).queue ≡ s.queue
unfolding record_final_drop
drop-queue s t n e = ground arith

mark_front-envelopes :
    (s : Sender) (item : QueueItem) (u : Bool)
    → envelopes (mark_front s item u).queue ≡ envelopes s.queue
unfolding mark_front
mark_front-envelopes s item u = ground (arith, envelopes-set_unknown u s.queue)

begin-envelopes :
    (s : Sender) (item : QueueItem) (n : ℕ)
    → envelopes (begin_attempt s item n).queue ≡ envelopes s.queue
unfolding begin_attempt
begin-envelopes s item n = ground (arith, envelopes-set_unknown true s.queue)

note-envelopes :
    (s : Sender) (item : QueueItem) (n : ℕ)
    → envelopes (note_attempts s item n).queue ≡ envelopes s.queue
unfolding note_attempts
note-envelopes s item n = ground (arith, envelopes-add_attempts n s.queue)

exit-queue : (s : Sender) → (loop_exit s).queue ≡ s.queue
unfolding loop_exit
exit-queue s = ground arith

idle-queue : (s : Sender) → (stop_idle s).0.queue ≡ s.queue
unfolding stop_idle
idle-queue s = ground arith

stop-queue : (s : Sender) → (stop_begin s).queue ≡ s.queue
unfolding stop_begin
stop-queue s = ground arith

wait-queue : (s : Sender) → (stop_wait s).0.queue ≡ s.queue
unfolding stop_wait
wait-queue s = ground arith

pop-Balanced :
    (s : Sender) (item : QueueItem) (dup : Bool) (xs : List QueueItem)
    → s.queue ≡ xs
    → Balanced s (record { entered = []; left = popped s item }) (pop_committed s item dup)
unfolding pop_committed
pop-Balanced s item dup [] e = ground arith
pop-Balanced s item dup (x ∷ xs) e = ground (arith, append-nil (envelopes xs))

finish-Balanced :
    (s : Sender) (d : Bool)
    → Balanced s
        (record { entered = []; left = if d then [] else envelopes s.queue })
        (stop_finish s d).0
unfolding stop_finish
finish-Balanced s true = append-nil (envelopes s.queue)
finish-Balanced s false = ground (arith, append-nil (envelopes s.queue), count_left-frame s s.queue)

same_envelopes : {es fs : List Envelope} → fs ≡ es → es ++ [] ≡ fs
same_envelopes {es} e = append-nil es ∙ sym e

Step-Balanced : {s k : Sender} {f : Flow} → Step s f k → Balanced s f k
Step-Balanced (enqueues size s e) = enqueue-Balanced size s e
Step-Balanced (reserves size s es) = same_queue (reserve-queue size s es)
Step-Balanced (seals s id) = same_queue (seal-queue s id)
Step-Balanced (commits s id) = commit-Balanced s id
Step-Balanced (cancels s id) = same_queue (cancel-queue s id)
Step-Balanced (degrades s e) = same_queue (degraded-queue s e)
Step-Balanced (drops s t n e) = same_queue (drop-queue s t n e)
Step-Balanced (heals s) = same_queue (healthy-queue s)
Step-Balanced (counts_status_failure s) = append-nil (envelopes s.queue)
Step-Balanced (begins s item n) = same_envelopes (begin-envelopes s item n)
Step-Balanced (counts_rpc s) = append-nil (envelopes s.queue)
Step-Balanced (learns s item) = same_envelopes (mark_front-envelopes s item false)
Step-Balanced (counts_rejected s) = append-nil (envelopes s.queue)
Step-Balanced (refuses s item) = same_envelopes (mark_front-envelopes s item false)
Step-Balanced (pops s item dup) = pop-Balanced s item dup s.queue refl
Step-Balanced (notes s item n) = same_envelopes (note-envelopes s item n)
Step-Balanced (slows s e r n) = same_queue (transient-queue s e r n)
Step-Balanced (exits s) = same_queue (exit-queue s)
Step-Balanced (stops_idle s) = same_queue (idle-queue s)
Step-Balanced (stops s) = same_queue (stop-queue s)
Step-Balanced (waits s) = same_queue (wait-queue s)
Step-Balanced (finishes s d) = finish-Balanced s d

-- A history with all that entered and left, oldest first.
pub data Reach (s : Sender) : Flow → Sender → Type 0 where
  here : Reach s still s
  next :
      {k l : Sender} {f g : Flow}
      → Reach s f k
      → Step k g l
      → Reach s (record { entered = f.entered ++ g.entered; left = f.left ++ g.left }) l

-- From a valid state, under any interleaving of the locked sections of the running threads, the
-- invariant holds, and what was queued followed by what entered is what left followed by what is
-- queued, in order.
pub Reach-Fifo :
    {s k : Sender} {f : Flow}
    → Reach s f k
    → IsValid s
    → IsValid k × (envelopes s.queue ++ f.entered ≡ f.left ++ envelopes k.queue)
Reach-Fifo {s} here v = (v, append-nil (envelopes s.queue))
Reach-Fifo {s} (next {k} {l} {f} {g} r st) v =
    let ih = Reach-Fifo r v in
    let b = Step-Balanced st in
    (
      Step-IsValid st ih.0,
      sym (append_assoc (envelopes s.queue) f.entered g.entered)
          ∙ ap (λ (x : List Envelope). x ++ g.entered) ih.1
          ∙ append_assoc f.left (envelopes k.queue) g.entered
          ∙ ap (λ (x : List Envelope). f.left ++ x) b
          ∙ sym (append_assoc f.left g.left (envelopes l.queue)),
    )

new_sender-IsValid : (c : Config) → IsValid (new_sender c)
new_sender-IsValid c = ground arith
