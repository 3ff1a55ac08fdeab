-- ===== src/Sender/Invariant.antt =====
-- The invariant of the sender: the bounds and the byte and transition counts of its queue, and the
-- state of the reservation.
use rl_aiserver.Common.{
  ℕ, ◌+◌, ◌≤◌, ◌<◌, ◌≡◌, inl, inr, refl, String, Bool, true, false, List, [], ◌∷◌, some, arith,
  length, total, is_nil, Option-cases, length-append, total-append,
}
use rl_aiserver.Sender.Types.{Envelope, QueueItem, Sender, is_terminal_fault}
use rl_aiserver.Sender.Delivery.{mark_degraded, mark_transient, mark_healthy, record_final_drop}
use rl_aiserver.Sender.Reserve.{
  queue_item, enqueue, Bundle, add_item, make_items, no_items, reserve_bundle, reserve,
  release_reservation, seal, commit, splice, cancel,
}
use rl_aiserver.Sender.Send.{
  set_unknown, add_attempts, mark_front, begin_attempt, pop_committed, note_attempts, loop_exit,
}
use rl_aiserver.Sender.Stop.{stop_idle, stop_begin, stop_wait, stop_finish, count_item, count_left}

abbrev pub transitions_of : List QueueItem → ℕ
transitions_of = total (λ x. x.transitions)

abbrev pub bytes_of : List QueueItem → ℕ
bytes_of = total (λ x. x.estimated_bytes)

pub record IsValid (s : Sender) : Type 0 where
  pub queue_counted : s.queue_transitions ≡ transitions_of s.queue
  pub queue_weighed : s.queue_estimated_bytes ≡ bytes_of s.queue
  pub reserved_counted : s.reserved_transitions ≡ transitions_of s.reserved_items
  pub reserved_weighed : s.reserved_estimated_bytes ≡ bytes_of s.reserved_items
  pub count_fits : length s.queue + length s.reserved_items ≤ s.config.outbound_max_envelopes
  pub bytes_fit :
      s.queue_estimated_bytes + s.reserved_estimated_bytes ≤ s.config.outbound_max_estimated_bytes
  pub held : is_nil s.reserved_items ≡ false → 0 < s.active_reservation_id
  pub sealed_held : s.active_reservation_sealed ≡ true → is_nil s.reserved_items ≡ false
  pub fault : is_terminal_fault s.delivery_state ≡ s.degraded

pub mark_degraded-IsValid : (s : Sender) (e : String) → IsValid s → IsValid (mark_degraded s e)
unfolding mark_degraded
mark_degraded-IsValid s e v = ground arith

pub mark_transient-IsValid :
    (s : Sender) (e : String) (retry now : ℕ) → IsValid s → IsValid (mark_transient s e retry now).0
unfolding mark_transient
mark_transient-IsValid s e retry now v = ground arith

pub mark_healthy-IsValid : (s : Sender) → IsValid s → IsValid (mark_healthy s)
unfolding mark_healthy
mark_healthy-IsValid s v = ground arith

pub record_final_drop-IsValid :
    (s : Sender) (t n : ℕ) (e : String) → IsValid s → IsValid (record_final_drop s t n e)
unfolding record_final_drop
record_final_drop-IsValid s t n e v = ground arith

-- `Enqueue` keeps the invariant, the bounds of the queue among it.
pub enqueue-IsValid :
    (size : Envelope → ℕ) (s : Sender) (e : Envelope) → IsValid s → IsValid (enqueue size s e).0
unfolding enqueue
enqueue-IsValid size s e v = ground (
  arith,
  length-append s.queue (queue_item size e ∷ []),
  total-append (λ (x : QueueItem). x.transitions) s.queue (queue_item size e ∷ []),
  total-append (λ (x : QueueItem). x.estimated_bytes) s.queue (queue_item size e ∷ []),
)

-- The sums of a bundle are those of its items.
pub record IsSummed (b : Bundle) : Type 0 where
  pub counted : b.transitions ≡ transitions_of b.items
  pub weighed : b.estimated_bytes ≡ bytes_of b.items

add_item-IsSummed : (b : Bundle) (item : QueueItem) → IsSummed b → IsSummed (add_item b item)
add_item-IsSummed b item h = omega (
  arith,
  total-append (λ (x : QueueItem). x.transitions) b.items (item ∷ []),
  total-append (λ (x : QueueItem). x.estimated_bytes) b.items (item ∷ []),
)

pub make_items-IsSummed :
    (size : Envelope → ℕ) (b c : Bundle) (es : List Envelope)
    → IsSummed b
    → make_items size b es ≡ some c
    → IsSummed c
unfolding make_items
make_items-IsSummed size b c [] h e = ground arith
make_items-IsSummed size b c (x ∷ es) h e = ground (
  arith,
  make_items-IsSummed size (add_item b (queue_item size x)) c es
      (add_item-IsSummed b (queue_item size x) h),
)

reserve_bundle-IsValid :
    (s : Sender) (b : Bundle) → IsSummed b → IsValid s → IsValid (reserve_bundle s b).0
unfolding reserve_bundle
reserve_bundle-IsValid s b h v = ground (
  arith,
  length-append s.reserved_items b.items,
  total-append (λ (x : QueueItem). x.transitions) s.reserved_items b.items,
  total-append (λ (x : QueueItem). x.estimated_bytes) s.reserved_items b.items,
)

-- A reservation keeps the invariant.
pub reserve-IsValid :
    (size : Envelope → ℕ) (s : Sender) (es : List Envelope)
    → IsValid s
    → IsValid (reserve size s es).0
unfolding reserve
reserve-IsValid size s [] v = v
reserve-IsValid size s (e ∷ es) v = elim (Option-cases (make_items size no_items (e ∷ es))) [
  | inl p ↦ rw (p, reserve) v
  | inr (b, p) ↦
      rw (p, reserve)
        (reserve_bundle-IsValid s b (make_items-IsSummed size no_items b (e ∷ es) (omega arith) p)
          v)
]

release-IsValid : (s : Sender) → IsValid s → IsValid (release_reservation s)
release-IsValid s v = ground arith

pub seal-IsValid : (s : Sender) (id : ℕ) → IsValid s → IsValid (seal s id).0
unfolding seal
seal-IsValid s id v = ground (arith, release-IsValid s v)

splice-IsValid : (s : Sender) → IsValid s → IsValid (splice s)
splice-IsValid s v = ground (
  arith,
  length-append s.queue s.reserved_items,
  total-append (λ (x : QueueItem). x.transitions) s.queue s.reserved_items,
  total-append (λ (x : QueueItem). x.estimated_bytes) s.queue s.reserved_items,
)

pub commit-IsValid : (s : Sender) (id : ℕ) → IsValid s → IsValid (commit s id).0
unfolding commit
commit-IsValid s id v = ground (arith, release-IsValid s v, splice-IsValid s v)

pub cancel-IsValid : (s : Sender) (id : ℕ) → IsValid s → IsValid (cancel s id)
unfolding cancel
cancel-IsValid s id v = ground (arith, release-IsValid s v)

-- Marking the front item changes neither the number nor the sums of the items.
set_unknown-same :
    (u : Bool) (xs : List QueueItem)
    → (length (set_unknown u xs) ≡ length xs)
      × (transitions_of (set_unknown u xs) ≡ transitions_of xs)
      × (bytes_of (set_unknown u xs) ≡ bytes_of xs)
set_unknown-same u [] = (refl, refl, refl)
set_unknown-same u (x ∷ xs) = (refl, refl, refl)

add_attempts-same :
    (n : ℕ) (xs : List QueueItem)
    → (length (add_attempts n xs) ≡ length xs)
      × (transitions_of (add_attempts n xs) ≡ transitions_of xs)
      × (bytes_of (add_attempts n xs) ≡ bytes_of xs)
add_attempts-same n [] = (refl, refl, refl)
add_attempts-same n (x ∷ xs) = (refl, refl, refl)

pub mark_front-IsValid :
    (s : Sender) (item : QueueItem) (u : Bool) → IsValid s → IsValid (mark_front s item u)
unfolding mark_front
mark_front-IsValid s item u v = ground (arith, set_unknown-same u s.queue)

pub begin_attempt-IsValid :
    (s : Sender) (item : QueueItem) (n : ℕ) → IsValid s → IsValid (begin_attempt s item n)
unfolding begin_attempt
begin_attempt-IsValid s item n v = ground (arith, set_unknown-same true s.queue)

pub note_attempts-IsValid :
    (s : Sender) (item : QueueItem) (n : ℕ) → IsValid s → IsValid (note_attempts s item n)
unfolding note_attempts
note_attempts-IsValid s item n v = ground (arith, add_attempts-same n s.queue)

pop_committed-queue :
    (s : Sender) (item : QueueItem) (dup : Bool) (xs : List QueueItem)
    → s.queue ≡ xs
    → IsValid s
    → IsValid (pop_committed s item dup)
unfolding pop_committed
pop_committed-queue s item dup [] e v = ground arith
pop_committed-queue s item dup (x ∷ xs) e v = ground arith

-- Removing the delivered front keeps the invariant.
pub pop_committed-IsValid :
    (s : Sender) (item : QueueItem) (dup : Bool) → IsValid s → IsValid (pop_committed s item dup)
pop_committed-IsValid s item dup v = pop_committed-queue s item dup s.queue refl v

pub loop_exit-IsValid : (s : Sender) → IsValid s → IsValid (loop_exit s)
unfolding loop_exit
loop_exit-IsValid s v = ground arith

pub stop_idle-IsValid : (s : Sender) → IsValid s → IsValid (stop_idle s).0
unfolding stop_idle
stop_idle-IsValid s v = ground arith

pub stop_begin-IsValid : (s : Sender) → IsValid s → IsValid (stop_begin s)
unfolding stop_begin
stop_begin-IsValid s v = ground arith

pub stop_wait-IsValid : (s : Sender) → IsValid s → IsValid (stop_wait s).0
unfolding stop_wait
stop_wait-IsValid s v = ground arith

-- Counting what is left touches the four drop counters only.
pub count_left-frame :
    (s : Sender) (xs : List QueueItem)
    → count_left s xs ≡ record s {
      final_drop_unique_transitions = (count_left s xs).final_drop_unique_transitions;
      final_drop_unique_envelopes = (count_left s xs).final_drop_unique_envelopes;
      unresolved_transitions = (count_left s xs).unresolved_transitions;
      unresolved_envelopes = (count_left s xs).unresolved_envelopes;
    }
unfolding count_left
count_left-frame s [] = refl
count_left-frame s (x ∷ xs) = ground (arith, count_left-frame (count_item s x) xs)

pub stop_finish-IsValid : (s : Sender) (d : Bool) → IsValid s → IsValid (stop_finish s d).0
unfolding stop_finish
stop_finish-IsValid s d v = ground (arith, count_left-frame s s.queue)
