-- ===== src/Sender/Examples.antt =====
-- A sender of four envelopes and the claims at it.
use rl_aiserver.Common.{
  ℕ, zero, suc, str_eq, ◌≡◌, ◌≢◌, ◌⊎◌, refl, true, false, [], ◌∷◌, ◌++◌, arith,
}
use rl_aiserver.Sender.Types.{Config, Envelope, QueueItem, Sender, healthy, new_sender}
use rl_aiserver.Sender.Delivery.{
  mark_degraded, mark_healthy, Rpc, ok, retryable, same_sample_pool, is_training_delivery_ready,
}
use rl_aiserver.Sender.Reserve.{
  queue_item, enqueue, make_items, reserve_bundle, reserve, seal, done,
}
use rl_aiserver.Sender.Send.{
  PushRsp, accepted, validate_push_response, committed, mark_front, begin_attempt, on_response,
  send_loop, send_front, pop_committed,
}
use rl_aiserver.Sender.Invariant.{IsValid}
use rl_aiserver.Sender.Machine.{enqueues, pops, seals, envelopes}
use rl_aiserver.Sender.Fifo.{Reach, here, next, Reach-Fifo}
use rl_aiserver.Sender.Admission.{
  admit, items_of, SparesReservation, sealed_set, admit_all_or_nothing, admit_undisturbed,
}
use rl_aiserver.Sender.Delivered.{Confirmed, send_front-Confirmed}
use rl_aiserver.Sender.Faults.{fault_is_final}

abbrev config : Config
config = record {
  enabled = true;
  max_attempts = 2;
  enqueue_timeout_ms = 10;
  recovery_timeout_ms = 100;
  outbound_max_envelopes = 4;
  outbound_max_estimated_bytes = 100;
}

abbrev size : Envelope → ℕ
size e = 10

abbrev envelope_a : Envelope
envelope_a = record { envelope_id = "a"; samples_size = 3 }

abbrev envelope_b : Envelope
envelope_b = record { envelope_id = "b"; samples_size = 2 }

abbrev item_a : QueueItem
item_a = queue_item size envelope_a

abbrev open_sender : Sender
open_sender = record (new_sender config) {
  accepting = true;
  ready = true;
  delivery_state = healthy;
  sample_pool_instance_id = "pool";
  sample_pool_lifecycle_epoch = 7;
}

open-IsValid : IsValid open_sender
open-IsValid = record {
  queue_counted = refl;
  queue_weighed = refl;
  reserved_counted = refl;
  reserved_weighed = refl;
  count_fits = omega arith;
  bytes_fit = omega arith;
  held = λ e. cc;
  sealed_held = λ e. cc;
  fault = refl;
}

abbrev one_queued : Sender
one_queued = (enqueue size open_sender envelope_a).0

-- Two envelopes enter, the first one leaves.
abbrev two_queued : Sender
two_queued = (enqueue size one_queued envelope_b).0

passed :
    Reach open_sender
      (record { entered = envelope_a ∷ envelope_b ∷ []; left = envelope_a ∷ [] })
      (pop_committed two_queued item_a false)
unfolding enqueue str_eq
passed =
    next
      (next (next here (enqueues size open_sender envelope_a))
        (enqueues size one_queued envelope_b))
      (pops two_queued item_a false)

Reach-Fifo_example :
    IsValid (pop_committed two_queued item_a false)
    × ([] ++ (envelope_a ∷ envelope_b ∷ [])
        ≡ (envelope_a ∷ []) ++ envelopes (pop_committed two_queued item_a false).queue)
Reach-Fifo_example = Reach-Fifo passed open-IsValid

two_reserved : (reserve size open_sender (envelope_a ∷ envelope_b ∷ [])).1.outcome ≡ done
unfolding reserve reserve_bundle make_items
two_reserved = refl

admit_undisturbed_example :
    let r = admit size (λ t. t) (λ t. t) open_sender (envelope_a ∷ envelope_b ∷ []) in
    (r.1 ≡ done) × (r.0.queue ≡ [] ++ items_of size (envelope_a ∷ envelope_b ∷ []))
admit_undisturbed_example =
    admit_undisturbed size open_sender envelope_a (envelope_b ∷ []) two_reserved

-- Another thread faults the delivery between the seal and the commit.
faulted : SparesReservation (λ t. mark_degraded t "pool lost")
unfolding mark_degraded
faulted t = (ground arith, ground arith, ground arith)

admit_all_or_nothing_example :
    let late = λ (t : Sender). mark_degraded t "pool lost" in
    let r = admit size (λ t. t) late open_sender (envelope_a ∷ envelope_b ∷ []) in
    ((r.1 ≡ done)
      × (r.0.queue
          ≡ (late
              (sealed_set size
                (λ t. t)
                late
                open_sender
                envelope_a
                (envelope_b ∷ [])
                (λ t. (refl, refl, refl))
                faulted).0).queue
            ++ items_of size (envelope_a ∷ envelope_b ∷ [])))
    ⊎ ((r.1 ≢ done)
        × ((r.0 ≡ open_sender)
            ⊎ (r.0.queue ≡ (reserve size open_sender (envelope_a ∷ envelope_b ∷ [])).0.queue)))
admit_all_or_nothing_example =
    admit_all_or_nothing size (λ t. t) (λ t. mark_degraded t "pool lost") open_sender envelope_a
      (envelope_b ∷ []) (λ t. (refl, refl, refl)) faulted

-- The first attempt fails for a while, the second one is accepted.
abbrev answer : PushRsp
answer = record {
  instance_id = "pool";
  lifecycle_epoch = 7;
  envelope_id = "a";
  result = accepted;
  message = "";
}

abbrev answers : ℕ → Rpc PushRsp
answers zero = retryable "unavailable"
answers (suc n) = ok answer

sent : (send_front (λ n s. s) answers item_a one_queued).1.result ≡ committed
unfolding enqueue send_front send_loop begin_attempt mark_front on_response validate_push_response
    same_sample_pool mark_healthy str_eq
sent = refl

send_front-Confirmed_example :
    Confirmed answers item_a "pool" 7 2
      (send_front (λ n s. s) answers item_a one_queued).1.duplicate
unfolding enqueue
send_front-Confirmed_example = send_front-Confirmed (λ n s. s) answers item_a one_queued sent

abbrev faulty : Sender
faulty = record open_sender { degraded = true }

abbrev later_sender : Sender
later_sender = (seal (enqueue size faulty envelope_a).0 3).0

broken : Reach faulty (record { entered = []; left = [] }) later_sender
unfolding enqueue
broken =
    next (next here (enqueues size faulty envelope_a)) (seals (enqueue size faulty envelope_a).0 3)

fault_is_final_example :
    (later_sender.degraded ≡ true)
    × (is_training_delivery_ready later_sender ≡ false)
    × ((reserve size later_sender (envelope_a ∷ [])).1.outcome ≢ done)
fault_is_final_example = fault_is_final size envelope_a [] broken refl
