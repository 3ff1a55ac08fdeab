-- ===== src/Sender/Admission.antt =====
-- Two-phase admission: `TrainingTransaction::Admit` of src/task/runtime/training_transaction.h over
-- the reservation, its seal and its commit.
use mathlib.Core.List.{append-nil, append_assoc}
use rl_aiserver.Common.{
  ℕ, ◌<◌, ◌≡◌, ◌≢◌, ◌⊎◌, inl, inr, refl, ◌∙◌, true, false, List, [], ◌∷◌, ◌++◌, map, some, arith,
  Option-cases,
}
use rl_aiserver.Sender.Types.{Envelope, QueueItem, Sender, is_healthy}
use rl_aiserver.Sender.Reserve.{
  queue_item, add_item, make_items, no_items, Bundle, Reply, Outcome, done, retryable_unavailable,
  terminal, reserve_bundle, reserve, seal, commit,
}

-- `Admit`: `between` and `later` are what other threads do between the three calls. A commit that
-- does not succeed is a terminal fault.
unfoldable pub admit :
    (Envelope → ℕ)
    → (Sender → Sender)
    → (Sender → Sender)
    → Sender
    → List Envelope
    → Sender × Outcome
admit size between later s output =
    let held = reserve size s output in
    let sealed = seal (between held.0) held.1.reservation_id in
    let stored = commit (later sealed.0) held.1.reservation_id in
    elim held.1.outcome [
      | retryable_unavailable ↦ (held.0, retryable_unavailable)
      | terminal ↦ (held.0, terminal)
      | done ↦ elim sealed.1.outcome [
        | retryable_unavailable ↦ (sealed.0, retryable_unavailable)
        | terminal ↦ (sealed.0, terminal)
        | done ↦ elim stored.1.outcome [ done ↦ (stored.0, done) | _ ↦ (stored.0, terminal) ]
      ]
    ]

unfoldable pub items_of : (Envelope → ℕ) → List Envelope → List QueueItem
items_of size = map (queue_item size)

-- The commit of the sealed reservation by its nonzero number succeeds in any delivery state: the
-- reserved items follow the queue, the reservation is empty, and the delivery state and the
-- fault flag stay as they are.
pub commit_sealed :
    (s : Sender) (id : ℕ)
    → id ≢ 0
    → s.active_reservation_sealed ≡ true
    → s.active_reservation_id ≡ id
    → ((commit s id).0.queue ≡ s.queue ++ s.reserved_items)
      × ((commit s id).0.reserved_items ≡ [])
      × ((commit s id).1.outcome ≡ done)
      × ((commit s id).0.delivery_state ≡ s.delivery_state)
      × ((commit s id).0.degraded ≡ s.degraded)
unfolding commit
commit_sealed s id ne sealed same = ground arith

-- A failed call leaves the queue as it was.
pub reserve_fails :
    (size : Envelope → ℕ) (s : Sender) (es : List Envelope)
    → (reserve size s es).1.outcome ≢ done
    → (reserve size s es).0 ≡ s
unfolding reserve reserve_bundle
reserve_fails size s [] h = refl
reserve_fails size s (e ∷ es) h = ground arith

make_items-items :
    (size : Envelope → ℕ) (b c : Bundle) (es : List Envelope)
    → make_items size b es ≡ some c
    → c.items ≡ b.items ++ items_of size es
unfolding make_items items_of
make_items-items size b c [] e = ground (arith, append-nil b.items)
make_items-items size b c (x ∷ es) e = ground (
  arith,
  make_items-items size (add_item b (queue_item size x)) c es,
  append_assoc b.items (queue_item size x ∷ []) (map (queue_item size) es),
)

outcome_cases : (o : Outcome) → (o ≡ done) ⊎ (o ≢ done)
outcome_cases done = inl refl
outcome_cases retryable_unavailable = inr (λ e. cc)
outcome_cases terminal = inr (λ e. cc)

-- What a successful reservation of a non-empty set holds.
record Holds (size : Envelope → ℕ) (s : Sender) (es : List Envelope) (t : Sender) (id : ℕ)
    : Type 0 where
  id_pos : 0 < id
  active : t.active_reservation_id ≡ id
  items : t.reserved_items ≡ items_of size es
  queue : t.queue ≡ s.queue
  unsealed : t.active_reservation_sealed ≡ false
  generation : t.active_reservation_generation ≡ t.delivery_generation
  is_open : (t.accepting ≡ true) × (t.force_stop ≡ false) × (t.degraded ≡ false) × (t.ready ≡ true)
  fine : is_healthy t.delivery_state ≡ true

reserve_bundle-Holds :
    (size : Envelope → ℕ) (s : Sender) (b : Bundle) (es : List Envelope)
    → b.items ≡ items_of size es
    → (reserve_bundle s b).1.outcome ≡ done
    → Holds size s es (reserve_bundle s b).0 (reserve_bundle s b).1.reservation_id
unfolding reserve_bundle
reserve_bundle-Holds size s b es e h = ground arith

reserve-Holds :
    (size : Envelope → ℕ) (s : Sender) (e : Envelope) (es : List Envelope)
    → (reserve size s (e ∷ es)).1.outcome ≡ done
    → Holds size s (e ∷ es) (reserve size s (e ∷ es)).0 (reserve size s (e ∷ es)).1.reservation_id
unfolding reserve
reserve-Holds size s e es h = elim (Option-cases (make_items size no_items (e ∷ es))) [
  | inl p ↦ let q = rw (p, reserve) at h in cc
  | inr (b, p) ↦
      rw (p, reserve)
        (reserve_bundle-Holds size s b (e ∷ es) (make_items-items size no_items b (e ∷ es) p)
          (rw (p, reserve) at h))
]

seal-done :
    (t : Sender) (id : ℕ)
    → 0 < id
    → (seal t id).1.outcome ≡ done
    → ((seal t id).0 ≡ record t { active_reservation_sealed = true })
      × (t.active_reservation_id ≡ id)
unfolding seal
seal-done t id p h = ground arith

-- A seal never touches the queue.
pub seal_keeps_queue : (t : Sender) (id : ℕ) → (seal t id).0.queue ≡ t.queue
unfolding seal
seal_keeps_queue t id = ground arith

-- A reservation just made seals at once.
pub seal_fresh :
    (size : Envelope → ℕ) (s : Sender) (e : Envelope) (es : List Envelope)
    → (reserve size s (e ∷ es)).1.outcome ≡ done
    → (seal (reserve size s (e ∷ es)).0 (reserve size s (e ∷ es)).1.reservation_id).1.outcome ≡ done
unfolding seal items_of
seal_fresh size s e es h =
    let k = reserve-Holds size s e es h in
    ground (arith, k.id_pos, k.active, k.items, k.generation, k.is_open, k.fine)

-- What other threads do to a reservation that is not theirs: nothing.
abbrev pub SparesReservation : (Sender → Sender) → Type 0
SparesReservation env =
    (t : Sender)
    → ((env t).reserved_items ≡ t.reserved_items)
      × ((env t).active_reservation_id ≡ t.active_reservation_id)
      × ((env t).active_reservation_sealed ≡ t.active_reservation_sealed)

module _ (size : Envelope → ℕ) (between later : Sender → Sender) (s : Sender) (e : Envelope)
    (es : List Envelope) (spares : SparesReservation between)
    (spares_later : SparesReservation later) where
  abbrev pub held : Sender × Reply
  held = reserve size s (e ∷ es)

  abbrev pub sealed_set : Sender × Reply
  sealed_set = seal (between held.0) held.1.reservation_id

  -- The commit after a seal that succeeded.
  stored :
      held.1.outcome ≡ done
      → sealed_set.1.outcome ≡ done
      → let r = commit (later sealed_set.0) held.1.reservation_id in
        (r.1.outcome ≡ done) × (r.0.queue ≡ (later sealed_set.0).queue ++ items_of size (e ∷ es))
  unfolding items_of
  stored h p =
      let k = reserve-Holds size s e es h in
      let d = seal-done (between held.0) held.1.reservation_id k.id_pos p in
      let b = spares held.0 in
      let l = spares_later sealed_set.0 in
      let sealed : (later sealed_set.0).active_reservation_sealed ≡ true = l.2 ∙ rw d.0 refl in
      let same : (later sealed_set.0).active_reservation_id ≡ held.1.reservation_id =
        l.1 ∙ rw d.0 d.1 in
      let items : (later sealed_set.0).reserved_items ≡ items_of size (e ∷ es) =
        l.0 ∙ rw d.0 (b.0 ∙ k.items) in
      let c =
        commit_sealed (later sealed_set.0) held.1.reservation_id (λ z. omega (arith, k.id_pos, z))
          sealed same in
      (c.2, rw (c.0, items))

  -- When other threads leave the reservation as it is, the admission of a non-empty set is all
  -- or nothing: either it succeeds and exactly the given envelopes follow what the queue held at
  -- the commit, in order; or it fails and the queue is that of the state before it or of the
  -- other threads.
  pub admit_all_or_nothing :
      let r = admit size between later s (e ∷ es) in
      ((r.1 ≡ done) × (r.0.queue ≡ (later sealed_set.0).queue ++ items_of size (e ∷ es)))
      ⊎ ((r.1 ≢ done) × ((r.0 ≡ s) ⊎ (r.0.queue ≡ (between held.0).queue)))
  unfolding admit
  admit_all_or_nothing = elim (outcome_cases held.1.outcome) [
    | inr bad ↦ inr (refused bad)
    | inl fine ↦ elim (outcome_cases sealed_set.1.outcome) [
      | inr bad ↦ inr (unsealed fine bad)
      | inl shut ↦ inl (through fine shut)
    ]
  ]
    where
      refused :
          held.1.outcome ≢ done
          → ((admit size between later s (e ∷ es)).1 ≢ done)
            × (((admit size between later s (e ∷ es)).0 ≡ s)
                ⊎ ((admit size between later s (e ∷ es)).0.queue ≡ (between held.0).queue))
      refused bad = ground (arith, reserve_fails size s (e ∷ es) bad)

      unsealed :
          held.1.outcome ≡ done
          → sealed_set.1.outcome ≢ done
          → ((admit size between later s (e ∷ es)).1 ≢ done)
            × (((admit size between later s (e ∷ es)).0 ≡ s)
                ⊎ ((admit size between later s (e ∷ es)).0.queue ≡ (between held.0).queue))
      unsealed fine bad = ground (arith, seal_keeps_queue (between held.0) held.1.reservation_id)

      through :
          held.1.outcome ≡ done
          → sealed_set.1.outcome ≡ done
          → ((admit size between later s (e ∷ es)).1 ≡ done)
            × ((admit size between later s (e ∷ es)).0.queue
                ≡ (later sealed_set.0).queue ++ items_of size (e ∷ es))
      through fine shut = ground (arith, stored fine shut)

-- With no other thread in between, the admission of a non-empty set succeeds as soon as the
-- reservation does, and the queue is the one before followed by the given envelopes in order.
pub admit_undisturbed :
    (size : Envelope → ℕ) (s : Sender) (e : Envelope) (es : List Envelope)
    → (reserve size s (e ∷ es)).1.outcome ≡ done
    → let r = admit size (λ t. t) (λ t. t) s (e ∷ es) in
      (r.1 ≡ done) × (r.0.queue ≡ s.queue ++ items_of size (e ∷ es))
unfolding admit
admit_undisturbed size s e es h =
    let shut = seal_fresh size s e es h in
    let k = reserve-Holds size s e es h in
    let through =
      stored size (λ t. t) (λ t. t) s e es (λ t. (refl, refl, refl)) (λ t. (refl, refl, refl)) h
        shut in
    let same =
      seal_keeps_queue (reserve size s (e ∷ es)).0 (reserve size s (e ∷ es)).1.reservation_id in
    ground (arith, through, same, k.queue)
