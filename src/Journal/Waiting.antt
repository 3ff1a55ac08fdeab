-- ===== src/Journal/Waiting.antt =====
-- What a client of the journal sees over several calls: deliveries, repeated acknowledgements, the
-- flush window, and two calls of `Get` that wait at once.
use rl_aiserver.Common.{
  ℕ, ◌+◌, ◌≤◌, ◌≡◌, ◌≢◌, inl, inr, refl, str_eq, str_eq_iff, true, ◌&&◌, List, ◌∷◌, none, some,
  arith, Bool-cases, Option-cases,
}
use rl_aiserver.Common.Int.{ℤ}
use rl_aiserver.Journal.Types.{
  Event, Batch, Wire, Journal, GetReq, GetRsp, AckReq, applied, already_applied, rejected_cursor,
  delivered, valid_consumer, same_consumer,
}
use rl_aiserver.Journal.Deliver.{
  get_resume, ready_to_seal, ready_scan, build_pending_batch, Build, built, failed, finish_build,
}
use rl_aiserver.Journal.Ack.{ack_commit, ack_pending, ack, ack_response}
use rl_aiserver.Journal.Batches.{Built, build-Built, Window}
use rl_aiserver.Journal.Invariant.{IsValid}

-- What a delivering response holds.
abbrev pub Delivers : Wire → Journal → GetReq → ℕ → Journal × GetRsp → Type 0
Delivers w j req now r = (b : Batch) × (r.1.batch ≡ some b) × Built w j req now r.0 b

finish_build-Delivers :
    (w : Wire) (j : Journal) (req : GetReq) (rsp : GetRsp) (now : ℕ) (now_unix : ℤ) (r : Build)
    → Window j
    → build_pending_batch w j req now_unix now ≡ r
    → (finish_build j rsp r).1.result ≡ delivered
    → Delivers w j req now (finish_build j rsp r)
finish_build-Delivers w j req rsp now now_unix (failed message) v e h = cc
finish_build-Delivers w j req rsp now now_unix (built k b) v e h =
    (b, refl, build-Built w j v req now_unix now k b e)

-- In a journal whose retained events are numbered without gaps up to the next sequence, which is
-- below 2^64, and are no more than the sequences after the committed cursor, the part of `Get`
-- after the wait delivers only a batch that covers the buffer from the committed cursor on and
-- fits the byte limit of the request; that batch is then the pending one, and nothing else of
-- the journal changes but the batch number and the time of the last batch.
pub get_resume-Delivers :
    (w : Wire) (j : Journal) (req : GetReq) (rsp : GetRsp) (now : ℕ) (now_unix : ℤ)
    → Window j
    → (get_resume w j req rsp now now_unix).1.result ≡ delivered
    → Delivers w j req now (get_resume w j req rsp now now_unix)
unfolding get_resume
get_resume-Delivers w j req rsp now now_unix v h = elim (Bool-cases (ready_to_seal w j now)) [
  | inr early ↦ let p = rw (early, get_resume) at h in cc
  | inl ready ↦
      rw (ready, get_resume)
        (finish_build-Delivers w j req rsp now now_unix (build_pending_batch w j req now_unix now) v
          refl (rw (ready, get_resume) at h))
]

applied_consumer :
    (w : Wire) (j : Journal) (req : AckReq)
    → (ack w j req).1.result ≡ applied
    → (valid_consumer req.consumer ≡ true) × (same_consumer j.consumer req.consumer ≡ true)
unfolding ack
applied_consumer w j req h = ground arith

applied_state :
    (w : Wire) (j : Journal) (req : AckReq) (b : Batch)
    → (ack w j req).1.result ≡ applied
    → j.pending_batch ≡ some b
    → (ack w j req).0 ≡ ack_commit w j b req.cursor
unfolding ack ack_pending
applied_state w j req b h e = ground arith

applied_pending :
    (w : Wire) (j : Journal) (req : AckReq)
    → (ack w j req).1.result ≡ applied
    → j.pending_batch ≢ none
unfolding ack ack_pending
applied_pending w j req h e = ground arith

ack_committed :
    (w : Wire) (k : Journal) (req : AckReq)
    → valid_consumer req.consumer ≡ true
    → same_consumer k.consumer req.consumer ≡ true
    → k.committed_cursor ≡ req.cursor
    → ack w k req ≡ (k, ack_response k already_applied "metric batch was already acknowledged")
unfolding ack
ack_committed w k req a s e =
    let same : str_eq (w.serialize req.cursor) (w.serialize k.committed_cursor) ≡ true =
      (str_eq_iff _ _).1 (rw e refl) in
    ground (arith, same)

-- After an acknowledgement that was applied, the same request is answered with ALREADY_APPLIED and
-- changes nothing.
pub ack_again :
    (w : Wire) (j : Journal) (req : AckReq)
    → (ack w j req).1.result ≡ applied
    → let k = (ack w j req).0 in
      ack w k req ≡ (k, ack_response k already_applied "metric batch was already acknowledged")
ack_again w j req h = elim (Option-cases j.pending_batch) [
  | inl e ↦ absurd (applied_pending w j req h e)
  | inr (b, e) ↦
      let who = applied_consumer w j req h in
      let to = applied_state w j req b h e in
      ack_committed w _ req who.0 (unfold ack_commit in rw to who.1)
        (unfold ack_commit in rw to refl)
]

-- In a valid journal with an event, `ReadyToSeal` holds once the oldest retained event has waited
-- for the flush interval.
pub ready_when_due :
    (w : Wire) (j : Journal) (e : Event) (es : List Event) (at : ℕ) (ats : List ℕ) (now : ℕ)
    → IsValid w j
    → j.events ≡ e ∷ es
    → j.event_enqueued_at ≡ at ∷ ats
    → at + j.flush_interval ≤ now
    → ready_to_seal w j now ≡ true
unfolding ready_to_seal ready_scan
ready_when_due w j e es at ats now v p q h =
    let num = rw p at v.agrees.numbered in
    let un = rw p at v.unacknowledged in ground (arith, p, q, num.0, un, v.small)

-- In a journal whose retained events are numbered without gaps up to the next sequence, which is
-- below 2^64, and are no more than the sequences after the committed cursor: when a batch is
-- pending whose number is not the next one, and a call of `Get` that waited builds a batch of
-- its own, an acknowledgement by the pinned consumer with the number of the first batch, whose
-- cursor is not serialized like the committed one, is refused and changes nothing.
pub resume_replaces_pending :
    (w : Wire) (j j' : Journal) (b b' : Batch) (req : GetReq) (areq : AckReq) (now : ℕ)
    (now_unix : ℤ)
    → Window j
    → j.pending_batch ≡ some b
    → b.batch_sequence ≢ j.next_batch_sequence
    → build_pending_batch w j req now_unix now ≡ built j' b'
    → areq.cursor.acknowledged_batch_sequence ≡ b.batch_sequence
    → w.serialize areq.cursor ≢ w.serialize j.committed_cursor
    → (valid_consumer areq.consumer && same_consumer j.consumer areq.consumer) ≡ true
    → ack w j' areq
      ≡ (j', ack_response j' rejected_cursor "metric ACK does not identify the pending batch")
unfolding ack ack_pending
resume_replaces_pending w j j' b b' req areq now now_unix v pending ne e num ser who =
    let made = build-Built w j v req now_unix now j' b' e in
    ground (
      arith,
      made.state,
      made.covers.numbered,
      str_eq_iff (w.serialize areq.cursor) (w.serialize j.committed_cursor),
    )
