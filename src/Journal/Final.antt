-- ===== src/Journal/Final.antt =====
-- The end of the stream: what `final_batch_acknowledged_` says once it is set.
use rl_aiserver.Common.{
  ℕ, ◌+◌, ◌<◌, ◌≡◌, inl, inr, refl, ◌∙◌, String, Bool, true, false, List, [], Option, none, some,
  arith, ap, subst, if_elim, ltb, is_nil, u64_mod, Bool-cases, Option-cases,
}
use rl_aiserver.Common.Int.{ℤ}
use rl_aiserver.Journal.Types.{
  Identity, Batch, Wire, Journal, GetReq, GetRsp, AckReq, Cursor, new_journal, oldest,
  next_requested,
}
use rl_aiserver.Journal.Append.{append_fact, finalize}
use rl_aiserver.Journal.Deliver.{
  has_gap, get_enter, get_resume, ready_to_seal, draft_batch, filled_batch, empty_batch, gap_batch,
  to_size, ends_stream, mark_final, build_pending_batch, finish_build,
}
use rl_aiserver.Journal.Ack.{expected_event, ack_commit, ack}
use rl_aiserver.Journal.Batches.{collect-Collected}
use rl_aiserver.Journal.Invariant.{IsValid}
use rl_aiserver.Journal.History.{
  Step, appends, finalizes, enters, resumes, acks, Reach, here, next, ack_cases, Tiles, Tracked,
  new_journal-Tracked, Reach-Tracked,
}

-- A pending batch that is marked final ends at the final event `last`.
abbrev pub PendingFinal : Bool → ℕ → ℕ → Option Batch → Type 0
PendingFinal closed acknowledged last none = Unit {0}
PendingFinal closed acknowledged last (some b) =
    b.source_final ≡ true → (closed ≡ true) × (expected_event acknowledged b ≡ last)

pub record IsFinalSound (j : Journal) : Type 0 where
  pub pending :
      PendingFinal j.source_final j.committed_cursor.acknowledged_event_sequence
        j.final_event_sequence j.pending_batch
  pub acknowledged :
      j.final_batch_acknowledged ≡ true
      → (j.source_final ≡ true)
        × (j.committed_cursor.acknowledged_event_sequence ≡ j.final_event_sequence)

-- Before the source is final no pending batch is marked.
PendingFinal-open :
    (acknowledged last last' : ℕ) (o : Option Batch)
    → PendingFinal false acknowledged last o
    → PendingFinal true acknowledged last' o
PendingFinal-open acknowledged last last' none h = tt
PendingFinal-open acknowledged last last' (some b) h = λ e. let p = h e in cc

-- The draft carries no final mark, and a heartbeat has neither events nor a gap.
record IsDraft (d : Batch) : Type 0 where
  unmarked : d.source_final ≡ false
  beats : d.heartbeat ≡ true → (is_nil d.events ≡ true) × (has_gap d.gap ≡ false)

filled-IsDraft :
    (j : Journal) (now_unix : ℤ) (found : Bool) (out d : Batch)
    → out ≡ record (empty_batch j now_unix) { events = out.events }
    → filled_batch (found, out) ≡ some d
    → IsDraft d
unfolding filled_batch
filled-IsDraft j now_unix found out d f e =
    let unmarked : out.source_final ≡ false = ap (λ (b : Batch). b.source_final) f in
    let quiet : out.heartbeat ≡ false = ap (λ (b : Batch). b.heartbeat) f in
    let whole : out.gap ≡ none = ap (λ (b : Batch). b.gap) f in
    record { unmarked = ground arith; beats = λ h. ground arith }

draft_batch-IsDraft :
    (w : Wire) (j : Journal) (req : GetReq) (now_unix : ℤ) (d : Batch)
    → IsValid w j
    → draft_batch w j req now_unix ≡ some d
    → IsDraft d
unfolding draft_batch
draft_batch-IsDraft w j req now_unix d v e = elim (Bool-cases (ltb (next_requested j) (oldest j))) [
  | inl h ↦
      let p : some (gap_batch j now_unix) ≡ some d = rw (h, draft_batch) at e in
      let q : gap_batch j now_unix ≡ d = cc in
      subst IsDraft q (record { unmarked = refl; beats = λ b. cc })
  | inr h ↦
      let c =
        collect-Collected w j.next_event_sequence (next_requested j) req.max_events
          (to_size req.max_bytes) (empty_batch j now_unix) false j.events v.agrees.numbered
          (omega (arith, v.unacknowledged, v.small)) in
      filled-IsDraft j now_unix _ _ d c.frame (rw (h, draft_batch) at e)
]

mark_final_sound :
    (j : Journal) (d : Batch)
    → IsDraft d
    → (mark_final j d).source_final ≡ true
    → (j.source_final ≡ true)
      × (expected_event j.committed_cursor.acknowledged_event_sequence (mark_final j d)
          ≡ j.final_event_sequence)
unfolding mark_final ends_stream expected_event
mark_final_sound j d u h = ground (arith, u.unmarked, u.beats)

module _ (w : Wire) (j : Journal) (f : IsFinalSound j) where
  Final-frame :
      (k : Journal)
      → k.source_final ≡ j.source_final
      → k.committed_cursor ≡ j.committed_cursor
      → k.final_event_sequence ≡ j.final_event_sequence
      → k.pending_batch ≡ j.pending_batch
      → k.final_batch_acknowledged ≡ j.final_batch_acknowledged
      → IsFinalSound k
  Final-frame k a b c d e = record {
    pending = rw (a, b, c, d) f.pending;
    acknowledged = rw (a, b, c, e) f.acknowledged;
  }

  append-Final :
      (payload : String) (observed : ℤ) (now : ℕ)
      → IsFinalSound (append_fact w j payload observed now).0
  unfolding append_fact
  append-Final payload observed now =
      Final-frame (append_fact w j payload observed now).0 (ground arith) (ground arith)
        (ground arith) (ground arith) (ground arith)

  enter-Final : (req : GetReq) → IsFinalSound (get_enter j req).0
  unfolding get_enter
  enter-Final req =
      Final-frame (get_enter j req).0 (ground arith) (ground arith) (ground arith) (ground arith)
        (ground arith)

  build-Final :
      (req : GetReq) (rsp : GetRsp) (now : ℕ) (now_unix : ℤ)
      → IsValid w j
      → IsFinalSound (finish_build j rsp (build_pending_batch w j req now_unix now)).0
  unfolding build_pending_batch
  build-Final req rsp now now_unix v = elim (Option-cases (draft_batch w j req now_unix)) [
    | inl none_left ↦ rw (none_left, build_pending_batch) f
    | inr (d, e) ↦
        let sound = mark_final_sound j d (draft_batch-IsDraft w j req now_unix d v e) in
        elim (Bool-cases (ltb (to_size req.max_bytes) (w.batch_size (mark_final j d)))) [
          | inl big ↦ rw (e, big, build_pending_batch) f
          | inr fits ↦
              rw (e, fits, build_pending_batch)
                (record { pending = sound; acknowledged = f.acknowledged })
        ]
  ]

  resume-Final :
      (req : GetReq) (rsp : GetRsp) (now : ℕ) (now_unix : ℤ)
      → IsValid w j
      → IsFinalSound (get_resume w j req rsp now now_unix).0
  unfolding get_resume
  resume-Final req rsp now now_unix v = elim (Bool-cases (ready_to_seal w j now)) [
    | inl ready ↦ rw (ready, get_resume) (build-Final req rsp now now_unix v)
    | inr early ↦ rw (early, get_resume) f
  ]

  commit-Final :
      (b : Batch) (c : Cursor)
      → IsValid w j
      → j.pending_batch ≡ some b
      → c.acknowledged_event_sequence
        ≡ expected_event j.committed_cursor.acknowledged_event_sequence b
      → IsFinalSound (ack_commit w j b c)
  unfolding ack_commit
  commit-Final b c v e p =
      let mark = rw e at f.pending in
      let fits = rw e at v.pending_fits in
      record {
        pending = tt;
        acknowledged = λ h. elim (Bool-cases b.source_final) [
          | inl marked ↦ let q = mark marked in (q.0, p ∙ q.1)
          | inr plain ↦
              let q = f.acknowledged (rw plain at h) in
              (q.0, omega (arith, p, fits, v.final_mark q.0, q.1))
        ];
      }

  ack-Final : (req : AckReq) → IsValid w j → IsFinalSound (ack w j req).0
  ack-Final req v = elim (ack_cases w j req) [
    | inl same ↦ rw same.0 f
    | inr c ↦ rw c.state (commit-Final c.batch req.cursor v c.was_pending c.expected)
  ]

finalize-Final : (j : Journal) → IsFinalSound j → IsFinalSound (finalize j)
unfolding finalize
finalize-Final j f =
    if_elim IsFinalSound j.source_final _ _ (λ closed. f)
      λ is_open. record {
        pending = PendingFinal-open _ _ _ j.pending_batch (rw is_open at f.pending);
        acknowledged = λ h. let p = f.acknowledged h in cc;
      }

Step-Final :
    (w : Wire) {j k : Journal} {log log' : List Batch}
    → Step w j log k log'
    → IsValid w j
    → IsFinalSound j
    → IsFinalSound k
Step-Final w (appends j log payload observed now room fits) v f =
    append-Final w j f payload observed now
Step-Final w (finalizes j log) v f = finalize-Final j f
Step-Final w (enters j log req) v f = enter-Final w j f req
Step-Final w (resumes j log req rsp now now_unix) v f = resume-Final w j f req rsp now now_unix v
Step-Final w (acks j log req) v f = ack-Final w j f req v

Reach-Final :
    (w : Wire) {j k : Journal} {log : List Batch}
    → Tracked w j []
    → IsFinalSound j
    → Reach w j k log
    → IsFinalSound k
Reach-Final w t f here = f
Reach-Final w t f (next r s) = Step-Final w s (Reach-Tracked w t r).valid (Reach-Final w t f r)

-- Once the final batch is acknowledged, in any history from a new journal whose byte capacity is
-- below 2^64 and whose counters do not wrap, the source is closed and the acknowledged batches
-- account for every event up to the final one, the last one appended.
pub final_acknowledged_complete :
    (w : Wire) (source : Identity) (capacity byte_capacity flush now : ℕ) (k : Journal)
    (log : List Batch)
    → byte_capacity < u64_mod
    → Reach w (new_journal source capacity byte_capacity flush now) k log
    → k.final_batch_acknowledged ≡ true
    → (k.source_final ≡ true)
      × (k.final_event_sequence + 1 ≡ k.next_event_sequence)
      × Tiles 0 log k.final_event_sequence
unfolding new_journal
final_acknowledged_complete w source capacity byte_capacity flush now k log small r h =
    let start = new_journal-Tracked w source capacity byte_capacity flush now small in
    let t = Reach-Tracked w start r in
    let f = Reach-Final w start (record { pending = tt; acknowledged = λ e. cc }) r in
    let q = f.acknowledged h in (q.0, t.valid.final_mark q.0, rw (← q.1) t.tiles)
