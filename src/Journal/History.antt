-- ===== src/Journal/History.antt =====
-- Histories of the journal: any calls in any order, with the batches that were acknowledged.
use mathlib.Core.List.{append-nil}
use rl_aiserver.Common.{
  ℕ, ◌+◌, ◌<◌, ◌≡◌, ◌≢◌, ◌⊎◌, inl, inr, refl, sym, subst, String, str_eq, ◌==◌, true, false, not,
  ◌||◌, List, [], ◌∷◌, ◌++◌, Option, none, some, arith, length, u64_mod, Bool-cases, Option-cases,
  length-append, ap,
}
use rl_aiserver.Common.Int.{ℤ}
use rl_aiserver.Journal.Types.{
  Identity, Event, Batch, Wire, Journal, GetReq, GetRsp, AckReq, AckResult, applied, new_journal,
  valid_consumer, same_consumer, same_identity,
}
use rl_aiserver.Journal.Append.{new_event, append_fact, finalize}
use rl_aiserver.Journal.Deliver.{
  has_gap, get_enter, get_resume, ready_to_seal, build_pending_batch, Build, built, failed,
  finish_build,
}
use rl_aiserver.Journal.Ack.{expected_event, ack_commit, ack_pending, ack}
use rl_aiserver.Journal.Retention.{UpTo, oldest_lem}
use rl_aiserver.Journal.Batches.{Covers, GapCover, EventCover, BeatCover, build-Built}
use rl_aiserver.Journal.Invariant.{
  IsValid, window, new_journal-IsValid, append_fact-IsValid, finalize-IsValid, get_enter-IsValid,
  get_resume-IsValid, ack-IsValid,
}

-- The batch `b` accounts for the events above `a` up to `m`: by holding them in order, by naming
-- them as a gap, or, with `m` equal to `a`, as a heartbeat.
abbrev pub Spans : ℕ → Batch → ℕ → Type 0
Spans a b m =
    ((b.events ≡ []) × (has_gap b.gap ≡ false) × (m ≡ a))
    ⊎ (((b.events ≡ [])
          × (has_gap b.gap ≡ true)
          × (b.first_event_sequence ≡ a + 1)
          × (b.last_event_sequence ≡ m)
          × (a < m))
        ⊎ ((b.events ≢ [])
            × (has_gap b.gap ≡ false)
            × UpTo (m + 1) b.events
            × (a + length b.events ≡ m)))

-- The batches account for the events above `a` up to `m`, one after the other.
abbrev pub Tiles : ℕ → List Batch → ℕ → Type 0
Tiles a [] m = a ≡ m
Tiles a (b ∷ bs) m = (k : ℕ) × Spans a b k × Tiles k bs m

Tiles-snoc :
    (a k m : ℕ) (bs : List Batch) (b : Batch)
    → Tiles a bs k
    → Spans k b m
    → Tiles a (bs ++ (b ∷ [])) m
Tiles-snoc a k m [] b t s = (m, subst (λ x. Spans x b m) (sym t) s, refl)
Tiles-snoc a k m (x ∷ bs) b (i, s', t) s = (i, s', Tiles-snoc i k m bs b t s)

abbrev pub PendingSpans : ℕ → Option Batch → Type 0
PendingSpans a none = Unit {0}
PendingSpans a (some b) = Spans a b (expected_event a b)

UpTo-prefix :
    (m n : ℕ) (xs rest : List Event) → UpTo n (xs ++ rest) → m + length rest ≡ n → UpTo m xs
UpTo-prefix m n [] rest h e = tt
UpTo-prefix m n (x ∷ xs) rest h e =
    (omega (arith, length-append xs rest), UpTo-prefix m n xs rest h.1 e)

module _ (w : Wire) where
  -- What an acknowledgement does: nothing, or it commits the pending batch.
  abbrev pub acked_of : AckResult → Option Batch → List Batch
  acked_of applied (some b) = b ∷ []
  acked_of _ _ = []

  -- The batch that a call of `Ack` commits.
  unfoldable pub acked : Journal → AckReq → List Batch
  acked j req = acked_of (ack w j req).1.result j.pending_batch

  pub record Committed (j : Journal) (req : AckReq) : Type 0 where
    pub batch : Batch
    pub was_pending : j.pending_batch ≡ some batch
    pub state : (ack w j req).0 ≡ ack_commit w j batch req.cursor
    pub logged : acked j req ≡ batch ∷ []
    pub expected :
        req.cursor.acknowledged_event_sequence
        ≡ expected_event j.committed_cursor.acknowledged_event_sequence batch
    pub same_number : req.cursor.acknowledged_batch_sequence ≡ batch.batch_sequence

  -- The tests that an acknowledgement of the pending batch `b` passes.
  abbrev AckPasses : Journal → AckReq → Batch → Type 0
  AckPasses j req b =
      ((not (valid_consumer req.consumer) || not (same_consumer j.consumer req.consumer)) ≡ false)
      × (str_eq (w.serialize req.cursor) (w.serialize j.committed_cursor) ≡ false)
      × ((not (same_identity req.cursor.source j.source)
            || not (req.cursor.acknowledged_batch_sequence == b.batch_sequence))
          ≡ false)
      × ((req.cursor.acknowledged_event_sequence
            == expected_event j.committed_cursor.acknowledged_event_sequence b)
          ≡ true)

  ack_commits :
      (j : Journal) (req : AckReq) (b : Batch)
      → j.pending_batch ≡ some b
      → AckPasses j req b
      → Committed j req
  unfolding ack ack_pending acked
  ack_commits j req b e p = record {
    batch = b;
    was_pending = e;
    state = ground arith;
    logged = ground arith;
    expected = ground arith;
    same_number = ground arith;
  }

  ack_refuses_none :
      (j : Journal) (req : AckReq)
      → j.pending_batch ≡ none
      → ((ack w j req).0 ≡ j) × (acked j req ≡ [])
  unfolding ack ack_pending acked
  ack_refuses_none j req e = ground arith

  ack-some_cases :
      (j : Journal) (req : AckReq) (b : Batch)
      → j.pending_batch ≡ some b
      → (((ack w j req).0 ≡ j) × (acked j req ≡ [])) ⊎ AckPasses j req b
  unfolding ack ack_pending acked
  ack-some_cases j req b e = ground arith

  -- Either nothing changes, or the pending batch is committed.
  pub ack_cases :
      (j : Journal) (req : AckReq) → (((ack w j req).0 ≡ j) × (acked j req ≡ [])) ⊎ Committed j req
  ack_cases j req = elim (Option-cases j.pending_batch) [
    | inl e ↦ inl (ack_refuses_none j req e)
    | inr (b, e) ↦ elim (ack-some_cases j req b e) [
      | inl same ↦ inl same
      | inr passes ↦ inr (ack_commits j req b e passes)
    ]
  ]

-- A batch that covers the buffer from the cursor on spans what its acknowledgement will commit.
Covers-Spans :
    (w : Wire) (j : Journal) (max_events : ℕ) (b : Batch)
    → IsValid w j
    → Covers max_events j b
    → Spans j.committed_cursor.acknowledged_event_sequence b
        (expected_event j.committed_cursor.acknowledged_event_sequence b)
unfolding expected_event
Covers-Spans w j max_events b v c = go c.shape
  where
    go :
        GapCover j b ⊎ (EventCover max_events j b ⊎ BeatCover j b)
        → Spans j.committed_cursor.acknowledged_event_sequence b
            (expected_event j.committed_cursor.acknowledged_event_sequence b)
    go (inl g) = inr (inl (g.no_events, g.gapped, g.from_cursor, ground arith, ground arith))
    go (inr (inl g)) =
        let last : expected_event j.committed_cursor.acknowledged_event_sequence b
            ≡ b.last_event_sequence =
          ground arith in
        let full = rw g.prefix at v.agrees.numbered in
        inr (
          inr (
            g.some_event,
            g.no_gap,
            rw last (
                UpTo-prefix (b.last_event_sequence + 1) j.next_event_sequence b.events g.rest full (
                  omega (
                    arith,
                    g.to_last,
                    g.nothing_dropped,
                    ap length g.prefix,
                    length-append b.events g.rest,
                    oldest_lem j.next_event_sequence j.events v.agrees.numbered,
                  ))),
            omega (arith, last),
          ))
    go (inr (inr g)) = inl (g.no_events, g.no_gap, ground arith)

-- A call, from the journal and the batches acknowledged so far to those after it. Two calls of
-- `Get` may wait at once, so a `resumes` need not follow its own `enters`.
pub data Step (w : Wire) : Journal → List Batch → Journal → List Batch → Type 0 where
  appends :
      (j : Journal) (log : List Batch) (payload : String) (observed : ℤ) (now : ℕ)
      → j.next_event_sequence + 1 < u64_mod
      → j.byte_capacity + w.event_size (new_event j payload observed) < u64_mod
      → Step w j log (append_fact w j payload observed now).0 log
  finalizes : (j : Journal) (log : List Batch) → Step w j log (finalize j) log
  enters : (j : Journal) (log : List Batch) (req : GetReq) → Step w j log (get_enter j req).0 log
  resumes :
      (j : Journal) (log : List Batch) (req : GetReq) (rsp : GetRsp) (now : ℕ) (now_unix : ℤ)
      → Step w j log (get_resume w j req rsp now now_unix).0 log
  acks :
      (j : Journal) (log : List Batch) (req : AckReq)
      → Step w j log (ack w j req).0 (log ++ acked w j req)

pub data Reach (w : Wire) (j : Journal) : Journal → List Batch → Type 0 where
  here : Reach w j j []
  next :
      {k l : Journal} {log log' : List Batch}
      → Reach w j k log
      → Step w k log l log'
      → Reach w j l log'

-- What holds of a journal and its log.
pub record Tracked (w : Wire) (j : Journal) (log : List Batch) : Type 0 where
  pub valid : IsValid w j
  pub tiles : Tiles 0 log j.committed_cursor.acknowledged_event_sequence
  pub pending : PendingSpans j.committed_cursor.acknowledged_event_sequence j.pending_batch

module _ (w : Wire) (j : Journal) (log : List Batch) (t : Tracked w j log) where
  Tracked-frame :
      (k : Journal)
      → IsValid w k
      → k.committed_cursor ≡ j.committed_cursor
      → k.pending_batch ≡ j.pending_batch
      → Tracked w k log
  Tracked-frame k v e p = record { valid = v; tiles = rw e t.tiles; pending = rw (e, p) t.pending }

  append-Tracked :
      (payload : String) (observed : ℤ) (now : ℕ)
      → IsValid w (append_fact w j payload observed now).0
      → Tracked w (append_fact w j payload observed now).0 log
  unfolding append_fact
  append-Tracked payload observed now v =
      unfold append_fact in Tracked-frame _ v (ground arith) (ground arith)

  finalize-Tracked : IsValid w (finalize j) → Tracked w (finalize j) log
  unfolding finalize
  finalize-Tracked v = Tracked-frame (finalize j) v (ground arith) (ground arith)

  enter-Tracked : (req : GetReq) → IsValid w (get_enter j req).0 → Tracked w (get_enter j req).0 log
  unfolding get_enter
  enter-Tracked req v = Tracked-frame (get_enter j req).0 v (ground arith) (ground arith)

  finish-Tracked :
      (req : GetReq) (rsp : GetRsp) (now : ℕ) (now_unix : ℤ) (r : Build)
      → build_pending_batch w j req now_unix now ≡ r
      → IsValid w (finish_build j rsp r).0
      → Tracked w (finish_build j rsp r).0 log
  finish-Tracked req rsp now now_unix (failed message) e v = t
  finish-Tracked req rsp now now_unix (built k b) e v =
      let made = build-Built w j (window w j t.valid) req now_unix now k b e in
      record {
        valid = v;
        tiles = rw made.state t.tiles;
        pending = rw made.state (Covers-Spans w j req.max_events b t.valid made.covers);
      }

  resume-Tracked :
      (req : GetReq) (rsp : GetRsp) (now : ℕ) (now_unix : ℤ)
      → IsValid w (get_resume w j req rsp now now_unix).0
      → Tracked w (get_resume w j req rsp now now_unix).0 log
  unfolding get_resume
  resume-Tracked req rsp now now_unix v = elim (Bool-cases (ready_to_seal w j now)) [
    | inl ready ↦
        rw (ready, get_resume)
          (finish-Tracked req rsp now now_unix _ refl (rw (ready, get_resume) at v))
    | inr early ↦ rw (early, get_resume) t
  ]

  ack-Tracked :
      (req : AckReq) → IsValid w (ack w j req).0 → Tracked w (ack w j req).0 (log ++ acked w j req)
  ack-Tracked req v = elim (ack_cases w j req) [
    | inl same ↦ rw (same.0, same.1, append-nil) t
    | inr c ↦ committed c
  ]
    where
      committed : Committed w j req → Tracked w (ack w j req).0 (log ++ acked w j req)
      committed c =
          let spans = rw c.was_pending at t.pending in
          let tiles =
            Tiles-snoc 0 j.committed_cursor.acknowledged_event_sequence
              (expected_event j.committed_cursor.acknowledged_event_sequence c.batch) log c.batch
              t.tiles spans in
          rw (c.state, c.logged)
            (record {
              valid = rw c.state at v;
              tiles = unfold ack_commit in rw c.expected tiles;
              pending = unfold ack_commit in tt;
            })

-- Every call keeps the invariant and the account of the acknowledged batches.
pub Step-Tracked :
    (w : Wire) {j k : Journal} {log log' : List Batch}
    → Step w j log k log'
    → Tracked w j log
    → Tracked w k log'
Step-Tracked w (appends j log payload observed now room fits) t =
    append-Tracked w j log t payload observed now
      (append_fact-IsValid w j payload observed now t.valid room fits)
Step-Tracked w (finalizes j log) t = finalize-Tracked w j log t (finalize-IsValid w j t.valid)
Step-Tracked w (enters j log req) t =
    enter-Tracked w j log t req (get_enter-IsValid w j req t.valid)
Step-Tracked w (resumes j log req rsp now now_unix) t =
    resume-Tracked w j log t req rsp now now_unix
      (get_resume-IsValid w j req rsp now now_unix t.valid)
Step-Tracked w (acks j log req) t = ack-Tracked w j log t req (ack-IsValid w j req t.valid)

pub Reach-Tracked :
    (w : Wire) {j k : Journal} {log : List Batch}
    → Tracked w j []
    → Reach w j k log
    → Tracked w k log
Reach-Tracked w t here = t
Reach-Tracked w t (next r s) = Step-Tracked w s (Reach-Tracked w t r)

pub new_journal-Tracked :
    (w : Wire) (source : Identity) (capacity byte_capacity flush now : ℕ)
    → byte_capacity < u64_mod
    → Tracked w (new_journal source capacity byte_capacity flush now) []
unfolding new_journal
new_journal-Tracked w source capacity byte_capacity flush now small = record {
  valid = new_journal-IsValid w source capacity byte_capacity flush now small;
  tiles = refl;
  pending = tt;
}

-- From a new journal whose byte capacity is below 2^64, under any calls of any number of threads
-- that keep the counters from wrapping, the invariant holds and the acknowledged batches account
-- for the events from 1 up to the committed cursor: each once, in order, delivered or named as
-- lost in a gap.
pub Reach-Tiles :
    (w : Wire) (source : Identity) (capacity byte_capacity flush now : ℕ) (k : Journal)
    (log : List Batch)
    → byte_capacity < u64_mod
    → Reach w (new_journal source capacity byte_capacity flush now) k log
    → IsValid w k × Tiles 0 log k.committed_cursor.acknowledged_event_sequence
Reach-Tiles w source capacity byte_capacity flush now k log small r =
    let t =
      Reach-Tracked w (new_journal-Tracked w source capacity byte_capacity flush now small) r in
    (t.valid, t.tiles)
