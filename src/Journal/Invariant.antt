-- ===== src/Journal/Invariant.antt =====
-- The invariant of the journal, kept by every operation.
use rl_aiserver.Common.{
  ℕ, ◌+◌, ◌≤◌, ◌<◌, ◌≡◌, ◌⊎◌, inl, inr, refl, if_elim, String, true, false, [], ◌∷◌, ◌++◌, Option,
  none, some, arith, length, u64_mod, add_u64, length-append, total-append, ap,
}
use rl_aiserver.Common.Int.{ℤ}
use rl_aiserver.Journal.Types.{
  Identity, Event, Batch, Wire, Journal, GetReq, GetRsp, AckReq, Cursor, new_journal,
}
use rl_aiserver.Journal.Append.{new_event, append_open, append_fact, finalize, AppendResult}
use rl_aiserver.Journal.Deliver.{
  build_pending_batch, Build, built, failed, pin, get_enter, get_resume, finish_build,
}
use rl_aiserver.Journal.Ack.{expected_event, ack_commit, ack_pending, ack}
use rl_aiserver.Journal.Retention.{
  UpTo-append, oldest_lem, Agrees, trim-Trimmed, drop_acknowledged-Dropped,
}
use rl_aiserver.Journal.Batches.{Covers, GapCover, EventCover, BeatCover, Window, build-Built}

-- Acknowledging the pending batch moves the cursor forward, and not past the last event.
abbrev pub PendingFits : ℕ → ℕ → Option Batch → Type 0
PendingFits acknowledged next none = Unit {0}
PendingFits acknowledged next (some b) =
    (acknowledged ≤ expected_event acknowledged b) × (expected_event acknowledged b < next)

PendingFits-mono :
    (acknowledged next : ℕ) (o : Option Batch)
    → PendingFits acknowledged next o
    → PendingFits acknowledged (next + 1) o
PendingFits-mono acknowledged next none h = tt
PendingFits-mono acknowledged next (some b) h = omega arith

pub record IsValid (w : Wire) (j : Journal) : Type 0 where
  pub agrees : Agrees w j.next_event_sequence j.events j.event_enqueued_at j.event_bytes
  pub unacknowledged :
      j.committed_cursor.acknowledged_event_sequence + length j.events < j.next_event_sequence
  pub small : j.next_event_sequence < u64_mod
  pub count_fits : length j.events ≤ j.capacity
  pub bytes_fit : j.event_bytes ≤ j.byte_capacity
  pub capacity_small : j.byte_capacity < u64_mod
  pub pending_fits :
      PendingFits j.committed_cursor.acknowledged_event_sequence j.next_event_sequence
        j.pending_batch
  pub final_mark : j.source_final ≡ true → j.final_event_sequence + 1 ≡ j.next_event_sequence

pub window : (w : Wire) (j : Journal) → IsValid w j → Window j
window w j v = record {
  numbered = v.agrees.numbered;
  unacknowledged = v.unacknowledged;
  small = v.small;
}

pub new_journal-IsValid :
    (w : Wire) (source : Identity) (capacity byte_capacity flush now : ℕ)
    → byte_capacity < u64_mod
    → IsValid w (new_journal source capacity byte_capacity flush now)
unfolding new_journal
new_journal-IsValid w source capacity byte_capacity flush now h = record {
  agrees = record { numbered = tt; stamped = refl; counted = refl };
  unacknowledged = omega arith;
  small = omega arith;
  count_fits = omega arith;
  bytes_fit = omega arith;
  capacity_small = h;
  pending_fits = tt;
  final_mark = λ e. cc;
}

module _ (w : Wire) (j : Journal) (payload : String) (observed : ℤ) (now : ℕ)
    (v : IsValid w j) where
  abbrev event : Event
  event = new_event j payload observed

  appended-Agrees :
      j.next_event_sequence + 1 < u64_mod
      → j.byte_capacity + w.event_size event < u64_mod
      → Agrees w
          (j.next_event_sequence + 1)
          (j.events ++ (event ∷ []))
          (j.event_enqueued_at ++ (now ∷ []))
          (add_u64 j.event_bytes (w.event_size event))
  appended-Agrees room fits = record {
    numbered = UpTo-append j.next_event_sequence j.events event v.agrees.numbered refl;
    stamped = omega (
      arith,
      length-append j.events (event ∷ []),
      length-append j.event_enqueued_at (now ∷ []),
      v.agrees.stamped,
    );
    counted =
        omega
          (arith, total-append w.event_size j.events (event ∷ []), v.agrees.counted, v.bytes_fit);
  }

  append_open-IsValid :
      j.source_final ≡ false
      → j.next_event_sequence + 1 < u64_mod
      → j.byte_capacity + w.event_size event < u64_mod
      → IsValid w (append_open w j payload observed now)
  unfolding append_open
  append_open-IsValid is_open room fits =
      let t =
        trim-Trimmed w (j.next_event_sequence + 1) j.capacity j.byte_capacity
          (j.events ++ (event ∷ [])) (j.event_enqueued_at ++ (now ∷ []))
          (add_u64 j.event_bytes (w.event_size event)) (omega (arith, v.bytes_fit))
          (appended-Agrees room fits) in
      let e : add_u64 j.next_event_sequence 1 ≡ j.next_event_sequence + 1 = omega arith in
      record {
        agrees = rw e t.agrees;
        unacknowledged =
            omega (arith, t.shorter, length-append j.events (event ∷ []), v.unacknowledged);
        small = omega arith;
        count_fits = t.count_fits;
        bytes_fit = t.bytes_fit;
        capacity_small = v.capacity_small;
        pending_fits = rw e (PendingFits-mono _ _ j.pending_batch v.pending_fits);
        final_mark = λ f. cc;
      }

  -- `AppendFact` keeps the invariant of the journal, the two capacity bounds among it, when the
  -- next sequence and the byte capacity with the size of the event stay below 2^64.
  pub append_fact-IsValid :
      j.next_event_sequence + 1 < u64_mod
      → j.byte_capacity + w.event_size event < u64_mod
      → IsValid w (append_fact w j payload observed now).0
  unfolding append_fact
  append_fact-IsValid room fits =
      if_elim (λ (r : Journal × AppendResult). IsValid w r.0) j.source_final _ _ (λ closed. v)
        (λ is_open. append_open-IsValid is_open room fits)

-- `Finalize` keeps the invariant.
pub finalize-IsValid : (w : Wire) (j : Journal) → IsValid w j → IsValid w (finalize j)
unfolding finalize
finalize-IsValid w j v =
    if_elim (IsValid w) j.source_final _ _ (λ closed. v)
      λ is_open. record {
        agrees = v.agrees;
        unacknowledged = v.unacknowledged;
        small = v.small;
        count_fits = v.count_fits;
        bytes_fit = v.bytes_fit;
        capacity_small = v.capacity_small;
        pending_fits = v.pending_fits;
        final_mark = λ e. omega (arith, v.unacknowledged, v.small);
      }

-- Pinning a consumer keeps it.
pin-IsValid : (w : Wire) (j : Journal) (req : GetReq) → IsValid w j → IsValid w (pin j req)
unfolding pin
pin-IsValid w j req v = ground arith

-- The part of `Get` before the wait keeps it.
pub get_enter-IsValid :
    (w : Wire) (j : Journal) (req : GetReq) → IsValid w j → IsValid w (get_enter j req).0
unfolding get_enter
get_enter-IsValid w j req v = ground (arith, pin-IsValid w j req v)

-- The pending batch that a build leaves moves the cursor forward, within the events.
built_fits :
    (w : Wire) (j : Journal) (max_events : ℕ) (b : Batch)
    → IsValid w j
    → Covers max_events j b
    → PendingFits j.committed_cursor.acknowledged_event_sequence j.next_event_sequence (some b)
unfolding expected_event
built_fits w j max_events b v c = go c.shape
  where
    go :
        GapCover j b ⊎ (EventCover max_events j b ⊎ BeatCover j b)
        → PendingFits j.committed_cursor.acknowledged_event_sequence j.next_event_sequence (some b)
    go (inl g) = ground (arith, oldest_lem j.next_event_sequence j.events v.agrees.numbered)
    go (inr (inl g)) = ground (arith, ap length g.prefix, length-append b.events g.rest)
    go (inr (inr g)) = ground arith

build-IsValid :
    (w : Wire) (j : Journal) (req : GetReq) (now_unix : ℤ) (now : ℕ) (j' : Journal) (b : Batch)
    → IsValid w j
    → build_pending_batch w j req now_unix now ≡ built j' b
    → IsValid w j'
build-IsValid w j req now_unix now j' b v e =
    let made = build-Built w j (window w j v) req now_unix now j' b e in
    rw made.state (record {
      agrees = v.agrees;
      unacknowledged = v.unacknowledged;
      small = v.small;
      count_fits = v.count_fits;
      bytes_fit = v.bytes_fit;
      capacity_small = v.capacity_small;
      pending_fits = built_fits w j req.max_events b v made.covers;
      final_mark = v.final_mark;
    })

finish_build-IsValid :
    (w : Wire) (j : Journal) (rsp : GetRsp) (r : Build)
    → IsValid w j
    → ((j' : Journal) (b : Batch) → r ≡ built j' b → IsValid w j')
    → IsValid w (finish_build j rsp r).0
finish_build-IsValid w j rsp (failed message) v h = v
finish_build-IsValid w j rsp (built j' b) v h = h j' b refl

-- The part of `Get` after the wait keeps the invariant, whatever ran during the wait.
pub get_resume-IsValid :
    (w : Wire) (j : Journal) (req : GetReq) (rsp : GetRsp) (now : ℕ) (now_unix : ℤ)
    → IsValid w j
    → IsValid w (get_resume w j req rsp now now_unix).0
unfolding get_resume
get_resume-IsValid w j req rsp now now_unix v = ground (
  arith,
  finish_build-IsValid w j rsp (build_pending_batch w j req now_unix now) v
      (λ j' b e. build-IsValid w j req now_unix now j' b v e),
)

ack_commit-IsValid :
    (w : Wire) (j : Journal) (b : Batch) (c : Cursor)
    → IsValid w j
    → c.acknowledged_event_sequence < j.next_event_sequence
    → IsValid w (ack_commit w j b c)
unfolding ack_commit
ack_commit-IsValid w j b c v lt =
    let d =
      drop_acknowledged-Dropped w j.next_event_sequence c.acknowledged_event_sequence j.events
        j.event_enqueued_at j.event_bytes (omega (arith, v.bytes_fit, v.capacity_small)) lt
        v.agrees in
    record {
      agrees = d.agrees;
      unacknowledged = d.above;
      small = v.small;
      count_fits = omega (arith, d.shorter, v.count_fits);
      bytes_fit = omega (arith, d.less, v.bytes_fit, v.agrees.counted);
      capacity_small = v.capacity_small;
      pending_fits = tt;
      final_mark = v.final_mark;
    }

ack_pending-IsValid :
    (w : Wire) (j : Journal) (c : Cursor) (o : Option Batch)
    → IsValid w j
    → j.pending_batch ≡ o
    → IsValid w (ack_pending w j c).0
unfolding ack_pending
ack_pending-IsValid w j c none v e = ground arith
ack_pending-IsValid w j c (some b) v e =
    let fits = rw e at v.pending_fits in ground (arith, fits, ack_commit-IsValid w j b c v)

-- `Ack` keeps the invariant.
pub ack-IsValid : (w : Wire) (j : Journal) (req : AckReq) → IsValid w j → IsValid w (ack w j req).0
unfolding ack
ack-IsValid w j req v = ground (arith, ack_pending-IsValid w j req.cursor j.pending_batch v refl)
