-- ===== src/Journal/Batches.antt =====
-- What a built batch covers, compared with the buffer and the committed cursor.
use mathlib.Core.List.{append_assoc}
use rl_aiserver.Common.{
  ℕ, suc, ◌+◌, ◌≤◌, ◌<◌, ◌≡◌, ◌≢◌, ◌⊎◌, inl, inr, refl, sym, subst, ◌∙◌, Bool, true, false, not,
  ◌||◌, List, [], ◌∷◌, ◌++◌, some, ltb, leb, arith, length, is_nil, u64_mod, Bool-cases,
  Option-cases, length-append, ap, max, add_u64,
}
use rl_aiserver.Common.Int.{ℤ}
use rl_aiserver.Journal.Types.{Event, Batch, Wire, Journal, GetReq, oldest, next_requested}
use rl_aiserver.Journal.Deliver.{
  collect, with_event, has_gap, draft_batch, filled_batch, mark_final, ends_stream, first_of_events,
  last_of_events, empty_batch, gap_batch, to_size, build_pending_batch, built,
}
use rl_aiserver.Journal.Retention.{UpTo, oldest_lem}

module _ (w : Wire) where
  -- What the loop of `BuildPendingBatch` leaves: a prefix of the events that it read.
  pub record Collected (max_events : ℕ) (b : Batch) (found : Bool) (es : List Event)
      (out : Bool × Batch) : Type 0 where
    pub rest : List Event
    pub split : b.events ++ es ≡ out.1.events ++ rest
    pub frame : out.1 ≡ record b { events = out.1.events }
    pub flag : out.0 ≡ (found || not (is_nil es))
    pub bounded : length out.1.events ≤ max (length b.events) max_events

  pub collect-Collected :
      (n wanted max_events max_bytes : ℕ) (b : Batch) (found : Bool) (es : List Event)
      → UpTo n es
      → wanted + length es ≤ n
      → Collected max_events b found es (collect w wanted max_events max_bytes b found es)
  unfolding collect
  collect-Collected n wanted max_events max_bytes b found [] h k = record {
    rest = [];
    split = refl;
    frame = refl;
    flag = ground arith;
    bounded = omega arith;
  }
  collect-Collected n wanted max_events max_bytes b found (e ∷ es) h k =
      let old : ltb e.event_sequence wanted ≡ false = ground arith in
      elim (Bool-cases (leb max_events (length b.events))) [
        | inl full ↦ rw (old, full) (stop)
        | inr room ↦ elim (Bool-cases (ltb max_bytes (w.batch_size (with_event b e)))) [
          | inl big ↦ rw (old, room, big) (stop)
          | inr fits ↦
              rw (old, room, fits)
                (take
                  (collect-Collected n wanted max_events max_bytes (with_event b e) true es h.1
                    (omega arith))
                  room)
        ]
      ]
    where
      stop : Collected max_events b found (e ∷ es) (true, b)
      stop = record {
        rest = e ∷ es;
        split = refl;
        frame = refl;
        flag = ground arith;
        bounded = omega arith;
      }

      take :
          {out : Bool × Batch}
          → Collected max_events (with_event b e) true es out
          → leb max_events (length b.events) ≡ false
          → Collected max_events b found (e ∷ es) out
      take {out} c room = record {
        rest = c.rest;
        split = sym (append_assoc b.events (e ∷ []) es) ∙ c.split;
        frame = c.frame;
        flag = ground (arith, c.flag);
        bounded = ground (arith, c.bounded, length-append b.events (e ∷ []));
      }

last-UpTo :
    (n : ℕ) (xs rest : List Event)
    → UpTo n (xs ++ rest)
    → xs ≢ []
    → last_of_events xs + suc (length rest) ≡ n
last-UpTo n [] rest h ne = absurd (ne refl)
last-UpTo n (x ∷ []) rest h ne = omega arith
last-UpTo n (x ∷ (y ∷ xs)) rest h ne = last-UpTo n (y ∷ xs) rest h.1 (λ e. cc)

-- A gap batch names exactly the events between the cursor and the oldest one that is left.
pub record GapCover (j : Journal) (b : Batch) : Type 0 where
  pub no_events : b.events ≡ []
  pub gapped : has_gap b.gap ≡ true
  pub from_cursor : b.first_event_sequence ≡ j.committed_cursor.acknowledged_event_sequence + 1
  pub to_oldest : b.last_event_sequence + 1 ≡ oldest j
  pub not_empty : b.first_event_sequence ≤ b.last_event_sequence

-- An event batch is a prefix of the buffer that begins right after the cursor.
pub record EventCover (max_events : ℕ) (j : Journal) (b : Batch) : Type 0 where
  pub rest : List Event
  pub prefix : j.events ≡ b.events ++ rest
  pub some_event : b.events ≢ []
  pub no_gap : has_gap b.gap ≡ false
  pub from_cursor : b.first_event_sequence ≡ j.committed_cursor.acknowledged_event_sequence + 1
  pub to_last :
      b.last_event_sequence ≡ j.committed_cursor.acknowledged_event_sequence + length b.events
  pub within : length b.events ≤ max_events
  pub nothing_dropped : oldest j ≡ j.committed_cursor.acknowledged_event_sequence + 1

-- A heartbeat says that every event is acknowledged.
pub record BeatCover (j : Journal) (b : Batch) : Type 0 where
  pub no_events : b.events ≡ []
  pub no_gap : has_gap b.gap ≡ false
  pub beats : b.heartbeat ≡ true
  pub drained : j.events ≡ []
  pub all_acknowledged : j.committed_cursor.acknowledged_event_sequence + 1 ≡ j.next_event_sequence

pub record Covers (max_events : ℕ) (j : Journal) (b : Batch) : Type 0 where
  pub numbered : b.batch_sequence ≡ j.next_batch_sequence
  pub shape : GapCover j b ⊎ (EventCover max_events j b ⊎ BeatCover j b)

-- The buffer is numbered up to the next sequence, and holds nothing that is acknowledged.
pub record Window (j : Journal) : Type 0 where
  pub numbered : UpTo j.next_event_sequence j.events
  pub unacknowledged :
      j.committed_cursor.acknowledged_event_sequence + length j.events < j.next_event_sequence
  pub small : j.next_event_sequence < u64_mod

module _ (w : Wire) (j : Journal) (v : Window j) (max_events : ℕ) where
  gap_batch-Covers :
      (now_unix : ℤ)
      → ltb (next_requested j) (oldest j) ≡ true
      → Covers max_events j (gap_batch j now_unix)
  gap_batch-Covers now_unix h =
      let e = oldest_lem j.next_event_sequence j.events v.numbered in
      let lt : next_requested j < oldest j = ground arith in
      let gap : GapCover j (gap_batch j now_unix) = record {
        no_events = refl;
        gapped = refl;
        from_cursor = omega arith;
        to_oldest = omega arith;
        not_empty = omega arith;
      } in
      record { numbered = refl; shape = inl gap }

  at_oldest :
      ltb (next_requested j) (oldest j) ≡ false
      → oldest j ≡ j.committed_cursor.acknowledged_event_sequence + 1
  at_oldest h = let e = oldest_lem j.next_event_sequence j.events v.numbered in ground arith

  event_cover :
      (now_unix : ℤ) (found : Bool) (out : Batch) (e : Event) (es : List Event)
      → ltb (next_requested j) (oldest j) ≡ false
      → Collected w max_events (empty_batch j now_unix) false j.events (found, out)
      → out.events ≡ e ∷ es
      → EventCover max_events j (record out {
        first_event_sequence = first_of_events out.events;
        last_event_sequence = last_of_events out.events;
      })
  event_cover now_unix found out e es h c p =
      let first : oldest j ≡ first_of_events out.events = rw (c.split, p) refl in
      let ne : out.events ≢ [] = λ q. cc in
      let last = last-UpTo j.next_event_sequence out.events c.rest (rw c.split at v.numbered) ne in
      let len = ap length c.split in
      record {
        rest = c.rest;
        prefix = c.split;
        some_event = ne;
        no_gap = rw c.frame refl;
        from_cursor = sym first ∙ at_oldest h;
        to_last = omega (
          arith,
          oldest_lem j.next_event_sequence j.events v.numbered,
          at_oldest h,
          length-append out.events c.rest,
        );
        within = omega (arith, c.bounded);
        nothing_dropped = at_oldest h;
      }

  beat_cover :
      (now_unix : ℤ) (out : Batch)
      → ltb (next_requested j) (oldest j) ≡ false
      → Collected w max_events (empty_batch j now_unix) false j.events (false, out)
      → out.events ≡ []
      → BeatCover j (record out { heartbeat = true })
  beat_cover now_unix out h c p =
      let drained : j.events ≡ [] = ground (arith, c.flag) in
      record {
        no_events = p;
        no_gap = rw c.frame refl;
        beats = refl;
        drained = drained;
        all_acknowledged = omega (
          arith,
          at_oldest h,
          ap length drained,
          oldest_lem j.next_event_sequence j.events v.numbered,
        );
      }

  filled-Covers :
      (now_unix : ℤ) (found : Bool) (out d : Batch) (xs : List Event)
      → ltb (next_requested j) (oldest j) ≡ false
      → Collected w max_events (empty_batch j now_unix) false j.events (found, out)
      → out.events ≡ xs
      → filled_batch (found, out) ≡ some d
      → Covers max_events j d
  unfolding filled_batch
  filled-Covers now_unix true out d [] h c p e = ground arith
  filled-Covers now_unix false out d [] h c p e =
      let q : record out { heartbeat = true } ≡ d = ground arith in
      subst (Covers max_events j) q
        (record { numbered = rw c.frame refl; shape = inr (inr (beat_cover now_unix out h c p)) })
  filled-Covers now_unix found out d (x ∷ xs) h c p e =
      let q : record out {
        first_event_sequence = first_of_events out.events;
        last_event_sequence = last_of_events out.events;
      }
          ≡ d =
        ground arith in
      subst (Covers max_events j) q (record {
        numbered = rw c.frame refl;
        shape = inr (inl (event_cover now_unix found out x xs h c p));
      })

Covers-mark_final :
    (max_events : ℕ) (j : Journal) (b : Batch)
    → Covers max_events j b
    → Covers max_events j (mark_final j b)
unfolding mark_final
Covers-mark_final max_events j b c = elim (Bool-cases (ends_stream j b)) [
  | inl last ↦ rw (mark_final, last) (marked c.shape)
  | inr more ↦ rw (mark_final, more) c
]
  where
    b' : Batch
    b' = record b { source_final = true; final_event_sequence = j.final_event_sequence }

    shape :
        GapCover j b ⊎ (EventCover max_events j b ⊎ BeatCover j b)
        → GapCover j b' ⊎ (EventCover max_events j b' ⊎ BeatCover j b')
    shape (inl g) = inl (record {
      no_events = g.no_events;
      gapped = g.gapped;
      from_cursor = g.from_cursor;
      to_oldest = g.to_oldest;
      not_empty = g.not_empty;
    })
    shape (inr (inl g)) = inr (
        inl (record {
          rest = g.rest;
          prefix = g.prefix;
          some_event = g.some_event;
          no_gap = g.no_gap;
          from_cursor = g.from_cursor;
          to_last = g.to_last;
          within = g.within;
          nothing_dropped = g.nothing_dropped;
        }))
    shape (inr (inr g)) = inr (
        inr (record {
          no_events = g.no_events;
          no_gap = g.no_gap;
          beats = g.beats;
          drained = g.drained;
          all_acknowledged = g.all_acknowledged;
        }))

    marked : GapCover j b ⊎ (EventCover max_events j b ⊎ BeatCover j b) → Covers max_events j b'
    marked s = record { numbered = c.numbered; shape = shape s }

-- The outcome of a build, read off its three cases.
pub record Built (w : Wire) (j : Journal) (req : GetReq) (now : ℕ) (j' : Journal) (b : Batch)
    : Type 0 where
  pub state : j' ≡ record j {
    pending_batch = some b;
    next_batch_sequence = add_u64 j.next_batch_sequence 1;
    last_batch_created_at = now;
  }
  pub covers : Covers req.max_events j b
  pub fits : ltb (to_size req.max_bytes) (w.batch_size b) ≡ false

module _ (w : Wire) (j : Journal) (v : Window j) (req : GetReq) (now_unix : ℤ) where
  draft-Covers : (d : Batch) → draft_batch w j req now_unix ≡ some d → Covers req.max_events j d
  unfolding draft_batch
  draft-Covers d e = elim (Bool-cases (ltb (next_requested j) (oldest j))) [
    | inl h ↦
        let p : some (gap_batch j now_unix) ≡ some d = rw (h, draft_batch) at e in
        let q : gap_batch j now_unix ≡ d = cc in
        subst (Covers req.max_events j) q (gap_batch-Covers w j v req.max_events now_unix h)
    | inr h ↦
        filled-Covers w j v req.max_events now_unix _ _ d _ h
          (collect-Collected w j.next_event_sequence (next_requested j) req.max_events
            (to_size req.max_bytes) (empty_batch j now_unix) false j.events v.numbered
            (omega (arith, v.unacknowledged, v.small)))
          refl (rw (h, draft_batch) at e)
  ]

  pub build-Built :
      (now : ℕ) (j' : Journal) (b : Batch)
      → build_pending_batch w j req now_unix now ≡ built j' b
      → Built w j req now j' b
  unfolding build_pending_batch
  build-Built now j' b e = elim (Option-cases (draft_batch w j req now_unix)) [
    | inl q ↦ cc (rw (q, build_pending_batch) at e)
    | inr (d, q) ↦ elim (Bool-cases (ltb (to_size req.max_bytes) (w.batch_size (mark_final j d)))) [
      | inl big ↦ cc (rw (q, big, build_pending_batch) at e)
      | inr fits ↦ finish d q fits (rw (q, fits, build_pending_batch) at e)
    ]
  ]
    where
      finish :
          (d : Batch)
          → draft_batch w j req now_unix ≡ some d
          → ltb (to_size req.max_bytes) (w.batch_size (mark_final j d)) ≡ false
          → built
              (record j {
                pending_batch = some (mark_final j d);
                next_batch_sequence = add_u64 j.next_batch_sequence 1;
                last_batch_created_at = now;
              })
              (mark_final j d)
            ≡ built j' b
          → Built w j req now j' b
      finish d q fits p =
          let pb : mark_final j d ≡ b = cc in
          let pj : record j {
            pending_batch = some (mark_final j d);
            next_batch_sequence = add_u64 j.next_batch_sequence 1;
            last_batch_created_at = now;
          }
              ≡ j' =
            cc in
          record {
            state = sym pj ∙ rw pb refl;
            covers =
                subst (Covers req.max_events j) pb
                  (Covers-mark_final req.max_events j d (draft-Covers d q));
            fits = rw (← pb) fits;
          }
