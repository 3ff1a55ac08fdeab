-- ===== src/Journal/Retention.antt =====
-- Which events the buffer holds: the loops of `AppendFact` and `Ack` that drop from the front.
use rl_aiserver.Common.{
  ℕ, ◌+◌, ◌≤◌, ◌<◌, ◌≡◌, List, [], ◌∷◌, ◌++◌, arith, length, total, tail, u64_mod, sub_u64,
  length-append,
}
use rl_aiserver.Journal.Types.{Event, Wire, oldest_or}
use rl_aiserver.Journal.Append.{trim}
use rl_aiserver.Journal.Ack.{drop_acknowledged}

-- The events are numbered one by one and end just below `n`.
abbrev pub UpTo : ℕ → List Event → Type 0
UpTo n [] = Unit {0}
UpTo n (e ∷ es) = (e.event_sequence + length (e ∷ es) ≡ n) × UpTo n es

pub UpTo-append :
    (n : ℕ) (es : List Event) (e : Event)
    → UpTo n es
    → e.event_sequence ≡ n
    → UpTo (n + 1) (es ++ (e ∷ []))
UpTo-append n [] e h p = omega arith
UpTo-append n (x ∷ es) e h p = (omega (arith, length-append es (e ∷ [])), UpTo-append n es e h.1 p)

pub oldest_lem : (n : ℕ) (es : List Event) → UpTo n es → oldest_or n es + length es ≡ n
oldest_lem n [] h = omega arith
oldest_lem n (e ∷ es) h = omega arith

module _ (w : Wire) where
  -- The buffer, its enqueue times and its byte count belong together.
  pub record Agrees (n : ℕ) (es : List Event) (stamps : List ℕ) (bytes : ℕ) : Type 0 where
    pub numbered : UpTo n es
    pub stamped : length stamps ≡ length es
    pub counted : bytes ≡ total w.event_size es

  length-tail :
      (e : Event) (es : List Event) (stamps : List ℕ)
      → length stamps ≡ length (e ∷ es)
      → length (tail stamps) ≡ length es
  length-tail e es [] h = omega arith
  length-tail e es (x ∷ stamps) h = omega arith

  -- Dropping the front event keeps the three together.
  pub Agrees-tail :
      (n : ℕ) (e : Event) (es : List Event) (stamps : List ℕ) (bytes : ℕ)
      → bytes < u64_mod
      → Agrees n (e ∷ es) stamps bytes
      → Agrees n es (tail stamps) (sub_u64 bytes (w.event_size e))
        × (sub_u64 bytes (w.event_size e) < u64_mod)
  Agrees-tail n e es stamps bytes small a = (
    record {
      numbered = a.numbered.1;
      stamped = length-tail e es stamps a.stamped;
      counted = omega arith;
    },
    omega arith,
  )

  -- What `trim` leaves.
  pub record Trimmed (n capacity byte_capacity : ℕ) (es : List Event)
      (out : List Event × List ℕ × ℕ) : Type 0 where
    pub agrees : Agrees n out.0 out.1 out.2
    pub count_fits : length out.0 ≤ capacity
    pub bytes_fit : out.2 ≤ byte_capacity
    pub shorter : length out.0 ≤ length es

  pub trim-Trimmed :
      (n capacity byte_capacity : ℕ) (es : List Event) (stamps : List ℕ) (bytes : ℕ)
      → bytes < u64_mod
      → Agrees n es stamps bytes
      → Trimmed n capacity byte_capacity es (trim w capacity byte_capacity es stamps bytes)
  unfolding trim
  trim-Trimmed n capacity byte_capacity [] stamps bytes small a = record {
    agrees = a;
    count_fits = omega arith;
    bytes_fit = omega arith;
    shorter = omega arith;
  }
  trim-Trimmed n capacity byte_capacity (e ∷ es) stamps bytes small a =
      let step = Agrees-tail n e es stamps bytes small a in
      let rest =
        trim-Trimmed n capacity byte_capacity es (tail stamps) (sub_u64 bytes (w.event_size e))
          step.1 step.0 in
      ground (arith, rest, a)

  -- What `drop_acknowledged` leaves: exactly the events above `upto`.
  pub record Dropped (n upto : ℕ) (es : List Event) (out : List Event × List ℕ × ℕ) : Type 0 where
    pub agrees : Agrees n out.0 out.1 out.2
    pub above : upto + length out.0 < n
    pub shorter : length out.0 ≤ length es
    pub less : out.2 ≤ total w.event_size es

  pub drop_acknowledged-Dropped :
      (n upto : ℕ) (es : List Event) (stamps : List ℕ) (bytes : ℕ)
      → bytes < u64_mod
      → upto < n
      → Agrees n es stamps bytes
      → Dropped n upto es (drop_acknowledged w upto es stamps bytes)
  unfolding drop_acknowledged
  drop_acknowledged-Dropped n upto [] stamps bytes small lt a = record {
    agrees = a;
    above = omega arith;
    shorter = omega arith;
    less = omega arith;
  }
  drop_acknowledged-Dropped n upto (e ∷ es) stamps bytes small lt a =
      let step = Agrees-tail n e es stamps bytes small a in
      let rest =
        drop_acknowledged-Dropped n upto es (tail stamps) (sub_u64 bytes (w.event_size e)) step.1 lt
          step.0 in
      ground (arith, rest, a)
