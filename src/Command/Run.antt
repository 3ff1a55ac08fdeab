-- ===== src/Command/Run.antt =====
-- `RunEpisode` and `RunSession` of the client SDK (proto/rl_sdk/include/rl_sdk/session.h): the order
-- of the commands that they send, and what their result says of them.
use rl_aiserver.Common.{
  ℕ, zero, suc, ◌≡◌, refl, ap, Bool, true, false, List, [], ◌∷◌, Option, none, some, All,
  if◌then◌else◌, if_elim, if_true,
}
use rl_aiserver.Command.Client.{CommandOutcome, applied, rejected, unknown, stopped, wait_expired}

pub data Call : Type 0 where
  open_call initialize_call begin_call episode_call end_call abort_call close_call : Call

abbrev pub is_applied : CommandOutcome → Bool
is_applied applied = true
is_applied rejected = false
is_applied unknown = false
is_applied stopped = false
is_applied wait_expired = false

abbrev pub is_unknown : CommandOutcome → Bool
is_unknown applied = false
is_unknown rejected = false
is_unknown unknown = true
is_unknown stopped = false
is_unknown wait_expired = false

-- `failed`.
abbrev pub is_failure : CommandOutcome → Bool
is_failure applied = false
is_failure rejected = true
is_failure unknown = false
is_failure stopped = false
is_failure wait_expired = true

-- A binding with its state: the commands, and the questions that the loop asks.
pub record Binding (S : Type 0) : Type 0 where
  pub command : Call → S → S × CommandOutcome
  pub is_active : S → S × Bool
  pub can_close : S → S × Bool
  pub is_stopped : S → S × Bool
  pub is_complete : S → S × Bool

-- The commands of a run with their outcomes; no result when the fuel has run out.
pub record Run : Type 0 where
  pub trace : List (Call × CommandOutcome)
  pub outcome : Option CommandOutcome

abbrev pub return : CommandOutcome → Run
return o = record { trace = []; outcome = some o }

abbrev pub after : Call → CommandOutcome → Run → Run
after c o r = record { trace = (c, o) ∷ r.trace; outcome = r.outcome }

module _ {S : Type 0} (b : Binding S) where
  -- `if (result != Applied) return ...`, or the rest of the run from the state that is reached.
  unfoldable pub send : Call → S → (S → CommandOutcome → Run) → (S → Run) → Run
  send c s refused next =
      let r = b.command c s in
      let continued = next r.0 in
      after c r.1 (if is_applied r.1 then continued else refused r.0 r.1)

  abbrev pub cleanup_failed : CommandOutcome → S → CommandOutcome → Run
  cleanup_failed o s r = return (if is_failure o then o else r)

  abbrev pub close : CommandOutcome → S → Run
  close o s =
      let can = b.can_close s in
      if can.1 then send close_call can.0 (cleanup_failed o) (λ t. return o) else return o

  -- `finish`.
  unfoldable pub finish : S → CommandOutcome → Run
  finish s o =
      let active = b.is_active s in
      if is_unknown o
      then return o
      else if active.1
      then send abort_call active.0 (cleanup_failed o) (close o)
      else close o active.0

  -- The loop of the episodes.
  unfoldable pub episodes : ℕ → S → Run
  episodes zero s = record { trace = []; outcome = none }
  episodes (suc fuel) s =
      let stop = b.is_stopped s in
      let next : S → Run = λ t. episodes fuel t in
      if stop.1
      then finish stop.0 stopped
      else send begin_call stop.0 finish (λ t.
        let complete = b.is_complete t in
        if complete.1
        then finish complete.0 applied
        else send episode_call complete.0 finish (λ u. send end_call u finish next))

  -- `RunSession`.
  unfoldable pub run_session : ℕ → S → Run
  run_session fuel s =
      send open_call s (λ t o. return o) (λ t. send initialize_call t finish (episodes fuel))

-- Nothing is sent after an unknown outcome.
abbrev pub Quiet : List (Call × CommandOutcome) → Type 0
Quiet [] = Unit
Quiet (x ∷ xs) = (is_unknown x.1 ≡ true → xs ≡ []) × Quiet xs

-- An applied result is one of commands that were all applied.
abbrev pub AppliedAll : Run → Type 0
AppliedAll r = r.outcome ≡ some applied → All (λ x. is_applied x.1 ≡ true) r.trace

abbrev pub IsRun : Run → Type 0
IsRun r = Quiet r.trace × AppliedAll r

unknown_not_applied : (o : CommandOutcome) → is_unknown o ≡ true → is_applied o ≡ true → ⊥
unknown_not_applied applied e h = absurd (cc e)
unknown_not_applied rejected e h = absurd (cc e)
unknown_not_applied unknown e h = absurd (cc h)
unknown_not_applied stopped e h = absurd (cc e)
unknown_not_applied wait_expired e h = absurd (cc e)

module _ {S : Type 0} (b : Binding S) where
  -- A refused command must end the run when its outcome is unknown, and never with `applied`.
  abbrev Refuses : (S → CommandOutcome → Run) → Type 0
  Refuses k =
      (s : S) (o : CommandOutcome)
      → is_applied o ≡ false
      → IsRun (k s o)
        × (is_unknown o ≡ true → (k s o).trace ≡ [])
        × ((k s o).outcome ≡ some applied → ⊥)

  send-IsRun :
      (c : Call) (s : S) (k : S → CommandOutcome → Run) (next : S → Run)
      → Refuses k
      → ((t : S) → IsRun (next t))
      → IsRun (send b c s k next)
  unfolding send
  send-IsRun c s k next h n =
      if_elim {A = Run} (λ r. IsRun (after c (b.command c s).1 r)) (is_applied (b.command c s).1) _
        _ (λ e. (((λ u. absurd (unknown_not_applied _ u e)), (n _).0), λ z. (e, (n _).1 z)))
        (λ e.
          let (run, quiet, not_applied) = h (b.command c s).0 (b.command c s).1 e in
          ((quiet, run.0), λ z. absurd (not_applied z)))

  send_result :
      (P : Option CommandOutcome → Type 0) (c : Call) (s : S) (k : S → CommandOutcome → Run)
      (next : S → Run)
      → ((t : S) (o : CommandOutcome) → is_applied o ≡ false → P (k t o).outcome)
      → ((t : S) → P (next t).outcome)
      → P (send b c s k next).outcome
  unfolding send
  send_result P c s k next h n =
      if_elim {A = Run} (λ r. P r.outcome) (is_applied (b.command c s).1) _ _ (λ e. n _)
        (λ e. h _ _ e)

  -- A result that is `applied` only if `o` is.
  abbrev OnlyIf : CommandOutcome → Option CommandOutcome → Type 0
  OnlyIf o r = r ≡ some applied → is_applied o ≡ true

  some_applied : (o : CommandOutcome) → some o ≡ some applied → is_applied o ≡ true
  some_applied applied e = refl
  some_applied rejected e = absurd (cc e)
  some_applied unknown e = absurd (cc e)
  some_applied stopped e = absurd (cc e)
  some_applied wait_expired e = absurd (cc e)

  kept :
      (o r : CommandOutcome)
      → is_applied r ≡ false
      → some (if is_failure o then o else r) ≡ some applied
      → ⊥
  kept applied r h e = absurd (cc (h, some_applied r e))
  kept rejected r h e = absurd (cc e)
  kept unknown r h e = absurd (cc (h, some_applied r e))
  kept stopped r h e = absurd (cc (h, some_applied r e))
  kept wait_expired r h e = absurd (cc e)

  cleanup_failed-Refuses : (o : CommandOutcome) → Refuses (cleanup_failed b o)
  cleanup_failed-Refuses o s r h = ((tt, λ z. tt), (λ u. refl), kept o r h)

  close-IsRun : (o : CommandOutcome) (s : S) → IsRun (close b o s)
  close-IsRun o s =
      if_elim IsRun (b.can_close s).1 _ _
        (λ e.
          send-IsRun close_call _ (cleanup_failed b o) _ (cleanup_failed-Refuses o)
            (λ t. (tt, λ z. tt)))
        (λ e. (tt, λ z. tt))

  close_result : (o : CommandOutcome) (s : S) → OnlyIf o (close b o s).outcome
  close_result o s =
      if_elim {A = Run} (λ r. OnlyIf o r.outcome) (b.can_close s).1 _ _
        (λ e.
          send_result (OnlyIf o) close_call _ (cleanup_failed b o) _
            (λ t r h z. absurd (kept o r h z)) (λ t z. some_applied o z))
        (λ e z. some_applied o z)

  finish-IsRun : (s : S) (o : CommandOutcome) → IsRun (finish b s o)
  unfolding finish
  finish-IsRun s o =
      if_elim IsRun (is_unknown o) _ _ (λ e. (tt, λ z. tt))
        (λ e.
          if_elim IsRun (b.is_active s).1 _ _
            (λ a.
              send-IsRun abort_call _ (cleanup_failed b o) _ (cleanup_failed-Refuses o)
                (λ t. close-IsRun o t))
            (λ a. close-IsRun o _))

  finish_result : (s : S) (o : CommandOutcome) → OnlyIf o (finish b s o).outcome
  unfolding finish
  finish_result s o =
      if_elim {A = Run} (λ r. OnlyIf o r.outcome) (is_unknown o) _ _ (λ e z. some_applied o z)
        (λ e.
          if_elim {A = Run} (λ r. OnlyIf o r.outcome) (b.is_active s).1 _ _
            (λ a.
              send_result (OnlyIf o) abort_call _ (cleanup_failed b o) _
                (λ t r h z. absurd (kept o r h z)) (λ t. close_result o t))
            (λ a. close_result o _))

  finish-Refuses : Refuses (finish b)
  unfolding finish
  finish-Refuses s o h = (
    finish-IsRun s o,
    (λ u. ap (λ r. r.trace) (if_true {A = Run} (is_unknown o) _ _ u)),
    λ z. absurd (cc (h, finish_result s o z)),
  )

  episodes-IsRun : (fuel : ℕ) (s : S) → IsRun (episodes b fuel s)
  unfolding episodes
  episodes-IsRun zero s = (tt, λ z. tt)
  episodes-IsRun (suc fuel) s =
      if_elim IsRun (b.is_stopped s).1 _ _ (λ e. finish-IsRun _ stopped)
        (λ e. send-IsRun begin_call _ (finish b) _ finish-Refuses (λ t.
          if_elim IsRun (b.is_complete t).1 _ _ (λ c. finish-IsRun _ applied)
            (λ c. send-IsRun episode_call _ (finish b) _ finish-Refuses (λ u.
              send-IsRun end_call u (finish b) _ finish-Refuses (λ v. episodes-IsRun fuel v)))))

  -- In every run, ended or not: a command with an unknown outcome is the last one that is sent; and
  -- if the result is `applied`, then every command of the run was applied.
  pub run_session-IsRun : (fuel : ℕ) (s : S) → IsRun (run_session b fuel s)
  unfolding run_session
  run_session-IsRun fuel s =
      send-IsRun open_call s (λ t o. return o) _
        (λ t o h. ((tt, λ z. tt), (λ u. refl), λ z. absurd (cc (h, some_applied o z))))
        (λ t. send-IsRun initialize_call t (finish b) _ finish-Refuses (λ u. episodes-IsRun fuel u))
