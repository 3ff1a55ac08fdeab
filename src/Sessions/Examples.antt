-- ===== src/Sessions/Examples.antt =====
-- A manager with two sessions, one of them destroyed, and the claims at it.
use Prim.Native.String.{◌++◌ as append, count}
use text.Mathlib.TextLemmas.{length-append}
use rl_aiserver.Common.{
  ℕ, zero, suc, ◌+◌, ◌≡◌, ◌≢◌, refl, ap, ◌∙◌, arith, str_eq, String, [], ◌∷◌, none, some,
}
use rl_aiserver.Common.Int.{pos}
use rl_aiserver.Command.Types.{phase_open, phase_running}
use rl_aiserver.Sessions.Manager.{
  Stored, Manager, find, put, remove, create_session, destroy_session,
}
use rl_aiserver.Sessions.Fresh.{
  Reachable, empty, creates, destroys, IsInjective, create_session_fresh,
}

-- A number as so many strokes.
marks : ℕ → String
marks zero = "0"
marks (suc n) = append "I" (marks n)

count-marks : (n : ℕ) → count (marks n) ≡ n + 1
unfolding marks
count-marks zero = refl
count-marks (suc n) = length-append "I" (marks n) ∙ omega (arith, count-marks n)

marks-IsInjective : IsInjective marks
marks-IsInjective j k e = omega (arith, ap count e, count-marks j, count-marks k)

abbrev first_manager : Manager
first_manager = (create_session marks (record { sessions = []; next_session_id = 1 })).0

abbrev two_sessions : Manager
two_sessions = (create_session marks first_manager).0

abbrev one_session : Manager
one_session = destroy_session two_sessions "session-I0"

one_session_ids : find one_session.sessions "session-I0" ≡ none
unfolding create_session destroy_session put remove find marks str_eq
one_session_ids = refl

first_next : first_manager.next_session_id ≡ 2
unfolding create_session
first_next = refl

one-Reachable : Reachable marks one_session
one-Reachable =
    destroys two_sessions "session-I0"
      (creates first_manager (creates _ empty (omega arith)) (omega (arith, first_next)))

create_session_fresh_example :
    (find one_session.sessions (create_session marks one_session).1 ≡ none)
    × ((v : Stored) × (find
            (create_session marks one_session).0.sessions
            (create_session marks one_session).1
          ≡ some v))
    × ((other : String)
        → (create_session marks one_session).1 ≢ other
        → find (create_session marks one_session).0.sessions other
          ≡ find one_session.sessions other)
create_session_fresh_example =
    create_session_fresh marks one_session marks-IsInjective one-Reachable

abbrev leased : Manager
leased = record {
  sessions =
      ("a", record { session_id = "a"; phase = phase_running; last_activity = pos 90 })
      ∷ ("b", record { session_id = "b"; phase = phase_open; last_activity = pos 10 })
      ∷ [];
  next_session_id = 3;
}
