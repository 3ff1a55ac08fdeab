-- ===== src/Command/RunExamples.antt =====
-- A binding that completes after one episode, an episode of two exchanges, and the claims at them.
use rl_aiserver.Common.{ℕ, ◌+◌, ◌≡◌, refl, true, false, leb, [], ◌∷◌, some}
use rl_aiserver.Command.Client.{applied, unknown}
use rl_aiserver.Command.Run.{
  Binding, open_call, initialize_call, begin_call, episode_call, end_call, abort_call, close_call,
  IsRun, send, finish, episodes, run_session, run_session-IsRun,
}
use rl_aiserver.Command.Rounds.{Environment, FinalLast, run_episode, run_episode-FinalLast}

-- The state counts the commands.
abbrev counting : Binding ℕ
counting = record {
  command = λ c s. (s + 1, applied);
  is_active = λ s. (s, true);
  can_close = λ s. (s, true);
  is_stopped = λ s. (s, false);
  is_complete = λ s. (s, leb 6 s);
}

-- A binding whose first episode has an unknown outcome.
abbrev losing : Binding ℕ
losing = record counting {
  command = λ c s. (
    s + 1,
    elim c [
      | episode_call ↦ unknown
      | open_call ↦ applied
      | initialize_call ↦ applied
      | begin_call ↦ applied
      | end_call ↦ applied
      | abort_call ↦ applied
      | close_call ↦ applied
    ],
  );
}

completed : run_session counting 5 0 ≡ record {
  trace =
      (open_call, applied)
      ∷ (initialize_call, applied)
      ∷ (begin_call, applied)
      ∷ (episode_call, applied)
      ∷ (end_call, applied)
      ∷ (begin_call, applied)
      ∷ (abort_call, applied)
      ∷ (close_call, applied)
      ∷ [];
  outcome = some applied;
}
unfolding run_session send finish episodes
completed = refl

lost : run_session losing 5 0 ≡ record {
  trace =
      (open_call, applied)
      ∷ (initialize_call, applied)
      ∷ (begin_call, applied)
      ∷ (episode_call, unknown)
      ∷ [];
  outcome = some unknown;
}
unfolding run_session send finish episodes
lost = refl

run_session-IsRun_example : IsRun (run_session losing 5 0)
run_session-IsRun_example = run_session-IsRun losing 5 0

-- The state counts the applied actions; the second one ends the episode.
abbrev two_steps : Environment ℕ ℕ
two_steps = record {
  stopped_now = λ s. (s, false);
  is_terminal = λ s. (s, leb 1 s);
  observe = λ s. (s, s);
  exchange = λ r s. (s, applied);
  apply = λ s. (s + 1, true);
}

reported : (run_episode two_steps 5 0).outcome ≡ some applied
unfolding run_episode
reported = refl

run_episode-FinalLast_example : FinalLast (run_episode two_steps 5 0).exchanges
run_episode-FinalLast_example = run_episode-FinalLast two_steps 5 0 reported
