-- ===== src/Command/Rounds.antt =====
-- `RunEpisode` of the client SDK (proto/rl_sdk/include/rl_sdk/session.h).
use rl_aiserver.Common.{
  ℕ, zero, suc, ◌≡◌, ap, Bool, true, false, not, List, [], ◌∷◌, Option, none, some, if◌then◌else◌,
  if_elim, arith,
}
use rl_aiserver.Command.Client.{CommandOutcome, applied, rejected, stopped}
use rl_aiserver.Command.Run.{is_applied}

-- The environment's side, with its state.
pub record Environment (S R : Type 0) : Type 0 where
  pub stopped_now : S → S × Bool
  pub is_terminal : S → S × Bool
  pub observe : S → S × R
  pub exchange : R → S → S × CommandOutcome
  pub apply : S → S × Bool

-- The exchanges, each with whether it reports a final result; no outcome when the fuel has run out.
pub record Episode : Type 0 where
  pub exchanges : List (Bool × CommandOutcome)
  pub outcome : Option CommandOutcome

abbrev pub end_with : List (Bool × CommandOutcome) → CommandOutcome → Episode
end_with xs o = record { exchanges = xs; outcome = some o }

abbrev pub exchanged : Bool × CommandOutcome → Episode → Episode
exchanged x e = record { exchanges = x ∷ e.exchanges; outcome = e.outcome }

unfoldable pub run_episode : {S R : Type 0} → Environment S R → ℕ → S → Episode
run_episode v zero s = record { exchanges = []; outcome = none }
run_episode {S} v (suc fuel) s =
    let stop = v.stopped_now s in
    let final_result = v.is_terminal stop.0 in
    let request = v.observe final_result.0 in
    let result = v.exchange request.1 request.0 in
    let done = v.apply result.0 in
    let next = run_episode v fuel done.0 in
    if stop.1
    then end_with [] stopped
    else if not (is_applied result.1)
    then end_with ((final_result.1, result.1) ∷ []) result.1
    else if final_result.1
    then end_with ((final_result.1, result.1) ∷ []) applied
    else if not done.1
    then end_with ((final_result.1, result.1) ∷ []) rejected
    else exchanged (final_result.1, result.1) next

-- All exchanges are applied, and the last one alone reports a final result.
abbrev pub FinalLast : List (Bool × CommandOutcome) → Type 0
FinalLast [] = ⊥
FinalLast (x ∷ []) = (x.0 ≡ true) × (is_applied x.1 ≡ true)
FinalLast (x ∷ y ∷ ys) = (x.0 ≡ false) × (is_applied x.1 ≡ true) × FinalLast (y ∷ ys)

FinalLast-cons :
    (x : Bool × CommandOutcome) (xs : List (Bool × CommandOutcome))
    → x.0 ≡ false
    → is_applied x.1 ≡ true
    → FinalLast xs
    → FinalLast (x ∷ xs)
FinalLast-cons x [] f a h = absurd h
FinalLast-cons x (y ∷ ys) f a h = (f, a, h)

-- A run of the episode loop that ends with `applied` has exchanged at least one request, every
-- exchange was applied, and exactly the last one reports a final result of the environment.
pub run_episode-FinalLast :
    {S R : Type 0} (v : Environment S R) (fuel : ℕ) (s : S)
    → (run_episode v fuel s).outcome ≡ some applied
    → FinalLast (run_episode v fuel s).exchanges
unfolding run_episode
run_episode-FinalLast v zero s h = absurd (cc h)
run_episode-FinalLast {S} {R} v (suc fuel) s h0 =
    let stop = v.stopped_now s in
    let final_result = v.is_terminal stop.0 in
    let request = v.observe final_result.0 in
    let result = v.exchange request.1 request.0 in
    let done = v.apply result.0 in
    if_elim {A = Episode} P stop.1 _ _ (λ e h. absurd (cc h))
      (λ e.
        if_elim {A = Episode} P (not (is_applied result.1)) _ _
          (λ r h. absurd (refused result.1 r h))
          (λ r.
            if_elim {A = Episode} P final_result.1 _ _ (λ t h. (t, ground (arith, r)))
              (λ t.
                if_elim {A = Episode} P (not done.1) _ _ (λ d h. absurd (cc h))
                  (λ d h.
                    FinalLast-cons _ _ t (ground (arith, r))
                      (run_episode-FinalLast v fuel done.0 h)))))
      h0
  where
    P : Episode → Type 0
    P e = e.outcome ≡ some applied → FinalLast e.exchanges

    refused : (o : CommandOutcome) → not (is_applied o) ≡ true → some o ≡ some applied → ⊥
    refused o r h =
        absurd (cc (r, ap (λ x. elim x [ none ↦ true | some y ↦ not (is_applied y) ]) h))
