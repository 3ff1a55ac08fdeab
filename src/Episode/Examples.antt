-- ===== src/Episode/Examples.antt =====
-- A controller that is initialized and observes two models, and the claims at it.
use rl_aiserver.Common.{ℕ, str_eq, ◌≡◌, ◌≢◌, ◌⊎◌, refl, none, List, [], ◌∷◌}
use rl_aiserver.Common.Int.{pos}
use rl_aiserver.Episode.Controller.{
  Model, new_controller, no_plan, start, advance, validate_model, validate_counters,
  validate_training_progress, same_model, initialize, observe_training_progress, plan_next_episode,
}
use rl_aiserver.Episode.Ledger.{
  Call, initializes, plans, observes, call, entries, Follows, IsLedger, entries-IsLedger,
  plan_cases, latest,
}

abbrev model : ℕ → Model
model n = record { model_step = n; model_lineage_id = "maze"; trained_samples = pos n }

abbrev calls : List Call
calls =
    initializes (pos 100) (model 0) (pos 0)
    ∷ plans (model 0) (pos 4)
    ∷ observes (model 1) (pos 9)
    ∷ observes (model 0) (pos 10)
    ∷ []

-- The last call moves the model backwards and is refused.
three_entries :
    entries new_controller calls
    ≡ record { model = model 0; produced = pos 0 }
      ∷ record { model = model 0; produced = pos 4 }
      ∷ record { model = model 1; produced = pos 9 }
      ∷ []
unfolding entries call initialize observe_training_progress plan_next_episode
    validate_training_progress validate_counters validate_model same_model str_eq
three_entries = refl

entries-IsLedger_example : IsLedger (entries new_controller calls)
entries-IsLedger_example = entries-IsLedger calls

plan_cases_example :
    let c = start new_controller (pos 100) (model 0) in
    let r = plan_next_episode c (model 1) (pos 4) in
    ((r.0 ≡ c) × (r.1 ≡ no_plan) × (r.2 ≢ none))
    ⊎ ((r.0 ≡ advance c (model 1) (pos 4))
        × (r.1 ≡ record { max_steps = pos 100; model = model 1 })
        × (r.2 ≡ none)
        × Follows (latest c) (record { model = model 1; produced = pos 4 }))
plan_cases_example = plan_cases (start new_controller (pos 100) (model 0)) (model 1) (pos 4)
