-- ===== src/Episode/Controller.antt =====
-- `MazeEpisodeController` (src/maze/episode/episode_controller.h,
-- src/maze/episode/episode_controller.cpp). An operation gives the controller after it, the error
-- text and what it returns.
use rl_aiserver.Common.{
  ℕ, String, Bool, true, false, not, ◌&&◌, ◌||◌, Option, none, some, ltb, ◌==◌, str_eq, is_empty,
  if◌then◌else◌,
}
use rl_aiserver.Common.Int.{ℤ, pos, ltb_ℤ, leb_ℤ}

-- `MazeModelIdentity`.
pub record Model : Type 0 where
  pub model_step : ℕ
  pub model_lineage_id : String
  pub trained_samples : ℤ

-- `MazeEpisodePlan`; its mode is always training.
pub record Plan : Type 0 where
  pub max_steps : ℤ
  pub model : Model

-- `MazeTaskSnapshot`.
pub record Snapshot : Type 0 where
  pub initialized : Bool
  pub baseline_model_step : ℕ
  pub baseline_model_lineage_id : String
  pub baseline_trained_samples : ℤ
  pub produced_transitions : ℤ
  pub episode_max_steps : ℤ

pub record Controller : Type 0 where
  pub initialized : Bool
  pub baseline_model : Model
  pub latest_model : Model
  pub episode_max_steps : ℤ
  pub latest_produced_transitions : ℤ

abbrev pub no_model : Model
no_model = record { model_step = 0; model_lineage_id = ""; trained_samples = pos 0 }

abbrev pub no_plan : Plan
no_plan = record { max_steps = pos 0; model = no_model }

abbrev pub new_controller : Controller
new_controller = record {
  initialized = false;
  baseline_model = no_model;
  latest_model = no_model;
  episode_max_steps = pos 0;
  latest_produced_transitions = pos 0;
}

abbrev pub eq_ℤ : ℤ → ℤ → Bool
eq_ℤ a b = leb_ℤ a b && leb_ℤ b a

unfoldable pub same_model : Model → Model → Bool
same_model a b =
    (a.model_step == b.model_step)
    && (str_eq a.model_lineage_id b.model_lineage_id && eq_ℤ a.trained_samples b.trained_samples)

-- `ValidateModel`; a text is the error of a refusal.
unfoldable pub validate_model : Model → Option String
validate_model m =
    if is_empty m.model_lineage_id || ltb_ℤ m.trained_samples (pos 0)
    then some "single-map model identity is invalid"
    else none

abbrev pub is_behind : Model → Model → Bool
is_behind a b = ltb a.model_step b.model_step || ltb_ℤ a.trained_samples b.trained_samples

-- The tests of `ValidateTrainingProgress` after that of the model.
unfoldable pub validate_counters : Controller → Model → ℤ → Option String
validate_counters c m produced =
    if ltb_ℤ produced (pos 0) || ltb_ℤ produced c.latest_produced_transitions
    then some "single-map produced-transition counter moved backwards"
    else if is_behind m c.baseline_model
    then some "single-map model counters moved behind the resume baseline"
    else if is_behind m c.latest_model
    then some "single-map active model counters moved backwards"
    else if (m.model_step == c.latest_model.model_step) && not (same_model m c.latest_model)
    then some "single-map active model identity changed at one step"
    else none

-- `ValidateTrainingProgress`.
unfoldable pub validate_training_progress : Controller → Model → ℤ → Option String
validate_training_progress c m produced = elim (validate_model m) [
  | some e ↦ some e
  | none ↦ validate_counters c m produced
]

abbrev pub start : Controller → ℤ → Model → Controller
start c steps m = record c {
  episode_max_steps = steps;
  baseline_model = m;
  latest_model = m;
  latest_produced_transitions = pos 0;
  initialized = true;
}

-- `Initialize`; no text is success.
unfoldable pub initialize : Controller → ℤ → Model → ℤ → Controller × Option String
initialize c steps m produced =
    if c.initialized
    then (c, some "single-map task controller is already initialized")
    else elim (validate_model m) [
      | some e ↦ (c, some e)
      | none ↦
          if leb_ℤ steps (pos 0) || not (eq_ℤ produced (pos 0))
          then (c, some "single-map training must start with zero produced transitions")
          else if not (m.model_step == 0) || not (eq_ℤ m.trained_samples (pos 0))
          then (c, some "single-map training must start at model step 0 with zero counters")
          else (start c steps m, none)
    ]

abbrev pub advance : Controller → Model → ℤ → Controller
advance c m produced = record c { latest_model = m; latest_produced_transitions = produced }

-- `ObserveTrainingProgress`.
unfoldable pub observe_training_progress : Controller → Model → ℤ → Controller × Option String
observe_training_progress c m produced =
    if not c.initialized
    then (c, some "single-map task controller is not initialized")
    else elim (validate_training_progress c m produced) [
      | some e ↦ (c, some e)
      | none ↦ (advance c m produced, none)
    ]

-- `PlanNextEpisode`, with the plan that it leaves.
unfoldable pub plan_next_episode : Controller → Model → ℤ → Controller × Plan × Option String
plan_next_episode c m produced =
    if not c.initialized
    then (c, no_plan, some "single-map task controller is not initialized")
    else elim (validate_training_progress c m produced) [
      | some e ↦ (c, no_plan, some e)
      | none ↦ (advance c m produced, record { max_steps = c.episode_max_steps; model = m }, none)
    ]

-- `GetSnapshot`.
unfoldable pub get_snapshot : Controller → Snapshot
get_snapshot c = record {
  initialized = c.initialized;
  baseline_model_step = c.baseline_model.model_step;
  baseline_model_lineage_id = c.baseline_model.model_lineage_id;
  baseline_trained_samples = c.baseline_model.trained_samples;
  produced_transitions = c.latest_produced_transitions;
  episode_max_steps = c.episode_max_steps;
}
