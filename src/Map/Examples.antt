-- ===== src/Map/Examples.antt =====
-- A map of three columns and two rows with one blocked cell, and the claims at it.
use rl_aiserver.Common.{ℕ, ◌≡◌, refl, arith, str_eq, [], ◌∷◌, some, true, false}
use rl_aiserver.Common.Int.{pos, negsuc}
use rl_aiserver.Map.Grid.{Descriptor, walkable, next_cell, cells, neighbors}
use rl_aiserver.Map.Search.{Search, at, offer, scan, expand, loop, start_search, search}
use rl_aiserver.Map.Shortest.{IsDistance, search-IsDistance}
use rl_aiserver.Map.Validate.{
  Validated, Outcome, valid, invalid, grid_of, basic_shape_valid, finish, validate,
}
use rl_aiserver.Map.Accepted.{IsMeasured, validate_returns, validate-IsMeasured}

-- The goal is the upper right cell, behind the blocked one in the middle of the lower row.
abbrev small_map : Descriptor
small_map = record {
  map_id = "small";
  grid_columns = 3;
  grid_rows = 2;
  grid_size_microunits = 1000;
  blocked_bitmap = 0 ∷ 0 ∷ 0 ∷ 0 ∷ 1 ∷ 0 ∷ [];
  start_grid_x = pos 0;
  start_grid_y = pos 1;
  goal_grid_x = pos 2;
  goal_grid_y = pos 1;
}

abbrev measured_map : Validated
measured_map = record {
  blocked = false ∷ false ∷ false ∷ false ∷ true ∷ false ∷ [];
  geodesic_distance = pos 3 ∷ pos 2 ∷ pos 1 ∷ pos 4 ∷ negsuc 0 ∷ pos 0 ∷ [];
  shortest_action_steps = pos 4;
  max_finite_distance = 4;
}

small_map_valid : validate small_map "small" ≡ some (valid measured_map)
unfolding validate basic_shape_valid search start_search loop expand scan offer neighbors cells
    next_cell walkable finish str_eq
small_map_valid = refl

-- No diagonal move passes a blocked corner, so a map cut in two is refused.
cut_map :
    validate (record small_map { blocked_bitmap = 0 ∷ 1 ∷ 0 ∷ 0 ∷ 1 ∷ 0 ∷ [] }) "small"
    ≡ some (invalid "map is unreachable")
unfolding validate basic_shape_valid search start_search loop expand scan offer neighbors cells
    next_cell walkable finish str_eq
cut_map = refl

validate-IsMeasured_example : IsMeasured small_map measured_map
validate-IsMeasured_example = validate-IsMeasured small_map "small" measured_map small_map_valid

validate_returns_example : (o : Outcome) × (validate small_map "other" ≡ some o)
validate_returns_example = validate_returns small_map "other"

search-IsDistance_example :
    (t : Search) × (search (grid_of small_map) 5 ≡ some t)
    × ((w : ℕ) → IsDistance (grid_of small_map) 5 w (at t w))
search-IsDistance_example = search-IsDistance (grid_of small_map) 5 (omega arith)
