-- ===== src/Map/Validate.antt =====
-- `BasicShapeValid` and `ValidateMazeMapDescriptor` (src/maze/environment/map.cpp).
use rl_aiserver.Common.{
  ℕ, ◌*◌, ◌-◌, ◌^◌, String, Bool, false, not, ◌&&◌, ◌||◌, Option, none, some, List, [], ◌∷◌, map,
  any, length, ltb, ◌==◌, max, str_eq, is_empty, if◌then◌else◌,
}
use rl_aiserver.Common.Int.{ℤ, pos, negsuc, pos_part, ltb_ℤ, leb_ℤ, to_int64}
use rl_aiserver.Map.Grid.{Descriptor, Grid, walkable, index_of}
use rl_aiserver.Map.Search.{Search, at, search}

-- `ValidatedMazeMap`.
pub record Validated : Type 0 where
  pub blocked : List Bool
  pub geodesic_distance : List ℤ
  pub shortest_action_steps : ℤ
  pub max_finite_distance : ℕ

-- A validated map or an error text.
pub data Outcome : Type 0 where
  valid : Validated → Outcome
  invalid : String → Outcome

-- `std::numeric_limits<int>::max()`.
abbrev pub int_max : ℕ
int_max = 2 ^ 31 - 1

abbrev pub in_bounds : Descriptor → ℤ → ℤ → Bool
in_bounds m (pos x) (pos y) = ltb x m.grid_columns && ltb y m.grid_rows
in_bounds m _ _ = false

-- `BasicShapeValid`: the error text, if there is one.
unfoldable pub basic_shape_valid : Descriptor → Option String
basic_shape_valid m =
    let cell_count = to_int64 (m.grid_columns * m.grid_rows) in
    if m.grid_columns == 0 || (m.grid_rows == 0 || m.grid_size_microunits == 0)
    then some "unsupported map format or dimensions"
    else if leb_ℤ cell_count (pos 0)
        || (ltb_ℤ (pos int_max) cell_count || not (length m.blocked_bitmap == pos_part cell_count))
    then some "blocked bitmap size does not match grid dimensions"
    else if not (in_bounds m m.start_grid_x m.start_grid_y)
        || not (in_bounds m m.goal_grid_x m.goal_grid_y)
    then some "map start or goal is outside the grid"
    else if any (ltb 1) m.blocked_bitmap
    then some "blocked bitmap contains a non-boolean value"
    else none

abbrev pub grid_of : Descriptor → Grid
grid_of m = record {
  cols = m.grid_columns;
  rows = m.grid_rows;
  blocked = map (λ b. b == 1) m.blocked_bitmap;
}

-- The largest distance that is not negative, or zero.
abbrev pub max_finite : ℕ → List ℤ → ℕ
max_finite a [] = a
max_finite a (pos d ∷ ds) = max_finite (max a d) ds
max_finite a (negsuc d ∷ ds) = max_finite a ds

-- What follows the search.
unfoldable pub finish : Descriptor → Search → Outcome
finish m t =
    let steps = at t (index_of (grid_of m) m.start_grid_x m.start_grid_y) in
    let largest = max_finite 0 t.distance in
    if leb_ℤ steps (pos 0)
    then invalid "map is unreachable"
    else if largest == 0
    then invalid "map has no finite geodesic distance range"
    else valid record {
      blocked = (grid_of m).blocked;
      geodesic_distance = t.distance;
      shortest_action_steps = steps;
      max_finite_distance = largest;
    }

-- `ValidateMazeMapDescriptor`; nothing is left when the search runs out of fuel.
unfoldable pub validate : Descriptor → String → Option Outcome
validate m expected_map_id =
    if is_empty expected_map_id || not (str_eq m.map_id expected_map_id)
    then some (invalid "map identity is invalid")
    else elim (basic_shape_valid m) [
      | some e ↦ some (invalid e)
      | none ↦
          if not (walkable (grid_of m) m.start_grid_x m.start_grid_y)
            || not (walkable (grid_of m) m.goal_grid_x m.goal_grid_y)
          then some (invalid "map blocks the start or goal cell")
          else elim (search (grid_of m) (index_of (grid_of m) m.goal_grid_x m.goal_grid_y)) [
            | none ↦ none
            | some t ↦ some (finish m t)
          ]
    ]
