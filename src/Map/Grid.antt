-- ===== src/Map/Grid.antt =====
-- The descriptor of a map, its cells and the moves between them (src/maze/environment/map.cpp).
use rl_aiserver.Common.{
  ℕ, zero, ◌+◌, ◌*◌, ◌/◌, ◌%◌, String, Bool, true, false, not, ◌&&◌, ◌||◌, Option, none, some, List,
  [], ◌∷◌, ltb, get_or, if◌then◌else◌,
}
use rl_aiserver.Common.Int.{ℤ, pos, negsuc, add_ℤ}

-- `MapDescriptor`; `blocked_bitmap` holds bytes.
pub record Descriptor : Type 0 where
  pub map_id : String
  pub grid_columns : ℕ
  pub grid_rows : ℕ
  pub grid_size_microunits : ℕ
  pub blocked_bitmap : List ℕ
  pub start_grid_x : ℤ
  pub start_grid_y : ℤ
  pub goal_grid_x : ℤ
  pub goal_grid_y : ℤ

-- The columns, rows and flags that the search reads.
pub record Grid : Type 0 where
  pub cols : ℕ
  pub rows : ℕ
  pub blocked : List Bool

-- `kDirections`.
abbrev pub directions : List (ℤ × ℤ)
directions =
    (pos 0, pos 1)
    ∷ (pos 1, pos 1)
    ∷ (pos 1, pos 0)
    ∷ (pos 1, negsuc 0)
    ∷ (pos 0, negsuc 0)
    ∷ (negsuc 0, negsuc 0)
    ∷ (negsuc 0, pos 0)
    ∷ (negsuc 0, pos 1)
    ∷ []

-- `gy * cols + gx`.
abbrev pub index : Grid → ℕ → ℕ → ℕ
index g x y = y * g.cols + x

abbrev pub free : Grid → ℕ → ℕ → Bool
free g x y = ltb x g.cols && (ltb y g.rows && not (get_or g.blocked (index g x y) false))

-- `walkable`.
unfoldable pub walkable : Grid → ℤ → ℤ → Bool
walkable g (pos x) (pos y) = free g x y
walkable g _ _ = false

abbrev pub is_step : ℤ → Bool
is_step (pos zero) = false
is_step _ = true

abbrev pub index_of : Grid → ℤ → ℤ → ℕ
index_of g (pos x) (pos y) = index g x y
index_of g _ _ = 0

-- The tests of the inner loop on one direction, and the cell that it leads to.
unfoldable pub next_cell : Grid → ℕ → ℕ → ℤ × ℤ → Option ℕ
next_cell g gx gy (dx, dy) =
    let nx = add_ℤ (pos gx) dx in
    let ny = add_ℤ (pos gy) dy in
    if not (walkable g nx ny)
    then none
    else if (is_step dx && is_step dy)
        && (not (walkable g nx (pos gy)) || not (walkable g (pos gx) ny))
    then none
    else some (index_of g nx ny)

-- The cells that the inner loop does not skip, in its order.
unfoldable pub cells : Grid → ℕ → ℕ → List (ℤ × ℤ) → List ℕ
cells g gx gy [] = []
cells g gx gy (d ∷ ds) = elim (next_cell g gx gy d) [
  | none ↦ cells g gx gy ds
  | some next ↦ next ∷ cells g gx gy ds
]

unfoldable pub neighbors : Grid → ℕ → List ℕ
neighbors g current = cells g (current % g.cols) (current / g.cols) directions
