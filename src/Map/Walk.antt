-- ===== src/Map/Walk.antt =====
-- Walks on the cells of a map, and membership.
use rl_aiserver.Common.{ℕ, suc}
use mathlib.Core.List.{Memᴰ}
use rl_aiserver.Map.Grid.{Grid, neighbors}

-- A walk of a number of moves from one cell to another.
pub data Walk (g : Grid) (a : ℕ) : ℕ → ℕ → Type 0 where
  here : Walk g a a 0
  step : {b c n : ℕ} → Walk g a b n → Memᴰ c (neighbors g b) → Walk g a c (suc n)
