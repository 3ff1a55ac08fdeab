-- ===== src/Map/Search.antt =====
-- The breadth-first search from the goal (src/maze/environment/map.cpp).
use mathlib.Core.List.{foldl}
use rl_aiserver.Common.{
  ℕ, zero, suc, ◌*◌, Bool, true, false, Option, none, some, List, [], ◌∷◌, ◌++◌, get_or, set,
  if◌then◌else◌,
}
use rl_aiserver.Common.Int.{ℤ, pos, negsuc, add_ℤ}
use rl_aiserver.Map.Grid.{Grid, neighbors}

-- `geodesic_distance` and `queue`.
pub record Search : Type 0 where
  pub distance : List ℤ
  pub queue : List ℕ

-- `geodesic_distance[cell]`; no read is out of bounds.
abbrev pub at : Search → ℕ → ℤ
at s cell = get_or s.distance cell (negsuc 0)

abbrev pub is_known : ℤ → Bool
is_known (pos n) = true
is_known (negsuc n) = false

-- The end of the inner loop for one neighbour: a cell without a distance gets one and is queued.
unfoldable pub offer : ℕ → Search → ℕ → Search
offer current s next = if is_known (at s next) then s else record {
  distance = set s.distance next (add_ℤ (at s current) (pos 1));
  queue = s.queue ++ (next ∷ []);
}

unfoldable pub scan : ℕ → Search → List ℕ → Search
scan current = foldl (offer current)

-- One round of the outer loop.
unfoldable pub expand : Grid → Search → ℕ → List ℕ → Search
expand g s current rest = scan current (record s { queue = rest }) (neighbors g current)

-- The outer loop; nothing is left when the fuel runs out before the queue is empty.
unfoldable pub loop : Grid → ℕ → Search → Option Search
loop g zero s = elim s.queue [ [] ↦ some s | _ ∷ _ ↦ none ]
loop g (suc fuel) s = elim s.queue [
  | [] ↦ some s
  | current ∷ rest ↦ loop g fuel (expand g s current rest)
]

abbrev pub repeat : ℕ → List ℤ
repeat zero = []
repeat (suc n) = negsuc 0 ∷ repeat n

unfoldable pub start_search : Grid → ℕ → Search
start_search g goal = record {
  distance = set (repeat (g.cols * g.rows)) goal (pos 0);
  queue = goal ∷ [];
}

-- The search; the number of the cells is the fuel.
unfoldable pub search : Grid → ℕ → Option Search
search g goal = loop g (g.cols * g.rows) (start_search g goal)
