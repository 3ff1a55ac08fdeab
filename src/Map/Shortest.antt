-- ===== src/Map/Shortest.antt =====
-- The distances of a finished search, against the lengths of walks (src/maze/environment/map.cpp).
use mathlib.Core.List.{Memᴰ}
use mathlib.Core.List.Memᴰ
use rl_aiserver.Common.{ℕ, ◌*◌, ◌≤◌, ◌<◌, ◌≡◌, inl, inr, refl, sym, subst, ◌∙◌, arith, [], some}
use rl_aiserver.Common.Int.{ℤ, pos, negsuc}
use rl_aiserver.Map.Grid.{Grid}
use rl_aiserver.Map.Search.{Search, at, search}
use rl_aiserver.Map.Walk.{Walk, here, step}
use rl_aiserver.Map.Scan.{pos_eq}
use rl_aiserver.Map.Loop.{Inv, search_ends}

-- A walk from the goal reaches a cell with a distance that is not larger than its length.
reached :
    (g : Grid) (goal : ℕ) (s : Search)
    → Inv g goal s
    → s.queue ≡ []
    → {w n : ℕ} → Walk g goal w n
    → (d : ℕ) × (at s w ≡ pos d) × (d ≤ n)
reached g goal s inv e here = (0, inv.source, omega arith)
reached g goal s inv e (step {b} {c} {n} walk m) =
    let (d, p, l) = reached g goal s inv e walk in
    elim (inv.closed b d p) [
      | inl q ↦ absurd (Memᴰ.not-nil (subst (Memᴰ b) e q))
      | inr h ↦ let (x, f, k) = h c m in (x, f, omega arith)
    ]

-- What a distance of -1 or of `d` says of the walks from the goal to a cell.
unfoldable pub IsDistance : Grid → ℕ → ℕ → ℤ → Type 0
IsDistance g goal w (pos d) = Walk g goal w d × ((n : ℕ) → Walk g goal w n → d ≤ n)
IsDistance g goal w (negsuc d) = (n : ℕ) → ¬ Walk g goal w n

found-IsDistance :
    (g : Grid) (goal : ℕ) (s : Search)
    → Inv g goal s
    → s.queue ≡ []
    → (w : ℕ) (z : ℤ) → at s w ≡ z
    → IsDistance g goal w z
unfolding IsDistance
found-IsDistance g goal s inv e w (pos d) p = (
  inv.sound w d p,
  λ n walk. let (x, f, l) = reached g goal s inv e walk in omega (arith, l, pos_eq (sym p ∙ f)),
)
found-IsDistance g goal s inv e w (negsuc d) p =
    λ n walk. let (x, f, l) = reached g goal s inv e walk in cc (p, f)

-- The search from a goal inside the grid ends, and gives every cell the length of a shortest walk
-- from the goal, or -1 when there is no walk.
pub search-IsDistance :
    (g : Grid) (goal : ℕ)
    → goal < g.cols * g.rows
    → (t : Search) × (search g goal ≡ some t) × ((w : ℕ) → IsDistance g goal w (at t w))
search-IsDistance g goal inside =
    let (t, e, inv, empty) = search_ends g goal inside in
    (t, e, λ w. found-IsDistance g goal t inv empty w (at t w) refl)
