-- ===== src/Map/Loop.antt =====
-- The invariant of the breadth-first search, and its end (src/maze/environment/map.cpp).
use mathlib.Core.List.{Memᴰ}
use mathlib.Core.List.Memᴰ
use native.Mathlib.Nat.{mul-le-mul_right, suc-mul, mul_comm}
use rl_aiserver.Common.{
  get_or-set_same, get_or-set_other, ℕ, zero, suc, ◌+◌, ◌*◌, ◌/◌, ◌%◌, ◌≤◌, ◌<◌, ◌≡◌, ◌⊎◌, inl, inr,
  refl, sym, ap, ◌∙◌, subst, arith, true, List, [], ◌∷◌, length, get_or, length-set, Option-cases,
  some,
}
use rl_aiserver.Common.Int.{ℤ, pos, negsuc, add_ℤ}
use rl_aiserver.Map.Grid.{
  Grid, index, free, walkable, index_of, next_cell, cells, neighbors, directions,
}
use rl_aiserver.Map.Search.{Search, at, is_known, expand, loop, repeat, start_search, search}
use rl_aiserver.Map.Walk.{Walk, here, step}
use rl_aiserver.Map.Scan.{
  unknown, unknown-set, Rising, Rising-Grows, scan-Scanned, same_cell, pos_eq,
}

index-lt : (x y c r : ℕ) → x < c → y < r → y * c + x < c * r
index-lt x y c r h k =
    let row : suc y * c ≤ r * c = mul-le-mul_right c k in
    omega (arith, row, suc-mul y c, mul_comm c r)

free-lt : (g : Grid) (x y : ℕ) → free g x y ≡ true → index g x y < g.cols * g.rows
free-lt g x y h = index-lt x y g.cols g.rows (ground (arith, h)) (ground (arith, h))

pub walkable-lt : (g : Grid) (x y : ℤ) → walkable g x y ≡ true → index_of g x y < g.cols * g.rows
unfolding walkable
walkable-lt g (pos x) (pos y) h = free-lt g x y h
walkable-lt g (pos x) (negsuc y) h = cc
walkable-lt g (negsuc x) (pos y) h = cc
walkable-lt g (negsuc x) (negsuc y) h = cc

next_cell-lt :
    (g : Grid) (gx gy : ℕ) (d : ℤ × ℤ) (c : ℕ) → next_cell g gx gy d ≡ some c → c < g.cols * g.rows
unfolding next_cell
next_cell-lt g gx gy (dx, dy) c h =
    ground (arith, h, walkable-lt g (add_ℤ (pos gx) dx) (add_ℤ (pos gy) dy))

cells-lt :
    (g : Grid) (gx gy : ℕ) (ds : List (ℤ × ℤ)) (c : ℕ)
    → Memᴰ c (cells g gx gy ds)
    → c < g.cols * g.rows
unfolding cells
cells-lt g gx gy [] c m = absurd (Memᴰ.not-nil m)
cells-lt g gx gy (d ∷ ds) c m = elim (Option-cases (next_cell g gx gy d)) [
  | inl e ↦ cells-lt g gx gy ds c (rw (e, cells) at m)
  | inr (b, e) ↦ elim (Memᴰ.cases_cons (rw (e, cells) at m)) [
    | inl f ↦ next_cell-lt g gx gy d c (e ∙ ap some (sym f))
    | inr t ↦ cells-lt g gx gy ds c t
  ]
]

pub neighbors-lt : (g : Grid) (u c : ℕ) → Memᴰ c (neighbors g u) → c < g.cols * g.rows
unfolding neighbors
neighbors-lt g u c m = cells-lt g (u % g.cols) (u / g.cols) directions c m

-- What the search knows while it runs; `k` is the distance of the front of the queue.
pub record Inv (g : Grid) (goal : ℕ) (s : Search) : Type 0 where
  pub size : length s.distance ≡ g.cols * g.rows
  pub source : at s goal ≡ pos 0
  pub level : ℕ
  pub rising : Rising s level s.queue (level + 1)
  pub near : (w d : ℕ) → at s w ≡ pos d → d ≤ level + 1
  pub sound : (w d : ℕ) → at s w ≡ pos d → Walk g goal w d
  pub closed :
      (w d : ℕ)
      → at s w ≡ pos d
      → Memᴰ w s.queue
        ⊎ ((v : ℕ) → Memᴰ v (neighbors g w) → (e : ℕ) × (at s v ≡ pos e) × (e ≤ d + 1))

module _ (g : Grid) (goal : ℕ) (s : Search) (u : ℕ) (rest : List ℕ) (q : s.queue ≡ u ∷ rest)
    (inv : Inv g goal s) where
  front : Rising s inv.level (u ∷ rest) (inv.level + 1)
  front = subst (λ xs. Rising s inv.level xs (inv.level + 1)) q inv.rising

  pub expand-Inv : Inv g goal (expand g s u rest)
  unfolding expand Rising front
  expand-Inv =
      let s' : Search = record s { queue = rest } in
      let (k, at_u, low, rise) = front in
      let rise' : Rising s' k rest (k + 1) =
        Rising-Grows s s' k rest (inv.level + 1) (k + 1) (λ w d p. p) (omega arith) rise in
      let c =
        scan-Scanned (g.cols * g.rows) k u s' (neighbors g u) inv.size at_u rise'
          (neighbors-lt g u) in
      let close : (w d : ℕ) → at (expand g s u rest) w ≡ pos d → d ≤ k + 1 = λ w d p.
        elim (c.fresh w d p) [
          | inl old ↦ omega (arith, inv.near w d old, low)
          | inr (_, _, e) ↦ omega (arith, e)
        ] in
      record {
        size = c.size;
        source = c.grows goal 0 inv.source;
        level = k;
        rising = c.rising;
        near = close;
        sound = λ w d p. elim (c.fresh w d p) [
          | inl old ↦ inv.sound w d old
          | inr (_, m, e) ↦ subst (Walk g goal w) (omega (arith, e)) (step (inv.sound u k at_u) m)
        ];
        closed = λ w d p. elim (c.fresh w d p) [
          | inr (queued, _, _) ↦ inl queued
          | inl old ↦ elim (same_cell u w) [
            | inl here_u ↦ inr (λ v m.
                let (e, f) = c.covers v (subst (λ x. Memᴰ v (neighbors g x)) (sym here_u) m) in
                (e, f, omega (arith, close v e f, pos_eq (sym at_u ∙ ap (at s) here_u ∙ old))))
            | inr other ↦ elim (inv.closed w d old) [
              | inl m ↦ elim (Memᴰ.cases_cons (subst (Memᴰ w) q m)) [
                | inl same ↦ absurd (other (sym same))
                | inr m' ↦ inl (c.stays w m')
              ]
              | inr h ↦ inr (λ v m. let (e, f, l) = h v m in (e, c.grows v e f, l))
            ]
          ]
        ];
      }

  -- The front of the queue has a distance, so a round does its work.
  pub expand_work :
      unknown (expand g s u rest).distance + length (expand g s u rest).queue + 1
      ≡ unknown s.distance + length s.queue
  unfolding expand Rising front
  expand_work =
      let s' : Search = record s { queue = rest } in
      let (k, at_u, low, rise) = front in
      let rise' : Rising s' k rest (k + 1) =
        Rising-Grows s s' k rest (inv.level + 1) (k + 1) (λ w d p. p) (omega arith) rise in
      let c =
        scan-Scanned (g.cols * g.rows) k u s' (neighbors g u) inv.size at_u rise'
          (neighbors-lt g u) in
      omega (arith, c.work, ap length q)

List-cases : (xs : List ℕ) → (xs ≡ []) ⊎ ((x : ℕ) × (rest : List ℕ) × (xs ≡ x ∷ rest))
List-cases [] = inl refl
List-cases (x ∷ xs) = inr (x, xs, refl)

-- With fuel for the cells that are unknown or queued, the loop ends with an empty queue, in a state
-- that keeps the invariant.
loop_ends :
    (g : Grid) (goal fuel : ℕ) (s : Search)
    → Inv g goal s
    → unknown s.distance + length s.queue ≤ fuel
    → (t : Search) × (loop g fuel s ≡ some t) × Inv g goal t × (t.queue ≡ [])
unfolding loop
loop_ends g goal zero s inv h = elim (List-cases s.queue) [
  | inl e ↦ (s, simp (e, loop), inv, e)
  | inr (u, rest, e) ↦ absurd (omega (arith, h, ap length e))
]
loop_ends g goal (suc fuel) s inv h = elim (List-cases s.queue) [
  | inl e ↦ (s, simp (e, loop), inv, e)
  | inr (u, rest, e) ↦
      let (t, ends, inv', empty) =
        loop_ends g goal fuel (expand g s u rest) (expand-Inv g goal s u rest e inv)
          (omega (arith, expand_work g goal s u rest e inv)) in
      (t, ground arith, inv', empty)
]

length-repeat : (n : ℕ) → length (repeat n) ≡ n
length-repeat zero = refl
length-repeat (suc n) = ap suc (length-repeat n)

unknown-repeat : (n : ℕ) → unknown (repeat n) ≡ n
unknown-repeat zero = refl
unknown-repeat (suc n) = ap suc (unknown-repeat n)

repeat_unknown : (n i : ℕ) → get_or (repeat n) i (negsuc 0) ≡ negsuc 0
repeat_unknown zero i = refl
repeat_unknown (suc n) zero = refl
repeat_unknown (suc n) (suc i) = repeat_unknown n i

module _ (g : Grid) (goal : ℕ) (inside : goal < g.cols * g.rows) where
  blank_in : goal < length (repeat (g.cols * g.rows))
  blank_in = omega (arith, length-repeat (g.cols * g.rows))

  start_at : (w d : ℕ) → at (start_search g goal) w ≡ pos d → (goal ≡ w) × (0 ≡ d)
  unfolding start_search
  start_at w d p = elim (same_cell goal w) [
    | inl e ↦ (
      e,
      pos_eq (
          sym (get_or-set_same (repeat (g.cols * g.rows)) goal (pos 0) (negsuc 0) blank_in)
          ∙ ap (at (start_search g goal)) e
          ∙ p),
    )
    | inr e ↦ absurd (
        cc (
          get_or-set_other (repeat (g.cols * g.rows)) goal w (pos 0) (negsuc 0) e,
          repeat_unknown (g.cols * g.rows) w,
          p,
        ))
  ]

  start-Inv : Inv g goal (start_search g goal)
  unfolding start_search Rising
  start-Inv = record {
    size = length-set (repeat (g.cols * g.rows)) goal (pos 0) ∙ length-repeat (g.cols * g.rows);
    source = get_or-set_same (repeat (g.cols * g.rows)) goal (pos 0) (negsuc 0) blank_in;
    level = 0;
    rising = (
      0,
      get_or-set_same (repeat (g.cols * g.rows)) goal (pos 0) (negsuc 0) blank_in,
      omega arith,
      omega arith,
    );
    near = λ w d p. omega (arith, (start_at w d p).1);
    sound = λ w d p.
        subst (Walk g goal w) (start_at w d p).1
          (subst (λ x. Walk g goal x 0) (start_at w d p).0 here);
    closed = λ w d p. inl (Memᴰ.head (sym (start_at w d p).0));
  }

  -- The search ends.
  pub search_ends : (t : Search) × (search g goal ≡ some t) × Inv g goal t × (t.queue ≡ [])
  unfolding search start_search
  search_ends = loop_ends g goal (g.cols * g.rows) (start_search g goal) start-Inv (
      omega (
        arith,
        unknown-set (repeat (g.cols * g.rows)) goal 0 blank_in
            (ap is_known (repeat_unknown (g.cols * g.rows) goal)),
        unknown-repeat (g.cols * g.rows),
      ))
