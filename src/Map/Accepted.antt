-- ===== src/Map/Accepted.antt =====
-- What an accepted map says (src/maze/environment/map.cpp).
use rl_aiserver.Common.{
  ℕ, zero, suc, ◌≤◌, ◌<◌, ◌≡◌, ◌⊎◌, inl, inr, refl, sym, ap, subst, ◌∙◌, arith, String, true, false,
  not, ◌||◌, List, [], ◌∷◌, some, Bool-cases, Option-cases, ltb, ltb→lt, is_empty, str_eq, ◌==◌,
  get_or, max,
}
use rl_aiserver.Common.Int.{ℤ, pos, negsuc, leb_ℤ}
use rl_aiserver.Map.Grid.{Descriptor, walkable, index_of}
use rl_aiserver.Map.Search.{Search, at, search}
use rl_aiserver.Map.Walk.{Walk}
use rl_aiserver.Map.Scan.{pos_eq}
use rl_aiserver.Map.Loop.{walkable-lt}
use rl_aiserver.Map.Shortest.{IsDistance, search-IsDistance}
use rl_aiserver.Map.Validate.{
  Validated, Outcome, valid, invalid, grid_of, max_finite, finish, basic_shape_valid, validate,
}

max_finite-le_start : (a : ℕ) (ds : List ℤ) → a ≤ max_finite a ds
max_finite-le_start a [] = omega arith
max_finite-le_start a (pos d ∷ ds) = omega (arith, max_finite-le_start (max a d) ds)
max_finite-le_start a (negsuc d ∷ ds) = max_finite-le_start a ds

max_finite_bounds :
    (a : ℕ) (ds : List ℤ) (i d : ℕ) → get_or ds i (negsuc 0) ≡ pos d → d ≤ max_finite a ds
max_finite_bounds a [] i d h = cc
max_finite_bounds a (pos x ∷ ds) zero d h =
    omega (arith, pos_eq h, max_finite-le_start (max a x) ds)
max_finite_bounds a (negsuc x ∷ ds) zero d h = cc
max_finite_bounds a (pos x ∷ ds) (suc i) d h = max_finite_bounds (max a x) ds i d h
max_finite_bounds a (negsuc x ∷ ds) (suc i) d h = max_finite_bounds a ds i d h

max_finite_attained :
    (a : ℕ) (ds : List ℤ)
    → (max_finite a ds ≡ a) ⊎ ((i : ℕ) × (get_or ds i (negsuc 0) ≡ pos (max_finite a ds)))
max_finite_attained a [] = inl refl
max_finite_attained a (pos x ∷ ds) = elim (max_finite_attained (max a x) ds) [
  | inr (i, e) ↦ inr (suc i, e)
  | inl e ↦ elim (Bool-cases (ltb a x)) [
    | inl l ↦ inr (0, ap pos (omega (arith, e, ltb→lt a x l)))
    | inr l ↦ inl (ground arith)
  ]
]
max_finite_attained a (negsuc x ∷ ds) = elim (max_finite_attained a ds) [
  | inl e ↦ inl e
  | inr (i, e) ↦ inr (suc i, e)
]

-- The distances of a map are those of shortest walks from the goal.
pub record IsMeasured (m : Descriptor) (v : Validated) : Type 0 where
  pub goal : ℕ
  pub start : ℕ
  pub goal_cell : goal ≡ index_of (grid_of m) m.goal_grid_x m.goal_grid_y
  pub start_cell : start ≡ index_of (grid_of m) m.start_grid_x m.start_grid_y
  pub distances : (w : ℕ) → IsDistance (grid_of m) goal w (get_or v.geodesic_distance w (negsuc 0))
  pub steps : ℕ
  pub steps_pos : 0 < steps
  pub shortest : v.shortest_action_steps ≡ pos steps
  pub walk : Walk (grid_of m) goal start steps
  pub least : (n : ℕ) → Walk (grid_of m) goal start n → steps ≤ n
  pub bound :
      (w d : ℕ) → get_or v.geodesic_distance w (negsuc 0) ≡ pos d → d ≤ v.max_finite_distance
  pub attained : (w : ℕ) × (get_or v.geodesic_distance w (negsuc 0) ≡ pos v.max_finite_distance)

some_eq {ℓ} : {A : Type ℓ} {a b : A} → some a ≡ some b → a ≡ b
some_eq e = cc

valid_eq : {v u : Validated} → valid v ≡ valid u → v ≡ u
valid_eq e = cc

-- What `finish` accepts.
record Finished (m : Descriptor) (t : Search) (v : Validated) : Type 0 where
  distance : v.geodesic_distance ≡ t.distance
  steps : v.shortest_action_steps ≡ at t (index_of (grid_of m) m.start_grid_x m.start_grid_y)
  steps_pos : leb_ℤ v.shortest_action_steps (pos 0) ≡ false
  largest : v.max_finite_distance ≡ max_finite 0 t.distance
  largest_pos : (v.max_finite_distance == 0) ≡ false

finish-Finished :
    (m : Descriptor) (t : Search) (v : Validated) → finish m t ≡ valid v → Finished m t v
unfolding finish
finish-Finished m t v h =
    elim (Bool-cases (leb_ℤ (at t (index_of (grid_of m) m.start_grid_x m.start_grid_y)) (pos 0))) [
      | inl e ↦ cc (rw e at h)
      | inr e ↦ elim (Bool-cases (max_finite 0 t.distance == 0)) [
        | inl f ↦ cc (rw (e, f) at h)
        | inr f ↦
            subst (Finished m t) (valid_eq (rw (e, f) at h)) record {
              distance = refl;
              steps = refl;
              steps_pos = e;
              largest = refl;
              largest_pos = f;
            }
      ]
    ]

positive : (z : ℤ) → leb_ℤ z (pos 0) ≡ false → (n : ℕ) × (z ≡ pos n) × (0 < n)
positive (pos n) h = (n, refl, ground (arith, h))
positive (negsuc n) h = absurd (ground (arith, h))

measured :
    (m : Descriptor)
    → walkable (grid_of m) m.goal_grid_x m.goal_grid_y ≡ true
    → (t : Search) → search (grid_of m) (index_of (grid_of m) m.goal_grid_x m.goal_grid_y) ≡ some t
    → (v : Validated) → Finished m t v
    → IsMeasured m v
unfolding IsDistance
measured m open_goal t found v f =
    let g = grid_of m in
    let goal = index_of g m.goal_grid_x m.goal_grid_y in
    let begin = index_of g m.start_grid_x m.start_grid_y in
    let (t', e, far') =
      search-IsDistance g goal (walkable-lt g m.goal_grid_x m.goal_grid_y open_goal) in
    let same : t' ≡ t = some_eq (sym e ∙ found) in
    let far : (w : ℕ) → IsDistance g goal w (at t w) =
      subst (λ x. (w : ℕ) → IsDistance g goal w (at x w)) same far' in
    let (n, p, n_pos) = positive v.shortest_action_steps f.steps_pos in
    let walks : IsDistance g goal begin (pos n) =
      subst (IsDistance g goal begin) (sym f.steps ∙ p) (far begin) in
    record {
      goal = goal;
      start = begin;
      goal_cell = refl;
      start_cell = refl;
      distances =
          subst (λ ds. (w : ℕ) → IsDistance g goal w (get_or ds w (negsuc 0))) (sym f.distance) far;
      steps = n;
      steps_pos = n_pos;
      shortest = p;
      walk = walks.0;
      least = walks.1;
      bound = λ w d h. rw f.largest (
          max_finite_bounds 0 t.distance w d
            (subst (λ ds. get_or ds w (negsuc 0) ≡ pos d) f.distance h));
      attained = elim (max_finite_attained 0 t.distance) [
        | inl z ↦ absurd (ground (arith, z, f.largest, f.largest_pos))
        | inr (i, h) ↦ (
          i,
          subst (λ x. get_or x i (negsuc 0) ≡ pos v.max_finite_distance) (sym f.distance)
              (h ∙ ap pos (sym f.largest)),
        )
      ];
    }

-- Validation returns on every descriptor and name: the search does not run out of fuel.
pub validate_returns : (m : Descriptor) (id : String) → (o : Outcome) × (validate m id ≡ some o)
unfolding validate
validate_returns m id =
    let g = grid_of m in
    elim (Bool-cases (is_empty id || not (str_eq m.map_id id))) [
      | inl e ↦ (invalid "map identity is invalid", rw e refl)
      | inr e ↦ elim (Option-cases (basic_shape_valid m)) [
        | inr (x, f) ↦ (invalid x, rw (e, f) refl)
        | inl f ↦
            elim (Bool-cases (
              not (walkable g m.start_grid_x m.start_grid_y)
              || not (walkable g m.goal_grid_x m.goal_grid_y))) [
                | inl h ↦ (invalid "map blocks the start or goal cell", rw (e, f, h) refl)
                | inr h ↦
                    let (t, found, _) =
                      search-IsDistance g (index_of g m.goal_grid_x m.goal_grid_y)
                        (walkable-lt g m.goal_grid_x m.goal_grid_y (ground (arith, h))) in
                    (finish m t, rw (e, f, h, found) refl)
              ]
      ]
    ]

-- An accepted map has, for every cell, the length of a shortest walk from the goal or -1 when there
-- is none; the steps of the start are positive and those of a shortest walk; and the largest finite
-- distance bounds the distances and is one of them.
pub validate-IsMeasured :
    (m : Descriptor) (id : String) (v : Validated) → validate m id ≡ some (valid v) → IsMeasured m v
unfolding validate
validate-IsMeasured m id v h =
    let g = grid_of m in
    elim (Bool-cases (is_empty id || not (str_eq m.map_id id))) [
      | inl e ↦ cc (rw e at h)
      | inr e ↦ elim (Option-cases (basic_shape_valid m)) [
        | inr (x, f) ↦ cc (rw (e, f) at h)
        | inl f ↦
            elim (Bool-cases (
              not (walkable g m.start_grid_x m.start_grid_y)
              || not (walkable g m.goal_grid_x m.goal_grid_y))) [
                | inl k ↦ cc (rw (e, f, k) at h)
                | inr k ↦ elim (Option-cases (search g (index_of g m.goal_grid_x m.goal_grid_y))) [
                  | inl none_found ↦ cc (rw (e, f, k, none_found) at h)
                  | inr (t, found) ↦
                      measured m (ground (arith, k)) t found v
                        (finish-Finished m t v (some_eq (rw (e, f, k, found) at h)))
                ]
              ]
      ]
    ]
