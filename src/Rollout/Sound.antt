-- ===== src/Rollout/Sound.antt =====
-- What `ProjectProcessedSegment` (src/task/sample/training_transition_builder.cpp) asks of the
-- transitions of a segment, described without its tests.
use rl_aiserver.Common.{
  ℕ, ◌+◌, ◌%◌, ◌^◌, ◌≡◌, ◌⊎◌, inl, inr, refl, sym, ap, ◌∙◌, str_eq, str_eq_iff, Bool, true, false,
  ◌&&◌, List, [], ◌∷◌, length, get_or, is_nil, any, ◌==◌, All, arith, Bool-cases,
}
use rl_aiserver.Common.Int.{pos, pos_part, ltb_ℤ, leb_ℤ, to_size}
use rl_aiserver.Floats.{Floats, finite_vector}
use rl_aiserver.Rollout.Types.{RawTransition, RolloutConfig}
use rl_aiserver.Rollout.Build.{mask_valid}
use rl_aiserver.Rollout.Project.{vector_eq, sound, links}

module _ {f : Floats} (c : RolloutConfig f) where
  -- What the mask of a transition is, in the two modes of the configuration.
  abbrev pub Allows : RawTransition f → Type 0
  Allows raw =
      ((c.action_mask_mode ≡ "disabled") × (length raw.action_mask ≡ 0))
      ⊎ ((c.action_mask_mode ≡ "required")
          × (length raw.action_mask ≡ to_size c.expected_action_dim)
          × (get_or raw.action_mask (pos_part raw.action) false ≡ true))

  abbrev pub IsFinite : f.Single → Type 0
  IsFinite x = f.is_finite_single x ≡ true

  -- What a transition alone has to fulfil.
  pub record IsSound (raw : RawTransition f) : Type 0 where
    pub observation_size : length raw.observation ≡ to_size c.expected_obs_dim
    pub next_observation_size : length raw.next_observation ≡ to_size c.expected_obs_dim
    pub not_negative : leb_ℤ (pos 0) raw.action ≡ true
    pub in_range : ltb_ℤ raw.action c.expected_action_dim ≡ true
    pub allowed : Allows raw
    pub created : ltb_ℤ (pos 0) raw.created_at_unix_ms ≡ true
    pub finite_observation : All IsFinite raw.observation
    pub finite_next_observation : All IsFinite raw.next_observation
    pub finite_reward : IsFinite raw.reward
    pub finite_log_probability : IsFinite raw.behavior_log_probability
    pub finite_value : IsFinite raw.behavior_value

  -- Two vectors of one length that are equal at every position.
  abbrev pub SameVector : List f.Single → List f.Single → Type 0
  SameVector [] [] = Unit
  SameVector [] (y ∷ ys) = ⊥
  SameVector (x ∷ xs) [] = ⊥
  SameVector (x ∷ xs) (y ∷ ys) = (f.eq_single x y ≡ true) × SameVector xs ys

  -- The next transition, if there is one, has the next step number and starts from the observation
  -- that this one led to.
  abbrev pub Follows : RawTransition f → List (RawTransition f) → Type 0
  Follows raw [] = Unit
  Follows raw (y ∷ ys) =
      (y.action_step ≡ (raw.action_step + 1) % 2 ^ 64)
      × SameVector raw.next_observation y.observation

  vector_eq-SameVector : (xs ys : List f.Single) → vector_eq f xs ys ≡ true → SameVector xs ys
  unfolding vector_eq
  vector_eq-SameVector [] [] h = tt
  vector_eq-SameVector [] (y ∷ ys) h = cc h
  vector_eq-SameVector (x ∷ xs) [] h = cc h
  vector_eq-SameVector (x ∷ xs) (y ∷ ys) h =
      (ground (arith, h), vector_eq-SameVector xs ys (ground (arith, h)))

  pub links-Follows :
      (raw : RawTransition f) (expected : ℕ) (rest : List (RawTransition f))
      → raw.action_step ≡ expected
      → ((y : RawTransition f) (ys : List (RawTransition f))
          → rest ≡ y ∷ ys
          → y.action_step ≡ (expected + 1) % 2 ^ 64)
      → links c raw rest ≡ true
      → Follows raw rest
  links-Follows raw expected [] e next l = tt
  links-Follows raw expected (y ∷ ys) e next l = (
    next y ys refl ∙ ap (λ n. (n + 1) % 2 ^ 64) (sym e),
    vector_eq-SameVector raw.next_observation y.observation l,
  )

  pub first_same :
      (raw y : RawTransition f) (rest ys : List (RawTransition f)) (expected : ℕ)
      → raw ∷ rest ≡ y ∷ ys
      → raw.action_step ≡ expected
      → y.action_step ≡ expected
  first_same raw y rest ys expected same here = ap (λ l. step_or_0 l) (sym same) ∙ here
    where
      step_or_0 : List (RawTransition f) → ℕ
      step_or_0 [] = 0
      step_or_0 (x ∷ xs) = x.action_step

  finite_vector-All : (xs : List f.Single) → finite_vector f xs ≡ true → All IsFinite xs
  finite_vector-All [] h = tt
  finite_vector-All (x ∷ xs) h = (ground (arith, h), finite_vector-All xs (ground (arith, h)))

  mask_valid-Allows :
      (raw : RawTransition f)
      → mask_valid c.action_mask_mode raw.action_mask raw.action c.expected_action_dim ≡ true
      → Allows raw
  unfolding mask_valid
  mask_valid-Allows raw h = elim (Bool-cases (str_eq c.action_mask_mode "disabled")) [
    | inl d ↦ elim (Bool-cases (is_nil raw.action_mask)) [
      | inl n ↦ inl ((str_eq_iff c.action_mask_mode "disabled").0 d, length-nil raw.action_mask n)
      | inr n ↦ inr (required (ground (arith, h, d, n)))
    ]
    | inr d ↦ inr (required (ground (arith, h, d)))
  ]
    where
      length-nil : (m : List Bool) → is_nil m ≡ true → length m ≡ 0
      length-nil [] e = refl
      length-nil (x ∷ xs) e = cc e

      required :
          (str_eq c.action_mask_mode "required"
              && (length raw.action_mask == to_size c.expected_action_dim)
              && any (λ available. available) raw.action_mask
              && leb_ℤ (pos 0) raw.action
              && ltb_ℤ raw.action c.expected_action_dim
              && get_or raw.action_mask (pos_part raw.action) false)
            ≡ true
          → (c.action_mask_mode ≡ "required")
            × (length raw.action_mask ≡ to_size c.expected_action_dim)
            × (get_or raw.action_mask (pos_part raw.action) false ≡ true)
      required e = (
        (str_eq_iff c.action_mask_mode "required").0 (ground (arith, e)),
        ground (arith, e),
        ground (arith, e),
      )

  pub sound-IsSound : (raw : RawTransition f) → sound c raw ≡ true → IsSound raw
  unfolding sound
  sound-IsSound raw h = record {
    observation_size = ground (arith, h);
    next_observation_size = ground (arith, h);
    not_negative = ground (arith, h);
    in_range = ground (arith, h);
    allowed = mask_valid-Allows raw (ground (arith, h));
    created = ground (arith, h);
    finite_observation = finite_vector-All raw.observation (ground (arith, h));
    finite_next_observation = finite_vector-All raw.next_observation (ground (arith, h));
    finite_reward = ground (arith, h);
    finite_log_probability = ground (arith, h);
    finite_value = ground (arith, h);
  }
