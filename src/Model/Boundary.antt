-- ===== src/Model/Boundary.antt =====
-- The fragment boundary (src/task/model/model_boundary.h, src/task/model/fragment_boundary.h).
use native.Mathlib.Nat.{add-mod_right, mod-add-mod, mod_self, mod-lt, mod-add-div}
use rl_aiserver.Common.{
  ℕ, ◌+◌, ◌-◌, ◌*◌, ◌/◌, ◌%◌, ◌<◌, ◌≡◌, ◌⊎◌, inl, inr, refl, sym, ap, ◌∙◌, Bool, true, false, not,
  ◌||◌, List, [], ◌∷◌, Option, none, some, ltb, leb, ◌==◌, if◌then◌else◌, if_elim, arith,
}
use rl_aiserver.Common.Int.{ℤ, pos, pos_part, ltb_ℤ, leb_ℤ, to_size}

unfoldable pub should_fetch_model_candidate : ℕ → Option ℕ → ℕ → Bool
should_fetch_model_candidate active_step (some staged) latest_step = false
should_fetch_model_candidate active_step none latest_step = ltb active_step latest_step

unfoldable pub should_flush_agent_fragment : ℕ → ℤ → Bool → Bool
should_flush_agent_fragment cached_samples configured staged_model_waiting =
    if (cached_samples == 0) || leb_ℤ configured (pos 0)
    then false
    else leb (to_size configured) cached_samples || staged_model_waiting

-- `samples_to_boundary`.
unfoldable pub samples_to_boundary : ℕ → ℕ → ℕ
samples_to_boundary active quantum =
    if active % quantum == 0 then quantum else quantum - active % quantum

-- The part of the function in which every number is positive.
unfoldable pub select_in_quantum : ℕ → ℕ → ℕ → ℤ → ℤ
select_in_quantum active quantum agent_num configured =
    let boundary = samples_to_boundary active quantum in
    let candidate = boundary / agent_num in
    if not (boundary % agent_num == 0)
    then configured
    else if (candidate == 0) || ltb_ℤ configured (pos candidate)
    then configured
    else pos candidate

unfoldable pub select_per_agent_fragment_samples : ℤ → ℤ → ℤ → ℤ → Bool → ℤ
select_per_agent_fragment_samples active quantum agent_num configured all_agents_active =
    if not all_agents_active
      || ltb_ℤ active (pos 0)
      || leb_ℤ quantum (pos 0)
      || leb_ℤ agent_num (pos 0)
      || leb_ℤ configured (pos 0)
    then configured
    else select_in_quantum (pos_part active) (pos_part quantum) (pos_part agent_num) configured

-- `FragmentBoundaryState`.
pub record FragmentBoundaryState : Type 0 where
  pub has_pending_action : Bool
  pub has_cached_samples : Bool
  pub has_pending_batch : Bool

unfoldable pub all_local_agents_at_fragment_boundary : List FragmentBoundaryState → Bool
all_local_agents_at_fragment_boundary [] = true
all_local_agents_at_fragment_boundary (a ∷ agents) =
    let rest = all_local_agents_at_fragment_boundary agents in
    if a.has_pending_action || a.has_cached_samples || a.has_pending_batch then false else rest

-- The two results: the configured number, or an exact share that is positive and not larger.
select_in_quantum_cases :
    (P : ℤ → Type 0) (active quantum agent_num : ℕ) (configured : ℤ)
    → P configured
    → ((candidate : ℕ)
        → candidate ≡ samples_to_boundary active quantum / agent_num
        → samples_to_boundary active quantum % agent_num ≡ 0
        → ltb_ℤ (pos 0) (pos candidate) ≡ true
        → leb_ℤ (pos candidate) configured ≡ true
        → P (pos candidate))
    → P (select_in_quantum active quantum agent_num configured)
unfolding select_in_quantum
select_in_quantum_cases P active quantum agent_num configured whole share =
    let boundary = samples_to_boundary active quantum in
    let candidate = boundary / agent_num in
    if_elim P (not (boundary % agent_num == 0)) _ _ (λ e. whole)
      (λ e.
        if_elim P ((candidate == 0) || ltb_ℤ configured (pos candidate)) configured (pos candidate)
          (λ e2. whole)
          (λ e2.
            share candidate refl (ground (arith, e)) (ground (arith, e2)) (ground (arith, e2))))

-- The selected number is positive and at most the configured one, when that is positive.
pub select_per_agent_fragment_samples_bounds :
    (active quantum agent_num configured : ℤ) (all_agents_active : Bool)
    → ltb_ℤ (pos 0) configured ≡ true
    → (ltb_ℤ
          (pos 0)
          (select_per_agent_fragment_samples active quantum agent_num configured all_agents_active)
        ≡ true)
      × (leb_ℤ
            (select_per_agent_fragment_samples active quantum agent_num configured
              all_agents_active)
            configured
          ≡ true)
unfolding select_per_agent_fragment_samples
select_per_agent_fragment_samples_bounds active quantum agent_num configured all_agents_active h =
    if_elim P _ _ _ (λ e. whole)
      (λ e.
        select_in_quantum_cases P (pos_part active) (pos_part quantum) (pos_part agent_num)
          configured whole (λ n a b l u. (l, u)))
  where
    P : ℤ → Type 0
    P r = (ltb_ℤ (pos 0) r ≡ true) × (leb_ℤ r configured ≡ true)

    whole : P configured
    whole = (h, ground arith)

-- Adding the samples that are left to the boundary makes a multiple of the quantum.
to_boundary :
    (active quantum : ℕ) → 0 < quantum → (active + samples_to_boundary active quantum) % quantum ≡ 0
unfolding samples_to_boundary
to_boundary active quantum h =
    if_elim (λ b. (active + b) % quantum ≡ 0) (active % quantum == 0) _ _
      (λ e. add-mod_right active quantum ∙ ground (arith, e))
      (λ e.
        sym (mod-add-mod active quantum (quantum - active % quantum))
        ∙ ap (λ k. k % quantum) (omega (arith, mod-lt active h))
        ∙ mod_self quantum)

-- For an active sample count, a number of agents and a configured number that are at least 0, and a
-- positive quantum: either the configured number is selected, or the samples that all agents cache
-- with the selected number each take the count to a multiple of the quantum.
pub select_per_agent_fragment_samples_reaches :
    (active quantum agent_num configured : ℕ) (all_agents_active : Bool)
    → 0 < quantum
    → (select_per_agent_fragment_samples
          (pos active)
          (pos quantum)
          (pos agent_num)
          (pos configured)
          all_agents_active
        ≡ pos configured)
      ⊎ ((active
              + agent_num
                * pos_part (
                    select_per_agent_fragment_samples
                      (pos active)
                      (pos quantum)
                      (pos agent_num)
                      (pos configured)
                      all_agents_active))
            % quantum
          ≡ 0)
unfolding select_per_agent_fragment_samples
select_per_agent_fragment_samples_reaches active quantum agent_num configured all_agents_active h =
    if_elim P _ _ _ (λ e. inl refl)
      (λ e.
        select_in_quantum_cases P active quantum agent_num (pos configured) (inl refl)
          (λ n same divides l u. inr (reached n same divides)))
  where
    P : ℤ → Type 0
    P x = (x ≡ pos configured) ⊎ ((active + agent_num * pos_part x) % quantum ≡ 0)

    reached :
        (n : ℕ)
        → n ≡ samples_to_boundary active quantum / agent_num
        → samples_to_boundary active quantum % agent_num ≡ 0
        → (active + agent_num * n) % quantum ≡ 0
    reached n same divides =
        let whole = mod-add-div (samples_to_boundary active quantum) agent_num in
        let product : agent_num * n ≡ agent_num * (samples_to_boundary active quantum / agent_num) =
          ap (λ k. agent_num * k) same in
        ap (λ k. (active + k) % quantum) (omega (arith, whole, divides, product))
        ∙ to_boundary active quantum h
