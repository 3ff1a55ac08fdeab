-- ===== src/Rollout/Estimate.antt =====
-- `EstimateRolloutSegment` (src/task/sample/training_transition_builder.cpp): the loop from the
-- segment's end, and the recursive definition of the advantage.
use rl_aiserver.Common.{
  ℕ, zero, suc, ◌≤◌, ◌<◌, ◌≡◌, ◌⊎◌, inl, inr, refl, sym, ap, ◌∙◌, subst, Bool, true, false, not,
  ◌&&◌, ◌||◌, List, [], ◌∷◌, length, get_or, set, drop, replicate, is_nil, length-set,
  get_or-set_same, get_or-set_other, drop-cons, drop-length, length-replicate, ltb, Bool-cases,
  arith,
}
use rl_aiserver.Floats.{Floats}
use rl_aiserver.Rollout.Types.{Result, refuse_if, ok, ok_eq, guard_ok, RawTransition, raw_default}

-- The two vectors that the function writes.
pub record Estimates (f : Floats) : Type 0 where
  pub advantages : List f.Single
  pub value_targets : List f.Single

module _ (f : Floats) (gamma gae_lambda final_next_value : f.Double) where
  -- `delta`.
  abbrev pub delta : RawTransition f → f.Double → f.Double
  delta transition next_value =
      f.sub (f.add (f.widen transition.reward) (f.mul gamma next_value))
        (f.widen transition.behavior_value)

  -- `advantage`.
  abbrev pub discounted : f.Double → f.Double → f.Double
  discounted d next_advantage = f.add d (f.mul (f.mul gamma gae_lambda) next_advantage)

  abbrev pub in_float_range : f.Double → Bool
  in_float_range x = f.is_finite x && not (f.lt x f.neg_float_max) && not (f.lt f.float_max x)

  -- The loop, with `reverse` iterations left.
  unfoldable pub estimate_loop :
      List (RawTransition f) → ℕ → f.Double → f.Double → Estimates f → Result (Estimates f)
  estimate_loop segment zero next_advantage next_value e = ok e
  estimate_loop segment (suc index) next_advantage next_value e =
      let transition = get_or segment index (raw_default f) in
      let d = delta transition next_value in
      let a = discounted d next_advantage in
      let target = f.add a (f.widen transition.behavior_value) in
      refuse_if
        (not (f.is_finite_single transition.reward && f.is_finite_single transition.behavior_value))
        "rollout segment contains a non-finite scalar"
        (refuse_if (not (f.is_finite d && in_float_range a && in_float_range target))
          "rollout estimator produced a non-finite float result"
          (estimate_loop segment index a (f.widen transition.behavior_value) (record {
            advantages = set e.advantages index (f.narrow a);
            value_targets = set e.value_targets index (f.narrow target);
          })))

  unfoldable pub estimate_rollout_segment : List (RawTransition f) → Result (Estimates f)
  estimate_rollout_segment segment =
      refuse_if
        (is_nil segment
          || not (f.is_finite gamma && f.is_finite gae_lambda && f.is_finite final_next_value))
        "rollout estimator inputs are empty or non-finite"
        (estimate_loop segment (length segment) f.zero final_next_value (record {
          advantages = replicate (length segment) f.zero_single;
          value_targets = replicate (length segment) f.zero_single;
        }))

  -- The value after a transition: that of the next one, or the bootstrap value.
  unfoldable pub value_after : List (RawTransition f) → f.Double
  value_after [] = final_next_value
  value_after (x ∷ xs) = f.widen x.behavior_value

  -- The generalised advantage of the first transition, by recursion on the segment.
  unfoldable pub advantage_of : List (RawTransition f) → f.Double
  advantage_of [] = f.zero
  advantage_of (x ∷ xs) =
      f.add
        (f.sub (f.add (f.widen x.reward) (f.mul gamma (value_after xs))) (f.widen x.behavior_value))
        (f.mul (f.mul gamma gae_lambda) (advantage_of xs))

  -- A double that is finite and not outside the range of a float.
  abbrev pub InRange : f.Double → Type 0
  InRange x =
      (f.is_finite x ≡ true) × (f.lt x f.neg_float_max ≡ false) × (f.lt f.float_max x ≡ false)

  -- The estimates at positions from `k` on are the recursive ones, for finite scalars and in range.
  pub record Filled (segment : List (RawTransition f)) (k : ℕ) (e : Estimates f) : Type 0 where
    pub sizes : (length e.advantages ≡ length segment) × (length e.value_targets ≡ length segment)
    pub advantage_at :
        (i : ℕ)
        → k ≤ i
        → i < length segment
        → get_or e.advantages i f.zero_single ≡ f.narrow (advantage_of (drop segment i))
    pub target_at :
        (i : ℕ)
        → k ≤ i
        → i < length segment
        → get_or e.value_targets i f.zero_single
          ≡ f.narrow (
              f.add
                (advantage_of (drop segment i))
                (f.widen (get_or segment i (raw_default f)).behavior_value))
    pub ranged :
        (i : ℕ)
        → k ≤ i
        → i < length segment
        → InRange (advantage_of (drop segment i))
          × InRange (
              f.add
                (advantage_of (drop segment i))
                (f.widen (get_or segment i (raw_default f)).behavior_value))

  abbrev pub IsEstimate : List (RawTransition f) → Estimates f → Type 0
  IsEstimate segment e = Filled segment 0 e

  Filled-next :
      (segment : List (RawTransition f)) (k : ℕ) (a target : f.Double) (e : Estimates f)
      → k < length segment
      → Filled segment (suc k) e
      → a ≡ advantage_of (drop segment k)
      → target ≡ f.add a (f.widen (get_or segment k (raw_default f)).behavior_value)
      → InRange a
      → InRange target
      → Filled segment k (record {
        advantages = set e.advantages k (f.narrow a);
        value_targets = set e.value_targets k (f.narrow target);
      })
  Filled-next segment k a target e h p at_k target_k in_a in_target = record {
    sizes = (
      length-set e.advantages k (f.narrow a) ∙ p.sizes.0,
      length-set e.value_targets k (f.narrow target) ∙ p.sizes.1,
    );
    advantage_at = λ i l u. elim (split i l) [
      | inl q ↦
          subst
            (λ j.
              get_or (set e.advantages k (f.narrow a)) j f.zero_single
              ≡ f.narrow (advantage_of (drop segment j)))
            q
            (get_or-set_same e.advantages k (f.narrow a) f.zero_single (omega (arith, h, p.sizes.0))
              ∙ ap f.narrow at_k)
      | inr q ↦
          get_or-set_other e.advantages k i (f.narrow a) f.zero_single
            (λ z. absurd (omega (arith, z, q)))
          ∙ p.advantage_at i q u
    ];
    target_at = λ i l u. elim (split i l) [
      | inl q ↦
          subst
            (λ j.
              get_or (set e.value_targets k (f.narrow target)) j f.zero_single
              ≡ f.narrow (
                  f.add (advantage_of (drop segment j))
                    (f.widen (get_or segment j (raw_default f)).behavior_value)))
            q
            (get_or-set_same e.value_targets k (f.narrow target) f.zero_single
                (omega (arith, h, p.sizes.1))
              ∙ ap f.narrow (
                  target_k
                  ∙ ap (λ z. f.add z (f.widen (get_or segment k (raw_default f)).behavior_value))
                      at_k))
      | inr q ↦
          get_or-set_other e.value_targets k i (f.narrow target) f.zero_single
            (λ z. absurd (omega (arith, z, q)))
          ∙ p.target_at i q u
    ];
    ranged = λ i l u. elim (split i l) [
      | inl q ↦
          subst
            (λ j.
              InRange (advantage_of (drop segment j))
              × InRange (
                  f.add (advantage_of (drop segment j))
                    (f.widen (get_or segment j (raw_default f)).behavior_value)))
            q
            (
              subst InRange at_k in_a,
              subst InRange
                  (target_k
                    ∙ ap (λ z. f.add z (f.widen (get_or segment k (raw_default f)).behavior_value))
                        at_k)
                  in_target,
            )
      | inr q ↦ p.ranged i q u
    ];
  }
    where
      split : (i : ℕ) → k ≤ i → (k ≡ i) ⊎ (suc k ≤ i)
      split i l = elim (Bool-cases (ltb k i)) [
        | inl e ↦ inr (ground (arith, e))
        | inr e ↦ inl (ground (arith, e))
      ]

  in_float_range-InRange : (x : f.Double) → in_float_range x ≡ true → InRange x
  in_float_range-InRange x h = (ground (arith, h), ground (arith, h), ground (arith, h))

  estimate_loop-Filled :
      (segment : List (RawTransition f)) (k : ℕ) (e e2 : Estimates f)
      → k ≤ length segment
      → Filled segment k e
      → estimate_loop segment k (advantage_of (drop segment k)) (value_after (drop segment k)) e
        ≡ ok e2
      → Filled segment 0 e2
  unfolding estimate_loop advantage_of value_after
  estimate_loop-Filled segment zero e e2 h p r = subst (Filled segment 0) (ok_eq r) p
  estimate_loop-Filled segment (suc k) e e2 h p r =
      let x = get_or segment k (raw_default f) in
      let d = delta x (value_after (drop segment (suc k))) in
      let a = discounted d (advantage_of (drop segment (suc k))) in
      let same = drop-cons segment k (raw_default f) (omega arith) in
      let (finite, r1) = guard_ok _ _ _ r in
      let (range, r2) = guard_ok _ _ _ r1 in
      let (in_d, in_b, in_c) = in_range (f.is_finite d) (in_float_range a) _ range in
      let e3 : Estimates f = record {
        advantages = set e.advantages k (f.narrow a);
        value_targets = set e.value_targets k (f.narrow (f.add a (f.widen x.behavior_value)));
      } in
      estimate_loop-Filled segment k e3 e2 (omega (arith, h))
        (Filled-next segment k a (f.add a (f.widen x.behavior_value)) e (omega (arith, h)) p
          (sym (ap advantage_of same)) refl (in_float_range-InRange _ in_b)
          (in_float_range-InRange _ in_c))
        (ap (λ l. estimate_loop segment k (advantage_of l) (value_after l) e3) same ∙ r2)
    where
      in_range : (b c d : Bool) → not (b && c && d) ≡ false → (b ≡ true) × (c ≡ true) × (d ≡ true)
      in_range true true true h = (refl, refl, refl)
      in_range true true false h = cc h
      in_range true false d h = cc h
      in_range false c d h = cc h

  -- When the function succeeds on a segment, both vectors have one entry for each transition: the
  -- float of the generalised advantage of the segment from that transition on, and the float of this
  -- advantage plus the transition's value. Here the advantage of a transition is its reward plus
  -- `gamma` times the value after it less its own value, plus `gamma * gae_lambda` times the
  -- advantage of the next one. Every such advantage and sum is finite and in the range of a float.
  pub estimate_rollout_segment-IsEstimate :
      (segment : List (RawTransition f)) (e : Estimates f)
      → estimate_rollout_segment segment ≡ ok e
      → IsEstimate segment e
  unfolding estimate_rollout_segment advantage_of value_after
  estimate_rollout_segment-IsEstimate segment e h =
      let (some_transition, r) = guard_ok _ _ _ h in
      let n = length segment in
      estimate_loop-Filled segment n blank e (omega arith) blank_Filled (
        ap (λ l. estimate_loop segment n (advantage_of l) (value_after l) blank)
          (drop-length segment)
        ∙ r)
    where
      blank : Estimates f
      blank = record {
        advantages = replicate (length segment) f.zero_single;
        value_targets = replicate (length segment) f.zero_single;
      }

      blank_Filled : Filled segment (length segment) blank
      blank_Filled = record {
        sizes = (
          length-replicate (length segment) f.zero_single,
          length-replicate (length segment) f.zero_single,
        );
        advantage_at = λ i l u. absurd (omega (arith, l, u));
        target_at = λ i l u. absurd (omega (arith, l, u));
        ranged = λ i l u. absurd (omega (arith, l, u));
      }
