-- ===== src/Rollout/Projection.antt =====
-- What `ProjectProcessedSegment` (src/task/sample/training_transition_builder.cpp) makes of a
-- segment, described without the tests and the item of its loop.
use Prim.Native.String.{◌++◌ as append}
use rl_aiserver.Common.{
  ℕ, suc, ◌+◌, ◌%◌, ◌^◌, ◌≡◌, inl, inr, refl, ap, subst, String, Bool, true, false, not, ◌&&◌, ◌||◌,
  some, List, [], ◌∷◌, length, get_or, is_nil, is_empty, ◌==◌, arith, Option-cases,
}
use rl_aiserver.Common.Int.{pos, leb_ℤ}
use rl_aiserver.Floats.{Floats}
use rl_aiserver.Rollout.Types.{
  ok, ok_eq, guard_ok, and_then_ok, RawTransition, RolloutConfig, ModelIdentity,
  ProcessedTransition,
}
use rl_aiserver.Rollout.Project.{
  model_step_or_0, has_model_step, sound, links, item_at, project_loop, first_step,
  project_processed_segment,
}
use rl_aiserver.Rollout.Sound.{IsSound, Follows, sound-IsSound, links-Follows, first_same}

model_step-eq :
    (m : ModelIdentity) → has_model_step m ≡ true → m.model_step ≡ some (model_step_or_0 m)
model_step-eq m h = elim (Option-cases m.model_step) [
  | inl e ↦ absurd (ground (arith, h, e))
  | inr (n, e) ↦ rw e refl
]

module _ {f : Floats} (c : RolloutConfig f) where
  module _ (to_string : ℕ → String) (segment_id : String) (model : ModelIdentity)
      (advantages value_targets : List f.Single) where
    -- The item is the one of that transition and index, field by field.
    pub record IsItem (index : ℕ) (raw : RawTransition f) (item : ProcessedTransition f)
        : Type 0 where
      pub id_eq : item.item_id ≡ append segment_id (append "/transition-" (to_string index))
      pub observation_eq : item.item_observation ≡ raw.observation
      pub action_eq : item.item_action ≡ raw.action
      pub log_probability_eq : item.item_log_probability ≡ raw.behavior_log_probability
      pub value_eq : item.item_value ≡ raw.behavior_value
      pub advantage_eq : item.advantage ≡ get_or advantages index f.zero_single
      pub value_target_eq : item.value_target ≡ get_or value_targets index f.zero_single
      pub step_eq : model.model_step ≡ some item.behavior_model_step
      pub created_eq : item.item_created_at_unix_ms ≡ raw.created_at_unix_ms
      pub mask_eq : item.item_mask ≡ raw.action_mask

    -- The items of the transitions, numbered from `index`: each transition is sound, its estimates
    -- are finite and the next transition follows it.
    abbrev pub Projects : ℕ → List (RawTransition f) → List (ProcessedTransition f) → Type 0
    Projects index [] [] = Unit
    Projects index [] (item ∷ items) = ⊥
    Projects index (raw ∷ rest) [] = ⊥
    Projects index (raw ∷ rest) (item ∷ items) =
        IsSound c raw
        × (f.is_finite_single (get_or advantages index f.zero_single) ≡ true)
        × (f.is_finite_single (get_or value_targets index f.zero_single) ≡ true)
        × Follows c raw rest
        × IsItem index raw item
        × Projects (index + 1) rest items

    pub record IsProjection (raws : List (RawTransition f))
        (processed : List (ProcessedTransition f)) : Type 0 where
      pub advantages_size : length advantages ≡ length raws
      pub value_targets_size : length value_targets ≡ length raws
      pub items : Projects 0 raws processed

    pub length-Projects :
        (index : ℕ) (raws : List (RawTransition f)) (items : List (ProcessedTransition f))
        → Projects index raws items
        → length items ≡ length raws
    length-Projects index [] [] p = refl
    length-Projects index [] (item ∷ items) p = absurd p
    length-Projects index (raw ∷ rest) [] p = absurd p
    length-Projects index (raw ∷ rest) (item ∷ items) p =
        ap suc (length-Projects (index + 1) rest items p.5)

    item_at-IsItem :
        (index : ℕ) (raw : RawTransition f)
        → has_model_step model ≡ true
        → IsItem index raw (item_at c to_string segment_id model advantages value_targets index raw)
    item_at-IsItem index raw h = record {
      id_eq = refl;
      observation_eq = refl;
      action_eq = refl;
      log_probability_eq = refl;
      value_eq = refl;
      advantage_eq = refl;
      value_target_eq = refl;
      step_eq = model_step-eq model h;
      created_eq = refl;
      mask_eq = refl;
    }

    parts :
        (a b d e l : Bool)
        → not (a && b && d && e && l) ≡ false
        → (a ≡ true) × (b ≡ true) × (d ≡ true) × (e ≡ true) × (l ≡ true)
    parts a b d e l h = (
      ground (arith, h),
      ground (arith, h),
      ground (arith, h),
      ground (arith, h),
      ground (arith, h),
    )

    project_loop-Projects :
        (index expected : ℕ) (raws : List (RawTransition f))
        (processed : List (ProcessedTransition f))
        → has_model_step model ≡ true
        → project_loop c to_string segment_id model advantages value_targets index expected raws
          ≡ ok processed
        → Projects index raws processed
          × ((y : RawTransition f) (ys : List (RawTransition f))
              → raws ≡ y ∷ ys
              → y.action_step ≡ expected)
    unfolding project_loop
    project_loop-Projects index expected [] processed m h =
        (subst (Projects index []) (ok_eq h) tt, λ y ys e. cc e)
    project_loop-Projects index expected (raw ∷ rest) processed m h =
        let (accept, r) = guard_ok _ _ _ h in
        let (s, e, a, t, l) =
          parts (sound c raw) (raw.action_step == expected)
            (f.is_finite_single (get_or advantages index f.zero_single))
            (f.is_finite_single (get_or value_targets index f.zero_single)) (links c raw rest)
            accept in
        let (ps, q, z) = and_then_ok _ r in
        let (ih, first) = project_loop-Projects (index + 1) ((expected + 1) % 2 ^ 64) rest ps m q in
        let here : raw.action_step ≡ expected = ground (arith, e) in
        (
          subst (Projects index (raw ∷ rest)) (ok_eq z) (
            sound-IsSound c raw s,
            a,
            t,
            links-Follows c raw expected rest here first l,
            item_at-IsItem index raw m,
            ih,
          ),
          λ y ys same. first_same c raw y rest ys expected same here,
        )

    complete :
        (n : Bool) (a v : ℕ) (raws : ℕ) (b c d e : Bool)
        → (n
            || not (a == raws)
            || not (v == raws)
            || b
            || c
            || d
            || e
            || not (has_model_step model))
          ≡ false
        → (a ≡ raws) × (v ≡ raws) × (has_model_step model ≡ true)
    complete n a v raws b c d e h = (ground (arith, h), ground (arith, h), ground (arith, h))

    -- A success is one item for each transition, in order. Each transition has observations of the
    -- configured length with finite entries, an action in range that its mask allows, a creation
    -- time, and a finite reward, log probability and value; its two estimates, of which there is one
    -- for each transition, are finite. The next transition has the next step number and starts from
    -- the observation that this one led to. The item has the segment's id with the transition's
    -- index, the model step, the advantage and the value target at that index, and the transition's
    -- own observation, action, log probability, value, time and mask.
    pub project_processed_segment-IsProjection :
        (raws : List (RawTransition f)) (processed : List (ProcessedTransition f))
        → project_processed_segment c to_string segment_id model advantages value_targets raws
          ≡ ok processed
        → IsProjection raws processed
    unfolding project_processed_segment
    project_processed_segment-IsProjection raws processed h =
        let (guards, r) = guard_ok _ _ _ h in
        let (a, v, m) =
          complete (is_nil raws) (length advantages) (length value_targets) (length raws)
            (is_empty segment_id) (leb_ℤ c.expected_obs_dim (pos 0))
            (leb_ℤ c.expected_action_dim (pos 0)) (is_empty model.model_lineage_id) guards in
        record {
          advantages_size = a;
          value_targets_size = v;
          items =
              (project_loop-Projects 0
                (first_step c to_string segment_id model advantages value_targets raws) raws
                processed m r).0;
        }
