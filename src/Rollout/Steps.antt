-- ===== src/Rollout/Steps.antt =====
-- What the operations of a segment do to an agent (src/task/runtime/training_runtime.tpp).
use rl_aiserver.Common.{
  ◌+◌, ◌%◌, ◌^◌, ◌≤◌, ◌≡◌, refl, sym, ap, ◌∙◌, subst, Bool, true, false, not, List, [], ◌∷◌, ◌++◌,
  some, is_empty, if_elim, arith,
}
use rl_aiserver.Common.Int.{ℤ, to_size}
use rl_aiserver.Floats.{Floats}
use rl_aiserver.Rollout.Types.{
  ok, ok_eq, guard_ok, and_then_ok, map_error_ok, RawTransition, RewardResult, AgentTrainingState,
  RolloutConfig, has_model_identity, is_prepared,
}
use rl_aiserver.Rollout.Build.{follows, build_raw_rollout_transition}
use rl_aiserver.Rollout.Finalize.{
  RewardMetricWindow, note_model, without_pending, with_transition, collect,
  finalize_pending_transition,
}

-- Each step number is the one before plus 1, in 64 bits.
abbrev pub Contiguous : {f : Floats} → List (RawTransition f) → Type 0
Contiguous [] = Unit
Contiguous (x ∷ []) = Unit
Contiguous (x ∷ y ∷ ys) = (y.action_step ≡ (x.action_step + 1) % 2 ^ 64) × Contiguous (y ∷ ys)

-- The pin of an open segment is complete.
pub record IsPinned {f : Floats} (agent : AgentTrainingState f) : Type 0 where
  pub known_model : has_model_identity agent.pinned_model ≡ true
  pub prepared : is_prepared agent.pinned_prepared_model ≡ true
  pub named : is_empty agent.segment_id ≡ false

pub record IsAgent {f : Floats} (agent : AgentTrainingState f) : Type 0 where
  pub open_pinned : agent.segment_open ≡ true → IsPinned agent
  pub closed_empty : agent.segment_open ≡ false → agent.segment_transitions ≡ []
  pub contiguous : Contiguous agent.segment_transitions
  pub model_range :
      agent.minimum_episode_behavior_model_step ≤ agent.maximum_episode_behavior_model_step

Contiguous-append :
    {f : Floats} (xs : List (RawTransition f)) (t : RawTransition f) (frame_id : ℤ)
    → Contiguous xs
    → follows xs frame_id ≡ true
    → t.action_step ≡ to_size frame_id
    → Contiguous (xs ++ (t ∷ []))
unfolding follows
Contiguous-append [] t i c h e = tt
Contiguous-append (x ∷ []) t i c h e = (ground (arith, h, e), tt)
Contiguous-append (x ∷ y ∷ ys) t i c h e = (c.0, Contiguous-append (y ∷ ys) t i c.1 h e)

module _ {f : Floats} (c : RolloutConfig f) where
  build_ok :
      (agent : AgentTrainingState f) (next : List f.Single) (reward : RewardResult f) (now : ℤ)
      (t : RawTransition f)
      → build_raw_rollout_transition c agent next reward now ≡ ok t
      → (follows agent.segment_transitions agent.pending_action_frame_id ≡ true)
        × (t.action_step ≡ to_size agent.pending_action_frame_id)
  unfolding build_raw_rollout_transition
  build_ok agent next reward now t h =
      let (a, r) = guard_ok _ _ _ h in
      let (b, s) = guard_ok _ _ _ r in (ground (arith, b), ap (λ x. x.action_step) (sym (ok_eq s)))

  -- `b` has the segment of `a`.
  abbrev SameSegment : AgentTrainingState f → AgentTrainingState f → Type 0
  SameSegment a b =
      (b.segment_open ≡ a.segment_open)
      × (b.segment_id ≡ a.segment_id)
      × (b.pinned_model ≡ a.pinned_model)
      × (b.pinned_prepared_model ≡ a.pinned_prepared_model)
      × (b.segment_transitions ≡ a.segment_transitions)

  note_ok :
      (a b : AgentTrainingState f)
      → note_model c a ≡ ok b
      → a.minimum_episode_behavior_model_step ≤ a.maximum_episode_behavior_model_step
      → SameSegment a b
        × (b.minimum_episode_behavior_model_step ≤ b.maximum_episode_behavior_model_step)
  unfolding note_model
  note_ok a b h m =
      if_elim
        (λ r.
          r ≡ ok b
          → SameSegment a b
            × (b.minimum_episode_behavior_model_step ≤ b.maximum_episode_behavior_model_step))
        (not a.episode_behavior_model_seen) _ _
        (λ e r. carry (ok_eq r) ((refl, refl, refl, refl, refl), omega arith))
        (λ e r.
          carry (ok_eq (guard_ok _ _ _ r).1) ((refl, refl, refl, refl, refl), ground (arith, m)))
        (guard_ok _ _ _ h).1
    where
      carry :
          {x : AgentTrainingState f}
          → x ≡ b
          → SameSegment a x
            × (x.minimum_episode_behavior_model_step ≤ x.maximum_episode_behavior_model_step)
          → SameSegment a b
            × (b.minimum_episode_behavior_model_step ≤ b.maximum_episode_behavior_model_step)
      carry e p =
          subst
            (λ y.
              SameSegment a y
              × (y.minimum_episode_behavior_model_step ≤ y.maximum_episode_behavior_model_step))
            e p

  -- A transition of the pending action keeps what an agent is.
  extended :
      (a b : AgentTrainingState f) (reward : RewardResult f) (t : RawTransition f)
      → IsAgent a
      → a.segment_open ≡ true
      → follows a.segment_transitions a.pending_action_frame_id ≡ true
      → t.action_step ≡ to_size a.pending_action_frame_id
      → SameSegment a b
      → b.minimum_episode_behavior_model_step ≤ b.maximum_episode_behavior_model_step
      → IsAgent (without_pending c (with_transition c b reward t))
  extended a b reward t h o w e (s_open, s_id, s_model, s_prepared, s_list) m =
      let p = h.open_pinned o in
      record {
        open_pinned = λ z. record {
          known_model = ap has_model_identity s_model ∙ p.known_model;
          prepared = ap is_prepared s_prepared ∙ p.prepared;
          named = ap (λ x. is_empty x) s_id ∙ p.named;
        };
        closed_empty = λ z. cc (z, s_open, o);
        contiguous =
            subst (λ l. Contiguous (l ++ (t ∷ []))) (sym s_list)
              (Contiguous-append a.segment_transitions t a.pending_action_frame_id h.contiguous w
                e);
        model_range = m;
      }

  -- `b` has the pin of `a`.
  abbrev pub SamePin : AgentTrainingState f → AgentTrainingState f → Type 0
  SamePin a b =
      (b.pinned_model ≡ a.pinned_model)
      × (b.pinned_prepared_model ≡ a.pinned_prepared_model)
      × (b.segment_id ≡ a.segment_id)

  abbrev pub Keeps : AgentTrainingState f → AgentTrainingState f → Type 0
  Keeps a b = IsAgent b × SamePin a b

  collect-Keeps :
      (a b : AgentTrainingState f) (w w2 : RewardMetricWindow f) (reward : RewardResult f)
      (next : List f.Single) (now steady : ℤ)
      → IsAgent a
      → collect c a w reward next now steady ≡ ok (b, w2)
      → Keeps a b
  unfolding collect
  collect-Keeps a b w w2 reward next now steady h e =
      let (o, r) = guard_ok _ _ _ e in
      let (t, y, r2) = and_then_ok _ (guard_ok _ _ _ r).1 in
      let (noted, z, r3) = and_then_ok _ r2 in
      let (w1, step_eq) = build_ok a next reward now t (map_error_ok _ _ y) in
      let (same, range) = note_ok a noted z h.model_range in
      let (s_open, s_id, s_model, s_prepared, s_list) = same in
      subst (Keeps a) (ap (λ q. q.0) (ok_eq r3)) (
        extended a noted reward t h (ground (arith, o)) w1 step_eq same range,
        (s_model, s_prepared, s_id),
      )

  pub finalize_pending_transition-Keeps :
      (a b : AgentTrainingState f) (w w2 : RewardMetricWindow f) (reward : RewardResult f)
      (next : List f.Single) (training_sample : Bool) (now steady : ℤ)
      → IsAgent a
      → finalize_pending_transition c (some a) w reward next training_sample now steady ≡ ok (b, w2)
      → Keeps a b
  unfolding finalize_pending_transition
  finalize_pending_transition-Keeps a b w w2 reward next training_sample now steady h =
      if_elim (λ r. r ≡ ok (b, w2) → Keeps a b) (not a.has_pending_action) _ _
        (λ n e. subst (Keeps a) (ap (λ q. q.0) (ok_eq e)) (h, (refl, refl, refl)))
        (λ n.
          if_elim (λ r. r ≡ ok (b, w2) → Keeps a b) training_sample _ _
            (λ s e. collect-Keeps a b w w2 reward next now steady h e)
            (λ s e. subst (Keeps a) (ap (λ q. q.0) (ok_eq e)) (
              record {
                open_pinned = λ z. record {
                  known_model = (h.open_pinned z).known_model;
                  prepared = (h.open_pinned z).prepared;
                  named = (h.open_pinned z).named;
                };
                closed_empty = h.closed_empty;
                contiguous = h.contiguous;
                model_range = h.model_range;
              },
              (refl, refl, refl),
            )))
