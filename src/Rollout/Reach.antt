-- ===== src/Rollout/Reach.antt =====
-- The life of an agent's segment as a step relation.
use Prim.Native.String.{count}
use text.Mathlib.TextLemmas.{append-eq-nil_iff}
use text.Mathlib.TextEquality.{eq_iff}
use rl_aiserver.Common.{
  ℕ, ◌≤◌, ◌≡◌, ◌≢◌, ◌⊎◌, inl, inr, refl, sym, ap, ◌∙◌, subst, String, Bool, true, false, List, [],
  Option, none, some, is_empty, if_elim, if_true, if_false, Bool-cases, arith,
}
use rl_aiserver.Common.Int.{ℤ}
use rl_aiserver.Floats.{Floats}
use rl_aiserver.Policy.Select.{
  PolicyMode, training, evaluation, unspecified, Sampler, Selected, refused, selected,
}
use rl_aiserver.Rollout.Types.{
  Result, error, ok, ok_eq, guard_ok, RewardResult, AgentTrainingState, RolloutConfig,
  ModelManifest, PreparedModel, Envelope, ServiceIdentity, SegmentCloseReason, has_model_identity,
  is_prepared, reset_for_episode,
}
use rl_aiserver.Rollout.Pin.{
  Counters, Place, Prepared, segment_text, ensure_agent_segment_pin, with_pending, store_action,
  act, act_pinned, select_and_store, prepare_model_action,
}
use rl_aiserver.Rollout.Finalize.{RewardMetricWindow, finalize_pending_transition, without_pending}
use rl_aiserver.Rollout.Close.{
  Produced, Discarded, released, prepare_agent_segment_close, discard_agent_segment,
}
use rl_aiserver.Rollout.Produce.{some_eq, close_ok}
use rl_aiserver.Rollout.Steps.{Contiguous, IsAgent, SamePin, finalize_pending_transition-Keeps}

-- A state without a segment.
released-IsAgent :
    {f : Floats} (a : AgentTrainingState f)
    → a.segment_open ≡ false
    → a.segment_transitions ≡ []
    → a.minimum_episode_behavior_model_step ≤ a.maximum_episode_behavior_model_step
    → IsAgent a
released-IsAgent a o e m = record {
  open_pinned = λ z. cc (z, o);
  closed_empty = λ z. e;
  contiguous = subst Contiguous (sym e) tt;
  model_range = m;
}

module _ {f : Floats} (c : RolloutConfig f) (to_string : ℕ → String)
    (int_to_string : ℤ → String) where
  named_segment :
      (p : Place) (n : ℕ) → is_empty (segment_text c to_string int_to_string p n) ≡ false
  named_segment p n = elim (Bool-cases (is_empty (segment_text c to_string int_to_string p n))) [
    | inl e ↦ absurd (slash (append-eq-nil_iff.0 (append-eq-nil_iff.0 ((eq_iff _ _).0 e)).1).0)
    | inr e ↦ e
  ]
    where
      slash : ◌≢◌ {A = String} "/" ""
      slash z = absurd (omega (arith, ap count z))

  -- Either the segment was open and nothing changes, or it is opened.
  ensure_ok :
      (p : Place) (m : ModelManifest) (q : PreparedModel) (a b : AgentTrainingState f)
      (n n2 : Counters)
      → ensure_agent_segment_pin c to_string int_to_string p m q a n ≡ ok (b, n2)
      → ((a.segment_open ≡ true) × (b ≡ a))
        ⊎ ((a.segment_open ≡ false)
            × (b ≡ record a {
              segment_open = true;
              segment_id = segment_text c to_string int_to_string p n.next_segment_sequence;
              pinned_model = m;
              pinned_prepared_model = q;
              segment_transitions = [];
            })
            × (has_model_identity m ≡ true)
            × (is_prepared q ≡ true))
  unfolding ensure_agent_segment_pin
  ensure_ok p m q a b n n2 e = elim (Bool-cases a.segment_open) [
    | inl o ↦ inl (o, sym (ap (λ x. x.0) (ok_eq (guard_ok _ _ _ (sym (if_true _ _ _ o) ∙ e)).1)))
    | inr o ↦
        let (known, r) = guard_ok _ _ _ (sym (if_false _ _ _ o) ∙ e) in
        let (ready, r2) = guard_ok _ _ _ r in
        let (positive, r3) = guard_ok _ _ _ r2 in
        inr (o, sym (ap (λ x. x.0) (ok_eq r3)), ground (arith, known), ground (arith, ready))
  ]

  ensure_agent_segment_pin-IsAgent :
      (p : Place) (m : ModelManifest) (q : PreparedModel) (a b : AgentTrainingState f)
      (n n2 : Counters)
      → IsAgent a
      → ensure_agent_segment_pin c to_string int_to_string p m q a n ≡ ok (b, n2)
      → IsAgent b
  ensure_agent_segment_pin-IsAgent p m q a b n n2 h e = elim (ensure_ok p m q a b n n2 e) [
    | inl (o, same) ↦ subst IsAgent (sym same) h
    | inr (o, same, known, ready) ↦ subst IsAgent (sym same) (record {
      open_pinned = λ z. record {
        known_model = known;
        prepared = ready;
        named = named_segment p n.next_segment_sequence;
      };
      closed_empty = λ z. refl;
      contiguous = tt;
      model_range = h.model_range;
    })
  ]

  module _ (infer : PreparedModel → List f.Single → Result (List f.Single × f.Single))
      (r : Sampler f) where
    module _ (P : AgentTrainingState f → Type 0) (mode : PolicyMode) (obs : List f.Single)
        (frame_id : ℤ) (mask : List Bool) where
      -- Running a model changes the pending action only.
      abbrev Stored : AgentTrainingState f → Type 0
      Stored a =
          (action : ℕ) (log_prob value : f.Single)
          → P (
              with_pending c to_string int_to_string infer a obs mask frame_id action log_prob
                value)

      store_agent :
          (a : AgentTrainingState f) (n : Counters) (value : f.Single) (g : r.Generator)
          (s : Selected f)
          → P a
          → Stored a
          → P
              (store_action c to_string int_to_string infer r mode obs frame_id mask a n value g
                s).agent
      unfolding store_action
      store_agent a n value g (refused e) h k = h
      store_agent a n value g (selected action log_prob) h k =
          if_elim {A = Prepared c to_string int_to_string infer r} (λ x. P x.agent)
            a.has_pending_action _ _ (λ e. h) (λ e. k action log_prob value)

      select_agent :
          (a : AgentTrainingState f) (n : Counters) (g : r.Generator) (o : List f.Single × f.Single)
          (v : Option String)
          → P a
          → Stored a
          → P
              (select_and_store c to_string int_to_string infer r mode obs frame_id mask a n g o
                v).agent
      unfolding select_and_store
      select_agent a n g o (some e) h k = h
      select_agent a n g o none h k = store_agent a n o.1 _ _ h k

      act_agent :
          (a : AgentTrainingState f) (n : Counters) (g : r.Generator)
          (output : Result (List f.Single × f.Single))
          → P a
          → Stored a
          → P (act c to_string int_to_string infer r mode obs frame_id mask a n g output).agent
      unfolding act
      act_agent a n g (error e) h k = h
      act_agent a n g (ok o) h k = select_agent a n g o _ h k

      act_pinned_agent :
          (a : AgentTrainingState f) (n : Counters) (g : r.Generator)
          (s : Result (AgentTrainingState f × Counters))
          → P a
          → ((b : AgentTrainingState f) (n2 : Counters) → s ≡ ok (b, n2) → P b × Stored b)
          → P (act_pinned c to_string int_to_string infer r mode obs frame_id mask a n g s).agent
      unfolding act_pinned
      act_pinned_agent a n g (error e) h k = h
      act_pinned_agent a n g (ok s) h k = let (p, q) = k s.0 s.1 refl in act_agent s.0 s.1 g _ p q

    -- A property of agents that the pin and a new pending action keep is kept on every path.
    prepare_agent :
        (P : AgentTrainingState f → Type 0) (mode : PolicyMode) (obs : List f.Single) (frame_id : ℤ)
        (mask : List Bool) (p : Place) (m : ModelManifest) (q active : PreparedModel)
        (a : AgentTrainingState f) (n : Counters) (g : r.Generator)
        → P a
        → ((b : AgentTrainingState f) → P b → Stored P mode obs frame_id mask b)
        → ((b : AgentTrainingState f) (n2 : Counters)
            → ensure_agent_segment_pin c to_string int_to_string p m q a n ≡ ok (b, n2)
            → P b)
        → P
            (prepare_model_action c to_string int_to_string infer r mode obs frame_id mask p m q
              active a n g).agent
    unfolding prepare_model_action
    prepare_agent P training obs frame_id mask p m q active a n g h k e =
        act_pinned_agent P training obs frame_id mask a n g _ h
          (λ b n2 z. (e b n2 z, k b (e b n2 z)))
    prepare_agent P evaluation obs frame_id mask p m q active a n g h k e =
        act_agent P evaluation obs frame_id mask a n g _ h (k a h)
    prepare_agent P unspecified obs frame_id mask p m q active a n g h k e =
        act_agent P unspecified obs frame_id mask a n g _ h (k a h)

    module _ (byte_size : Envelope f → ℕ) (producer : ServiceIdentity) where
      -- One operation on an agent.
      pub data Step : AgentTrainingState f → AgentTrainingState f → Type 0 where
        resets : (a : AgentTrainingState f) → Step a (reset_for_episode a)
        acts :
            (mode : PolicyMode) (obs : List f.Single) (frame_id : ℤ) (mask : List Bool) (p : Place)
            (m : ModelManifest) (q active : PreparedModel) (a : AgentTrainingState f) (n : Counters)
            (g : r.Generator)
            → Step a
                (prepare_model_action c to_string int_to_string infer r mode obs frame_id mask p m q
                  active a n g).agent
        finalizes :
            (a b : AgentTrainingState f) (w w2 : RewardMetricWindow f) (reward : RewardResult f)
            (next : List f.Single) (training_sample : Bool) (now steady : ℤ)
            → finalize_pending_transition c (some a) w reward next training_sample now steady
              ≡ ok (b, w2)
            → Step a b
        closes :
            (a b : AgentTrainingState f) (reason : SegmentCloseReason) (bootstrap_value : f.Single)
            (bootstrap_applied : Bool) (out out2 : Produced f)
            → prepare_agent_segment_close c to_string byte_size producer
                (some a)
                reason
                bootstrap_value
                bootstrap_applied
                out
              ≡ some (ok (b, out2))
            → Step a b
        discards :
            (a b : AgentTrainingState f) (reason : SegmentCloseReason) (exclude : Bool)
            (d : Discarded)
            → (discard_agent_segment (some a) reason exclude d).0 ≡ some b
            → Step a b

      pub data Reachable : AgentTrainingState f → Type 0 where
        created : (a : AgentTrainingState f) → Reachable (reset_for_episode a)
        then_step : {a b : AgentTrainingState f} → Reachable a → Step a b → Reachable b

      Step-IsAgent : {a b : AgentTrainingState f} → Step a b → IsAgent a → IsAgent b
      unfolding reset_for_episode discard_agent_segment
      Step-IsAgent (resets a) h = released-IsAgent (reset_for_episode a) refl refl (omega arith)
      Step-IsAgent (acts mode obs frame_id mask p m q active a n g) h =
          prepare_agent IsAgent mode obs frame_id mask p m q active a n g h
            (λ b x action log_prob value. record {
              open_pinned = λ z. record {
                known_model = (x.open_pinned z).known_model;
                prepared = (x.open_pinned z).prepared;
                named = (x.open_pinned z).named;
              };
              closed_empty = x.closed_empty;
              contiguous = x.contiguous;
              model_range = x.model_range;
            })
            (λ b n2 z. ensure_agent_segment_pin-IsAgent p m q a b n n2 h z)
      Step-IsAgent (finalizes a b w w2 reward next t now steady e) h =
          (finalize_pending_transition-Keeps c a b w w2 reward next t now steady h e).0
      Step-IsAgent (closes a b reason v applied out out2 e) h =
          let (es, k, gone, grown) =
            close_ok c to_string byte_size producer a b reason v applied out out2 e in
          subst IsAgent (sym gone) (released-IsAgent (released a) refl refl h.model_range)
      Step-IsAgent (discards a b reason exclude d e) h =
          subst IsAgent (some_eq e)
            (released-IsAgent (released (without_pending c a)) refl refl h.model_range)

      -- In every state that the operations reach from a new episode: an open segment is pinned to a
      -- model with an identity and a prepared session, and has a name; an agent without a segment
      -- holds no transition; the step numbers of the segment's transitions are contiguous; and the
      -- smallest behaviour model step of the episode is at most its largest.
      pub Reachable-IsAgent : (a : AgentTrainingState f) → Reachable a → IsAgent a
      unfolding reset_for_episode
      Reachable-IsAgent a (created b) =
          released-IsAgent (reset_for_episode b) refl refl (omega arith)
      Reachable-IsAgent a (then_step p s) = Step-IsAgent s (Reachable-IsAgent _ p)

      -- As long as the segment of a reachable agent stays open, each operation leaves the pinned
      -- model, its prepared session and the segment's name as they are.
      pub Step-SamePin :
          (a b : AgentTrainingState f)
          → Reachable a
          → Step a b
          → a.segment_open ≡ true
          → b.segment_open ≡ true
          → SamePin c a b
      unfolding reset_for_episode discard_agent_segment
      Step-SamePin a b h (resets x) o p = cc p
      Step-SamePin a b h (acts mode obs frame_id mask p m q active x n g) o z =
          prepare_agent (SamePin c a) mode obs frame_id mask p m q active a n g (refl, refl, refl)
            (λ y s action log_prob value. s)
            (λ y n2 e. elim (ensure_ok p m q a y n n2 e) [
              | inl (o2, same) ↦ subst (SamePin c a) (sym same) (refl, refl, refl)
              | inr (o2, r1, r2, r3) ↦ absurd (cc (o, o2))
            ])
      Step-SamePin a b h (finalizes x y w w2 reward next t now steady e) o p =
          (finalize_pending_transition-Keeps c a b w w2 reward next t now steady
            (Reachable-IsAgent a h) e).1
      Step-SamePin a b h (closes x y reason v applied out out2 e) o p =
          let (es, k, gone, grown) =
            close_ok c to_string byte_size producer a b reason v applied out out2 e in
          absurd (cc (p, ap (λ s. s.segment_open) gone))
      Step-SamePin a b h (discards x y reason exclude d e) o p =
          absurd (cc (p, ap (λ s. s.segment_open) (some_eq e)))
