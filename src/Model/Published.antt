-- ===== src/Model/Published.antt =====
-- What the operations on staged models keep
-- (src/task/runtime/training_runtime.tpp).
use rl_aiserver.Common.{
  ℕ, ◌+◌, ◌≡◌, ◌≤◌, ◌<◌, ◌⊎◌, inl, inr, refl, ap, ◌∙◌, String, Bool, true, false, not, ◌||◌,
  if_elim, arith,
}
use rl_aiserver.Rollout.Types.{
  ModelManifest, PreparedModel, ServiceIdentity, has_model_identity, is_prepared, step,
}
use rl_aiserver.Model.Activate.{
  AckDisposition, applied, rejected, not_applied, uncertain, probe_ready, probe_retryable,
  probe_rejected, ProbeDisposition, Models, PendingAck, Answers, mark_degraded,
  validate_staged_model_progress, staged_step, should_fetch_model_candidate, stage_candidate,
  finish_activation, probed, activate_staged_model, try_promote_staged_model, switch_model,
  retry_applied, retry_uncertain, retry_answered, retry_resume, same_model,
}

-- The staged model is the one that the pending acknowledgement is about, and may be published.
pub record Waiting (m : Models) : Type 0 where
  pub same : m.staged ≡ m.pending.manifest
  pub known : has_model_identity m.staged ≡ true
  pub prepared : is_prepared m.staged_prepared ≡ true
  pub ahead : validate_staged_model_progress m.active m.staged ≡ true

abbrev pub PendingStaged : Models → Type 0
PendingStaged m = m.model_ack_pending ≡ true → Waiting m

-- Both models have an identity, and the second one has a larger step number and no fewer trained
-- samples.
pub record Successor (a b : ModelManifest) : Type 0 where
  pub from_known : has_model_identity a ≡ true
  pub to_known : has_model_identity b ≡ true
  pub newer : step a < step b
  pub no_rollback : a.trained_samples ≤ b.trained_samples

validate-Successor :
    (a b : ModelManifest) → validate_staged_model_progress a b ≡ true → Successor a b
unfolding validate_staged_model_progress
validate-Successor a b h = record {
  from_known = ground (arith, h);
  to_known = ground (arith, h);
  newer = ground (arith, h);
  no_rollback = ground (arith, h);
}

-- The active model stays, or one switch replaces it by a successor.
abbrev pub Advances : Models → Models → Type 0
Advances a b =
    ((b.active ≡ a.active) × (b.switches ≡ a.switches))
    ⊎ (Successor a.active b.active × (b.switches ≡ a.switches + 1))

abbrev Keeps : Models → Models → Type 0
Keeps a b = PendingStaged b × Advances a b

stage_candidate-Keeps :
    (m : Models) (candidate : ModelManifest) (p : PreparedModel)
    → m.model_ack_pending ≡ false
    → Keeps m (stage_candidate m candidate p)
unfolding stage_candidate
stage_candidate-Keeps m candidate p n =
    if_elim (Keeps m)
      (should_fetch_model_candidate (step m.active) (staged_step m) (step candidate)) _ _
      (λ e. (λ q. cc (q, n), inl (refl, refl))) (λ e. (λ q. cc (q, n), inl (refl, refl)))

finish_activation-Keeps :
    (m : Models) (ack : AckDisposition) (text : String) (authority : ServiceIdentity) (deadline : ℕ)
    → PendingStaged m
    → m.model_ack_pending ≡ false
    → has_model_identity m.staged ≡ true
    → is_prepared m.staged_prepared ≡ true
    → validate_staged_model_progress m.active m.staged ≡ true
    → Keeps m (finish_activation m ack text authority deadline).0
unfolding finish_activation switch_model
finish_activation-Keeps m applied text authority deadline h n k p v =
    (λ q. cc (q, n), inr (validate-Successor m.active m.staged v, refl))
finish_activation-Keeps m uncertain text authority deadline h n k p v =
    (λ q. record { same = refl; known = k; prepared = p; ahead = v }, inl (refl, refl))
finish_activation-Keeps m rejected text authority deadline h n k p v =
    (λ q. cc (q, n), inl (refl, refl))
finish_activation-Keeps m not_applied text authority deadline h n k p v =
    (λ q. cc (q, n), inl (refl, refl))

probed-Keeps :
    (m : Models) (d : ProbeDisposition) (a : Answers)
    → PendingStaged m
    → m.model_ack_pending ≡ false
    → has_model_identity m.staged ≡ true
    → is_prepared m.staged_prepared ≡ true
    → validate_staged_model_progress m.active m.staged ≡ true
    → Keeps m (probed m d a).0
unfolding probed
probed-Keeps m probe_ready a h n k p v =
    finish_activation-Keeps m a.ack a.ack_text a.authority a.ack_deadline h n k p v
probed-Keeps m probe_retryable a h n k p v = (h, inl (refl, refl))
probed-Keeps m probe_rejected a h n k p v = (λ q. cc (q, n), inl (refl, refl))

activate_staged_model-Keeps :
    (m : Models) (a : Answers)
    → PendingStaged m
    → m.model_ack_pending ≡ false
    → Keeps m (activate_staged_model m a).0
unfolding activate_staged_model
activate_staged_model-Keeps m a h n =
    if_elim {A = Models × Bool} (λ r. Keeps m r.0)
      (not (has_model_identity m.staged) || not (is_prepared m.staged_prepared)) _ _
      (λ e. (h, inl (refl, refl)))
      (λ e.
        if_elim {A = Models × Bool} (λ r. Keeps m r.0)
          (not (validate_staged_model_progress m.active m.staged)) _ _
          (λ e2. (λ q. cc (q, n), inl (refl, refl)))
          (λ e2.
            probed-Keeps m a.probe a h n (ground (arith, e)) (ground (arith, e))
              (ground (arith, e2))))

try_promote_staged_model-Keeps :
    (m : Models) (a : Answers) → PendingStaged m → Keeps m (try_promote_staged_model m a).0
unfolding try_promote_staged_model
try_promote_staged_model-Keeps m a h =
    if_elim {A = Models × Bool} (λ r. Keeps m r.0)
      (m.shutdown_started
        || m.model_ack_pending
        || not (has_model_identity m.staged)
        || not (is_prepared m.staged_prepared))
      _ _ (λ e. (h, inl (refl, refl))) (λ e. activate_staged_model-Keeps m a h (ground (arith, e)))

module _ (to_string : ℕ → String) where
  retry_answered-Keeps :
      (m : Models) (taken : PendingAck) (ack : AckDisposition) (text : String) (now : ℕ)
      → m.model_ack_pending ≡ true
      → Waiting m
      → Keeps m (retry_answered to_string m taken ack text now).0
  unfolding retry_answered retry_applied retry_uncertain switch_model
  retry_answered-Keeps m taken applied text now n w =
      if_elim {A = Models × Bool} (λ r. Keeps m r.0)
        (not (has_model_identity m.staged)
          || not (same_model m.staged taken.manifest)
          || not (is_prepared m.staged_prepared))
        _ _
        (λ e. (
          λ q. record { same = w.same; known = w.known; prepared = w.prepared; ahead = w.ahead },
          inl (refl, refl),
        ))
        (λ e. (λ q. cc q, inr (validate-Successor m.active m.staged w.ahead, refl)))
  retry_answered-Keeps m taken rejected text now n w = (λ q. cc q, inl (refl, refl))
  retry_answered-Keeps m taken not_applied text now n w = (λ q. cc q, inl (refl, refl))
  retry_answered-Keeps m taken uncertain text now n w =
      if_elim {A = Models × Bool} (λ r. Keeps m r.0) _ _ _
        (λ e. (
          λ q. record { same = w.same; known = w.known; prepared = w.prepared; ahead = w.ahead },
          inl (refl, refl),
        ))
        (λ e. (
          λ q. record { same = w.same; known = w.known; prepared = w.prepared; ahead = w.ahead },
          inl (refl, refl),
        ))

  retry_resume-Keeps :
      (m : Models) (taken : PendingAck) (ack : AckDisposition) (text : String) (now : ℕ)
      → PendingStaged m
      → Keeps m (retry_resume to_string m taken ack text now).0
  unfolding retry_resume
  retry_resume-Keeps m taken ack text now h =
      if_elim {A = Models × Bool} (λ r. Keeps m r.0)
        (not m.model_ack_pending || not (same_model m.pending.manifest taken.manifest)) _ _
        (λ e. (h, inl (refl, refl)))
        (λ e. retry_answered-Keeps m taken ack text now (ground (arith, e)) (h (ground (arith, e))))

  -- One critical section of the runtime, with any answers of the model distributor. The watch loop
  -- stages a candidate only in the rounds whose first section saw no pending acknowledgement, and
  -- only its own thread makes one pending, later in the round.
  pub data Step : Models → Models → Type 0 where
    stages :
        (m : Models) (candidate : ModelManifest) (p : PreparedModel)
        → m.model_ack_pending ≡ false
        → Step m (stage_candidate m candidate p)
    promotes : (m : Models) (a : Answers) → Step m (try_promote_staged_model m a).0
    resumes :
        (m : Models) (taken : PendingAck) (ack : AckDisposition) (text : String) (now : ℕ)
        → Step m (retry_resume to_string m taken ack text now).0
    uses_latest : (m : Models) → Step m (record m { latest_used = true })
    shuts_down : (m : Models) → Step m (record m { shutdown_started = true })
    degrades : (m : Models) (text : String) → Step m (mark_degraded m text)

  pub data Reachable : Models → Type 0 where
    started : (m : Models) → m.model_ack_pending ≡ false → Reachable m
    then_step : {a b : Models} → Reachable a → Step a b → Reachable b

  Step-Keeps : {a b : Models} → Step a b → PendingStaged a → Keeps a b
  Step-Keeps (stages m candidate p n) h = stage_candidate-Keeps m candidate p n
  Step-Keeps (promotes m a) h = try_promote_staged_model-Keeps m a h
  Step-Keeps (resumes m taken ack text now) h = retry_resume-Keeps m taken ack text now h
  Step-Keeps (uses_latest m) h = (
    λ q. record {
      same = (h q).same;
      known = (h q).known;
      prepared = (h q).prepared;
      ahead = (h q).ahead;
    },
    inl (refl, refl),
  )
  Step-Keeps (shuts_down m) h = (
    λ q. record {
      same = (h q).same;
      known = (h q).known;
      prepared = (h q).prepared;
      ahead = (h q).ahead;
    },
    inl (refl, refl),
  )
  Step-Keeps (degrades m text) h = (
    λ q. record {
      same = (h q).same;
      known = (h q).known;
      prepared = (h q).prepared;
      ahead = (h q).ahead;
    },
    inl (refl, refl),
  )

  -- In every state reached from one without a pending acknowledgement: while one is pending, the
  -- staged model is the model that it is about, has an identity and a prepared session, and is a
  -- successor of the active model.
  pub Reachable-PendingStaged : (m : Models) → Reachable m → PendingStaged m
  Reachable-PendingStaged m (started x e) = λ q. cc (q, e)
  Reachable-PendingStaged m (then_step r s) = (Step-Keeps s (Reachable-PendingStaged _ r)).0

  -- From a reachable state, a step leaves the active model and the number of switches, or switches
  -- once: from a model with an identity to one with an identity, a larger step number and no fewer
  -- trained samples.
  pub Step-Advances : (a b : Models) → Reachable a → Step a b → Advances a b
  Step-Advances a b r s = (Step-Keeps s (Reachable-PendingStaged a r)).1

  -- When the repeated acknowledgement was applied, and is still the pending one, a reachable state
  -- always publishes its staged model: it is never missing.
  pub retry_resume_publishes :
      (m : Models) (taken : PendingAck) (text : String) (now : ℕ)
      → Reachable m
      → m.model_ack_pending ≡ true
      → same_model m.pending.manifest taken.manifest ≡ true
      → ((retry_resume to_string m taken applied text now).1 ≡ true)
        × ((retry_resume to_string m taken applied text now).0.active ≡ m.staged)
  unfolding retry_resume retry_answered retry_applied switch_model
  retry_resume_publishes m taken text now r p s =
      let w = Reachable-PendingStaged m r p in
      let fits : same_model m.staged taken.manifest ≡ true =
        ap (λ x. same_model x taken.manifest) w.same ∙ s in
      if_elim {A = Models × Bool} Q
        (not m.model_ack_pending || not (same_model m.pending.manifest taken.manifest)) _ _
        (λ e. absurd (ground (arith, e, p, s)))
        (λ e.
          if_elim {A = Models × Bool} Q
            (not (has_model_identity m.staged)
              || not (same_model m.staged taken.manifest)
              || not (is_prepared m.staged_prepared))
            _ _ (λ e2. absurd (ground (arith, e2, w.known, fits, w.prepared))) (λ e2. (refl, refl)))
    where
      Q : Models × Bool → Type 0
      Q x = (x.1 ≡ true) × (x.0.active ≡ m.staged)
