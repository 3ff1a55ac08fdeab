-- ===== src/Rollout/Produce.antt =====
-- What closing a segment produces (src/task/runtime/training_runtime.tpp).
use rl_aiserver.Common.{
  ℕ, ◌+◌, ◌≡◌, refl, sym, ap, ◌∙◌, String, Bool, List, [], ◌∷◌, ◌++◌, Option, none, some, length,
  total, length-append,
}
use rl_aiserver.Floats.{Floats}
use rl_aiserver.Rollout.Types.{
  Result, error, ok, ok_eq, guard_some, refuse_some_returns, and_then_ok, AgentTrainingState,
  RolloutConfig, ServiceIdentity, ProcessedTransition, Envelope, SegmentCloseReason,
}
use rl_aiserver.Rollout.Estimate.{Estimates, IsEstimate, estimate_rollout_segment-IsEstimate}
use rl_aiserver.Rollout.Projection.{
  IsProjection, length-Projects, project_processed_segment-IsProjection,
}
use rl_aiserver.Rollout.Chunk.{Cut, samples_of, cut_all-Ends}
use rl_aiserver.Rollout.Close.{
  Produced, released, identity_of, add_envelopes, build_envelopes, cut_processed, commit_close,
  prepare_agent_segment_close,
}

pub some_eq : {A : Type 0} {a b : A} → some a ≡ some b → a ≡ b
some_eq e = cc e

module _ {f : Floats} (c : RolloutConfig f) (to_string : ℕ → String) (byte_size : Envelope f → ℕ)
    (producer : ServiceIdentity) where
  -- A success of the close has passed the guards and built envelopes.
  pub close_ok :
      (a b : AgentTrainingState f) (reason : SegmentCloseReason) (v : f.Single) (applied : Bool)
      (out out2 : Produced f)
      → prepare_agent_segment_close c to_string byte_size producer (some a) reason v applied out
        ≡ some (ok (b, out2))
      → (es : List (Envelope f)) × (build_envelopes c to_string byte_size producer a v
          ≡ some (ok es))
        × (b ≡ released a)
        × (out2 ≡ add_envelopes c to_string byte_size producer a reason out es)
  unfolding prepare_agent_segment_close commit_close
  close_ok a b reason v applied out out2 e =
      committed _ refl (guard_some _ _ _ (guard_some _ _ _ (guard_some _ _ _ e).1).1).1
    where
      Q : Type 0
      Q =
          (es : List (Envelope f)) × (build_envelopes c to_string byte_size producer a v
            ≡ some (ok es))
          × (b ≡ released a)
          × (out2 ≡ add_envelopes c to_string byte_size producer a reason out es)

      committed :
          (o : Option (Result (List (Envelope f))))
          → build_envelopes c to_string byte_size producer a v ≡ o
          → commit_close c to_string byte_size producer a reason out o ≡ some (ok (b, out2))
          → Q
      committed none x y = absurd (cc y)
      committed (some (error m)) x y = absurd (cc y)
      committed (some (ok es)) x y =
          (es, x, ap (λ z. z.0) (sym (ok_eq (some_eq y))), ap (λ z. z.1) (sym (ok_eq (some_eq y))))

  -- The transitions of a list of envelopes.
  abbrev pub sample_count : List (Envelope f) → ℕ
  sample_count = total (λ e. length e.samples)

  length-samples_of :
      (es : List (Envelope f)) → length (samples_of c byte_size es) ≡ sample_count es
  length-samples_of [] = refl
  length-samples_of (e ∷ es) =
      length-append e.samples (samples_of c byte_size es)
      ∙ ap (λ n. length e.samples + n) (length-samples_of es)

  -- What the envelopes of a closed segment are.
  pub record IsClose (a : AgentTrainingState f) (v : f.Single) (es : List (Envelope f))
      : Type 0 where
    pub estimates : Estimates f
    pub estimated : IsEstimate f c.gamma c.gae_lambda (f.widen v) a.segment_transitions estimates
    pub processed : List (ProcessedTransition f)
    pub projected :
        IsProjection c to_string a.segment_id
          (identity_of a)
          estimates.advantages
          estimates.value_targets
          a.segment_transitions
          processed
    pub cut_up : Cut c byte_size to_string a.segment_id producer (some (identity_of a)) processed es

  cut_processed_ok :
      (a : AgentTrainingState f) (x : Result (List (ProcessedTransition f)))
      (es : List (Envelope f))
      → cut_processed c to_string byte_size producer a x ≡ some (ok es)
      → (processed : List (ProcessedTransition f)) × (x ≡ ok processed)
        × Cut c byte_size to_string a.segment_id producer (some (identity_of a)) processed es
  unfolding cut_processed
  cut_processed_ok a (error m) es h = absurd (cc h)
  cut_processed_ok a (ok processed) es h =
      let (r, e, k) =
        cut_all-Ends c byte_size to_string a.segment_id producer (some (identity_of a)) processed in
      (processed, refl, k es (some_eq (sym e ∙ h)))

  cut_processed_returns :
      (a : AgentTrainingState f) (x : Result (List (ProcessedTransition f)))
      → (r : Result (List (Envelope f))) × (cut_processed c to_string byte_size producer a x
          ≡ some r)
  unfolding cut_processed
  cut_processed_returns a (error m) = (error m, refl)
  cut_processed_returns a (ok processed) =
      let (r, e, k) =
        cut_all-Ends c byte_size to_string a.segment_id producer (some (identity_of a)) processed in
      (r, e)

  commit_close_returns :
      (a : AgentTrainingState f) (reason : SegmentCloseReason) (out : Produced f)
      (o : Option (Result (List (Envelope f))))
      → (r : Result (List (Envelope f))) × (o ≡ some r)
      → (r : Result (AgentTrainingState f × Produced f)) × (commit_close c to_string byte_size
            producer a reason out o
          ≡ some r)
  unfolding commit_close
  commit_close_returns a reason out none (r, e) = absurd (cc e)
  commit_close_returns a reason out (some (error m)) h = (error m, refl)
  commit_close_returns a reason out (some (ok es)) h = (_, refl)

  build_envelopes-IsClose :
      (a : AgentTrainingState f) (v : f.Single) (es : List (Envelope f))
      → build_envelopes c to_string byte_size producer a v ≡ some (ok es)
      → IsClose a v es
  unfolding build_envelopes
  build_envelopes-IsClose a v es h =
      let (processed, x, k) = cut_processed_ok a _ es h in
      let (estimates, y, z) = and_then_ok _ x in
      record {
        estimates = estimates;
        estimated =
            estimate_rollout_segment-IsEstimate f c.gamma c.gae_lambda (f.widen v)
              a.segment_transitions estimates y;
        processed = processed;
        projected =
            project_processed_segment-IsProjection c to_string a.segment_id (identity_of a)
              estimates.advantages estimates.value_targets a.segment_transitions processed z;
        cut_up = k;
      }

  -- When closing a segment succeeds, the agent is released and the output grows by envelopes
  -- whose samples, in their order, are the processed transitions of the segment with its estimates
  -- (the generalised advantages up to the bootstrap value). The counted transitions grow by the
  -- number of samples in these envelopes, and the counted envelopes by their number.
  pub prepare_agent_segment_close_conserves :
      (a b : AgentTrainingState f) (reason : SegmentCloseReason) (v : f.Single) (applied : Bool)
      (out out2 : Produced f)
      → prepare_agent_segment_close c to_string byte_size producer (some a) reason v applied out
        ≡ some (ok (b, out2))
      → (es : List (Envelope f)) × IsClose a v es
        × (b ≡ released a)
        × (out2.envelopes ≡ out.envelopes ++ es)
        × (out2.transitions ≡ out.transitions + sample_count es)
        × (out2.envelope_count ≡ out.envelope_count + length es)
  prepare_agent_segment_close_conserves a b reason v applied out out2 h =
      let (es, e, b_eq, out_eq) = close_ok a b reason v applied out out2 h in
      let k = build_envelopes-IsClose a v es e in
      let counted : sample_count es ≡ length a.segment_transitions =
        sym (length-samples_of es)
        ∙ ap length k.cut_up.all_samples
        ∙ length-Projects c to_string a.segment_id (identity_of a) k.estimates.advantages
            k.estimates.value_targets 0 a.segment_transitions k.processed k.projected.items in
      (
        es,
        k,
        b_eq,
        ap (λ o. o.envelopes) out_eq,
        ap (λ o. o.transitions) out_eq ∙ ap (λ n. out.transitions + n) (sym counted),
        ap (λ o. o.envelope_count) out_eq,
      )

  -- Closing a segment returns: an error or a result, whatever the segment.
  pub close_returns :
      (a : Option (AgentTrainingState f)) (reason : SegmentCloseReason) (v : f.Single)
      (applied : Bool) (out : Produced f)
      → (r : Result (AgentTrainingState f × Produced f)) × (prepare_agent_segment_close c to_string
            byte_size producer a reason v applied out
          ≡ some r)
  unfolding prepare_agent_segment_close build_envelopes
  close_returns none reason v applied out = (_, refl)
  close_returns (some a) reason v applied out = refuse_some_returns _ _ _ (
      refuse_some_returns _ _ _ (
        refuse_some_returns _ _ _
          (commit_close_returns a reason out _ (cut_processed_returns a _))))
