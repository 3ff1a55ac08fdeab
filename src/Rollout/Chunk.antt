-- ===== src/Rollout/Chunk.antt =====
-- The loops of `PrepareAgentSegmentClose` that cut the processed transitions into envelopes
-- (src/task/runtime/training_runtime.tpp).
use Prim.Native.String.{◌++◌ as append}
use mathlib.Core.List.{append_assoc, append-nil}
use rl_aiserver.Common.{
  ℕ, zero, suc, ◌+◌, ◌≤◌, ◌<◌, ◌≡◌, ◌⊎◌, inl, inr, refl, sym, ap, ◌∙◌, subst, String, Bool, true,
  false, Option, none, some, List, [], ◌∷◌, ◌++◌, length, is_nil, ltb, if_elim, if◌then◌else◌,
  length-append, Bool-cases, arith,
}
use rl_aiserver.Common.Int.{pos, ltb_ℤ, leb_ℤ}
use rl_aiserver.Floats.{Floats}
use rl_aiserver.Rollout.Types.{
  Result, ok, ok_eq, ModelIdentity, ServiceIdentity, ProcessedTransition, Envelope, RolloutConfig,
}

-- `byte_size` is `ByteSizeLong` of the generated code.
module _ {f : Floats} (c : RolloutConfig f) (byte_size : Envelope f → ℕ) where
  abbrev pub with_sample : Envelope f → ProcessedTransition f → Envelope f
  with_sample envelope x = record envelope { samples = envelope.samples ++ (x ∷ []) }

  abbrev pub too_large : Envelope f → Bool
  too_large envelope = ltb c.envelope_max_bytes (byte_size envelope)

  -- The inner loop: the envelope, and the transitions from `offset` on.
  unfoldable pub fill :
      Envelope f → List (ProcessedTransition f) → Envelope f × List (ProcessedTransition f)
  fill envelope [] = (envelope, [])
  fill envelope (x ∷ rest) =
      let more = fill (with_sample envelope x) rest in
      if ltb_ℤ (pos (length envelope.samples)) c.envelope_max_transitions
      then (if too_large (with_sample envelope x) then (envelope, x ∷ rest) else more)
      else (envelope, x ∷ rest)

  module _ (to_string : ℕ → String) (segment_id : String) (producer : ServiceIdentity)
      (model : Option ModelIdentity) where
    abbrev pub new_envelope : ℕ → Envelope f
    new_envelope chunk_index = record {
      envelope_id = append segment_id (append "/envelope-" (to_string chunk_index));
      producer = producer;
      behavior_model = model;
      samples = [];
    }

    -- The outer loop; `none` when `fuel` iterations do not end it.
    unfoldable pub cut :
        ℕ
        → ℕ
        → List (ProcessedTransition f)
        → List (Envelope f)
        → Option (Result (List (Envelope f)))
    cut fuel chunk_index [] built = some (ok built)
    cut zero chunk_index (x ∷ rest) built = none
    cut (suc fuel) chunk_index (x ∷ rest) built =
        let filled = fill (new_envelope chunk_index) (x ∷ rest) in
        let next = cut fuel (chunk_index + 1) filled.1 (built ++ (filled.0 ∷ [])) in
        if is_nil (filled.0).samples
        then some (Result.error "one processed sample exceeds envelope_max_bytes")
        else if too_large filled.0
        then some (Result.error "processed envelope exceeds envelope_max_bytes")
        else next

  -- The samples of envelopes in their order.
  abbrev pub samples_of : List (Envelope f) → List (ProcessedTransition f)
  samples_of [] = []
  samples_of (e ∷ es) = e.samples ++ samples_of es

  samples_of-append :
      (xs ys : List (Envelope f)) → samples_of (xs ++ ys) ≡ samples_of xs ++ samples_of ys
  samples_of-append [] ys = refl
  samples_of-append (x ∷ xs) ys =
      ap (λ l. x.samples ++ l) (samples_of-append xs ys)
      ∙ sym (append_assoc x.samples (samples_of xs) (samples_of ys))

  -- The inner loop stops before the next transition, or adds it and goes on.
  fill-cases :
      (e : Envelope f) (x : ProcessedTransition f) (xs : List (ProcessedTransition f))
      → (fill e (x ∷ xs) ≡ (e, x ∷ xs))
        ⊎ ((ltb_ℤ (pos (length e.samples)) c.envelope_max_transitions ≡ true)
            × (fill e (x ∷ xs) ≡ fill (with_sample e x) xs))
  unfolding fill
  fill-cases e x xs =
      elim (Bool-cases (ltb_ℤ (pos (length e.samples)) c.envelope_max_transitions)) [
        | inl p ↦ elim (Bool-cases (too_large (with_sample e x))) [
          | inl q ↦ inl (rw (p, q) refl)
          | inr q ↦ inr (p, rw (p, q) refl)
        ]
        | inr p ↦ inl (rw p refl)
      ]

  -- A property of envelopes that adding a transition keeps is kept by the inner loop.
  fill_induction :
      (P : Envelope f → List (ProcessedTransition f) → Type 0)
      → ((e : Envelope f) (x : ProcessedTransition f) (xs : List (ProcessedTransition f))
          → ltb_ℤ (pos (length e.samples)) c.envelope_max_transitions ≡ true
          → P e (x ∷ xs)
          → P (with_sample e x) xs)
      → (e : Envelope f) (xs : List (ProcessedTransition f)) → P e xs
      → P (fill e xs).0 (fill e xs).1
  unfolding fill
  fill_induction P k e [] h = h
  fill_induction P k e (x ∷ xs) h = elim (fill-cases e x xs) [
    | inl p ↦ subst (λ r. P r.0 r.1) (sym p) h
    | inr (m, p) ↦
        subst (λ r. P r.0 r.1) (sym p) (fill_induction P k (with_sample e x) xs (k e x xs m h))
  ]

  -- Nothing is lost or reordered by the inner loop.
  fill-samples :
      (e : Envelope f) (xs : List (ProcessedTransition f))
      → (fill e xs).0.samples ++ (fill e xs).1 ≡ e.samples ++ xs
  fill-samples e xs =
      fill_induction (λ r rest. r.samples ++ rest ≡ e.samples ++ xs)
        (λ r x rest m h. append_assoc r.samples (x ∷ []) rest ∙ h) e xs refl

  abbrev Fits : Envelope f → Type 0
  Fits e =
      (is_nil e.samples ≡ true) ⊎ (leb_ℤ (pos (length e.samples)) c.envelope_max_transitions ≡ true)

  fill-Fits : (e : Envelope f) (xs : List (ProcessedTransition f)) → Fits e → Fits (fill e xs).0
  fill-Fits e xs h =
      fill_induction (λ r rest. Fits r)
        (λ r x rest m p. inr (ground (arith, m, length-append r.samples (x ∷ [])))) e xs h

  -- Every turn of the outer loop leaves fewer transitions.
  fill-shorter :
      (e : Envelope f) (xs : List (ProcessedTransition f))
      → length e.samples ≡ 0
      → is_nil (fill e xs).0.samples ≡ false
      → length (fill e xs).1 < length xs
  fill-shorter e xs n h =
      let a = ap length (fill-samples e xs) in
      let b = length-append (fill e xs).0.samples (fill e xs).1 in
      let d = length-append e.samples xs in
      let o = some_sample (fill e xs).0.samples h in omega (arith, a, b, d, o, n)
    where
      some_sample : {A : Type 0} (l : List A) → is_nil l ≡ false → 0 < length l
      some_sample [] p = cc p
      some_sample (y ∷ ys) p = omega arith

  module _ (to_string : ℕ → String) (segment_id : String) (producer : ServiceIdentity)
      (model : Option ModelIdentity) where
    abbrev fresh : ℕ → Envelope f
    fresh = new_envelope to_string segment_id producer model

    -- An envelope as the pool takes it: the `index`th of its segment, not empty and in the bounds.
    pub record IsEnvelope (index : ℕ) (e : Envelope f) : Type 0 where
      pub same_id : e.envelope_id ≡ append segment_id (append "/envelope-" (to_string index))
      pub same_model : e.behavior_model ≡ model
      pub some_sample : is_nil e.samples ≡ false
      pub in_number : leb_ℤ (pos (length e.samples)) c.envelope_max_transitions ≡ true
      pub in_size : too_large e ≡ false

    abbrev pub AllEnvelopes : ℕ → List (Envelope f) → Type 0
    AllEnvelopes index [] = Unit
    AllEnvelopes index (e ∷ es) = IsEnvelope index e × AllEnvelopes (index + 1) es

    AllEnvelopes-append :
        (i : ℕ) (es : List (Envelope f)) (e : Envelope f)
        → AllEnvelopes i es
        → IsEnvelope (i + length es) e
        → AllEnvelopes i (es ++ (e ∷ []))
    AllEnvelopes-append i [] e a h = (subst (λ k. IsEnvelope k e) (omega arith) h, tt)
    AllEnvelopes-append i (x ∷ es) e (p, a) h =
        (p, AllEnvelopes-append (i + 1) es e a (subst (λ k. IsEnvelope k e) (omega arith) h))

    -- One turn of the outer loop that does not fail.
    fill-IsEnvelope :
        (i : ℕ) (xs : List (ProcessedTransition f))
        → is_nil (fill (fresh i) xs).0.samples ≡ false
        → too_large (fill (fresh i) xs).0 ≡ false
        → IsEnvelope i (fill (fresh i) xs).0
    fill-IsEnvelope i xs n s =
        let (a, b) =
          fill_induction
            (λ r rest. (r.envelope_id ≡ (fresh i).envelope_id) × (r.behavior_model ≡ model))
            (λ r x rest m h. h) (fresh i) xs (refl, refl) in
        record {
          same_id = a;
          same_model = b;
          some_sample = n;
          in_number = elim (fill-Fits (fresh i) xs (inl refl)) [ inl e ↦ cc (e, n) | inr e ↦ e ];
          in_size = s;
        }

    -- The envelopes hold the transitions in their order, and each is as the pool takes it.
    pub record Cut (processed : List (ProcessedTransition f)) (es : List (Envelope f))
        : Type 0 where
      pub all_samples : samples_of es ≡ processed
      pub all_envelopes : AllEnvelopes 0 es

    -- The loops end, and when they do not fail the envelopes are those of the transitions.
    abbrev pub Ends : List (ProcessedTransition f) → Option (Result (List (Envelope f))) → Type 0
    Ends processed o =
        (r : Result (List (Envelope f))) × (o ≡ some r)
        × ((es : List (Envelope f)) → r ≡ ok es → Cut processed es)

    cut-Ends :
        (fuel i : ℕ) (xs : List (ProcessedTransition f)) (built : List (Envelope f))
        → length xs ≤ fuel
        → i ≡ length built
        → AllEnvelopes 0 built
        → Ends (samples_of built ++ xs) (cut to_string segment_id producer model fuel i xs built)
    unfolding cut
    cut-Ends fuel i [] built l e a = (
      ok built,
      refl,
      λ es p.
          subst (Cut (samples_of built ++ [])) (ok_eq p)
            (record { all_samples = sym (append-nil (samples_of built)); all_envelopes = a }),
    )
    cut-Ends zero i (x ∷ xs) built l e a = absurd (omega (arith, l))
    cut-Ends (suc fuel) i (x ∷ xs) built l e a =
        let r = fill (fresh i) (x ∷ xs) in
        let whole : samples_of (built ++ (r.0 ∷ [])) ++ r.1 ≡ samples_of built ++ (x ∷ xs) =
          ap (λ k. k ++ r.1)
            (samples_of-append built (r.0 ∷ [])
              ∙ ap (λ k. samples_of built ++ k) (append-nil r.0.samples))
          ∙ append_assoc (samples_of built) r.0.samples r.1
          ∙ ap (λ k. samples_of built ++ k) (fill-samples (fresh i) (x ∷ xs)) in
        if_elim (Ends (samples_of built ++ (x ∷ xs))) (is_nil r.0.samples) _ _
          (λ n. (_, refl, λ es p. cc p))
          (λ n.
            if_elim (Ends (samples_of built ++ (x ∷ xs))) (too_large r.0) _ _
              (λ s. (_, refl, λ es p. cc p))
              (λ s.
                subst
                  (λ k. Ends k (
                    cut to_string segment_id producer model fuel (i + 1) r.1 (built ++ (r.0 ∷ []))))
                  whole
                  (cut-Ends fuel (i + 1) r.1 (built ++ (r.0 ∷ []))
                    (omega (arith, l, fill-shorter (fresh i) (x ∷ xs) refl n))
                    (omega (arith, e, length-append built (r.0 ∷ [])))
                    (AllEnvelopes-append 0 built r.0 a (
                      subst (λ k. IsEnvelope k r.0) (omega (arith, e))
                        (fill-IsEnvelope i (x ∷ xs) n s))))))

    -- With as many iterations as there are processed transitions the loops end. When they do not
    -- fail, the samples of the envelopes, in their order, are the processed transitions in theirs;
    -- the envelopes are numbered from 0 in their identifiers, carry the behaviour model, are not
    -- empty, and keep both bounds of the configuration, on transitions and on bytes.
    pub cut_all-Ends :
        (processed : List (ProcessedTransition f))
        → Ends processed (cut to_string segment_id producer model (length processed) 0 processed [])
    cut_all-Ends processed = cut-Ends (length processed) 0 processed [] (omega arith) refl tt
