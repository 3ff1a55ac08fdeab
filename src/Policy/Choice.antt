-- ===== src/Policy/Choice.antt =====
-- The actions that are selected, against the mask and the logits
-- (src/task/policy/episode_action_policy.cpp).
use rl_aiserver.Common.{
  ℕ, zero, suc, ◌+◌, ◌<◌, ◌≡◌, ◌≢◌, ◌⊎◌, inl, inr, refl, sym, ap, ◌∙◌, subst, Bool, true, false,
  not, ◌&&◌, ◌||◌, List, [], ◌∷◌, all, any, length, get_or, is_nil, ltb, ◌==◌, if◌then◌else◌,
  if_elim, Bool-cases, arith,
}
use rl_aiserver.Floats.{Floats}
use rl_aiserver.Policy.Select.{
  PolicyMode, training, evaluation, unspecified, Sampler, Selected, refused, selected, available,
  logit, best, maximum, weights, weight_sum, sample, select_action,
}

-- What <random> documents: a draw from weights with a positive finite sum is the index of a weight
-- other than zero.
abbrev pub DrawsPositive : (f : Floats) → Sampler f → Type 0
DrawsPositive f r =
    (ws : List f.Double) (g : r.Generator)
    → f.is_finite (weight_sum f f.zero ws) ≡ true
    → f.lt f.zero (weight_sum f f.zero ws) ≡ true
    → ((r.draw ws g).0 < length ws) × (get_or ws (r.draw ws g).0 f.zero ≢ f.zero)

-- What IEEE 754 says of `<`.
abbrev pub IsStrict : Floats → Type 0
IsStrict f =
    ((x : f.Single) → f.lt_single x x ≡ false)
    × ((x y z : f.Single)
        → f.lt_single x y ≡ true
        → f.lt_single y z ≡ true
        → f.lt_single x z ≡ true)

below_next : (j i : ℕ) → j < i + 1 → (j < i) ⊎ (i ≡ j)
below_next j i h = elim (Bool-cases (ltb j i)) [
  | inl e ↦ inl (ground (arith, e))
  | inr e ↦ inr (ground (arith, e))
]

module _ (f : Floats) (mask : List Bool) where
  length-weights :
      (t m : f.Double) (i : ℕ) (xs : List f.Single) → length (weights f mask t m i xs) ≡ length xs
  unfolding weights
  length-weights t m i [] = refl
  length-weights t m i (x ∷ xs) = ap suc (length-weights t m (i + 1) xs)

  -- An index with a weight other than zero is available.
  weight_available :
      (t m : f.Double) (i j : ℕ) (xs : List f.Single)
      → get_or (weights f mask t m i xs) j f.zero ≢ f.zero
      → available mask (i + j) ≡ true
  unfolding weights
  weight_available t m i j [] h = absurd (h refl)
  weight_available t m i zero (x ∷ xs) h = elim (Bool-cases (available mask i)) [
    | inl e ↦ subst (λ k. available mask k ≡ true) (omega arith) e
    | inr e ↦ absurd (h (rw e refl))
  ]
  weight_available t m i (suc j) (x ∷ xs) h =
      subst (λ k. available mask k ≡ true) (omega arith) (weight_available t m (i + 1) j xs h)

  module _ (logits : List f.Single) where
    -- The chosen index is the number of the logits as long as no index below `i` is available, and
    -- then one of the best available ones below `i`.
    record Chosen (i chosen : ℕ) : Type 0 where
      empty : chosen ≡ length logits → (j : ℕ) → j < i → available mask j ≡ false
      inside : chosen ≢ length logits → (chosen < length logits) × (available mask chosen ≡ true)
      largest :
          chosen ≢ length logits
          → (j : ℕ) → j < i
          → available mask j ≡ true
          → f.lt_single (logit f logits chosen) (logit f logits j) ≡ false

    Chosen-next :
        IsStrict f
        → (i chosen : ℕ) → i < length logits
        → Chosen i chosen
        → Chosen (i + 1) (
            if available mask i
              && ((chosen == length logits)
                  || f.lt_single (logit f logits chosen) (logit f logits i))
            then i
            else chosen)
    Chosen-next s i chosen h c =
        if_elim (Chosen (i + 1))
          (available mask i
            && ((chosen == length logits)
                || f.lt_single (logit f logits chosen) (logit f logits i)))
          i chosen
          (λ e. record {
            empty = λ z. absurd (omega (arith, z));
            inside = λ _. (h, ground (arith, e));
            largest = λ _ j l a. elim (below_next j i l) [
              | inr same ↦
                  subst (λ k. f.lt_single (logit f logits i) (logit f logits k) ≡ false) same
                    (s.0 (logit f logits i))
              | inl below ↦ elim (Bool-cases (chosen == length logits)) [
                | inl none_yet ↦
                    absurd (ground (arith, c.empty (ground (arith, none_yet)) j below, a))
                | inr some_yet ↦
                    elim (Bool-cases (f.lt_single (logit f logits i) (logit f logits j))) [
                      | inr fine ↦ fine
                      | inl bad ↦
                          let up : f.lt_single (logit f logits chosen) (logit f logits i) ≡ true =
                            ground (arith, e, some_yet) in
                          let over =
                            s.1 (logit f logits chosen) (logit f logits i) (logit f logits j) up
                              bad in
                          absurd (
                            ground
                              (arith, over, c.largest (λ z. ground (arith, z, some_yet)) j below a))
                    ]
              ]
            ];
          })
          (λ e. record {
            empty = λ z j l. elim (below_next j i l) [
              | inl below ↦ c.empty z j below
              | inr same ↦ subst (λ k. available mask k ≡ false) same (ground (arith, e, z))
            ];
            inside = c.inside;
            largest = λ ne j l a. elim (below_next j i l) [
              | inl below ↦ c.largest ne j below a
              | inr same ↦
                  let a' : available mask i ≡ true =
                    subst (λ k. available mask k ≡ true) (sym same) a in
                  subst (λ k. f.lt_single (logit f logits chosen) (logit f logits k) ≡ false) same
                    (ground (arith, e, a'))
            ];
          })

    best-Chosen :
        IsStrict f
        → (i chosen : ℕ) (rest : List f.Single) → i + length rest ≡ length logits
        → ((k : ℕ) → k < length rest → get_or rest k f.zero_single ≡ logit f logits (i + k))
        → Chosen i chosen
        → Chosen (length logits) (best f logits mask i chosen rest)
    unfolding best
    best-Chosen s i chosen [] h same c = subst (λ k. Chosen k chosen) (omega (arith, h)) c
    best-Chosen s i chosen (x ∷ rest) h same c =
        let here : x ≡ logit f logits i =
          same 0 (omega arith) ∙ ap (logit f logits) (omega arith) in
        best-Chosen s (i + 1) _ rest (omega (arith, h))
          (λ k l. same (suc k) (omega arith) ∙ ap (logit f logits) (omega arith))
          (subst
            (λ y. Chosen (i + 1) (
              if available mask i
                && ((chosen == length logits) || f.lt_single (logit f logits chosen) y)
              then i
              else chosen))
            (sym here) (Chosen-next s i chosen (omega (arith, h)) c))

    start_Chosen : Chosen 0 (length logits)
    start_Chosen = record {
      empty = λ _ j l. absurd (omega (arith, l));
      inside = λ ne. absurd (ne refl);
      largest = λ ne. absurd (ne refl);
    }

any_available :
    (mask : List Bool)
    → any (λ b. b) mask ≡ true
    → (j : ℕ) × (j < length mask) × (get_or mask j false ≡ true)
any_available [] h = cc
any_available (true ∷ mask) h = (0, omega arith, refl)
any_available (false ∷ mask) h =
    let (j, l, e) = any_available mask h in (suc j, omega (arith, l), e)

-- What `SelectEpisodeAction` has accepted.
record Accepted (f : Floats) (logits : List f.Single) (mask : List Bool) : Type 0 where
  some_logit : 0 < length logits
  mask_fits : (is_nil mask ≡ true) ⊎ ((length mask ≡ length logits) × (any (λ b. b) mask ≡ true))

an_available :
    (f : Floats) (logits : List f.Single) (mask : List Bool)
    → Accepted f logits mask
    → (j : ℕ) × (j < length logits) × (available mask j ≡ true)
an_available f logits mask a = elim a.mask_fits [
  | inl e ↦ (0, a.some_logit, ground (arith, e))
  | inr (l, e) ↦ let (j, h, p) = any_available mask e in (j, omega (arith, l), ground (arith, p))
]

not_nil_pos {ℓ} : {A : Type ℓ} (xs : List A) → is_nil xs ≡ false → 0 < length xs
not_nil_pos [] h = cc
not_nil_pos (x ∷ xs) h = omega arith

selected_eq :
    {f : Floats} {a b : ℕ} {p q : f.Single}
    → ◌≡◌ {A = Selected f} (selected a p) (selected b q)
    → a ≡ b
selected_eq e = cc

module _ (f : Floats) (r : Sampler f) (logits : List f.Single) (mask : List Bool) (t : f.Double)
    (g : r.Generator) (action : ℕ) (p : f.Single) where
  abbrev Selects : PolicyMode → Type 0
  Selects mode = (select_action f r logits mask mode t g).1 ≡ selected action p

  abbrev branch : PolicyMode → r.Generator × Selected f
  branch mode = elim mode [
    | evaluation ↦ (g, selected (best f logits mask 0 (length logits) logits) f.zero_single)
    | training ↦ sample f r logits mask t g
    | unspecified ↦ (g, refused "Episode mode does not define a model action policy")
  ]

  passed :
      (mode : PolicyMode)
      → Selects mode
      → Accepted f logits mask × ((branch mode).1 ≡ selected action p)
  unfolding select_action
  passed mode h =
      elim (Bool-cases (is_nil logits || (not (f.is_finite t) || not (f.lt f.zero t)))) [
        | inl e ↦ cc (rw e at h)
        | inr e ↦ elim (Bool-cases (not (all f.is_finite_single logits))) [
          | inl e2 ↦ cc (rw (e, e2) at h)
          | inr e2 ↦
              elim (Bool-cases (
                not (is_nil mask)
                && (not (length mask == length logits) || not (any (λ b. b) mask)))) [
                  | inl e3 ↦ cc (rw (e, e2, e3) at h)
                  | inr e3 ↦ (
                    record {
                      some_logit = not_nil_pos logits (ground (arith, e));
                      mask_fits = fits e3;
                    },
                    rw (e, e2, e3) at h,
                  )
                ]
        ]
      ]
    where
      fits :
          (not (is_nil mask) && (not (length mask == length logits) || not (any (λ b. b) mask)))
            ≡ false
          → (is_nil mask ≡ true) ⊎ ((length mask ≡ length logits) × (any (λ b. b) mask ≡ true))
      fits e3 = elim (Bool-cases (is_nil mask)) [
        | inl n ↦ inl n
        | inr n ↦ inr (ground (arith, n, e3), ground (arith, n, e3))
      ]

  -- In the training mode, with a sampler that draws only indices of weights other than zero, the
  -- selected action is an index of the logits that the mask allows.
  pub training_available :
      DrawsPositive f r
      → Selects training
      → (action < length logits) × (available mask action ≡ true)
  unfolding sample
  training_available d h =
      let (a, b) = passed training h in
      let m = maximum f mask 0 f.neg_infinity logits in
      let ws = weights f mask t m 0 logits in
      elim (Bool-cases (
        not (f.is_finite (weight_sum f f.zero ws)) || not (f.lt f.zero (weight_sum f f.zero ws)))) [
          | inl e ↦ cc (rw e at b)
          | inr e ↦
              let (inside, nonzero) = d ws g (ground (arith, e)) (ground (arith, e)) in
              let same : (r.draw ws g).0 ≡ action = selected_eq (rw e at b) in
              (
                omega (arith, length-weights f mask t m 0 logits, same, inside),
                subst (λ k. available mask k ≡ true) (omega (arith, same))
                    (weight_available f mask t m 0 (r.draw ws g).0 logits nonzero),
              )
        ]

  -- In the evaluation mode, when `<` is a strict order, the selected action is an index of the
  -- logits that the mask allows, and no allowed logit is larger than its own.
  pub evaluation_best :
      IsStrict f
      → Selects evaluation
      → (action < length logits)
        × (available mask action ≡ true)
        × ((j : ℕ)
            → j < length logits
            → available mask j ≡ true
            → f.lt_single (logit f logits action) (logit f logits j) ≡ false)
  evaluation_best s h =
      let (a, b) = passed evaluation h in
      let same : best f logits mask 0 (length logits) logits ≡ action = selected_eq b in
      let c = subst (Chosen f mask logits (length logits)) same (
        best-Chosen f mask logits s 0 (length logits) logits (omega arith)
          (λ k l. ap (logit f logits) (omega arith)) (start_Chosen f mask logits)) in
      let (j, l, e) = an_available f logits mask a in
      let ne : action ≢ length logits = λ z. ground (arith, c.empty z j l, e) in
      ((c.inside ne).0, (c.inside ne).1, c.largest ne)
