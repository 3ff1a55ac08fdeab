-- ===== src/Episode/Ledger.antt =====
-- The entries that the controller accepts (src/maze/episode/episode_controller.cpp) are in order.
use rl_aiserver.Common.{
  ◌≡◌, ◌≤◌, ◌⊎◌, inl, inr, refl, sym, subst, ◌≢◌, ap, ◌∙◌, String, true, false, Option, none, some,
  str_eq, str_eq_iff, List, [], ◌∷◌, ◌++◌, All, arith, Bool-cases, Option-cases,
}
use rl_aiserver.Common.Int.{ℤ, pos, negsuc, leb_ℤ}
use rl_aiserver.Episode.Controller.{
  Model, Controller, new_controller, eq_ℤ, same_model, validate_counters,
  validate_training_progress, start, initialize, advance, no_plan, observe_training_progress,
  plan_next_episode,
}

-- A call of the controller.
pub data Call : Type 0 where
  initializes : ℤ → Model → ℤ → Call
  plans observes : Model → ℤ → Call

-- A model and the transitions that were produced when the controller accepted it.
pub record Entry : Type 0 where
  pub model : Model
  pub produced : ℤ

accepted : Option String → Model → ℤ → List Entry
accepted none m p = record { model = m; produced = p } ∷ []
accepted (some e) m p = []

-- The controller after a call, and the entry that the call made.
unfoldable pub call : Controller → Call → Controller × List Entry
unfolding accepted
call c (initializes steps m p) = let r = initialize c steps m p in (r.0, accepted r.1 m p)
call c (plans m p) = let r = plan_next_episode c m p in (r.0, accepted r.2 m p)
call c (observes m p) = let r = observe_training_progress c m p in (r.0, accepted r.1 m p)

-- The entries of a list of calls, the first call's first.
unfoldable pub entries : Controller → List Call → List Entry
entries c [] = []
entries c (x ∷ xs) = (call c x).1 ++ entries (call c x).0 xs

-- The second entry may come after the first: no counter is smaller, and one model step has one model.
pub Follows : Entry → Entry → Type 0
Follows a b =
    (a.model.model_step ≤ b.model.model_step)
    × (leb_ℤ a.model.trained_samples b.model.trained_samples ≡ true)
    × (leb_ℤ a.produced b.produced ≡ true)
    × (a.model.model_step ≡ b.model.model_step → a.model ≡ b.model)

-- Every entry may come after every one before it.
pub IsLedger : List Entry → Type 0
IsLedger [] = Unit
IsLedger (x ∷ xs) = All (Follows x) xs × IsLedger xs

eq_ℤ-lem : (a b : ℤ) → eq_ℤ a b ≡ true → a ≡ b
eq_ℤ-lem (pos a) (pos b) h = ap pos (ground (arith, h))
eq_ℤ-lem (pos a) (negsuc b) h = absurd (ground (arith, h))
eq_ℤ-lem (negsuc a) (pos b) h = absurd (ground (arith, h))
eq_ℤ-lem (negsuc a) (negsuc b) h = ap negsuc (ground (arith, h))

same_model→≡ : (a b : Model) → same_model a b ≡ true → a ≡ b
unfolding same_model
same_model→≡ a b h =
    let s : a.model_step ≡ b.model_step = ground (arith, h) in
    let l : str_eq a.model_lineage_id b.model_lineage_id ≡ true = ground (arith, h) in
    let t : eq_ℤ a.trained_samples b.trained_samples ≡ true = ground (arith, h) in
    cc (
      s,
      (str_eq_iff a.model_lineage_id b.model_lineage_id).0 l,
      eq_ℤ-lem a.trained_samples b.trained_samples t,
    )

Follows-trans : (a b c : Entry) → Follows a b → Follows b c → Follows a c
unfolding Follows
Follows-trans a b c (s, t, p, e) (u, v, q, f) = (
  omega arith,
  ground (arith, t, v),
  ground (arith, p, q),
  λ h. e (omega arith) ∙ f (omega arith),
)

abbrev pub latest : Controller → Entry
latest c = record { model = c.latest_model; produced = c.latest_produced_transitions }

counters-Follows :
    (c : Controller) (m : Model) (p : ℤ)
    → validate_counters c m p ≡ none
    → Follows (latest c) (record { model = m; produced = p })
unfolding validate_counters Follows
counters-Follows c m p h = (
  ground (arith, h),
  ground (arith, h),
  ground (arith, h),
  λ e. sym (same_model→≡ m c.latest_model (ground (arith, h, e))),
)

progress-Follows :
    (c : Controller) (m : Model) (p : ℤ)
    → validate_training_progress c m p ≡ none
    → Follows (latest c) (record { model = m; produced = p })
unfolding validate_training_progress
progress-Follows c m p h = counters-Follows c m p (ground (arith, h))

-- What a call does to an initialized controller.
data Called (c : Controller) : Controller × List Entry → Type 0 where
  refuses : Called c (c, [])
  accepts : (b : Entry) → Follows (latest c) b → Called c (advance c b.model b.produced, b ∷ [])

call-Called : (c : Controller) (x : Call) → c.initialized ≡ true → Called c (call c x)
unfolding call initialize plan_next_episode observe_training_progress accepted
call-Called c (initializes steps m p) h =
    let q : call c (initializes steps m p) ≡ (c, []) = ground arith in
    subst (Called c) (sym q) refuses
call-Called c (plans m p) h = elim (Option-cases (validate_training_progress c m p)) [
  | inl e ↦
      let q : call c (plans m p) ≡ (advance c m p, record { model = m; produced = p } ∷ []) =
        ground arith in
      subst (Called c) (sym q)
        (accepts (record { model = m; produced = p }) (progress-Follows c m p e))
  | inr (e, f) ↦
      let q : call c (plans m p) ≡ (c, []) = ground arith in subst (Called c) (sym q) refuses
]
call-Called c (observes m p) h = elim (Option-cases (validate_training_progress c m p)) [
  | inl e ↦
      let q : call c (observes m p) ≡ (advance c m p, record { model = m; produced = p } ∷ []) =
        ground arith in
      subst (Called c) (sym q)
        (accepts (record { model = m; produced = p }) (progress-Follows c m p e))
  | inr (e, f) ↦
      let q : call c (observes m p) ≡ (c, []) = ground arith in subst (Called c) (sym q) refuses
]

All-Follows :
    (a b : Entry) (xs : List Entry) → Follows a b → All (Follows b) xs → All (Follows a) xs
All-Follows a b [] h k = k
All-Follows a b (x ∷ xs) h (p, k) = (Follows-trans a b x h p, All-Follows a b xs h k)

after_call :
    (c : Controller) (r : Controller × List Entry) (xs : List Call)
    → c.initialized ≡ true
    → ((k : Controller)
        → k.initialized ≡ true
        → All (Follows (latest k)) (entries k xs) × IsLedger (entries k xs))
    → Called c r
    → All (Follows (latest c)) (r.1 ++ entries r.0 xs) × IsLedger (r.1 ++ entries r.0 xs)
unfolding IsLedger
after_call c _ xs h rest refuses = rest c h
after_call c _ xs h rest (accepts b f) =
    let (later, ordered) = rest (advance c b.model b.produced) h in
    ((f, All-Follows (latest c) b _ f later), (later, ordered))

entries_from :
    (xs : List Call) (c : Controller)
    → c.initialized ≡ true
    → All (Follows (latest c)) (entries c xs) × IsLedger (entries c xs)
unfolding entries IsLedger
entries_from [] c h = (tt, tt)
entries_from (x ∷ xs) c h = after_call c (call c x) xs h (entries_from xs) (call-Called c x h)

-- What a call does to a controller that is not initialized.
data First (c : Controller) : Controller × List Entry → Type 0 where
  refuses : First c (c, [])
  begins :
      (steps : ℤ) (m : Model) (p : ℤ)
      → p ≡ pos 0
      → First c (start c steps m, record { model = m; produced = p } ∷ [])

call-First : (c : Controller) (x : Call) → c.initialized ≡ false → First c (call c x)
unfolding call initialize plan_next_episode observe_training_progress accepted
call-First c (initializes steps m p) h =
    elim (Bool-cases ((call c (initializes steps m p)).0.initialized)) [
      | inl e ↦
          let q : call c (initializes steps m p)
              ≡ (start c steps m, record { model = m; produced = p } ∷ []) =
            ground arith in
          subst (First c) (sym q) (begins steps m p (eq_ℤ-lem p (pos 0) (ground arith)))
      | inr e ↦
          let q : call c (initializes steps m p) ≡ (c, []) = ground arith in
          subst (First c) (sym q) refuses
    ]
call-First c (plans m p) h =
    let q : call c (plans m p) ≡ (c, []) = ground arith in subst (First c) (sym q) refuses
call-First c (observes m p) h =
    let q : call c (observes m p) ≡ (c, []) = ground arith in subst (First c) (sym q) refuses

after-First :
    (c : Controller) (r : Controller × List Entry) (xs : List Call)
    → IsLedger (entries c xs)
    → First c r
    → IsLedger (r.1 ++ entries r.0 xs)
unfolding IsLedger
after-First c _ xs rest refuses = rest
after-First c _ xs rest (begins steps m p e) =
    let (later, ordered) = entries_from xs (start c steps m) refl in
    (
      subst (λ q. All (Follows (record { model = m; produced = q })) (entries (start c steps m) xs))
          (sym e) later,
      ordered,
    )

entries_new : (c : Controller) (xs : List Call) → c.initialized ≡ false → IsLedger (entries c xs)
unfolding entries IsLedger
entries_new c [] h = tt
entries_new c (x ∷ xs) h = after-First c (call c x) xs (entries_new c xs h) (call-First c x h)

-- Whatever calls a new controller gets, its accepted entries are in order: in each, compared with
-- every one before it, no counter is smaller, and the model is the same when the step is.
pub entries-IsLedger : (xs : List Call) → IsLedger (entries new_controller xs)
entries-IsLedger xs = entries_new new_controller xs refl

-- `PlanNextEpisode` either refuses, with an error, no plan and no change, or accepts a model and
-- a counter that may come after the latest ones, makes them the latest and plans that model with
-- the step limit of the controller.
pub plan_cases :
    (c : Controller) (m : Model) (p : ℤ)
    → let r = plan_next_episode c m p in
      ((r.0 ≡ c) × (r.1 ≡ no_plan) × (r.2 ≢ none))
      ⊎ ((r.0 ≡ advance c m p)
          × (r.1 ≡ record { max_steps = c.episode_max_steps; model = m })
          × (r.2 ≡ none)
          × Follows (latest c) (record { model = m; produced = p }))
unfolding plan_next_episode
plan_cases c m p = elim (Bool-cases c.initialized) [
  | inr h ↦ inl (ground arith, ground arith, λ e. absurd (ground arith))
  | inl h ↦ elim (Option-cases (validate_training_progress c m p)) [
    | inl e ↦ inr (ground arith, ground arith, ground arith, progress-Follows c m p e)
    | inr (e, f) ↦ inl (ground arith, ground arith, λ g. absurd (ground arith))
  ]
]
