-- ===== src/Sender/Delivered.antt =====
-- What `SendFront` reports: a delivery only on the word of the SamplePool, and no more attempts than
-- the configuration allows.
use rl_aiserver.Common.{
  ℕ, zero, suc, ◌+◌, ◌*◌, ◌<◌, ◌≡◌, ◌⊎◌, inl, inr, refl, String, str_eq_iff, Bool, true, false,
  ◌||◌, none, arith, Bool-cases, Option-cases,
}
use rl_aiserver.Sender.Types.{QueueItem, Sender}
use rl_aiserver.Sender.Delivery.{Rpc, ok, retryable, fatal, same_sample_pool}
use rl_aiserver.Sender.Send.{
  Env, PushResult, accepted, duplicate, is_accepted, is_duplicate, PushRsp, validate_push_response,
  committed, on_response, begin_attempt, count_rpc, send_loop, send_front,
}

-- The response says that the SamplePool of that identity has the item.
pub record Confirms (item : QueueItem) (instance : String) (epoch : ℕ) (r : PushRsp) : Type 0 where
  pub same_instance : r.instance_id ≡ instance
  pub same_epoch : r.lifecycle_epoch ≡ epoch
  pub same_envelope : r.envelope_id ≡ item.envelope.envelope_id
  pub taken : (r.result ≡ accepted) ⊎ (r.result ≡ duplicate)
  pub counted : (0 < item.transitions) × (item.transitions ≡ item.envelope.samples_size)

accepted_cases :
    (p : PushResult) → (is_accepted p || is_duplicate p) ≡ true → (p ≡ accepted) ⊎ (p ≡ duplicate)
accepted_cases p h = ground arith

validated :
    (item : QueueItem) (r : PushRsp) (instance : String) (epoch : ℕ)
    → validate_push_response item r instance epoch ≡ none
    → (is_accepted r.result || is_duplicate r.result) ≡ true
    → Confirms item instance epoch r
unfolding validate_push_response same_sample_pool
validated item r instance epoch h t = record {
  same_instance = ground (arith, str_eq_iff r.instance_id instance);
  same_epoch = ground arith;
  same_envelope = ground (arith, str_eq_iff r.envelope_id item.envelope.envelope_id);
  taken = accepted_cases r.result t;
  counted = ground arith;
}

-- The report of a response: committed only if it confirms the item.
response_committed :
    (mid : Sender → Sender) (s : Sender) (item : QueueItem) (used : ℕ) (r : PushRsp)
    (instance : String) (epoch : ℕ)
    → (on_response mid s item used r instance epoch).1.result ≡ committed
    → Confirms item instance epoch r
      × ((on_response mid s item used r instance epoch).1.duplicate ≡ is_duplicate r.result)
unfolding on_response
response_committed mid s item used r instance epoch h =
    elim (Option-cases (validate_push_response item r instance epoch)) [
      | inr (e, p) ↦ let q = rw (p, on_response) at h in cc
      | inl fine ↦ elim (Bool-cases (is_accepted r.result || is_duplicate r.result)) [
        | inl taken ↦
            (validated item r instance epoch fine taken, rw (fine, taken, on_response) refl)
        | inr other ↦ absurd (ground (arith, fine, other))
      ]
    ]

pub Rpc-cases :
    {A : Type 0} (x : Rpc A)
    → ((a : A) × (x ≡ ok a)) ⊎ (((e : String) × (x ≡ retryable e)) ⊎ ((e : String) × (x ≡ fatal e)))
Rpc-cases (ok a) = inl (a, refl)
Rpc-cases (retryable e) = inr (inl (e, refl))
Rpc-cases (fatal e) = inr (inr (e, refl))

-- Some attempt below `bound` was answered by a confirmation.
abbrev pub Confirmed : (ℕ → Rpc PushRsp) → QueueItem → String → ℕ → ℕ → Bool → Type 0
Confirmed rpc item instance epoch bound dup =
    (k : ℕ) × (r : PushRsp) × (k < bound)
    × (rpc k ≡ ok r)
    × Confirms item instance epoch r
    × (dup ≡ is_duplicate r.result)

Confirmed-mono :
    (rpc : ℕ → Rpc PushRsp) (item : QueueItem) (instance : String) (epoch a b : ℕ) (dup : Bool)
    → a ≡ b
    → Confirmed rpc item instance epoch a dup
    → Confirmed rpc item instance epoch b dup
Confirmed-mono rpc item instance epoch a b dup e (k, r, lt, p, c, d) = (k, r, omega arith, p, c, d)

module _ (env : Env) (rpc : ℕ → Rpc PushRsp) (item : QueueItem) (instance : String)
    (epoch : ℕ) where
  -- The state after a retryable failure of attempt `n`.
  abbrev retried : ℕ → Sender → Sender
  retried n s = count_rpc (env (4 * n + 1) (begin_attempt (env (4 * n) s) item n))

  send_loop_committed :
      (left n : ℕ) (s : Sender)
      → (send_loop env rpc item instance epoch left n s).1.result ≡ committed
      → Confirmed rpc item instance epoch
          (n + left)
          (send_loop env rpc item instance epoch left n s).1.duplicate
  unfolding send_loop
  send_loop_committed zero n s h = cc
  send_loop_committed (suc left) n s h = elim (Bool-cases (env (4 * n) s).force_stop) [
    | inl forced ↦ let q = rw (forced, send_loop) at h in cc
    | inr free ↦ elim (Rpc-cases (rpc n)) [
      | inl (r, p) ↦
          let q = rw (free, p, send_loop) at h in
          let c = response_committed _ _ item (n + 1) r instance epoch q in
          rw (free, p, send_loop) (n, r, omega arith, p, c.0, c.1)
      | inr (inr (e, p)) ↦ let q = rw (free, p, send_loop) at h in cc
      | inr (inl (e, p)) ↦ retry left e free p (send_loop_committed left (n + 1) (retried n s)) h
    ]
  ]
    where
      retry :
          (left : ℕ) (e : String)
          → (env (4 * n) s).force_stop ≡ false
          → rpc n ≡ retryable e
          → ((send_loop env rpc item instance epoch left (n + 1) (retried n s)).1.result ≡ committed
              → Confirmed rpc item instance epoch
                  (n + 1 + left)
                  (send_loop env rpc item instance epoch left (n + 1) (retried n s)).1.duplicate)
          → (send_loop env rpc item instance epoch (suc left) n s).1.result ≡ committed
          → Confirmed rpc item instance epoch
              (n + suc left)
              (send_loop env rpc item instance epoch (suc left) n s).1.duplicate
      retry zero e free p ih h = let q = rw (free, p, send_loop) at h in cc
      retry (suc left) e free p ih h =
          let q = rw (free, p, send_loop) at h in
          rw (free, p, send_loop)
            (Confirmed-mono rpc item instance epoch (n + 1 + suc left) (n + suc (suc left)) _
              (omega arith) (ih q))

-- `SendFront` reports an envelope as committed only if one of at most `max_attempts` attempts was
-- answered by the SamplePool that it had pinned, for that very envelope, with ACCEPTED or
-- DUPLICATE and a matching count; the duplicate flag tells which.
pub send_front-Confirmed :
    (env : Env) (rpc : ℕ → Rpc PushRsp) (item : QueueItem) (s : Sender)
    → (send_front env rpc item s).1.result ≡ committed
    → Confirmed rpc item s.sample_pool_instance_id s.sample_pool_lifecycle_epoch
        s.config.max_attempts
        (send_front env rpc item s).1.duplicate
unfolding send_front
send_front-Confirmed env rpc item s h =
    Confirmed-mono rpc item s.sample_pool_instance_id s.sample_pool_lifecycle_epoch
      (0 + s.config.max_attempts) s.config.max_attempts _ (omega arith)
      (send_loop_committed env rpc item s.sample_pool_instance_id s.sample_pool_lifecycle_epoch
        s.config.max_attempts 0 s h)
