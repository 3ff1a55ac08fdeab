-- ===== src/Sessions/Fresh.antt =====
-- The identifiers of sessions, and their counts (src/task/session/session_manager.h).
use native.Mathlib.Nat.{mod-eq_of_lt}
use text.Mathlib.TextLemmas.{append_cancel_left}
use rl_aiserver.Common.{
  ℕ, ◌+◌, ◌^◌, ◌≤◌, ◌<◌, ◌≡◌, ◌≢◌, inl, inr, refl, sym, ap, ◌∙◌, subst, String, str_eq, str_eq_iff,
  Bool, true, false, not, List, [], ◌∷◌, none, some, All, if◌then◌else◌, if_elim, if_true, if_false,
  Bool-cases, arith,
}
use rl_aiserver.Common.Int.{ℤ, pos}
use rl_aiserver.Sessions.Manager.{
  Stored, Manager, Snapshot, find, put, remove, is_closed, is_recent, count_where,
  get_active_session_count, look, snapshot_loop, get_client_activity_snapshot, destroy_session,
  name, new_session, create_session,
}

look_lem :
    (closed recent : Bool) (activity : ℤ) (t : Snapshot)
    → t.recent_count ≤ t.active_count
    → ((look closed recent activity t).active_count
        ≡ t.active_count + (if not closed then 1 else 0))
      × ((look closed recent activity t).recent_count
          ≤ (look closed recent activity t).active_count)
look_lem true recent activity t h = (omega arith, h)
look_lem false true activity t h = (refl, omega (arith, h))
look_lem false false activity t h = (refl, omega (arith, h))

snapshot_loop_lem :
    (xs : List (String × Stored)) (now lease : ℤ) (t : Snapshot)
    → t.recent_count ≤ t.active_count
    → ((snapshot_loop xs now lease t).active_count
        ≡ t.active_count + count_where (λ s. not (is_closed s.phase)) xs)
      × ((snapshot_loop xs now lease t).recent_count ≤ (snapshot_loop xs now lease t).active_count)
unfolding snapshot_loop count_where
snapshot_loop_lem [] now lease t h = (omega arith, h)
snapshot_loop_lem (x ∷ xs) now lease t h =
    let (a, b) = look_lem (is_closed x.1.phase) (is_recent x.1 now lease) x.1.last_activity t h in
    let (d, e) =
      snapshot_loop_lem xs now lease
        (look (is_closed x.1.phase) (is_recent x.1 now lease) x.1.last_activity t) b in
    (omega (arith, a, d), e)

-- The snapshot counts as many active sessions as `GetActiveSessionCount` does, and at most as many
-- recently active ones.
pub get_client_activity_snapshot_counts :
    (m : Manager) (now lease : ℤ)
    → ((get_client_activity_snapshot m now lease).active_count ≡ get_active_session_count m)
      × ((get_client_activity_snapshot m now lease).recent_count
          ≤ (get_client_activity_snapshot m now lease).active_count)
unfolding get_client_activity_snapshot
get_client_activity_snapshot_counts m now lease =
    let (a, b) =
      snapshot_loop_lem m.sessions now lease
        (record { active_count = 0; recent_count = 0; latest_activity = pos 0 }) (omega arith) in
    (omega (arith, a), b)

-- Different texts are not equal for the code either.
str_eq_no : (s t : String) → s ≢ t → str_eq s t ≡ false
str_eq_no s t h = elim (Bool-cases (str_eq s t)) [
  | inl e ↦ absurd (h ((str_eq_iff s t).0 e))
  | inr e ↦ e
]

-- The identifiers of a list are different from `id`.
abbrev Without : String → List (String × Stored) → Type 0
Without id = All (λ x. x.0 ≢ id)

find-Without : (xs : List (String × Stored)) (id : String) → Without id xs → find xs id ≡ none
unfolding find
find-Without [] id h = refl
find-Without (x ∷ xs) id h = if_false _ _ _ (str_eq_no x.0 id h.0) ∙ find-Without xs id h.1

find-put_same :
    (xs : List (String × Stored)) (id : String) (v : Stored) → find (put xs id v) id ≡ some v
unfolding find put
find-put_same [] id v = if_true _ _ _ ((str_eq_iff id id).1 refl)
find-put_same (x ∷ xs) id v = elim (Bool-cases (str_eq x.0 id)) [
  | inl e ↦ ap (λ l. find l id) (if_true _ _ _ e) ∙ if_true _ _ _ ((str_eq_iff id id).1 refl)
  | inr e ↦ ap (λ l. find l id) (if_false _ _ _ e) ∙ if_false _ _ _ e ∙ find-put_same xs id v
]

find-put_other :
    (xs : List (String × Stored)) (id other : String) (v : Stored)
    → id ≢ other
    → Without id xs
    → find (put xs id v) other ≡ find xs other
unfolding find put
find-put_other [] id other v h w = if_false _ _ _ (str_eq_no id other h)
find-put_other (x ∷ xs) id other v h w =
    ap (λ l. find l other) (if_false _ _ _ (str_eq_no x.0 id w.0))
    ∙ elim (Bool-cases (str_eq x.0 other)) [
      | inl e ↦ if_true _ _ _ e ∙ sym (if_true _ _ _ e)
      | inr e ↦ if_false _ _ _ e ∙ find-put_other xs id other v h w.1 ∙ sym (if_false _ _ _ e)
    ]

module _ (to_string : ℕ → String) where
  -- Each session has an identifier with a number that was given before.
  abbrev Numbered : ℕ → List (String × Stored) → Type 0
  Numbered n = All (λ x. (k : ℕ) × (x.0 ≡ name to_string k) × (k < n))

  pub data Reachable : Manager → Type 0 where
    empty : Reachable (record { sessions = []; next_session_id = 1 })
    creates :
        (m : Manager)
        → Reachable m
        → m.next_session_id + 1 < 2 ^ 64
        → Reachable (create_session to_string m).0
    destroys : (m : Manager) (id : String) → Reachable m → Reachable (destroy_session m id)
    changes :
        (m : Manager) (id : String) (v w : Stored)
        → Reachable m
        → find m.sessions id ≡ some w
        → Reachable (record m { sessions = put m.sessions id v })

  Numbered-put :
      (n n2 : ℕ) (xs : List (String × Stored)) (id : String) (v : Stored)
      → n ≤ n2
      → (k : ℕ) × (id ≡ name to_string k) × (k < n2)
      → Numbered n xs
      → Numbered n2 (put xs id v)
  unfolding put
  Numbered-put n n2 [] id v l w h = (w, tt)
  Numbered-put n n2 (x ∷ xs) id v l w ((k, e, u), hs) =
      if_elim (Numbered n2) (str_eq x.0 id) _ _ (λ s. (w, weaken xs hs))
        (λ s. ((k, e, omega (arith, u, l)), Numbered-put n n2 xs id v l w hs))
    where
      weaken : (ys : List (String × Stored)) → Numbered n ys → Numbered n2 ys
      weaken [] p = tt
      weaken (y ∷ ys) ((j, f, q), ps) = ((j, f, omega (arith, q, l)), weaken ys ps)

  Numbered-remove :
      (n : ℕ) (xs : List (String × Stored)) (id : String)
      → Numbered n xs
      → Numbered n (remove xs id)
  unfolding remove
  Numbered-remove n [] id h = tt
  Numbered-remove n (x ∷ xs) id (h, hs) =
      if_elim (Numbered n) (str_eq x.0 id) _ _ (λ s. hs) (λ s. (h, Numbered-remove n xs id hs))

  Numbered-find :
      (n : ℕ) (xs : List (String × Stored)) (id : String) (w : Stored)
      → Numbered n xs
      → find xs id ≡ some w
      → (k : ℕ) × (id ≡ name to_string k) × (k < n)
  unfolding find
  Numbered-find n [] id w h e = absurd (cc e)
  Numbered-find n (x ∷ xs) id w ((k, f, u), hs) e = elim (Bool-cases (str_eq x.0 id)) [
    | inl s ↦ (k, sym ((str_eq_iff x.0 id).0 s) ∙ f, u)
    | inr s ↦ Numbered-find n xs id w hs (sym (if_false _ _ _ s) ∙ e)
  ]

  Reachable-Numbered : (m : Manager) → Reachable m → Numbered m.next_session_id m.sessions
  unfolding create_session destroy_session
  Reachable-Numbered m empty = tt
  Reachable-Numbered m (creates a r h) =
      let next = sym (mod-eq_of_lt h) in
      subst
        (λ n.
          Numbered n (put a.sessions (name to_string a.next_session_id) (new_session to_string a)))
        next
        (Numbered-put a.next_session_id (a.next_session_id + 1) a.sessions _ _ (omega arith)
          (a.next_session_id, refl, omega arith) (Reachable-Numbered a r))
  Reachable-Numbered m (destroys a id r) =
      Numbered-remove a.next_session_id a.sessions id (Reachable-Numbered a r)
  Reachable-Numbered m (changes a id v w r e) =
      Numbered-put a.next_session_id a.next_session_id a.sessions id v (omega arith)
        (Numbered-find a.next_session_id a.sessions id w (Reachable-Numbered a r) e)
        (Reachable-Numbered a r)

  abbrev pub IsInjective : Type 0
  IsInjective = (j k : ℕ) → to_string j ≡ to_string k → j ≡ k

  Numbered-Without :
      (n : ℕ) (xs : List (String × Stored))
      → IsInjective
      → Numbered n xs
      → Without (name to_string n) xs
  Numbered-Without n [] i h = tt
  Numbered-Without n (x ∷ xs) i ((k, e, u), hs) = (
    (λ z. absurd (omega (arith, i k n (append_cancel_left _ _ _ (sym e ∙ z)), u))),
    Numbered-Without n xs i hs,
  )

  -- In a manager that creations, removals and changes of sessions reach, with texts of numbers that
  -- differ when the numbers do: the identifier of a created session is in no use, the session is
  -- found under it afterwards, and every other identifier finds what it found before.
  pub create_session_fresh :
      (m : Manager)
      → IsInjective
      → Reachable m
      → (find m.sessions (create_session to_string m).1 ≡ none)
        × ((v : Stored) × (find
                (create_session to_string m).0.sessions
                (create_session to_string m).1
              ≡ some v))
        × ((other : String)
            → (create_session to_string m).1 ≢ other
            → find (create_session to_string m).0.sessions other ≡ find m.sessions other)
  unfolding create_session
  create_session_fresh m i r =
      let new = Numbered-Without m.next_session_id m.sessions i (Reachable-Numbered m r) in
      (
        find-Without m.sessions _ new,
        (_, find-put_same m.sessions _ _),
        λ other h. find-put_other m.sessions _ other _ h new,
      )
