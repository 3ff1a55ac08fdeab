-- ===== src/Command/Fresh.antt =====
-- How a handler serves a command that follows the last one
-- (proto/rl_sdk/include/rl_sdk/server_command.h).
use rl_aiserver.Common.{
  ℕ, ◌≡◌, ◌<◌, ◌⊎◌, inl, inr, refl, String, true, false, some, ◌==◌, str_eq, arith, add_u64,
  u64_mod, Bool-cases,
}
use rl_aiserver.Common.Int.{ℤ}
use rl_aiserver.Command.Types.{
  CommandIdentity, CommandReply, invalid_identity, stale_epoch, Session, ReplayWindow, Response,
  Wire, IsRoundTrip, replay, proceed, result_applied, no_error,
}
use rl_aiserver.Command.Server.{
  classify, store, check_identity, check_command, CommandCheck, proceeds, commit_command, Decision,
  commits, rejects, waits, Served, finish_command, touch, serve, reject_command, fill_reply,
}
use rl_aiserver.Command.Replay.{classify_stored}
use rl_aiserver.Command.Client.{command_accepted, is_rejection}

classify_next :
    {Stored : Type 0} (r : ReplayWindow Stored) (n last : ℕ) (p : String)
    → (r.present ≡ true → r.command_sequence ≡ last)
    → last < u64_mod
    → n ≡ add_u64 last 1
    → classify r n last p ≡ proceed
unfolding classify
classify_next r n last p h l e = elim (Bool-cases r.present) [
  | inl t ↦ ground (arith, h t)
  | inr t ↦ ground arith
]

-- The window of a session holds its last command.
abbrev pub IsWindow : {Stored : Type 0} → Session Stored → Type 0
IsWindow s =
    (s.last_command_sequence < u64_mod)
    × (s.command_replay.present ≡ true
        → s.command_replay.command_sequence ≡ s.last_command_sequence)

module _ {Request Body Stored : Type 0} (w : Wire Request Body Stored) where
  -- A session that committed a request and stored its response.
  pub record Kept (s : Session Stored) (c : CommandIdentity) (q : Request) : Type 0 where
    pub window : IsWindow s
    pub last : c.sequence ≡ s.last_command_sequence
    pub is_replay :
        classify s.command_replay c.sequence s.last_command_sequence (w.serialize_request c q)
        ≡ replay
    pub stored : Response Body
    pub is_stored : w.parse_response s.command_replay.response ≡ some stored

  -- What a handler does with a command that passes the checks on its sequence.
  pub data Fresh (s : Session Stored) (c : CommandIdentity) (q : Request) (now : ℤ) (r : Served w)
      : Type 0 where
    refuses :
        (k : CommandCheck)
        → r.committed ≡ false
        → r.session ≡ touch s now k
        → command_accepted r.response.reply ≡ false
        → Fresh s c q now r
    applies :
        r.committed ≡ true
        → Kept r.session c q
        → is_rejection r.response.reply.result ≡ false
        → Fresh s c q now r

  finish-Fresh :
      IsRoundTrip w
      → (s : Session Stored) (c : CommandIdentity) (q : Request) (rsp : Response Body) (now : ℤ)
        (d : Decision w)
      → c.sequence < u64_mod
      → Fresh s c q now (finish_command w (touch s now proceeds) c q rsp d)
  unfolding finish_command commit_command store command_accepted reject_command
  finish-Fresh t s c q rsp now (commits phase body message) h =
      let a : Response Body = record {
        reply =
            fill_reply (record (touch s now proceeds) { phase = phase }) c.sequence result_applied
              no_error message;
        body = body;
      } in
      applies refl
        record {
          window = (h, λ _. refl);
          last = refl;
          is_replay =
              classify_stored s.command_replay c.sequence c.sequence (w.serialize_request c q)
                (w.serialize_response a);
          stored = a;
          is_stored = t a;
        }
        refl
  finish-Fresh t s c q rsp now (rejects code message) h = refuses proceeds refl refl refl
  finish-Fresh t s c q rsp now (waits body message) h = refuses proceeds refl refl refl

  identity_cases :
      (s : Session Stored) (c : CommandIdentity) (rsp : Response Body)
      → (check_identity w s c rsp ≡ (rsp, proceeds))
        ⊎ ((a : CommandReply) × (command_accepted a ≡ false)
            × (check_identity w s c rsp ≡ (record rsp { reply = a }, CommandCheck.rejected)))
  unfolding check_identity command_accepted reject_command
  identity_cases s c rsp = elim (Bool-cases (str_eq c.session_id s.session_id)) [
    | inr e ↦
        inr (reject_command s invalid_identity "session identity does not match", refl, rw e refl)
    | inl e ↦ elim (Bool-cases (c.session_epoch == s.session_epoch)) [
      | inr f ↦
          inr (reject_command s stale_epoch "Session epoch does not match", refl, rw (e, f) refl)
      | inl f ↦ inl (rw (e, f) refl)
    ]
  ]

  check_fresh :
      (s : Session Stored) (c : CommandIdentity) (q : Request) (rsp : Response Body)
      → classify s.command_replay c.sequence s.last_command_sequence (w.serialize_request c q)
        ≡ proceed
      → check_command w s c q rsp ≡ check_identity w s c rsp
  unfolding check_command
  check_fresh s c q rsp e = rw (e, check_command) refl

  pub serve-Fresh :
      IsRoundTrip w
      → (s : Session Stored) (c : CommandIdentity) (q : Request) (rsp : Response Body) (now : ℤ)
        (d : Decision w)
      → IsWindow s
      → c.sequence ≡ add_u64 s.last_command_sequence 1
      → Fresh s c q now (serve w s c q rsp now d)
  unfolding serve
  serve-Fresh t s c q rsp now d (l, h) e =
      let k = check_fresh s c q rsp (
        classify_next s.command_replay c.sequence s.last_command_sequence (w.serialize_request c q)
          h l e) in
      let m : c.sequence < u64_mod = omega (arith, e) in
      elim (identity_cases s c rsp) [
        | inl i ↦ rw (k, i) (finish-Fresh t s c q rsp now d m)
        | inr (a, f, i) ↦ rw (k, i) (refuses CommandCheck.rejected refl refl f)
      ]
