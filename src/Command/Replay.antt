-- ===== src/Command/Replay.antt =====
-- A retry of the last committed command, and the commands that the checks let through
-- (proto/rl_sdk/include/rl_sdk/server_command.h).
use rl_aiserver.Common.{
  ℕ, ◌≡◌, refl, String, true, false, some, str_eq, str_eq_iff, ==_refl, arith, add_u64,
}
use rl_aiserver.Common.Int.{ℤ}
use rl_aiserver.Command.Types.{
  CommandIdentity, Session, ReplayWindow, Response, Wire, IsRoundTrip, replay,
  result_already_applied,
}
use rl_aiserver.Command.Server.{
  classify, store, replay_response, check_identity, check_command, proceeds, replayed,
  commit_command, Decision, serve,
}

str_eq_self : (s : String) → str_eq s s ≡ true
str_eq_self s = (str_eq_iff s s).1 refl

pub classify_stored :
    {Stored : Type 0} (w : ReplayWindow Stored) (n last : ℕ) (p : String) (r : Stored)
    → classify (store w n p r) n last p ≡ replay
unfolding classify store
classify_stored w n last p r = ground (arith, ==_refl n, str_eq_self p)

module _ {Request Body Stored : Type 0} (w : Wire Request Body Stored)
    (round_trip : IsRoundTrip w) where
  abbrev pub marked : Response Body → Response Body
  marked r = record r {
    reply = record r.reply {
      result = result_already_applied;
      message = "command was already applied";
    };
  }

  pub check_replay :
      (s : Session Stored) (c : CommandIdentity) (q : Request) (rsp stored : Response Body)
      → classify s.command_replay c.sequence s.last_command_sequence (w.serialize_request c q)
        ≡ replay
      → w.parse_response s.command_replay.response ≡ some stored
      → check_command w s c q rsp ≡ (marked stored, replayed)
  unfolding check_command replay_response
  check_replay s c q rsp stored e h = rw (e, check_command) (rw (h, replay_response) refl)

  pub serve_replay :
      (s : Session Stored) (c : CommandIdentity) (q : Request) (rsp stored : Response Body)
      (now : ℤ) (d : Decision w)
      → classify s.command_replay c.sequence s.last_command_sequence (w.serialize_request c q)
        ≡ replay
      → w.parse_response s.command_replay.response ≡ some stored
      → serve w s c q rsp now d ≡ record {
        session = record s { last_valid_client_activity_unix_ms = now };
        response = marked stored;
        committed = false;
      }
  unfolding serve
  serve_replay s c q rsp stored now d e h = rw (check_replay s c q rsp stored e h, serve) refl

  -- For a serialization that parses back: serving the last committed command again, with the
  -- same request and whatever the handler would decide, changes nothing in the session but the time
  -- of the client's last valid activity, and gives the committed response, marked as applied
  -- before.
  pub serve_again :
      (s : Session Stored) (c : CommandIdentity) (q : Request) (first again : Response Body)
      (message : String) (now : ℤ) (d : Decision w)
      → let done = commit_command w s c q first message in
        serve w done.0 c q again now d ≡ record {
          session = record done.0 { last_valid_client_activity_unix_ms = now };
          response = record done.1 {
            reply = record done.1.reply {
              result = result_already_applied;
              message = "command was already applied";
            };
          };
          committed = false;
        }
  unfolding commit_command store
  serve_again s c q first again message now d =
      let n = c.sequence in
      let p = w.serialize_request c q in
      let done = commit_command w s c q first message in
      serve_replay done.0 c q again done.1 now d
        (classify_stored s.command_replay n n p (w.serialize_response done.1)) (round_trip done.1)

module _ {Request Body Stored : Type 0} (w : Wire Request Body Stored) where
  -- A command that passes the checks is the one after the last committed command, of this session and
  -- epoch.
  pub check_proceeds :
      (s : Session Stored) (c : CommandIdentity) (q : Request) (rsp : Response Body)
      → (check_command w s c q rsp).1 ≡ proceeds
      → (c.sequence ≡ add_u64 s.last_command_sequence 1)
        × (c.session_id ≡ s.session_id)
        × (c.session_epoch ≡ s.session_epoch)
  unfolding check_command classify check_identity replay_response
  check_proceeds s c q rsp h = ground (arith, (str_eq_iff c.session_id s.session_id).0)
