-- ===== src/Command/Server.antt =====
-- The replay window, `CheckCommand`, `CommitCommand` and `RejectCommand`
-- (proto/rl_sdk/include/rl_sdk/replay_window.h, proto/rl_sdk/include/rl_sdk/server_command.h), and
-- how a handler of src/task/protocol/training_task_service.h ends.
use rl_aiserver.Common.{
  ℕ, String, Bool, true, false, not, ◌&&◌, Option, none, some, ◌==◌, str_eq, if◌then◌else◌, add_u64,
}
use rl_aiserver.Common.Int.{ℤ}
use rl_aiserver.Command.Types.{
  CommandIdentity, CommandReply, CommandResult, ErrorCode, SessionPhase, Session, ReplayWindow,
  ReplayDecision, proceed, replay, conflict, gap, Response, Wire, result_applied,
  result_already_applied, result_wait, result_rejected, no_error, invalid_identity, stale_epoch,
  out_of_order, payload_conflict, state_conflict, phase_open, phase_ready, phase_aborted,
  phase_complete, phase_closed, phase_unspecified,
}

-- `Classify`.
unfoldable pub classify : {Stored : Type 0} → ReplayWindow Stored → ℕ → ℕ → String → ReplayDecision
classify w sequence last payload =
    if w.present && (sequence == w.command_sequence)
    then if not (str_eq payload w.payload) then conflict else replay
    else if not (sequence == add_u64 last 1)
    then gap
    else proceed

-- `Store`.
unfoldable pub store :
    {Stored : Type 0} → ReplayWindow Stored → ℕ → String → Stored → ReplayWindow Stored
store w sequence payload response = record {
  present = true;
  command_sequence = sequence;
  payload = payload;
  response = response;
}

-- `FillReply`.
abbrev pub fill_reply :
    {Stored : Type 0} → Session Stored → ℕ → CommandResult → ErrorCode → String → CommandReply
fill_reply s applied result code message = record {
  result = result;
  error_code = code;
  message = message;
  applied_sequence = applied;
  phase = s.phase;
}

-- `RejectCommand`.
unfoldable pub reject_command :
    {Stored : Type 0} → Session Stored → ErrorCode → String → CommandReply
reject_command s code message = fill_reply s s.last_command_sequence result_rejected code message

-- `CommandCheck`.
pub data CommandCheck : Type 0 where
  proceeds replayed rejected : CommandCheck

abbrev pub is_proceeding : CommandCheck → Bool
is_proceeding proceeds = true
is_proceeding _ = false

-- `CheckedSession` notes the time of a command that goes on or is a replay, but not of a rejected one.
abbrev pub touch : {Stored : Type 0} → Session Stored → ℤ → CommandCheck → Session Stored
touch s now proceeds = record s { last_valid_client_activity_unix_ms = now }
touch s now replayed = record s { last_valid_client_activity_unix_ms = now }
touch s now rejected = s

-- `FillOpenRejected`.
abbrev pub fill_open_rejected : ErrorCode → String → CommandReply
fill_open_rejected code message = record {
  result = result_rejected;
  error_code = code;
  message = message;
  applied_sequence = 0;
  phase = phase_unspecified;
}

module _ {Request Body Stored : Type 0} (w : Wire Request Body Stored) where
  -- The response to a retry of the last command: the stored one, marked as applied before.
  unfoldable pub replay_response : Session Stored → Response Body → Response Body × CommandCheck
  replay_response s rsp = elim (w.parse_response s.command_replay.response) [
    | none ↦ (
      record rsp { reply = reject_command s state_conflict "idempotent response is unavailable" },
      rejected,
    )
    | some stored ↦ (
      record stored {
        reply = record stored.reply {
          result = result_already_applied;
          message = "command was already applied";
        };
      },
      replayed,
    )
  ]

  -- The checks of a command that is neither a retry nor out of order.
  unfoldable pub check_identity :
      Session Stored → CommandIdentity → Response Body → Response Body × CommandCheck
  check_identity s command rsp =
      if not (str_eq command.session_id s.session_id)
      then (
        record rsp { reply = reject_command s invalid_identity "session identity does not match" },
        rejected,
      )
      else if not (command.session_epoch == s.session_epoch)
      then (
        record rsp { reply = reject_command s stale_epoch "Session epoch does not match" },
        rejected,
      )
      else (rsp, proceeds)

  -- `CheckCommand`.
  unfoldable pub check_command :
      Session Stored → CommandIdentity → Request → Response Body → Response Body × CommandCheck
  check_command s command request rsp =
      let payload = w.serialize_request command request in
      elim (classify s.command_replay command.sequence s.last_command_sequence payload) [
        | conflict ↦ (
          record rsp {
            reply =
                reject_command s payload_conflict
                  "command sequence was reused with a different payload";
          },
          rejected,
        )
        | replay ↦ replay_response s rsp
        | gap ↦ (
          record rsp { reply = reject_command s out_of_order "command sequence is not contiguous" },
          rejected,
        )
        | proceed ↦ check_identity s command rsp
      ]

  -- `CommitCommand`.
  unfoldable pub commit_command :
      Session Stored
      → CommandIdentity
      → Request
      → Response Body
      → String
      → Session Stored × Response Body
  commit_command s command request rsp message =
      let answer = record rsp {
        reply = fill_reply s command.sequence result_applied no_error message;
      } in
      (
        record s {
          last_command_sequence = command.sequence;
          command_replay =
              store s.command_replay command.sequence (w.serialize_request command request)
                (w.serialize_response answer);
        },
        answer,
      )

  -- What a handler decides of a command that passed the checks: it commits it with a phase and a
  -- body, rejects it, or lets the client wait.
  pub data Decision : Type 0 where
    commits : SessionPhase → Body → String → Decision
    rejects : ErrorCode → String → Decision
    waits : Body → String → Decision

  pub record Served : Type 0 where
    pub session : Session Stored
    pub response : Response Body
    pub committed : Bool

  -- How a handler ends on a command that passed the checks.
  unfoldable pub finish_command :
      Session Stored → CommandIdentity → Request → Response Body → Decision → Served
  finish_command s command request rsp (commits phase body message) =
      let done =
        commit_command (record s { phase = phase }) command request (record rsp { body = body })
          message in
      record { session = done.0; response = done.1; committed = true }
  finish_command s command request rsp (rejects code message) = record {
    session = s;
    response = record rsp { reply = reject_command s code message };
    committed = false;
  }
  finish_command s command request rsp (waits body message) = record {
    session = s;
    response = record {
      reply = fill_reply s s.last_command_sequence result_wait no_error message;
      body = body;
    };
    committed = false;
  }

  -- A handler of an existing session at the time `now`: it goes on with the command only when the
  -- checks let it.
  unfoldable pub serve :
      Session Stored → CommandIdentity → Request → Response Body → ℤ → Decision → Served
  serve s command request rsp now d =
      let checked = check_command s command request rsp in
      let touched = touch s now checked.1 in
      if is_proceeding checked.1
      then finish_command touched command request checked.0 d
      else record { session = touched; response = checked.0; committed = false }

  -- A handler of the session that the manager found, if it found one.
  unfoldable pub handle :
      Option (Session Stored)
      → CommandIdentity
      → Request
      → Response Body
      → ℤ
      → Decision
      → Option (Session Stored) × Response Body
  handle none command request rsp now d =
      (none, record rsp { reply = fill_open_rejected invalid_identity "session does not exist" })
  handle (some s) command request rsp now d =
      let r = serve s command request rsp now d in (some r.session, r.response)

-- The phases in which `CloseSession` is allowed.
abbrev pub is_closeable : SessionPhase → Bool
is_closeable phase_open = true
is_closeable phase_ready = true
is_closeable phase_aborted = true
is_closeable phase_complete = true
is_closeable _ = false

-- What `CloseSession` decides.
unfoldable pub close_session :
    {Request Body Stored : Type 0} (w : Wire Request Body Stored)
    → Session Stored
    → Body
    → Decision w
close_session w s body =
    if is_closeable s.phase
    then commits phase_closed body "Session closed without live resources"
    else rejects state_conflict "Session close requires no active Episode"
