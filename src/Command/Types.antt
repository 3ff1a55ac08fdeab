-- ===== src/Command/Types.antt =====
-- The messages of proto/rl_sdk/proto/communication/session.proto, the replay window and the part of
-- a session that the command protocol reads. A response is its reply and a body of any type.
use rl_aiserver.Common.{ℕ, ◌≡◌, String, Bool, true, false, Option, some}
use rl_aiserver.Common.Int.{ℤ}

pub data CommandResult : Type 0 where
  result_unspecified result_applied result_already_applied result_wait result_rejected :
      CommandResult

pub data ErrorCode : Type 0 where
  no_error invalid_identity stale_epoch out_of_order payload_conflict state_conflict
        task_input_invalid model_identity_mismatch :
      ErrorCode

pub data SessionPhase : Type 0 where
  phase_unspecified phase_open phase_ready phase_running phase_terminal phase_complete phase_closed
        phase_aborted :
      SessionPhase

-- The numbers of the phases in the protocol.
abbrev pub phase_number : SessionPhase → ℕ
phase_number phase_unspecified = 0
phase_number phase_open = 1
phase_number phase_ready = 2
phase_number phase_running = 3
phase_number phase_terminal = 4
phase_number phase_complete = 5
phase_number phase_closed = 6
phase_number phase_aborted = 7

abbrev pub is_no_error : ErrorCode → Bool
is_no_error no_error = true
is_no_error _ = false

-- `CommandIdentity`.
pub record CommandIdentity : Type 0 where
  pub session_id : String
  pub session_epoch : ℕ
  pub sequence : ℕ
  pub episode_id : String

-- `CommandReply`.
pub record CommandReply : Type 0 where
  pub result : CommandResult
  pub error_code : ErrorCode
  pub message : String
  pub applied_sequence : ℕ
  pub phase : SessionPhase

pub record Response (Body : Type 0) : Type 0 where
  pub reply : CommandReply
  pub body : Body

-- The serialization of a request and of a response, and the parser of responses. The bytes of a
-- response are only stored and parsed, so their type is any.
pub record Wire (Request Body Stored : Type 0) : Type 0 where
  pub serialize_request : CommandIdentity → Request → String
  pub serialize_response : Response Body → Stored
  pub parse_response : Stored → Option (Response Body)

-- What is documented of the serialization: a serialized response is parsed to itself.
abbrev pub IsRoundTrip : {Request Body Stored : Type 0} → Wire Request Body Stored → Type 0
IsRoundTrip {Body} w = (r : Response Body) → w.parse_response (w.serialize_response r) ≡ some r

-- `LifecycleReplayDecision`.
pub data ReplayDecision : Type 0 where
  proceed replay conflict gap : ReplayDecision

-- `LifecycleReplayWindow`.
pub record ReplayWindow (Stored : Type 0) : Type 0 where
  pub present : Bool
  pub command_sequence : ℕ
  pub payload : String
  pub response : Stored

-- The part of a session of the server that commands use.
pub record Session (Stored : Type 0) : Type 0 where
  pub session_id : String
  pub session_epoch : ℕ
  pub phase : SessionPhase
  pub last_command_sequence : ℕ
  pub last_valid_client_activity_unix_ms : ℤ
  pub command_replay : ReplayWindow Stored
