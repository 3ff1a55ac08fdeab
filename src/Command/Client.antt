-- ===== src/Command/Client.antt =====
-- The client's cursor and its exchange of a command (proto/rl_sdk/include/rl_sdk/session.h).
use rl_aiserver.Common.{
  ℕ, ◌-◌, String, Bool, true, false, not, ◌&&◌, ◌||◌, Option, none, some, List, [], ◌∷◌, ltb, leb,
  ◌==◌, if◌then◌else◌, add_u64,
}
use rl_aiserver.Common.Int.{ℤ, pos, negsuc}
use rl_aiserver.Command.Types.{
  CommandIdentity, CommandReply, CommandResult, SessionPhase, phase_number, is_no_error,
  result_applied, result_already_applied, result_wait, result_rejected,
}

-- `LifecycleCursor`.
pub record Cursor : Type 0 where
  pub session_id : String
  pub episode_id : String
  pub session_epoch : ℕ
  pub next_sequence : ℕ
  pub phase : SessionPhase

abbrev pub fill_command : Cursor → CommandIdentity
fill_command c = record {
  session_id = c.session_id;
  session_epoch = c.session_epoch;
  sequence = c.next_sequence;
  episode_id = c.episode_id;
}

-- `Bind`.
unfoldable pub bind : Cursor → String → ℕ → CommandReply → Cursor
bind c id epoch reply = record c {
  session_id = id;
  session_epoch = epoch;
  next_sequence = add_u64 reply.applied_sequence 1;
  phase = reply.phase;
}

unfoldable pub has_concrete_phase : CommandReply → Bool
has_concrete_phase r = leb 1 (phase_number r.phase) && leb (phase_number r.phase) 7

abbrev pub is_success : CommandResult → Bool
is_success result_applied = true
is_success result_already_applied = true
is_success _ = false

abbrev pub is_wait : CommandResult → Bool
is_wait result_wait = true
is_wait _ = false

abbrev pub is_rejection : CommandResult → Bool
is_rejection result_rejected = true
is_rejection _ = false

unfoldable pub command_accepted : CommandReply → Bool
command_accepted r = is_success r.result && is_no_error r.error_code

-- `AcceptCommandReply`.
unfoldable pub accept_command_reply : Cursor → CommandReply → Cursor × Bool
accept_command_reply c r =
    if not (command_accepted r)
      || (not (r.applied_sequence == c.next_sequence) || not (has_concrete_phase r))
    then (c, false)
    else (record c { phase = r.phase; next_sequence = add_u64 c.next_sequence 1 }, true)

-- The server's proof that it has the phase of the cursor and none of its next command.
unfoldable pub is_unmoved : Cursor → CommandReply → Bool
is_unmoved c r =
    (r.applied_sequence == (c.next_sequence - 1))
    && (has_concrete_phase r && (phase_number r.phase == phase_number c.phase))

unfoldable pub is_command_wait : Cursor → CommandReply → Bool
is_command_wait c r =
    ltb 0 c.next_sequence && (is_wait r.result && (is_no_error r.error_code && is_unmoved c r))

unfoldable pub is_conclusive_rejected : Cursor → CommandReply → Bool
is_conclusive_rejected c r =
    ltb 0 c.next_sequence
    && (is_rejection r.result && (not (is_no_error r.error_code) && is_unmoved c r))

-- `CommandOutcome`.
pub data CommandOutcome : Type 0 where
  applied rejected unknown stopped wait_expired : CommandOutcome

abbrev pub is_positive : ℤ → Bool
is_positive (pos n) = ltb 0 n
is_positive (negsuc n) = false

abbrev pub is_null : ℤ → Bool
is_null (pos n) = n == 0
is_null (negsuc n) = false

-- The end of a round of `Exchange` on a response: no outcome is a wait before the next round.
unfoldable pub settle : Cursor → CommandReply → ℤ → Bool → Cursor × Option CommandOutcome
settle c r delay valid =
    if is_positive delay && is_command_wait c r
    then (c, none)
    else if is_null delay && (valid && (accept_command_reply c r).1)
    then ((accept_command_reply c r).0, some applied)
    else (c, some (if is_conclusive_rejected c r then rejected else unknown))

-- What one round of `Exchange` meets: a request to stop, the end of the budget, and the answer with
-- the delay and the verdict that the task's binding reads from it.
pub record Round : Type 0 where
  pub is_stopped : Bool
  pub is_expired : Bool
  pub answer : Option (CommandReply × ℤ × Bool)

-- `Exchange` over the rounds that it meets; no outcome means that it still waits after them.
unfoldable pub exchange : Cursor → List Round → Cursor × Option CommandOutcome
exchange c [] = (c, none)
exchange c (round ∷ rounds) =
    if round.is_stopped
    then (c, some stopped)
    else if round.is_expired
    then (c, some wait_expired)
    else elim round.answer [
      | none ↦ (c, some unknown)
      | some a ↦ elim (settle c a.0 a.1 a.2).1 [
        | none ↦ exchange (settle c a.0 a.1 a.2).0 rounds
        | some outcome ↦ settle c a.0 a.1 a.2
      ]
    ]
