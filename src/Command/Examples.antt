-- ===== src/Command/Examples.antt =====
-- A client and a server over two rounds of a network that loses a reply, and the claims at them.
use rl_aiserver.Common.{
  str_eq, ◌≡◌, ◌⊎◌, refl, String, true, false, none, some, List, [], ◌∷◌, ◌++◌, add_u64, arith,
}
use rl_aiserver.Common.Int.{pos}
use rl_aiserver.Command.Types.{
  Response, Wire, IsRoundTrip, Session, result_unspecified, result_already_applied, no_error,
  invalid_identity, phase_unspecified, phase_open, phase_ready,
}
use rl_aiserver.Command.Server.{
  store, finish_command, replay_response, check_command, proceeds, classify, check_identity,
  commit_command, commits, serve, handle,
}
use rl_aiserver.Command.Client.{
  Cursor, settle, accept_command_reply, command_accepted, has_concrete_phase, fill_command,
}
use rl_aiserver.Command.Replay.{serve_again, check_proceeds}
use rl_aiserver.Command.Exactly.{exactly_once}
use rl_aiserver.Command.Network.{
  World, Turn, Delivery, turn, after_server, after_client, reply_lost, heard, run,
}

-- Requests and bodies are texts, and a response is stored as it is.
abbrev wire : Wire String String (Response String)
wire = record { serialize_request = λ c q. q; serialize_response = λ r. r; parse_response = some }

wire-IsRoundTrip : IsRoundTrip wire
wire-IsRoundTrip r = refl

abbrev blank : Response String
blank = record {
  reply = record {
    result = result_unspecified;
    error_code = no_error;
    message = "";
    applied_sequence = 0;
    phase = phase_unspecified;
  };
  body = "";
}

abbrev session : Session (Response String)
session = record {
  session_id = "s";
  session_epoch = 3;
  phase = phase_open;
  last_command_sequence = 0;
  last_valid_client_activity_unix_ms = pos 0;
  command_replay = record { present = false; command_sequence = 0; payload = ""; response = blank };
}

abbrev cursor : Cursor
cursor = record {
  session_id = "s";
  episode_id = "";
  session_epoch = 3;
  next_sequence = 1;
  phase = phase_open;
}

abbrev world : World wire
world = record {
  session = session;
  cursor = cursor;
  current = "init";
  committed = [];
  accepted = [];
}

-- The reply of the first round is lost, that of the second is heard.
abbrev round : Delivery → Turn wire
round d = record {
  delivery = d;
  decision = commits phase_ready "ready" "initialized";
  blank = blank;
  now = pos 40;
  delay = pos 0;
  is_valid = true;
  next_episode = "e";
  next_request = "begin";
}

abbrev turns : List (Turn wire)
turns = round reply_lost ∷ round heard ∷ []

-- The command is committed once, although it was served twice.
committed_once : (run wire world turns).committed ≡ "init" ∷ []
unfolding run turn after_server after_client serve check_command classify store check_identity
    commit_command finish_command replay_response str_eq settle accept_command_reply
    command_accepted has_concrete_phase
committed_once = refl

accepted_once : (run wire world turns).accepted ≡ "init" ∷ []
unfolding run turn after_server after_client serve check_command classify store check_identity
    commit_command finish_command replay_response str_eq settle accept_command_reply
    command_accepted has_concrete_phase
accepted_once = refl

-- A command of a session that is gone.
is_gone :
    (handle wire none
      (fill_command cursor)
      "init"
      blank
      (pos 40)
      (commits phase_ready "ready" "initialized")).1.reply.error_code
    ≡ invalid_identity
unfolding handle
is_gone = refl

exactly_once_example :
    let k = run wire world turns in
    (k.committed ≡ k.accepted) ⊎ (k.committed ≡ k.accepted ++ (k.current ∷ []))
exactly_once_example =
    exactly_once wire wire-IsRoundTrip world turns (omega arith, λ e. refl) refl refl

serve_again_example :
    let done = commit_command wire session (fill_command cursor) "init" blank "initialized" in
    serve wire done.0
      (fill_command cursor)
      "init"
      blank
      (pos 50)
      (commits phase_ready "again" "again")
    ≡ record {
      session = record done.0 { last_valid_client_activity_unix_ms = pos 50 };
      response = record done.1 {
        reply = record done.1.reply {
          result = result_already_applied;
          message = "command was already applied";
        };
      };
      committed = false;
    }
serve_again_example =
    serve_again wire wire-IsRoundTrip session (fill_command cursor) "init" blank blank "initialized"
      (pos 50) (commits phase_ready "again" "again")

first_proceeds : (check_command wire session (fill_command cursor) "init" blank).1 ≡ proceeds
unfolding check_command classify check_identity str_eq
first_proceeds = refl

check_proceeds_example :
    ((fill_command cursor).sequence ≡ add_u64 session.last_command_sequence 1)
    × ((fill_command cursor).session_id ≡ session.session_id)
    × ((fill_command cursor).session_epoch ≡ session.session_epoch)
check_proceeds_example =
    check_proceeds wire session (fill_command cursor) "init" blank first_proceeds
