-- ===== src/Command/Network.antt =====
-- A client and a server (proto/rl_sdk/include/rl_sdk/session.h,
-- proto/rl_sdk/include/rl_sdk/server_command.h) over a network that loses requests and replies.
use rl_aiserver.Common.{String, Bool, Option, some, List, [], ◌∷◌, ◌++◌, if◌then◌else◌}
use rl_aiserver.Common.Int.{ℤ}
use rl_aiserver.Command.Types.{Session, Response, Wire}
use rl_aiserver.Command.Server.{Decision, Served, serve}
use rl_aiserver.Command.Client.{
  Cursor, fill_command, accept_command_reply, command_accepted, is_rejection, settle,
  CommandOutcome, applied, unknown, is_positive, is_null, is_command_wait, is_conclusive_rejected,
}
use rl_aiserver.Command.Client

-- What the network does to one round.
pub data Delivery : Type 0 where
  request_lost reply_lost heard : Delivery

module _ {Request Body Stored : Type 0} (w : Wire Request Body Stored) where
  -- A session on both sides, the request that the client sends, and two records: the requests that
  -- the server committed and those whose reply the client accepted.
  pub record World : Type 0 where
    pub session : Session Stored
    pub cursor : Cursor
    pub current : Request
    pub committed : List Request
    pub accepted : List Request

  -- One round: what the network does, what the handler decides, the response it starts from and the
  -- time at the server, the
  -- delay and the verdict of the task's binding, and the episode and request that come next.
  pub record Turn : Type 0 where
    pub delivery : Delivery
    pub decision : Decision w
    pub blank : Response Body
    pub now : ℤ
    pub delay : ℤ
    pub is_valid : Bool
    pub next_episode : String
    pub next_request : Request

  abbrev pub served : World → Turn → Served w
  served v t = serve w v.session (fill_command v.cursor) v.current t.blank t.now t.decision

  -- The world after the handler.
  unfoldable pub after_server : World → Turn → World
  after_server v t = record v {
    session = (served v t).session;
    committed = v.committed ++ (if (served v t).committed then v.current ∷ [] else []);
  }

  -- The client goes on to another request after an accepted or a conclusively rejected one, and
  -- keeps its request otherwise.
  unfoldable pub after_client : World → Turn → Cursor × Option CommandOutcome → World
  after_client v t (c, some applied) = record v {
    cursor = record c { episode_id = t.next_episode };
    current = t.next_request;
    accepted = v.accepted ++ (v.current ∷ []);
  }
  after_client v t (c, some Client.rejected) = record v {
    cursor = record c { episode_id = t.next_episode };
    current = t.next_request;
  }
  after_client v t (c, _) = record v { cursor = c }

  -- The world of one round, of those before it, after the handler and after the reply.
  abbrev pub delivered : Delivery → World → World → World → World
  delivered request_lost before after_handler after_reply = before
  delivered reply_lost before after_handler after_reply = after_handler
  delivered heard before after_handler after_reply = after_reply

  unfoldable pub turn : World → Turn → World
  turn v t = delivered t.delivery v (after_server v t) (
      after_client (after_server v t) t
        (settle v.cursor (served v t).response.reply t.delay t.is_valid))

  unfoldable pub run : World → List Turn → World
  run v [] = v
  run v (t ∷ ts) = run (turn v t) ts
