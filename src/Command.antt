-- ===== src/Command.antt =====
-- The lifecycle commands of a session: the replay window
-- (proto/rl_sdk/include/rl_sdk/replay_window.h), the server's checks and replies
-- (proto/rl_sdk/include/rl_sdk/server_command.h) and the client's cursor and exchange
-- (proto/rl_sdk/include/rl_sdk/session.h).
pub mod Types
pub mod Server
pub mod Client
pub mod Replay
pub mod Network
pub mod Fresh
pub mod Settled
pub mod Exactly
pub mod Run
pub mod Rounds
pub mod Examples
pub mod RunExamples
