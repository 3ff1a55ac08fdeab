-- ===== src/Sender/Rounds.antt =====
-- The sender thread of src/task/sample/sample_sender.cpp is made of locked sections: a round of
-- `SenderLoop`, with other threads between its sections, is a history of the step relation.
use rl_aiserver.Common.{ℕ}
use rl_aiserver.Sender.Types.{Sender}
use rl_aiserver.Sender.Send.{Env}
use rl_aiserver.Sender.Machine.{Flow}
use rl_aiserver.Sender.Fifo.{Reach}

-- Some history leads from the one state to the other.
abbrev pub Leads : Sender → Sender → Type 0
Leads s k = (f : Flow) × Reach s f k

-- The other threads take locked sections.
abbrev pub Acts : Env → Type 0
Acts env = (n : ℕ) (s : Sender) → Leads s (env n s)
