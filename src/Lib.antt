-- ===== src/Lib.antt =====
-- The AIServer of a reinforcement-learning system: it runs episodes of a maze task for remote
-- clients, turns their transitions into training samples, sends these to a SamplePool, and keeps a
-- journal of metric events for a collector.
--
-- The parts that are modelled, and how they meet:
--
--  - Journal (src/task/metrics/episode_metrics.h, src/task/metrics/episode_metrics.cpp):
--    `MetricEventJournal`, which episode threads fill by `AppendFact` and a collector empties by `Get`
--    and `Ack`. Journal.Types has the messages of proto/metrics/transport.proto and the fields;
--    Journal.Append has `AppendFact`, `Finalize` and `WaitForFinalAcknowledgement`; Journal.Deliver
--    has `ReadyToSeal`, `BuildPendingBatch` and `Get`; Journal.Ack has `Ack`. Retention, Batches,
--    Invariant, History, Waiting and Final hold proofs.
--  - Sender (src/task/sample/sample_sender.h, src/task/sample/sample_sender.cpp): `SampleDistributor`,
--    the bounded queue of sample envelopes with its sender thread. Sender.Delivery has the delivery
--    state and the status of the SamplePool, Sender.Reserve has `Enqueue` and the reservation of an
--    envelope set, Sender.Send has `SendFront` and `SenderLoop`, Sender.Stop has `StopAndDrain`.
--    Sender.Admission has `TrainingTransaction::Admit` (src/task/runtime/training_transaction.h), by
--    which the task service fills the queue. Machine has the locked sections of the threads of a running
--    sender as one step relation; `Start`, the function start of Sender.Delivery, runs once before
--    these threads and is not among the steps. Rounds joins the sender thread to the relation;
--    Invariant, Fifo, Delivered and Faults hold proofs.
--  - Command (proto/rl_sdk/include/rl_sdk/replay_window.h, proto/rl_sdk/include/rl_sdk/server_command.h,
--    proto/rl_sdk/include/rl_sdk/session.h): the lifecycle commands. Command.Server has the replay
--    window, `CheckCommand`, `CommitCommand`, `RejectCommand` and the frame of a handler (`CheckedSession`) of
--    src/task/protocol/training_task_service.h; Command.Client has the cursor and `Exchange`.
--    Replay, Fresh, Settled and Exactly hold proofs, the last on both sides joined by a lossy network,
--    which is Command.Network. Command.Run has `RunSession` over a binding with a state of its own, as
--    the list of the commands that it sends; Command.Rounds has `RunEpisode`.
--  - Episode (src/maze/episode/episode_controller.h, src/maze/episode/episode_controller.cpp):
--    `MazeEpisodeController`, the ledger of training progress. Ledger holds the proofs.
--  - Map (src/maze/environment/map.h, src/maze/environment/map.cpp): `ValidateMazeMapDescriptor`.
--    Map.Grid has the cells and their moves, Map.Search the breadth-first search from the goal,
--    Map.Validate the whole check. Walk is the independent notion of a walk; Scan, Loop, Shortest and
--    Accepted hold proofs.
--  - Policy (src/task/policy/episode_action_policy.cpp, src/task/policy/episode_mode.h):
--    `ValidateEpisodeModelOutput` and `SelectEpisodeAction` in Policy.Select; Choice holds proofs.
--  - Rollout (src/task/session/training_session.h, src/task/sample/rollout_transition_builder.cpp,
--    src/task/sample/training_transition_builder.cpp, src/task/runtime/training_runtime.tpp): the
--    segment of an agent. Rollout.Pin has `EnsureAgentSegmentPin`, `InferPinnedValue` and
--    `PrepareModelAction`, which calls Policy; Rollout.Finalize has `FinalizePendingTransition`, which
--    calls `BuildRawRolloutTransition` of Rollout.Build; Rollout.Close has `PrepareAgentSegmentClose`
--    and `DiscardAgentSegment`, and goes through Rollout.Estimate (`EstimateRolloutSegment`),
--    Rollout.Project (`ProjectProcessedSegment`, described by Sound and Projection) and Rollout.Chunk (its own loops). The envelopes that
--    it makes are those that the Sender takes. Produce, Steps and Reach hold proofs, the last over the
--    operations as one step relation.
--  - Model (src/task/model/model_boundary.h, src/task/model/fragment_boundary.h,
--    src/task/runtime/training_runtime.tpp): Model.Boundary has the fragment boundary; Model.Activate
--    has the staging of a model in `ModelWatchLoop`, `ActivateStagedModel`,
--    `TryPromoteStagedModelForWatcher` and `RetryPendingModelAck` in its two locked sections.
--    Published holds proofs over all interleavings of these sections, where the watch loop stages a
--    model only in a round that saw no pending acknowledgement. The two functions of the name
--    `ShouldFetchModelCandidate` differ: Model.Activate has the runtime's own, Model.Boundary that of
--    the header.
--  - Sessions (src/task/session/session_manager.h): `SessionManager`. Fresh holds proofs.
--  - Floats has the floating-point operations as parameters, and Common the tests, lists, machine words
--    and signed numbers that the parts share.
--
-- How the code is read. An operation is a function from the state before to the state after and what
-- the code returns; a locked section of a mutex is one step. A wait on a condition variable is the
-- state at its end: `Get` is the section before its wait and the section after it, and what other
-- threads do in between is any sequence of steps. Times are natural numbers that the caller gives.
-- Loops over a queue or an envelope set are recursions on the list, the attempts of `SendFront` a
-- recursion on the attempts that are left, and `Exchange` a recursion on the rounds that it meets. The
-- breadth-first search and the loop that cuts a segment into envelopes run on fuel: as many rounds as
-- the grid has cells, since a cell enters the queue only once, and as many as there are transitions,
-- since every envelope takes one. `RunSession` and `RunEpisode` go on as long as their callers'
-- functions let them, so their fuel is any number and a run that it cuts short has no result. `std::string` is the native text. An error text with the return value false is an
-- error value, and where the code marks the runtime degraded the model gives the text.
--
-- Machine integers. `uint64_t` and `size_t` arithmetic wraps at 2^64 where the code adds or subtracts
-- and a wrap is possible; where a theorem needs that a counter does not wrap, it says so. The counters of
-- `SampleDistributor`, which are `int64_t` or `int` and only grow or are balanced by their own additions,
-- are natural numbers without a bound, and so are the counts of transitions, segments and switches of
-- the runtime.
--
-- Floating point. `float` and `double` are two types with operations that are parameters, without any
-- law of arithmetic; that `<` is a strict order is a hypothesis where it is needed. The random draw is a
-- parameter too, with what <random> documents of it as a hypothesis.
--
-- Parameters. The texts of numbers (`std::to_string`) and the run of a prepared model are functions; a
-- prepared model is the address of its session. The size and
-- serialization functions of the generated Protobuf code and the outcomes of gRPC calls are arguments.
-- That a serialized response parses back is a hypothesis.
--
-- Not modelled: logging, latency sums, inference counts and snapshots for metrics, the state of a gRPC
-- channel, the rest of the task service and its transaction, the start, shutdown and session recovery of
-- the training runtime, observations and rewards of the maze, configuration files, the metric registry,
-- the file transfer of the model distributor client and generated code.
pub mod Common
pub mod Journal
pub mod Sender
pub mod Command
pub mod Episode
pub mod Map
pub mod Floats
pub mod Policy
pub mod Rollout
pub mod Model
pub mod Sessions
