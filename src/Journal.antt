-- ===== src/Journal.antt =====
-- The metric event journal of one producer lifecycle: `MetricEventJournal` of
-- src/task/metrics/episode_metrics.h and .cpp. Events are numbered from 1, kept in a bounded
-- buffer, delivered in batches that one pinned consumer acknowledges, and reported as a gap where
-- the bound has dropped them.
--
-- `Wire` stands for the generated Protobuf code: the encoded sizes and the encoding of a cursor.
-- The steady clock is an argument `now` (milliseconds); the mutex makes each function below one
-- step, and `Get` releases it only while it waits, so it is two steps, `get_enter` and `get_resume`.
pub mod Types
pub mod Append
pub mod Deliver
pub mod Ack
pub mod Retention
pub mod Batches
pub mod Invariant
pub mod History
pub mod Waiting
pub mod Final
pub mod Examples
