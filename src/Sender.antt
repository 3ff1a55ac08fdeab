-- ===== src/Sender.antt =====
-- The producer side of sample delivery: `SampleDistributor` of src/task/sample/sample_sender.h and
-- .cpp. A bounded FIFO of immutable envelopes is filled by `Enqueue` or by a reservation that is
-- sealed and then committed, and emptied by one sender thread that pushes the front envelope until
-- the SamplePool accepts it, calls it a duplicate, or refuses it for good.
--
-- Each section that holds the mutex is one function on the state. A wait on a condition variable is
-- the state at its end: `wait_for` with a predicate returns the predicate there. The steady clock is
-- an argument in milliseconds, the gRPC calls are their outcomes, and `size` stands for the
-- generated `ByteSizeLong`. Counters of type `int64_t` only grow from 0 and are plain numbers; the
-- configured byte limit is below 2^63.
pub mod Types
pub mod Delivery
pub mod Reserve
pub mod Send
pub mod Stop
pub mod Invariant
pub mod Machine
pub mod Fifo
pub mod Admission
pub mod Delivered
pub mod Rounds
pub mod Faults
pub mod Examples
