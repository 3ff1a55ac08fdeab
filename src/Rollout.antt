-- ===== src/Rollout.antt =====
-- The rollout segment of one agent: from pinning a model to the envelopes of processed transitions
-- (src/task/session/training_session.h, src/task/sample/rollout_transition_builder.cpp,
-- src/task/sample/training_transition_builder.cpp, src/task/runtime/training_runtime.tpp).
pub mod Types
pub mod Build
pub mod Estimate
pub mod Project
pub mod Sound
pub mod Projection
pub mod Chunk
pub mod Pin
pub mod Finalize
pub mod Close
pub mod Produce
pub mod Steps
pub mod Reach
pub mod Examples
