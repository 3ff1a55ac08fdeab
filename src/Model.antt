-- ===== src/Model.antt =====
-- The models of the runtime: the boundary at which an agent's fragment is flushed, and the
-- activation of a staged model (src/task/model/model_boundary.h, src/task/model/fragment_boundary.h,
-- src/task/runtime/training_runtime.tpp).
pub mod Boundary
pub mod Activate
pub mod Published
pub mod Examples
