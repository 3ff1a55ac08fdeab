-- ===== src/Policy.antt =====
-- The choice of an action from the output of a model (src/task/policy/episode_action_policy.cpp).
pub mod Select
pub mod Choice
pub mod Examples
