-- ===== src/Episode.antt =====
-- The training ledger of the maze task (src/maze/episode/episode_controller.h,
-- src/maze/episode/episode_controller.cpp).
pub mod Controller
pub mod Ledger
pub mod Examples
