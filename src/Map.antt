-- ===== src/Map.antt =====
-- The map of the maze task: `ValidateMazeMapDescriptor` (src/maze/environment/map.cpp).
pub mod Grid
pub mod Search
pub mod Validate
pub mod Walk
pub mod Scan
pub mod Loop
pub mod Shortest
pub mod Accepted
pub mod Examples
