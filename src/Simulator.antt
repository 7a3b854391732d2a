-- ===== src/Simulator.antt =====
-- simulator: buses that walk along the routes of the assignments and publish their positions.
pub mod Walk
pub mod Runner
