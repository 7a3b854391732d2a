-- ===== src/Examples.antt =====
-- Concrete data at which the theorems are applied, and the tests of the definitions.
mod Sorting
mod Constraints
pub mod Reference
pub mod Fleet
mod Parts
mod Admin
mod Live
mod Serving
mod Shutdown
mod Requests
mod Numbers
mod Simulation
