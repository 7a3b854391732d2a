-- ===== src/Tracking.antt =====
-- app/services/tracking_service.py: what a driver, and the fleet view, read.
pub mod Status
pub mod Me
