-- ===== src/Reports/Runs.antt =====
-- The runs of the load tests whose reports the repository keeps.
pub mod Registration
pub mod LoadHomeMean
pub mod LoadHomeQuickest
