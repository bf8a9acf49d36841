-- ===== src/Provider.antt =====
-- provider/provider.go, the schedule of the sweeping provider.
pub mod Times
pub mod Schedule
pub mod Reprovide
pub mod Claims
