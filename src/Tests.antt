-- ===== src/Tests.antt =====
-- Concrete runs: sample rows and documents in Samples, and each theorem at one of them.
pub mod Samples
mod Devices
mod Runs
mod Tickets
mod Logins
mod Enrollments
mod Lines
mod Phases
mod Plans
mod Fleets
mod Deliveries
mod Surveys
