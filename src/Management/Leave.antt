-- ===== src/Management/Leave.antt =====
-- internal/management/leave.go: a student's leaves of absence.
pub mod Data
pub mod Postgres
pub mod Service
pub mod Sound
pub mod Status
pub mod Edits
pub mod Serving
pub mod Examples
