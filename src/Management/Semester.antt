-- ===== src/Management/Semester.antt =====
-- internal/management/semester.go and postgres/semester.go.
pub mod Data
pub mod Service
pub mod Postgres
pub mod Interleaving
pub mod Commit
pub mod Status
pub mod End
pub mod Progression
pub mod Writes
pub mod Stale
pub mod Versions
pub mod Examples
