-- ===== src/Files.antt =====
-- internal/files: inodes, upload receipts and the sweeps.
pub mod Data
pub mod Postgres
pub mod Service
pub mod Lessons
pub mod Tally
pub mod Counted
pub mod Linking
pub mod Attaching
pub mod Serving
pub mod Bytes
pub mod Race
pub mod Examples
