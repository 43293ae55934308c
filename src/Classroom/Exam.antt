-- ===== src/Classroom/Exam.antt =====
-- internal/classroom/exam.go and postgres/exam.go.
pub mod Data
pub mod Scoring
pub mod Postgres
pub mod Attempts
pub mod Inputs
pub mod Service
pub mod Counting
pub mod Caps
pub mod Existence
pub mod AttemptCaps
pub mod ManualCaps
pub mod Requests
pub mod Serving
pub mod Visibility
pub mod Examples
pub mod Marks
pub mod Awards
