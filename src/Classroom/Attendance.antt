-- ===== src/Classroom/Attendance.antt =====
-- internal/classroom/attendance.go: attendance sheets and excuses.
pub mod Postgres
pub mod Service
pub mod Standing
pub mod Serving
pub mod Sheets
pub mod Examples
