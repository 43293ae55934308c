-- ===== src/Management.antt =====
-- internal/management: the academic calendar, students and their leaves.
pub mod Errors
pub mod Semester
pub mod Leave
