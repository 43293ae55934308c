-- ===== src/Classroom.antt =====
-- internal/classroom: teaching inside one offering.
pub mod Errors
pub mod Exam
pub mod Grading
pub mod Attendance
