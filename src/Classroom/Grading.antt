-- ===== src/Classroom/Grading.antt =====
-- internal/classroom/grading.go: rules, final grades and the finalize cycle.
pub mod Data
pub mod Service
pub mod Outcome
pub mod Finalize
pub mod RuleExams
pub mod Examples
