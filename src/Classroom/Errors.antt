-- ===== src/Classroom/Errors.antt =====
-- internal/classroom/errors.go: the sentinels that the modelled services return, and any other error,
-- such as a failure of the database.
use e_campus_server.Prelude.{ℕ}

pub data Error : Type 0 where
  exam_not_found attempt_not_found conflict invalid_input exam_not_draft exam_not_published
        exam_not_available exam_not_manual no_questions_in_exam max_attempts_reached
        attempt_submitted invalid_rules rule_exam_not_found rules_not_found semester_not_grading
        semester_archived already_finalized not_finalized ungraded_work no_enrollments invalid_score
        enrollment_not_found lesson_not_found attendance_not_found attendance_not_required
        invalid_percentage excuse_not_found excuse_exists excuse_reviewed own_attendance :
      Error
  failure : ℕ → Error
