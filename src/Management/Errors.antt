-- ===== src/Management/Errors.antt =====
-- internal/management/errors.go: the sentinels that the modelled services return, and any other
-- error, such as a failure of the database.
use e_campus_server.Prelude.{ℕ, Bool, true, false}

pub data Error : Type 0 where
  conflict academic_year_not_found semester_not_found duplicate_semester invalid_status
        invalid_status_transition semester_not_finalized semester_archived offerings_not_finalized
        semester_not_active course_not_found student_not_found invalid_leave_type leave_not_found
        already_on_leave leave_already_approved leave_ended :
      Error
  failure : ℕ → Error

-- `errors.Is(err, ErrConflict)`
abbrev pub is_conflict : Error → Bool
is_conflict conflict = true
is_conflict _ = false
