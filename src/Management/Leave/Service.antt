-- ===== src/Management/Leave/Service.antt =====
-- internal/management/leave.go: the service, on the tables; with UpdateStudent of student.go.
use e_campus_server.Prelude.{
  ℕ, zero, suc, Bool, true, false, not, Option, none, some, List, [], ◌∷◌, Result, ok, err, Method,
  Done, pure, throw, throw_if, attempt, ◌>>=◌, ◌>>◌, if◌then◌else◌,
}
use e_campus_server.Management.Errors.{
  Error, invalid_leave_type, invalid_status, conflict, is_conflict,
}
use e_campus_server.Management.Leave.Data.{
  active, on_leave, Leave, LeaveRequest, valid_leave_type, leave_withdraws, Student, StudentUpdate,
  patched, valid_shift, valid_tuition, valid_student_status,
}
use e_campus_server.Management.Leave.Postgres.{
  Tables, create_leave, approve_leave, end_leave, add_leave_semesters, get_leave_semesters,
  get_student, set_student_status, withdraw_enrollments_for_leave, store_student,
}

-- The leave that a request asks for; the statement gives it its id and times.
abbrev pub requested : ℕ → LeaveRequest → Leave
requested student_id req = record {
  id = 0;
  student_id = student_id;
  type = req.type;
  academic_year_id = req.academic_year_id;
  reason = req.reason;
  start_date = req.start_date;
  end_date = req.end_date;
  closed_at = none;
  approved_by = none;
  approved_at = none;
  notes = req.notes;
  created_at = 0;
}

-- `if len(ids) > 0 { … }`
abbrev pub unless_empty : List ℕ → Method Tables Error Done → Method Tables Error Done
unless_empty [] m = pure tt
unless_empty (_ ∷ _) m = m

unfoldable pub request_leave : ℕ → LeaveRequest → Method Tables Error (Leave × List ℕ)
request_leave student_id req = do
  throw_if (not (valid_leave_type req.type)) invalid_leave_type
  get_student student_id
  leave ← create_leave (requested student_id req)
  unless_empty req.semester_ids (add_leave_semesters leave.id req.semester_ids)
  pure (leave, req.semester_ids)

-- What follows the approval of a leave that withdraws enrollments.
abbrev pub withdraw_and_move : Leave → List ℕ → Method Tables Error Bool
withdraw_and_move leave semester_ids = do
  unless_empty semester_ids (withdraw_enrollments_for_leave leave.student_id semester_ids)
  set_student_status leave.student_id active on_leave

abbrev pub follow_on : Bool → Leave → List ℕ → Method Tables Error Bool
follow_on true leave semester_ids = withdraw_and_move leave semester_ids
follow_on false leave semester_ids = pure false

-- `ApproveLeave` of the service.
unfoldable pub approve : ℕ → ℕ → Method Tables Error (Leave × List ℕ)
approve leave_id approver_id = do
  leave ← approve_leave leave_id approver_id
  semester_ids ← get_leave_semesters leave_id
  follow_on (leave_withdraws leave.type) leave semester_ids
  pure (leave, semester_ids)

-- `EndLeave` of the service.
unfoldable pub finish : ℕ → Method Tables Error Leave
finish leave_id = do
  leave ← end_leave leave_id
  set_student_status leave.student_id on_leave active
  pure leave

-- The end of a round of `UpdateStudent`: another one after a conflict.
abbrev pub finish_edit :
    Student → Method Tables Error Student → Result Error ℕ → Method Tables Error Student
finish_edit student again (ok new_version) = pure (record student { version = new_version })
finish_edit student again (err e) = if is_conflict e then again else throw e

-- The loop of `UpdateStudent`, on the number of rounds left.
unfoldable pub edit_rounds : ℕ → ℕ → StudentUpdate → Method Tables Error Student
edit_rounds zero id upd = throw conflict
edit_rounds (suc rounds) id upd = do
  student ← get_student id
  r ← attempt (store_student (patched upd student) student.version)
  finish_edit (patched upd student) (edit_rounds rounds id upd) r

abbrev pub valid_if_set : {A : Type 0} → (A → Bool) → Option A → Bool
valid_if_set valid none = true
valid_if_set valid (some x) = valid x

-- `UpdateStudent` of the service; `maxUpdateRetries` is 3.
unfoldable pub edit_student : ℕ → StudentUpdate → Method Tables Error Student
edit_student id upd = do
  throw_if (not (valid_if_set valid_shift upd.shift)) invalid_status
  throw_if (not (valid_if_set valid_tuition upd.tuition)) invalid_status
  throw_if (not (valid_if_set valid_student_status upd.status)) invalid_status
  edit_rounds 3 id upd
