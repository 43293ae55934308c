-- ===== src/Classroom/Attendance/Service.antt =====
-- internal/classroom/attendance.go: the service. Notifications are best effort and leave nothing.
use e_campus_server.Prelude.{
  ℕ, not, Option, none, List, [], ◌∷◌, ◌==◌, all, Result, Method, Done, pure, throw_if, lift, ◌>>=◌,
  ◌>>◌,
}
use e_campus_server.Classroom.Errors.{
  Error, invalid_input, attendance_not_required, invalid_percentage, own_attendance,
}
use e_campus_server.Classroom.Attendance.Postgres.{
  Tables, ExcuseStatus, pending, ExcuseRequest, AttendanceUpdate, valid_percentage,
  valid_excuse_decision, lesson_for_attendance, initialize_attendance, get_attendance,
  mark_attendance, bulk_mark, create_excuse, get_excuse, review_excuse,
}

abbrev pub initialize_unless_empty : ℕ → List ℕ → Method Tables Error ℕ
initialize_unless_empty lesson [] = pure 0
initialize_unless_empty lesson (id ∷ ids) = initialize_attendance lesson (id ∷ ids)

-- `Initialize`, with what `EnrolledUserIDs` answers.
unfoldable pub initialize : Result Error (List ℕ) → ℕ → ℕ → Method Tables Error ℕ
initialize enrolled offering lesson = do
  required ← lesson_for_attendance offering lesson
  throw_if (not required) attendance_not_required
  ids ← lift enrolled
  initialize_unless_empty lesson ids

unfoldable pub mark : ℕ → ℕ → ℕ → ℕ → List AttendanceUpdate → Method Tables Error Done
mark now offering lesson marker updates = do
  required ← lesson_for_attendance offering lesson
  throw_if (not required) attendance_not_required
  throw_if (not (all (λ u. valid_percentage u.percentage) updates)) invalid_percentage
  bulk_mark lesson marker updates now

-- `Update`
unfoldable pub update_mark : ℕ → ℕ → ℕ → ℕ → ℕ → Method Tables Error Done
update_mark now offering id marker percentage = do
  throw_if (not (valid_percentage percentage)) invalid_percentage
  get_attendance offering id
  mark_attendance id marker percentage now

abbrev pub new_excuse : ℕ → ℕ → ℕ → ℕ → ℕ → ExcuseRequest
new_excuse now id lesson user reason = record {
  id = id;
  lesson_id = lesson;
  student_id = user;
  reason = reason;
  status = pending;
  note = none;
  reviewed_by = none;
  reviewed_at = none;
  created_at = now;
}

-- `RequestExcuse`; the empty reason is 0.
unfoldable pub request_excuse : ℕ → ℕ → ℕ → ℕ → ℕ → ℕ → Method Tables Error ExcuseRequest
request_excuse now id offering lesson user reason = do
  throw_if (reason == 0) invalid_input
  required ← lesson_for_attendance offering lesson
  throw_if (not required) attendance_not_required
  create_excuse (new_excuse now id lesson user reason)
  pure (new_excuse now id lesson user reason)

-- `ReviewExcuse`
unfoldable pub review : ℕ → ℕ → ℕ → ℕ → ExcuseStatus → Option ℕ → Method Tables Error Done
review now offering id reviewer status note = do
  throw_if (not (valid_excuse_decision status)) invalid_input
  e ← get_excuse offering id
  throw_if (e.student_id == reviewer) own_attendance
  review_excuse id reviewer status note now
