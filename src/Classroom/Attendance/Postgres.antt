-- ===== src/Classroom/Attendance/Postgres.antt =====
-- internal/classroom/attendance.go's entities, and the statements of internal/classroom/postgres/attendance.go;
-- with the deletion of a lesson in postgres/content.go.
use e_campus_server.Prelude.{
  keep, contains, all, not, ℕ, ◌+◌, Bool, true, false, ◌&&◌, ◌||◌, Option, none, some, List, [],
  ◌∷◌, ◌==◌, any, if◌then◌else◌, Result, ok, err, Method, Done, affect, row_at,
}
use e_campus_server.Classroom.Errors.{
  Error, lesson_not_found, attendance_not_found, excuse_not_found, excuse_exists, excuse_reviewed,
  failure,
}

pub data ExcuseStatus : Type 0 where
  pending approved rejected : ExcuseStatus
  other : ℕ → ExcuseStatus

unfoldable pub valid_excuse_decision : ExcuseStatus → Bool
valid_excuse_decision approved = true
valid_excuse_decision rejected = true
valid_excuse_decision _ = false

abbrev pub is_pending : ExcuseStatus → Bool
is_pending pending = true
is_pending _ = false

unfoldable pub valid_percentage : ℕ → Bool
valid_percentage p = p == 0 || (p == 25 || (p == 50 || (p == 75 || p == 100)))

pub record Attendance : Type 0 where
  pub id : ℕ
  pub lesson_id : ℕ
  pub student_id : ℕ
  pub percentage : ℕ
  pub marked_by : Option ℕ
  pub marked_at : Option ℕ

pub record ExcuseRequest : Type 0 where
  pub id : ℕ
  pub lesson_id : ℕ
  pub student_id : ℕ
  pub reason : ℕ
  pub status : ExcuseStatus
  pub note : Option ℕ
  pub reviewed_by : Option ℕ
  pub reviewed_at : Option ℕ
  pub created_at : ℕ

-- A lesson with the offering of its section.
pub record Lesson : Type 0 where
  pub id : ℕ
  pub offering_id : ℕ
  pub attendance_required : Bool

pub record AttendanceUpdate : Type 0 where
  pub attendance_id : ℕ
  pub percentage : ℕ

pub record Tables : Type 0 where
  pub lessons : List Lesson
  pub attendance : List Attendance
  pub excuses : List ExcuseRequest
  -- The ids of the users, to which other tables refer.
  pub users : List ℕ
  pub fresh_id : ℕ

abbrev pub lesson_key : Lesson → ℕ
lesson_key l = l.id

abbrev pub attendance_key : Attendance → ℕ
attendance_key a = a.id

abbrev pub excuse_key : ExcuseRequest → ℕ
excuse_key e = e.id

abbrev required_in : ℕ → Option Lesson → Result Error Bool
required_in offering none = err lesson_not_found
required_in offering (some l) =
    if l.offering_id == offering then ok l.attendance_required else err lesson_not_found

unfoldable pub lesson_for_attendance : ℕ → ℕ → Method Tables Error Bool
lesson_for_attendance offering lesson t =
    (required_in offering (row_at lesson_key lesson t.lessons), t)

abbrev pub on_sheet : ℕ → ℕ → Attendance → Bool
on_sheet lesson student a = a.lesson_id == lesson && a.student_id == student

abbrev pub blank : ℕ → ℕ → ℕ → Attendance
blank id lesson student = record {
  id = id;
  lesson_id = lesson;
  student_id = student;
  percentage = 0;
  marked_by = none;
  marked_at = none;
}

-- The insert with `ON CONFLICT DO NOTHING`, and the number of rows that it made.
abbrev pub initialized : ℕ → List ℕ → Tables → ℕ × Tables
initialized lesson [] t = (0, t)
initialized lesson (student ∷ ids) t =
    let there = initialized lesson ids t in
    let (n, t') = initialized lesson ids (record t {
      attendance = blank t.fresh_id lesson student ∷ t.attendance;
      fresh_id = t.fresh_id + 1;
    }) in
    if any (on_sheet lesson student) t.attendance then there else (n + 1, t')

abbrev pub foreign_key_violation : Error
foreign_key_violation = failure 23503

-- The foreign keys of a row for a student and a lesson.
abbrev pub refers : ℕ → ℕ → Tables → Bool
refers lesson student t = any (λ l. l.id == lesson) t.lessons && contains student t.users

abbrev pub insertable : ℕ → Tables → ℕ → Bool
insertable lesson t student = any (on_sheet lesson student) t.attendance || refers lesson student t

-- The statement inserts all of its rows, or none when one has no lesson or no user.
unfoldable pub initialize_attendance : ℕ → List ℕ → Method Tables Error ℕ
initialize_attendance lesson ids t =
    let (n, t') = initialized lesson ids t in
    if all (insertable lesson t) ids then (ok n, t') else (err foreign_key_violation, t)

abbrev pub offering_of : ℕ → ℕ → Tables → Bool
offering_of offering lesson t = any (λ l. l.id == lesson && l.offering_id == offering) t.lessons

abbrev attendance_in : ℕ → Tables → Option Attendance → Result Error Attendance
attendance_in offering t none = err attendance_not_found
attendance_in offering t (some a) =
    if offering_of offering a.lesson_id t then ok a else err attendance_not_found

unfoldable pub get_attendance : ℕ → ℕ → Method Tables Error Attendance
get_attendance offering id t = (attendance_in offering t (row_at attendance_key id t.attendance), t)

abbrev pub marked : ℕ → ℕ → ℕ → Attendance → Attendance
marked percentage marker at a = record a {
  percentage = percentage;
  marked_by = some marker;
  marked_at = some at;
}

-- The row that is marked, whose marker must be a user.
abbrev pub rows_or_missing :
    ℕ → Tables → Option (Attendance × List Attendance) → Result Error Done × Tables
rows_or_missing marker t none = (err attendance_not_found, t)
rows_or_missing marker t (some (_, rows)) =
    if contains marker t.users
    then (ok tt, record t { attendance = rows })
    else (err foreign_key_violation, t)

unfoldable pub mark_attendance : ℕ → ℕ → ℕ → ℕ → Method Tables Error Done
mark_attendance id marker percentage at t =
    rows_or_missing marker t
      (affect attendance_key id (λ a. true) (marked percentage marker at) t.attendance)

-- What follows one update of the transaction.
abbrev pub then_marked :
    (List Attendance → Option (List Attendance))
    → Option (Attendance × List Attendance)
    → Option (List Attendance)
then_marked rest none = none
then_marked rest (some (_, rows)) = rest rows

abbrev pub mark_rows :
    ℕ → ℕ → ℕ → List AttendanceUpdate → List Attendance → Option (List Attendance)
mark_rows lesson marker at [] rows = some rows
mark_rows lesson marker at (u ∷ updates) rows = then_marked (mark_rows lesson marker at updates) (
    affect attendance_key u.attendance_id (λ a. a.lesson_id == lesson)
      (marked u.percentage marker at) rows)

abbrev pub is_empty : List AttendanceUpdate → Bool
is_empty [] = true
is_empty (_ ∷ _) = false

abbrev pub first_of : List AttendanceUpdate → List AttendanceUpdate
first_of [] = []
first_of (u ∷ _) = u ∷ []

-- The transaction commits all of its updates, or none. With an unknown marker the first update fails,
-- on the row that it meets.
abbrev pub committed :
    Bool → Tables → Option (List Attendance) → Option (List Attendance) → Result Error Done × Tables
committed true t none first = (err attendance_not_found, t)
committed true t (some rows) first = (ok tt, record t { attendance = rows })
committed false t marked none = (err attendance_not_found, t)
committed false t marked (some _) = (err foreign_key_violation, t)

unfoldable pub bulk_mark : ℕ → ℕ → List AttendanceUpdate → ℕ → Method Tables Error Done
bulk_mark lesson marker updates at t =
    committed (is_empty updates || contains marker t.users) t
      (mark_rows lesson marker at updates t.attendance)
      (mark_rows lesson marker at (first_of updates) t.attendance)

abbrev pub same_excuse : ExcuseRequest → ExcuseRequest → Bool
same_excuse e x = x.id == e.id || (x.lesson_id == e.lesson_id && x.student_id == e.student_id)

unfoldable pub create_excuse : ExcuseRequest → Method Tables Error Done
create_excuse e t =
    if any (same_excuse e) t.excuses
    then (err excuse_exists, t)
    else if refers e.lesson_id e.student_id t
    then (ok tt, record t { excuses = e ∷ t.excuses })
    else (err foreign_key_violation, t)

abbrev pub excuse_in : ℕ → Tables → Option ExcuseRequest → Result Error ExcuseRequest
excuse_in offering t none = err excuse_not_found
excuse_in offering t (some e) =
    if offering_of offering e.lesson_id t then ok e else err excuse_not_found

unfoldable pub get_excuse : ℕ → ℕ → Method Tables Error ExcuseRequest
get_excuse offering id t = (excuse_in offering t (row_at excuse_key id t.excuses), t)

abbrev pub reviewed : ExcuseStatus → Option ℕ → ℕ → ℕ → ExcuseRequest → ExcuseRequest
reviewed status note reviewer at e = record e {
  status = status;
  note = note;
  reviewed_by = some reviewer;
  reviewed_at = some at;
}

abbrev pub excuses_or_reviewed :
    ℕ → Tables → Option (ExcuseRequest × List ExcuseRequest) → Result Error Done × Tables
excuses_or_reviewed reviewer t none = (err excuse_reviewed, t)
excuses_or_reviewed reviewer t (some (_, rows)) =
    if contains reviewer t.users
    then (ok tt, record t { excuses = rows })
    else (err foreign_key_violation, t)

unfoldable pub review_excuse : ℕ → ℕ → ExcuseStatus → Option ℕ → ℕ → Method Tables Error Done
review_excuse id reviewer status note at t =
    excuses_or_reviewed reviewer t
      (affect excuse_key id (λ e. is_pending e.status) (reviewed status note reviewer at) t.excuses)

-- `DeleteLesson` of content.go: what refers to the lesson goes with it (`ON DELETE CASCADE`).
unfoldable pub delete_lesson : ℕ → ℕ → Method Tables Error Done
delete_lesson offering id t =
    if offering_of offering id t
    then (
      ok tt,
      record t {
        lessons = keep (λ l. not (l.id == id)) t.lessons;
        attendance = keep (λ a. not (a.lesson_id == id)) t.attendance;
        excuses = keep (λ e. not (e.lesson_id == id)) t.excuses;
      },
    )
    else (err lesson_not_found, t)
