-- ===== src/Management/Leave/Postgres.antt =====
-- internal/management/postgres/leave.go, with SetStudentStatus of student.go and
-- WithdrawEnrollmentsForLeave of enrollment.go: one function for each statement.
use e_campus_server.Prelude.{
  ℕ, ◌+◌, Bool, true, false, not, ◌&&◌, ◌||◌, Option, none, some, List, [], ◌∷◌, ◌==◌, any,
  contains, is_set, keep, map, update_where, if◌then◌else◌, Result, ok, err, Method, Done, affect,
  row_at,
}
use e_campus_server.Management.Errors.{
  Error, student_not_found, conflict, failure, already_on_leave, leave_not_found,
  leave_already_approved, leave_ended,
}
use e_campus_server.Management.Leave.Data.{
  StudentStatus, active, graduated, withdrawn, suspended, on_leave, is_enrolled, withdrawn_leave,
  Leave, Student, Enrollment,
}

pub record Tables : Type 0 where
  pub students : List Student
  pub leaves : List Leave
  -- leave_semesters: a leave's id and a semester's id.
  pub leave_semesters : List (ℕ × ℕ)
  pub enrollments : List Enrollment
  -- The ids that other tables have.
  pub users : List ℕ
  pub semesters : List ℕ
  pub academic_years : List ℕ
  pub fresh_id : ℕ
  pub now : ℕ

abbrev pub student_key : Student → ℕ
student_key s = s.user_id

abbrev pub leave_key : Leave → ℕ
leave_key l = l.id

abbrev pub is_open : Leave → Bool
is_open l = not (is_set l.closed_at)

abbrev pub open_of : ℕ → Leave → Bool
open_of student l = l.student_id == student && is_open l

-- The row that `CreateLeave` inserts.
abbrev pub new_leave : Leave → Tables → Leave
new_leave l t = record l {
  id = t.fresh_id;
  closed_at = none;
  approved_by = none;
  approved_at = none;
  created_at = t.now;
}

abbrev pub push_leave : Leave → Tables → Tables
push_leave l t = record t { leaves = l ∷ t.leaves; fresh_id = t.fresh_id + 1 }

abbrev known : Option ℕ → List ℕ → Bool
known none ids = true
known (some id) ids = contains id ids

abbrev pub refers : Leave → Tables → Bool
refers l t =
    is_set (row_at student_key l.student_id t.students) && known l.academic_year_id t.academic_years

abbrev pub foreign_key_violation : Error
foreign_key_violation = failure 23503

-- The primary key and the partial unique index on open leaves, then the foreign keys, which both
-- answer that there is no student.
unfoldable pub create_leave : Leave → Method Tables Error Leave
create_leave l t =
    if any (open_of l.student_id) t.leaves || is_set (row_at leave_key t.fresh_id t.leaves)
    then (err already_on_leave, t)
    else if not (refers l t)
    then (err student_not_found, t)
    else (ok (new_leave l t), push_leave (new_leave l t) t)

abbrev missed_leave : Error → Option Leave → Error
missed_leave state_err none = leave_not_found
missed_leave state_err (some l) = if is_set l.closed_at then leave_ended else state_err

-- `classifyLeaveMiss`
unfoldable pub classify_leave_miss : ℕ → Error → Tables → Error
classify_leave_miss id state_err t = missed_leave state_err (row_at leave_key id t.leaves)

abbrev pub leave_written :
    Error → Tables → Option (Leave × List Leave) → Result Error Leave × Tables
leave_written e t none = (err e, t)
leave_written e t (some (l, rows)) = (ok l, record t { leaves = rows })

-- The same, where a new value of the row must be `known` to another table.
abbrev pub leave_signed :
    Bool → Error → Tables → Option (Leave × List Leave) → Result Error Leave × Tables
leave_signed true e t row = leave_written e t row
leave_signed false e t none = (err e, t)
leave_signed false e t (some _) = (err foreign_key_violation, t)

abbrev pub approvable : Leave → Bool
approvable l = not (is_set l.approved_at) && is_open l

abbrev pub approved : ℕ → ℕ → Leave → Leave
approved approver now l = record l { approved_by = some approver; approved_at = some now }

unfoldable pub approve_leave : ℕ → ℕ → Method Tables Error Leave
approve_leave id approver t =
    leave_signed (contains approver t.users) (classify_leave_miss id leave_already_approved t) t
      (affect leave_key id approvable (approved approver t.now) t.leaves)

abbrev pub closed : ℕ → Leave → Leave
closed now l = record l { closed_at = some now }

unfoldable pub end_leave : ℕ → Method Tables Error Leave
end_leave id t =
    leave_written (classify_leave_miss id leave_ended t) t
      (affect leave_key id is_open (closed t.now) t.leaves)

abbrev has_pair : ℕ → ℕ → List (ℕ × ℕ) → Bool
has_pair a b [] = false
has_pair a b (p ∷ pairs) = (p.0 == a && p.1 == b) || has_pair a b pairs

-- `ON CONFLICT DO NOTHING`, and the foreign key on semesters; what was inserted before it fails stays.
abbrev pub with_pairs : List ℕ → ℕ → List ℕ → List (ℕ × ℕ) → Result Error Done × List (ℕ × ℕ)
with_pairs semesters leave [] pairs = (ok tt, pairs)
with_pairs semesters leave (s ∷ ids) pairs =
    let rest = with_pairs semesters leave ids pairs in
    let more = with_pairs semesters leave ids ((leave, s) ∷ pairs) in
    if has_pair leave s pairs
    then rest
    else if contains s semesters
    then more
    else (err foreign_key_violation, pairs)

unfoldable pub add_leave_semesters : ℕ → List ℕ → Method Tables Error Done
add_leave_semesters leave ids t =
    let (r, pairs) = with_pairs t.semesters leave ids t.leave_semesters in
    (r, record t { leave_semesters = pairs })

unfoldable pub get_leave_semesters : ℕ → Method Tables Error (List ℕ)
get_leave_semesters leave t = (ok (map (λ p. p.1) (keep (λ p. p.0 == leave) t.leave_semesters)), t)

abbrev pub found : Option Student → Result Error Student
found none = err student_not_found
found (some s) = ok s

unfoldable pub get_student : ℕ → Method Tables Error Student
get_student id t = (found (row_at student_key id t.students), t)

abbrev pub same_status : StudentStatus → StudentStatus → Bool
same_status active active = true
same_status graduated graduated = true
same_status withdrawn withdrawn = true
same_status suspended suspended = true
same_status on_leave on_leave = true
same_status (StudentStatus.other a) (StudentStatus.other b) = a == b
same_status _ _ = false

abbrev pub moved : StudentStatus → Student → Student
moved to s = record s { status = to; version = s.version + 1 }

abbrev pub status_set : Tables → Option (Student × List Student) → Result Error Bool × Tables
status_set t none = (ok false, t)
status_set t (some (_, rows)) = (ok true, record t { students = rows })

-- `SetStudentStatus`
unfoldable pub set_student_status : ℕ → StudentStatus → StudentStatus → Method Tables Error Bool
set_student_status id from to t =
    status_set t (affect student_key id (λ s. same_status s.status from) (moved to) t.students)

abbrev withdraws : ℕ → List ℕ → Enrollment → Bool
withdraws student semesters e =
    e.student_id == student && (is_enrolled e.status && contains e.semester_id semesters)

-- `WithdrawEnrollmentsForLeave`
unfoldable pub withdraw_enrollments_for_leave : ℕ → List ℕ → Method Tables Error Done
withdraw_enrollments_for_leave student semesters t = (
  ok tt,
  record t {
    enrollments =
        update_where (withdraws student semesters) (λ e. record e { status = withdrawn_leave })
          t.enrollments;
  },
)

-- The columns that `UpdateStudent` writes.
abbrev pub set_student_columns : Student → Student → Student
set_student_columns s r = record r {
  current_cohort_year = s.current_cohort_year;
  current_year = s.current_year;
  shift = s.shift;
  tuition = s.tuition;
  status = s.status;
  version = r.version + 1;
}

abbrev pub student_stored :
    Tables → Option Student → Option (Student × List Student) → Result Error ℕ × Tables
student_stored t there (some (s, rows)) = (ok s.version, record t { students = rows })
student_stored t none none = (err student_not_found, t)
student_stored t (some _) none = (err conflict, t)

-- `UpdateStudent` of the adapter.
unfoldable pub store_student : Student → ℕ → Method Tables Error ℕ
store_student s expected t =
    student_stored t (row_at student_key s.user_id t.students)
      (affect student_key s.user_id (λ r. r.version == expected) (set_student_columns s) t.students)
