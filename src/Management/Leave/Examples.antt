-- ===== src/Management/Leave/Examples.antt =====
-- Tests and witnesses: student 4 asks for a semester off.
use e_campus_server.Prelude.{
  ℕ, ◌≤◌, ◌≡◌, refl, none, some, List, [], ◌∷◌, count_where, row_at, err, replace_row, affect,
  Bool-cases, inl, inr, ◌==◌,
}
use e_campus_server.Management.Errors.{already_on_leave}
use e_campus_server.Management.Leave.Data.{
  Leave, Student, LeaveRequest, LeaveType, short, semester, active, on_leave, enrolled,
  withdrawn_leave, day, tuition_free, StudentUpdate, valid_leave_type, leave_withdraws,
}
use e_campus_server.Management.Leave.Postgres.{
  Tables, open_of, student_key, leave_key, moved, create_leave, approve_leave, add_leave_semesters,
  get_leave_semesters, get_student, set_student_status, withdraw_enrollments_for_leave,
}
use e_campus_server.Management.Leave.Service.{request_leave, approve, finish}
use e_campus_server.Management.Leave.Sound.{HeldFor, OnLeaveHas}
use e_campus_server.Management.Leave.Serving.{
  Request, requests, approves, edits, ends, serve, serve_all, serve_all-HeldFor, finish-reactivates,
}

abbrev pupil : Student
pupil = record {
  user_id = 4;
  program_id = 2;
  admission_year = 2023;
  current_cohort_year = 2023;
  current_year = 2;
  shift = day;
  tuition = tuition_free;
  status = active;
  enrolled_at = 10;
  created_at = 10;
  version = 1;
}

abbrev campus : Tables
campus = record {
  students = pupil ∷ [];
  leaves = [];
  leave_semesters = [];
  enrollments = record { student_id = 4; semester_id = 7; status = enrolled } ∷ [];
  users = 4 ∷ 9 ∷ [];
  semesters = 7 ∷ [];
  academic_years = [];
  fresh_id = 50;
  now = 100;
}

abbrev time_off : LeaveType → LeaveRequest
time_off type = record {
  type = type;
  reason = 1;
  academic_year_id = none;
  semester_ids = 7 ∷ [];
  start_date = none;
  end_date = none;
  notes = none;
}

abbrev away : List Request
away = requests 4 (time_off semester) ∷ approves 50 9 ∷ []

abbrev next_year : StudentUpdate
next_year = record {
  current_year = some 3;
  current_cohort_year = none;
  shift = none;
  tuition = none;
  status = none;
}

abbrev away_and_edited : List Request
away_and_edited = requests 4 (time_off semester) ∷ approves 50 9 ∷ edits 4 next_year ∷ ends 50 ∷ []

-- The semester is unknown: the answer is an error, and the leave is there and open.
lost_request :
    let t = serve (requests 4 (time_off semester)) (record campus { semesters = [] }) in
    count_where (open_of 4) t.leaves ≡ 1
unfolding serve request_leave valid_leave_type create_leave add_leave_semesters get_student row_at
lost_request = refl

away_tables : serve_all away campus ≡ record campus {
  students = record pupil { status = on_leave; version = 2 } ∷ [];
  leaves =
      record {
        id = 50;
        student_id = 4;
        type = semester;
        academic_year_id = none;
        reason = 1;
        start_date = none;
        end_date = none;
        closed_at = none;
        approved_by = some 9;
        approved_at = some 100;
        notes = none;
        created_at = 100;
      }
      ∷ [];
  leave_semesters = (50, 7) ∷ [];
  enrollments = record { student_id = 4; semester_id = 7; status = withdrawn_leave } ∷ [];
  fresh_id = 51;
}
unfolding serve_all serve request_leave approve valid_leave_type leave_withdraws create_leave
    approve_leave add_leave_semesters get_leave_semesters get_student set_student_status
    withdraw_enrollments_for_leave row_at affect replace_row
away_tables = refl

-- A second leave is refused while the first is open.
second_leave : (request_leave 4 (time_off short) (serve_all away campus)).0 ≡ err already_on_leave
unfolding serve_all serve request_leave approve valid_leave_type leave_withdraws create_leave
    approve_leave add_leave_semesters get_leave_semesters get_student set_student_status
    withdraw_enrollments_for_leave row_at affect replace_row
second_leave = refl

nobody_on_leave : (x : ℕ) → OnLeaveHas (row_at student_key x campus.students) 0
unfolding row_at
nobody_on_leave x = elim (Bool-cases (4 == x)) [
  | inl hit ↦ rw hit (λ on. cc)
  | inr miss ↦ rw miss tt
]

serve_all-HeldFor_example :
    (count_where (open_of 4) (serve_all away_and_edited campus).leaves ≤ 1)
    × HeldFor 4 (serve_all away_and_edited campus)
serve_all-HeldFor_example = serve_all-HeldFor away_and_edited campus 4 refl refl nobody_on_leave

-- A short leave that nobody has approved, of a student whom the staff has put on leave.
abbrev brief : Leave
brief = record {
  id = 51;
  student_id = 4;
  type = short;
  academic_year_id = none;
  reason = 1;
  start_date = none;
  end_date = none;
  closed_at = none;
  approved_by = none;
  approved_at = none;
  notes = none;
  created_at = 100;
}

abbrev resting : Student
resting = record pupil { status = on_leave; version = 2 }

abbrev resting_campus : Tables
resting_campus = record campus { students = resting ∷ []; leaves = brief ∷ [] }

brief_there : row_at leave_key 51 resting_campus.leaves ≡ some brief
unfolding row_at
brief_there = refl

resting_there : row_at student_key 4 resting_campus.students ≡ some resting
unfolding row_at
resting_there = refl

finish-reactivates_example :
    row_at student_key 4 (finish 51 resting_campus).1.students ≡ some (moved active resting)
finish-reactivates_example =
    finish-reactivates 51 resting_campus brief resting brief_there refl resting_there refl
