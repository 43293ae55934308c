-- ===== src/Classroom/Attendance/Examples.antt =====
-- A concrete run of the attendance requests.
use e_campus_server.Prelude.{ℕ, ◌≡◌, refl, true, none, some, List, [], ◌∷◌, ok, err, row_at}
use e_campus_server.Classroom.Attendance.Postgres.{
  foreign_key_violation, initialize_attendance, Tables, Lesson, ExcuseRequest, excuse_key, pending,
  approved, rejected,
}
use e_campus_server.Classroom.Attendance.Serving.{
  Request, initializes, marks, updates, requests, reviews, deletes_lesson, serve_all,
  serve_all-Stands,
}
use e_campus_server.Classroom.Attendance.Sheets.{repeated, initialize_attendance-again}

abbrev lesson : Lesson
lesson = record { id = 1; offering_id = 2; attendance_required = true }

abbrev decided : ExcuseRequest
decided = record {
  id = 10;
  lesson_id = 1;
  student_id = 5;
  reason = 8;
  status = approved;
  note = some 3;
  reviewed_by = some 6;
  reviewed_at = some 90;
  created_at = 80;
}

abbrev waiting : ExcuseRequest
waiting = record decided {
  id = 11;
  student_id = 7;
  status = pending;
  note = none;
  reviewed_by = none;
  reviewed_at = none;
}

abbrev sheet : Tables
sheet = record {
  lessons = lesson ∷ record lesson { id = 4 } ∷ [];
  attendance = [];
  excuses = decided ∷ waiting ∷ [];
  users = 5 ∷ 6 ∷ 7 ∷ [];
  fresh_id = 20;
}

abbrev day : List (ℕ × Request)
day =
    (100, initializes (ok (5 ∷ 7 ∷ [])) 2 1)
    ∷ (101, marks 2 1 6 (record { attendance_id = 20; percentage = 50 } ∷ []))
    ∷ (102, updates 2 21 6 75)
    ∷ (103, requests 10 2 1 5 9)
    ∷ (104, reviews 2 10 6 rejected none)
    ∷ (105, reviews 2 11 6 rejected none)
    ∷ (106, deletes_lesson 2 4)
    ∷ []

decided_there : row_at excuse_key 10 sheet.excuses ≡ some decided
unfolding row_at
decided_there = refl

serve_all-Stands_example : row_at excuse_key 10 (serve_all day sheet).excuses ≡ some decided
serve_all-Stands_example = serve_all-Stands day sheet 10 decided refl decided_there refl

abbrev started : Tables
started = (initialize_attendance 1 (5 ∷ []) sheet).1

-- The second call adds the student that was missing, the third nobody.
initialized_twice : (initialize_attendance 1 (5 ∷ 7 ∷ []) started).0 ≡ ok 1
unfolding initialize_attendance
initialized_twice = refl

-- A lesson that is not there.
no_lesson : initialize_attendance 9 (5 ∷ []) sheet ≡ (err foreign_key_violation, sheet)
unfolding initialize_attendance
no_lesson = refl

initialize_attendance-again_example :
    initialize_attendance 1 (5 ∷ 7 ∷ []) (initialize_attendance 1 (5 ∷ 7 ∷ []) started).1 ≡ (
      repeated (initialize_attendance 1 (5 ∷ 7 ∷ []) started).0,
      (initialize_attendance 1 (5 ∷ 7 ∷ []) started).1,
    )
initialize_attendance-again_example = initialize_attendance-again 1 (5 ∷ 7 ∷ []) started
