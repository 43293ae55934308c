-- ===== src/Classroom/Exam/Counting.antt =====
-- How the statements on attempts change the numbers of a student's attempts.
use e_campus_server.Prelude.{ℕ, ◌+◌, ◌≡◌, refl, List, [], ◌∷◌, arith, count_where}
use e_campus_server.Classroom.Exam.Data.{Attempt}
use e_campus_server.Classroom.Exam.Postgres.{of_student, is_open, is_submitted}

-- Every attempt is open or submitted.
pub count_split :
    (exam student : ℕ) (rows : List Attempt)
    → count_where (of_student exam student) rows
      ≡ count_where (is_open exam student) rows + count_where (is_submitted exam student) rows
count_split exam student [] = refl
count_split exam student (x ∷ rows) = ground (arith, count_split exam student rows)
