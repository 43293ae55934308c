-- ===== src/Classroom/Grading/Examples.antt =====
-- Tests and witnesses, with whole numbers for the floats.
use e_campus_server.Prelude.{
  ℕ, ◌+◌, ◌-◌, ◌*◌, ◌/◌, ◌≡◌, refl, true, false, none, some, [], ◌∷◌, ltb, leb, ◌==◌, ok, Right,
  any,
}
use e_campus_server.Management.Leave.Data.{enrolled, dropped}
use e_campus_server.Classroom.Grading.Data.{
  Arithmetic, Rule, RuleType, single, best_of, average, assignments, rule_exam_ids, final_grade,
  pass_status,
}
use e_campus_server.Classroom.Grading.Service.{
  Enrollment, Tables, Readers, finalize, grade_and_notify, grade_all, refuse_ungraded, get_rules,
  offering_finalized, enrolled_user_ids, set_enrollment_grade, notify, inputs_for, enrolled_of,
}
use e_campus_server.Management.Semester.Data.{grading}
use e_campus_server.Classroom.Grading.RuleExams.{occurrences, once, names_exam, rule_exam_ids-once}
use e_campus_server.Classroom.Grading.Finalize.{Closed, finalize-Closed}

abbrev distance : ℕ → ℕ → ℕ
distance a b = (a - b) + (b - a)

-- A difference is only used for its absolute value.
abbrev whole : Arithmetic ℕ
whole = record {
  zero = 0;
  hundred = 100;
  tolerance = 0;
  add = λ a b. a + b;
  subtract = distance;
  multiply = λ a b. a * b;
  divide = λ a b. a / b;
  of_int = λ n. n;
  round = λ a. a;
  absolute = λ a. a;
  above = λ a b. ltb b a;
  at_least = λ a b. leb b a;
  same = λ a b. a == b;
}

abbrev half : RuleType → Rule ℕ
half type = record { type = type; weight = 50; exam_id = some 3; exam_ids = 3 ∷ 4 ∷ [] }

abbrev readers : Readers ℕ
readers = record {
  semester_status = λ o. ok grading;
  pass_threshold = λ o. ok 50;
  exams_belong_to_offering = λ o ids. ok true;
  has_ungraded_attempts = λ ids. ok false;
  has_ungraded_submissions = λ o. ok false;
  student_exam_scores = λ s ids. ok ((3, record { total_score = some 8; max_score = 10 }) ∷ []);
  student_assignment_average = λ o s. ok (60, true);
  student_attendance_rate = λ o s. ok 90;
}

abbrev row : ℕ → Enrollment ℕ
row student = record {
  offering_id = 7;
  student_id = student;
  final_grade = none;
  status = enrolled;
  completed_at = none;
}

abbrev classroom : Tables ℕ
classroom = record {
  enrollments = row 1 ∷ record (row 2) { status = dropped } ∷ row 3 ∷ [];
  rules = (7, half best_of ∷ half assignments ∷ []) ∷ [];
  notified = [];
  now = 900;
}

exams_of_rules : rule_exam_ids (half single ∷ half average ∷ []) ≡ 3 ∷ 4 ∷ []
unfolding rule_exam_ids
exams_of_rules = refl

-- Both students get (80 * 50 + 60 * 50) / 100, and nobody hears of it.
two_graded : (finalize whole readers 7 classroom).0 ≡ ok 2
unfolding finalize grade_and_notify grade_all refuse_ungraded get_rules offering_finalized
    enrolled_user_ids set_enrollment_grade notify inputs_for final_grade pass_status rule_exam_ids
two_graded = refl

none_notified : (finalize whole readers 7 classroom).1.notified ≡ []
unfolding finalize grade_and_notify grade_all refuse_ungraded get_rules offering_finalized
    enrolled_user_ids set_enrollment_grade notify inputs_for final_grade pass_status rule_exam_ids
none_notified = refl

finalize-Closed_example :
    Right
      (Closed whole readers 7 (enrolled_of 7 classroom.enrollments) classroom.notified)
      (finalize whole readers 7 classroom)
finalize-Closed_example = finalize-Closed whole readers 7 classroom

rule_exam_ids-once_example :
    occurrences 3 (rule_exam_ids (half single ∷ half average ∷ []))
    ≡ once (any (names_exam 3) (half single ∷ half average ∷ []))
rule_exam_ids-once_example = rule_exam_ids-once (half single ∷ half average ∷ []) 3
