-- ===== src/Classroom/Exam/Examples.antt =====
-- Tests of exams, and the theorems on them at concrete exams.
use e_campus_server.Prelude.{
  any, Result, ok, ℕ, ◌≤◌, ◌≡◌, ◌↔◌, refl, true, false, none, some, List, [], ◌∷◌, row_at, affect,
  replace_row, contains,
}
use e_campus_server.Classroom.Errors.{Error}
use e_campus_server.Classroom.Exam.Data.{
  Exam, ExamType, online, after_close, private, published, Attempt, Answers, items, scalar, number,
  exam_available, result_visible, is_draft, valid_exam_type, valid_exam_mode, valid_show_results,
}
use e_campus_server.Classroom.Exam.Scoring.{
  Question, multiple, short_answer, has_ungraded, auto_grade, total_of, exam_total, same_int_set,
  grade_answer, grade_choice_set,
}
use e_campus_server.Classroom.Exam.Service.{create, publish, start}
use e_campus_server.Classroom.Exam.Inputs.{CreateExamInput}
use e_campus_server.Classroom.Exam.Postgres.{
  exam_key, create_exam, get_exam, find_exam, publish_exam, open_attempt, insert_attempt,
}
use e_campus_server.Classroom.Exam.Attempts.{start_attempt}
use e_campus_server.Classroom.Exam.Caps.{opens_of, total_of_student}
use e_campus_server.Classroom.Exam.Visibility.{result_visible-exam_available}
use e_campus_server.Classroom.Exam.Awards.{awaits, has_ungraded-auto_grade}
use e_campus_server.Classroom.Exam.Marks.{same_int_set_iff, same_int_set-repeat, repeat}
use e_campus_server.Classroom.Exam.Serving.{
  Request, creates, publishes, starts, serve, serve_all, serve_all-Fits, no_exams,
}

abbrev bank_question : ℕ → Question
bank_question id = record {
  id = id;
  type = multiple;
  correct_index = none;
  correct_set = some (1 ∷ 2 ∷ []);
}

abbrev bank_questions : List ℕ → List Question
bank_questions [] = []
bank_questions (id ∷ ids) = bank_question id ∷ bank_questions ids

abbrev bank : List ℕ → Result Error (List Question)
bank ids = ok (bank_questions ids)

abbrev quiz_input : CreateExamInput
quiz_input = record {
  offering_id = 5;
  created_by = 1;
  section_id = none;
  title = 0;
  description = none;
  type = ExamType.quiz;
  mode = online;
  questions = record { question = 8; score = 10 } ∷ [];
  duration_minutes = none;
  shuffle_questions = false;
  shuffle_options = false;
  show_results = after_close;
  max_attempts = 2;
  available_from = none;
  available_until = some 50;
}

-- A quiz is created and published, and student 3 starts it twice: the second start resumes.
abbrev quiz_requests : List Request
quiz_requests = creates 7 10 quiz_input ∷ publishes 11 5 7 ∷ starts 12 5 7 3 ∷ starts 13 5 7 3 ∷ []

abbrev published_quiz : Exam
published_quiz = record {
  id = 7;
  offering_id = 5;
  section_id = none;
  title = 0;
  description = none;
  type = ExamType.quiz;
  mode = online;
  questions = record { question = 8; score = 10 } ∷ [];
  total_score = 10;
  duration_minutes = none;
  shuffle_questions = false;
  shuffle_options = false;
  show_results = after_close;
  max_attempts = 2;
  available_from = none;
  available_until = some 50;
  used_at = none;
  status = published;
  published_at = some 11;
  created_by = some 1;
  version = 1;
  created_at = 10;
}

quiz_stands :
    row_at exam_key 7 (serve_all bank quiz_requests (no_exams (3 ∷ []) 100 0)).exams
    ≡ some published_quiz
unfolding row_at serve_all serve create publish start valid_exam_type valid_exam_mode
    valid_show_results create_exam get_exam find_exam publish_exam affect replace_row exam_available
    start_attempt open_attempt insert_attempt exam_total
quiz_stands = refl

serve_all-Fits_example :
    (opens_of 7 3 (serve_all bank quiz_requests (no_exams (3 ∷ []) 100 0)).attempts ≤ 1)
    × (total_of_student 7 3 (serve_all bank quiz_requests (no_exams (3 ∷ []) 100 0)).attempts ≤ 2)
    × (is_draft published ≡ true
        → total_of_student 7 3 (serve_all bank quiz_requests (no_exams (3 ∷ []) 100 0)).attempts
          ≡ 0)
serve_all-Fits_example =
    serve_all-Fits bank quiz_requests (3 ∷ []) 100 0 7 3 published_quiz quiz_stands refl

abbrev submitted_attempt : Attempt
submitted_attempt = record {
  id = 100;
  exam_id = 7;
  student_id = 3;
  answers = [];
  scores = some [];
  total_score = some 0;
  started_at = some 12;
  updated_at = none;
  submitted_at = some 20;
  late_accepted = none;
  graded_by = none;
  graded_at = none;
  visibility = private;
  visible_at = none;
}

shown_late : result_visible published_quiz submitted_attempt 51 ≡ true
unfolding result_visible
shown_late = refl

result_visible-exam_available_example : exam_available published_quiz 51 ≡ false
result_visible-exam_available_example =
    result_visible-exam_available published_quiz submitted_attempt 51 refl refl shown_late

-- Both choices of two, for ten points.
abbrev both_choices : Answers
both_choices = (8, items (number 2 ∷ number 1 ∷ [])) ∷ []

full_marks : total_of (auto_grade 0 (bank_question 8 ∷ []) ((8, 10) ∷ []) both_choices) ≡ 10
unfolding total_of auto_grade grade_answer grade_choice_set same_int_set
full_marks = refl

same_int_set_iff_example :
    (same_int_set (1 ∷ 2 ∷ []) (2 ∷ 1 ∷ []) ≡ true)
    ↔ ((u : ℕ) → contains u (1 ∷ 2 ∷ []) ≡ contains u (2 ∷ 1 ∷ []))
same_int_set_iff_example =
    same_int_set_iff (1 ∷ 2 ∷ []) (2 ∷ 1 ∷ []) (refl, (refl, tt)) (refl, (refl, tt))

same_int_set-repeat_example : same_int_set (1 ∷ 2 ∷ []) (repeat 2 1) ≡ true
same_int_set-repeat_example = same_int_set-repeat (1 ∷ 2 ∷ []) 1 refl

-- A choice question that is answered right, and a short answer, which is left open.
abbrev essay : Question
essay = record { id = 9; type = short_answer; correct_index = none; correct_set = none }

abbrev paper : List Question
paper = bank_question 8 ∷ essay ∷ []

abbrev no_points : ℕ
no_points = 0

abbrev points : List (ℕ × ℕ)
points = (8, 10) ∷ (9, 5) ∷ []

abbrev written : Answers
written = (9, scalar (number 3)) ∷ both_choices

has_ungraded-auto_grade_example :
    has_ungraded (auto_grade no_points paper points written) ≡ any (awaits written) paper
has_ungraded-auto_grade_example = has_ungraded-auto_grade no_points paper points written
