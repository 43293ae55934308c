-- ===== src/Classroom/Exam/Inputs.antt =====
-- internal/classroom/exam.go: the service's inputs, and the exams that they make.
use e_campus_server.Prelude.{
  ℕ, Bool, true, not, Option, none, some, List, ◌==◌, ltb, if◌then◌else◌, value_or, or_else, Result,
  ok, err,
}
use e_campus_server.Classroom.Errors.{Error, invalid_input}
use e_campus_server.Classroom.Exam.Data.{
  Exam, ExamType, ExamMode, ShowResults, ExamQuestion, draft, online, after_submit,
  valid_show_results,
}
use e_campus_server.Classroom.Exam.Scoring.{exam_total}

pub record CreateExamInput : Type 0 where
  pub offering_id : ℕ
  pub created_by : ℕ
  pub section_id : Option ℕ
  pub title : ℕ
  pub description : Option ℕ
  pub type : ExamType
  pub mode : ExamMode
  pub questions : List ExamQuestion
  pub duration_minutes : Option ℕ
  pub shuffle_questions : Bool
  pub shuffle_options : Bool
  pub show_results : ShowResults
  pub max_attempts : ℕ
  pub available_from : Option ℕ
  pub available_until : Option ℕ

-- A nil slice of questions is `none`.
pub record UpdateExamInput : Type 0 where
  pub section_id : Option ℕ
  pub title : Option ℕ
  pub description : Option ℕ
  pub questions : Option (List ExamQuestion)
  pub duration_minutes : Option ℕ
  pub shuffle_questions : Option Bool
  pub shuffle_options : Option Bool
  pub show_results : Option ShowResults
  pub max_attempts : Option ℕ
  pub available_from : Option ℕ
  pub available_until : Option ℕ

abbrev pub default_mode : ExamMode → ExamMode
default_mode ExamMode.unset = online
default_mode m = m

abbrev pub default_show_results : ShowResults → ShowResults
default_show_results ShowResults.unset = after_submit
default_show_results s = s

abbrev pub default_attempts : ℕ → ℕ
default_attempts n = if n == 0 then 1 else n

abbrev pub new_exam : ℕ → ℕ → CreateExamInput → Exam
new_exam id now input = record {
  id = id;
  offering_id = input.offering_id;
  section_id = input.section_id;
  title = input.title;
  description = input.description;
  type = input.type;
  mode = default_mode input.mode;
  questions = input.questions;
  total_score = exam_total input.questions;
  duration_minutes = input.duration_minutes;
  shuffle_questions = input.shuffle_questions;
  shuffle_options = input.shuffle_options;
  show_results = default_show_results input.show_results;
  max_attempts = default_attempts input.max_attempts;
  available_from = input.available_from;
  available_until = input.available_until;
  used_at = none;
  status = draft;
  published_at = none;
  created_by = some input.created_by;
  version = 0;
  created_at = now;
}

abbrev is_known : Option ShowResults → Bool
is_known none = true
is_known (some s) = valid_show_results s

abbrev is_positive : Option ℕ → Bool
is_positive none = true
is_positive (some n) = not (ltb n 1)

abbrev total_after : Option (List ExamQuestion) → ℕ → ℕ
total_after none total = total
total_after (some qs) total = exam_total qs

unfoldable pub apply_exam_update : UpdateExamInput → Exam → Result Error Exam
apply_exam_update input e =
    if not (is_known input.show_results)
    then err invalid_input
    else if not (is_positive input.max_attempts)
    then err invalid_input
    else ok (record e {
      section_id = or_else input.section_id e.section_id;
      title = value_or input.title e.title;
      description = or_else input.description e.description;
      questions = value_or input.questions e.questions;
      total_score = total_after input.questions e.total_score;
      duration_minutes = or_else input.duration_minutes e.duration_minutes;
      shuffle_questions = value_or input.shuffle_questions e.shuffle_questions;
      shuffle_options = value_or input.shuffle_options e.shuffle_options;
      show_results = value_or input.show_results e.show_results;
      max_attempts = value_or input.max_attempts e.max_attempts;
      available_from = or_else input.available_from e.available_from;
      available_until = or_else input.available_until e.available_until;
    })
