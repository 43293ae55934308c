-- ===== src/Classroom/Exam/Data.antt =====
-- internal/classroom/exam.go: exams, attempts and the rules on when they are open and their results
-- visible. Times are numbers, stored text is a number, and what is stored as JSON is its decoded value.
-- Scores are natural numbers: rounding of floats and negative scores are left out.
use e_campus_server.Prelude.{
  ℕ, Bool, true, false, not, Option, none, some, List, ltb, is_set, if◌then◌else◌,
}

-- `other` is any string that is none of the constants; for a mode, a policy and a visibility
-- `unset` is the empty string.
pub data ExamStatus : Type 0 where
  draft published closed : ExamStatus
  other : ℕ → ExamStatus

pub data ExamType : Type 0 where
  exam quiz : ExamType
  other : ℕ → ExamType

pub data ExamMode : Type 0 where
  unset online manual : ExamMode
  other : ℕ → ExamMode

pub data ShowResults : Type 0 where
  unset after_submit after_close manual : ShowResults
  other : ℕ → ShowResults

pub data ResultVisibility : Type 0 where
  unset private public scheduled : ResultVisibility
  other : ℕ → ResultVisibility

unfoldable pub valid_exam_type : ExamType → Bool
valid_exam_type (ExamType.other _) = false
valid_exam_type _ = true

unfoldable pub valid_exam_mode : ExamMode → Bool
valid_exam_mode online = true
valid_exam_mode ExamMode.manual = true
valid_exam_mode _ = false

unfoldable pub valid_show_results : ShowResults → Bool
valid_show_results after_submit = true
valid_show_results after_close = true
valid_show_results ShowResults.manual = true
valid_show_results _ = false

unfoldable pub valid_result_visibility : ResultVisibility → Bool
valid_result_visibility private = true
valid_result_visibility public = true
valid_result_visibility scheduled = true
valid_result_visibility _ = false

abbrev pub is_draft : ExamStatus → Bool
is_draft draft = true
is_draft _ = false

abbrev pub is_published : ExamStatus → Bool
is_published published = true
is_published _ = false

abbrev pub is_closed : ExamStatus → Bool
is_closed closed = true
is_closed _ = false

abbrev pub is_online : ExamMode → Bool
is_online online = true
is_online _ = false

abbrev pub is_manual : ExamMode → Bool
is_manual ExamMode.manual = true
is_manual _ = false

-- A bank reference with its weight in the exam.
pub record ExamQuestion : Type 0 where
  pub question : ℕ
  pub score : ℕ

pub record Exam : Type 0 where
  pub id : ℕ
  pub offering_id : ℕ
  pub section_id : Option ℕ
  pub title : ℕ
  pub description : Option ℕ
  pub type : ExamType
  pub mode : ExamMode
  pub questions : List ExamQuestion
  pub total_score : ℕ
  pub duration_minutes : Option ℕ
  pub shuffle_questions : Bool
  pub shuffle_options : Bool
  pub show_results : ShowResults
  pub max_attempts : ℕ
  pub available_from : Option ℕ
  pub available_until : Option ℕ
  pub used_at : Option ℕ
  pub status : ExamStatus
  pub published_at : Option ℕ
  pub created_by : Option ℕ
  pub version : ℕ
  pub created_at : ℕ

-- What a decoded answer may be. An index counts as a number by its truncation, and a list is looked
-- into one level deep; anything else is `other`.
pub data Scalar : Type 0 where
  number : ℕ → Scalar
  other : Scalar

pub data Answer : Type 0 where
  scalar : Scalar → Answer
  items : List Scalar → Answer

abbrev pub Answers : Type 0
Answers = List (ℕ × Answer)

-- A score of `none` awaits a human.
abbrev pub Scores : Type 0
Scores = List (ℕ × Option ℕ)

pub record Attempt : Type 0 where
  pub id : ℕ
  pub exam_id : ℕ
  pub student_id : ℕ
  pub answers : Answers
  pub scores : Option Scores
  pub total_score : Option ℕ
  pub started_at : Option ℕ
  pub updated_at : Option ℕ
  pub submitted_at : Option ℕ
  pub late_accepted : Option Bool
  pub graded_by : Option ℕ
  pub graded_at : Option ℕ
  pub visibility : ResultVisibility
  pub visible_at : Option ℕ

abbrev before_start : Option ℕ → ℕ → Bool
before_start none now = false
before_start (some from) now = ltb now from

abbrev pub after_end : Option ℕ → ℕ → Bool
after_end none now = false
after_end (some until) now = ltb until now

unfoldable pub exam_available : Exam → ℕ → Bool
exam_available e now =
    if not (is_published e.status)
    then false
    else if before_start e.available_from now
    then false
    else if after_end e.available_until now
    then false
    else true

abbrev reached : Option ℕ → ℕ → Bool
reached none now = false
reached (some at) now = not (ltb now at)

unfoldable pub can_view_result : Attempt → ℕ → Bool
can_view_result a now = elim a.visibility [
  | public ↦ true
  | scheduled ↦ reached a.visible_at now
  | _ ↦ false
]

abbrev pub default_policy : Exam → ℕ → ShowResults → Bool
default_policy e now after_submit = true
default_policy e now after_close =
    if is_closed e.status then true else after_end e.available_until now
default_policy e now _ = false

abbrev pub is_private : ResultVisibility → Bool
is_private private = true
is_private _ = false

unfoldable pub result_visible : Exam → Attempt → ℕ → Bool
unfolding can_view_result
result_visible e a now =
    if not (is_set a.submitted_at)
    then false
    else if not (is_private a.visibility)
    then can_view_result a now
    else default_policy e now e.show_results
