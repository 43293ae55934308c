-- ===== src/Classroom/Exam/Service.antt =====
-- internal/classroom/exam.go: the service, over the statements of the adapter. `now` stands for the
-- call of `time.Now`; notifications, which are advisory, are left out.
use e_campus_server.Prelude.{
  ℕ, Bool, true, false, not, ◌&&◌, Option, none, some, List, [], ◌∷◌, ◌++◌, ◌==◌, ltb, is_set,
  if◌then◌else◌, value_or, Result, ok, err, Method, Done, pure, lift, throw_if, ◌>>=◌, ◌>>◌,
  attempt,
}
use e_campus_server.Classroom.Errors.{
  Error, exam_not_found, attempt_not_found, invalid_input, exam_not_draft, exam_not_published,
  exam_not_available, exam_not_manual, no_questions_in_exam,
}
use e_campus_server.Classroom.Exam.Data.{
  Exam, ResultVisibility, ExamQuestion, Attempt, Answers, Scores, private, is_draft, is_published,
  is_online, is_manual, valid_exam_type, valid_exam_mode, valid_show_results,
  valid_result_visibility, exam_available,
}
use e_campus_server.Classroom.Exam.Scoring.{Question, auto_grade, total_of, has_ungraded}
use e_campus_server.Classroom.Exam.Postgres.{
  Tables, ManualResult, create_exam, get_exam, update_exam, publish_exam,
}
use e_campus_server.Classroom.Exam.Attempts.{
  start_attempt, get_attempt, save_answers, submit_attempt, grade_attempt, update_attempt_review,
  record_results,
}
use e_campus_server.Classroom.Exam.Inputs.{
  CreateExamInput, UpdateExamInput, default_mode, default_show_results, default_attempts, new_exam,
  apply_exam_update,
}

-- `Create`; `id` stands for the call of `uuid.New`.
unfoldable pub create : ℕ → ℕ → CreateExamInput → Method Tables Error Exam
create id now input = do
  throw_if (not (valid_exam_type input.type)) invalid_input
  throw_if (not (valid_exam_mode (default_mode input.mode))) invalid_input
  throw_if (not (valid_show_results (default_show_results input.show_results))) invalid_input
  throw_if (ltb (default_attempts input.max_attempts) 1) invalid_input
  create_exam (new_exam id now input)
  pure (new_exam id now input)

-- `Get`
unfoldable pub get : ℕ → ℕ → Bool → Method Tables Error Exam
get offering id for_student = do
  e ← get_exam offering id
  throw_if (for_student && is_draft e.status) exam_not_found
  pure e

-- `Update`
unfoldable pub update : ℕ → ℕ → UpdateExamInput → Method Tables Error Exam
unfolding apply_exam_update
update offering id input = do
  e ← get_exam offering id
  throw_if (not (is_draft e.status)) exam_not_draft
  edited ← lift (apply_exam_update input e)
  version ← update_exam edited edited.version
  pure (record edited { version = version })

abbrev pub is_empty : List ExamQuestion → Bool
is_empty [] = true
is_empty _ = false

-- `Publish`
unfoldable pub publish : ℕ → ℕ → ℕ → Method Tables Error Done
publish now offering id = do
  e ← get_exam offering id
  throw_if (is_empty e.questions) no_questions_in_exam
  publish_exam offering id now

-- `Start`
unfoldable pub start : ℕ → ℕ → ℕ → ℕ → Method Tables Error Attempt
start now offering exam user = do
  e ← get_exam offering exam
  throw_if (not (exam_available e now))
      (if not (is_published e.status) then exam_not_published else exam_not_available)
  start_attempt exam user e.max_attempts now

abbrev pub hide_error : {A : Type 0} → Error → Result Error A → Result Error A
hide_error e (ok a) = ok a
hide_error e (err _) = err e

-- `attemptInOffering`
unfoldable pub attempt_in_offering : ℕ → ℕ → Method Tables Error Attempt
attempt_in_offering offering id = do
  a ← get_attempt id
  looked ← attempt (get_exam offering a.exam_id)
  lift (hide_error attempt_not_found looked)
  pure a

-- `ownAttempt`
unfoldable pub own_attempt : ℕ → ℕ → ℕ → Method Tables Error Attempt
own_attempt offering id user = do
  a ← attempt_in_offering offering id
  throw_if (not (a.student_id == user)) attempt_not_found
  pure a

-- `SaveAnswers`
unfoldable pub save : ℕ → ℕ → ℕ → Answers → Method Tables Error Done
save offering id user answers = do own_attempt offering id user; save_answers id answers

-- The map of weights: of a question that stands twice the later weight counts.
abbrev weights_of : List ExamQuestion → List (ℕ × ℕ)
weights_of [] = []
weights_of (q ∷ qs) = weights_of qs ++ ((q.question, q.score) ∷ [])

-- The bank's lookup by ids, which answers with the questions that exist.
module _ (questions_by_ids : List ℕ → Result Error (List Question)) where
  abbrev ids_of : List ExamQuestion → List ℕ
  ids_of [] = []
  ids_of (q ∷ qs) = q.question ∷ ids_of qs

  abbrev asked : List ℕ → Result Error (List Question)
  asked [] = ok []
  asked ids = questions_by_ids ids

  abbrev scores_for : Exam → Answers → Result Error (List Question) → Result Error Scores
  scores_for e answers (err failed) = err failed
  scores_for e answers (ok qs) = ok (auto_grade 0 qs (weights_of e.questions) answers)

  abbrev open_total : Scores → Option ℕ
  open_total scores = if not (has_ungraded scores) then some (total_of scores) else none

  abbrev with_total : Result Error Scores → Result Error (Option Scores × Option ℕ)
  with_total (err failed) = err failed
  with_total (ok scores) = ok (some scores, open_total scores)

  -- What `Submit` computes of an online exam: the scores, and the total if none is left open.
  unfoldable pub submission_scores : Exam → Answers → Result Error (Option Scores × Option ℕ)
  submission_scores e answers =
      if is_online e.mode
      then with_total (scores_for e answers (asked (ids_of e.questions)))
      else ok (none, none)

  -- `Submit`
  unfoldable pub submit : ℕ → ℕ → ℕ → ℕ → Answers → Method Tables Error Attempt
  unfolding submission_scores
  submit now offering id user answers = do
    a ← own_attempt offering id user
    e ← get_exam offering a.exam_id
    scores ← lift (submission_scores e answers)
    submit_attempt id answers scores.0 scores.1 now
    get_attempt id

-- `scores[qID] = …`
abbrev set_score : ℕ → ℕ → Scores → Scores
set_score q score [] = (q, some score) ∷ []
set_score q score ((k, s) ∷ rest) =
    if k == q then (k, some score) ∷ rest else (k, s) ∷ set_score q score rest

abbrev pub merge_scores : List (ℕ × ℕ) → Scores → Scores
merge_scores [] scores = scores
merge_scores ((q, score) ∷ more) scores = merge_scores more (set_score q score scores)

-- `Grade`
unfoldable pub grade : ℕ → ℕ → ℕ → List (ℕ × ℕ) → Method Tables Error Attempt
grade offering id grader manual_scores = do
  a ← attempt_in_offering offering id
  throw_if (not (is_set a.submitted_at)) attempt_not_found
  let scores = merge_scores manual_scores (value_or a.scores [])
  grade_attempt id scores (total_of scores) grader
  get_attempt id

abbrev pub valid_if_set : Option ResultVisibility → Bool
valid_if_set none = true
valid_if_set (some v) = valid_result_visibility v

-- `Review`
unfoldable pub review :
    ℕ → ℕ → Option ResultVisibility → Option ℕ → Option Bool → Method Tables Error Done
review offering id visibility visible_at late = do
  throw_if (not (valid_if_set visibility)) invalid_input
  attempt_in_offering offering id
  update_attempt_review id visibility visible_at late

abbrev pub default_visibility : ResultVisibility → ResultVisibility
default_visibility ResultVisibility.unset = private
default_visibility v = v

-- `RecordResults`
unfoldable pub record_manual :
    ℕ → ℕ → List ManualResult → ResultVisibility → Option ℕ → Method Tables Error Done
record_manual offering exam results visibility visible_at = do
  e ← get_exam offering exam
  throw_if (not (is_manual e.mode)) exam_not_manual
  throw_if (not (valid_result_visibility (default_visibility visibility))) invalid_input
  record_results e results (default_visibility visibility) visible_at
