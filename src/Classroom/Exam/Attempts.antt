-- ===== src/Classroom/Exam/Attempts.antt =====
-- internal/classroom/postgres/exam.go: starting, answering, submitting, grading and recording attempts.
use e_campus_server.Prelude.{
  ℕ, Bool, true, not, Option, none, some, List, [], ◌∷◌, ◌==◌, is_set, if◌then◌else◌, find, or_else,
  value_or, Result, ok, err, Method, Done, affect, row_at, pure, throw, attempt, ◌>>=◌,
  update_where,
}
use e_campus_server.Classroom.Errors.{
  Error, attempt_not_found, conflict, invalid_input, max_attempts_reached, attempt_submitted,
  failure,
}
use e_campus_server.Classroom.Exam.Data.{Exam, Attempt, Answers, Scores, ResultVisibility}
use e_campus_server.Classroom.Exam.Postgres.{
  Tables, ManualResult, attempt_key, unique_violation, not_null_violation, no_rows, has_parents,
  is_open, open_attempt, new_attempt, push_attempt, insert_attempt,
}

abbrev pub resumed : Option Attempt → Method Tables Error Attempt
resumed (some a) = pure a
resumed none = throw conflict

-- How `StartAttempt` answers the outcome of the insert.
abbrev pub settle : ℕ → ℕ → Result Error Attempt → Method Tables Error Attempt
settle exam student (ok a) = pure a
settle exam student (err (failure n)) =
    if n == unique_violation
    then (do current ← open_attempt exam student; resumed current)
    else if n == no_rows
    then throw max_attempts_reached
    else throw (failure n)
settle exam student (err e) = throw e

abbrev pub start_unless_open : ℕ → ℕ → ℕ → ℕ → Option Attempt → Method Tables Error Attempt
start_unless_open exam student max at (some a) = pure a
start_unless_open exam student max at none = do
  inserted ← attempt (insert_attempt exam student max at)
  settle exam student inserted

unfoldable pub start_attempt : ℕ → ℕ → ℕ → ℕ → Method Tables Error Attempt
start_attempt exam student max at = do
  current ← open_attempt exam student
  start_unless_open exam student max at current

abbrev found : Option Attempt → Result Error Attempt
found none = err attempt_not_found
found (some a) = ok a

unfoldable pub get_attempt : ℕ → Method Tables Error Attempt
get_attempt id t = (found (row_at attempt_key id t.attempts), t)

abbrev pub written_or :
    Error → Tables → Option (Attempt × List Attempt) → Result Error Done × Tables
written_or e t none = (err e, t)
written_or e t (some (_, rows)) = (ok tt, record t { attempts = rows })

abbrev pub unsubmitted : Attempt → Bool
unsubmitted a = not (is_set a.submitted_at)

unfoldable pub save_answers : ℕ → Answers → Method Tables Error Done
save_answers id answers t = written_or attempt_submitted t (
    affect attempt_key id unsubmitted (λ a. record a { answers = answers; updated_at = some t.now })
      t.attempts)

abbrev pub submitted_with : Answers → Scores → Option ℕ → ℕ → Attempt → Attempt
submitted_with answers scores total at a = record a {
  answers = answers;
  scores = some scores;
  total_score = total;
  submitted_at = some at;
  updated_at = some at;
}

abbrev pub missing_scores : Tables → Option Attempt → Result Error Done × Tables
missing_scores t none = (err attempt_submitted, t)
missing_scores t (some a) =
    if unsubmitted a then (err (failure not_null_violation), t) else (err attempt_submitted, t)

-- The column `scores` is `NOT NULL`, so missing scores fail on the row that they meet.
unfoldable pub submit_attempt :
    ℕ → Answers → Option Scores → Option ℕ → ℕ → Method Tables Error Done
submit_attempt id answers none total at t = missing_scores t (row_at attempt_key id t.attempts)
submit_attempt id answers (some scores) total at t =
    written_or attempt_submitted t
      (affect attempt_key id unsubmitted (submitted_with answers scores total at) t.attempts)

unfoldable pub grade_attempt : ℕ → Scores → ℕ → ℕ → Method Tables Error Done
grade_attempt id scores total grader t = written_or attempt_not_found t (
    affect attempt_key id (λ a. is_set a.submitted_at)
      (λ a. record a {
        scores = some scores;
        total_score = some total;
        graded_by = some grader;
        graded_at = some t.now;
        updated_at = some t.now;
      })
      t.attempts)

unfoldable pub update_attempt_review :
    ℕ → Option ResultVisibility → Option ℕ → Option Bool → Method Tables Error Done
update_attempt_review id visibility visible_at late t = written_or attempt_not_found t (
    affect attempt_key id (λ a. true)
      (λ a. record a {
        visibility = value_or visibility a.visibility;
        visible_at = or_else visible_at a.visible_at;
        late_accepted = or_else late a.late_accepted;
      })
      t.attempts)

-- The row that a recorded result inserts, and what it changes of an open attempt.
abbrev pub recorded : ℕ → ManualResult → ResultVisibility → Option ℕ → Tables → Attempt
recorded exam res visibility visible_at t = record (new_attempt exam res.student_id t.now t) {
  total_score = some res.total_score;
  submitted_at = some t.now;
  visibility = visibility;
  visible_at = visible_at;
}

abbrev pub closed_by : ManualResult → ResultVisibility → Option ℕ → ℕ → Attempt → Attempt
closed_by res visibility visible_at now a = record a {
  total_score = some res.total_score;
  submitted_at = some now;
  visibility = visibility;
  visible_at = visible_at;
}

-- `INSERT … ON CONFLICT (exam_id, student_id) WHERE submitted_at IS NULL DO UPDATE`
unfoldable pub upsert_result : ℕ → ResultVisibility → Option ℕ → ManualResult → Tables → Tables
upsert_result exam visibility visible_at res t =
    if is_set (find (is_open exam res.student_id) t.attempts)
    then record t {
      attempts =
          update_where (is_open exam res.student_id) (closed_by res visibility visible_at t.now)
            t.attempts;
    }
    else push_attempt (recorded exam res visibility visible_at t) t

unfoldable pub upsert_results :
    ℕ → ResultVisibility → Option ℕ → List ManualResult → Tables → Result Error Tables
upsert_results exam visibility visible_at [] t = ok t
upsert_results exam visibility visible_at (res ∷ results) t =
    if has_parents exam res.student_id t
    then upsert_results exam visibility visible_at results
        (upsert_result exam visibility visible_at res t)
    else err invalid_input

abbrev pub stamp_used : ℕ → Exam → Exam
stamp_used now e = record e { used_at = or_else e.used_at (some now) }

-- The transaction commits, or rolls back to the tables that it found.
abbrev pub commit_or_rollback : Tables → Result Error Tables → Result Error Done × Tables
commit_or_rollback t (ok t') = (ok tt, t')
commit_or_rollback t (err e) = (err e, t)

unfoldable pub record_results :
    Exam → List ManualResult → ResultVisibility → Option ℕ → Method Tables Error Done
unfolding upsert_results
record_results exam results visibility visible_at t = commit_or_rollback t (
    upsert_results exam.id visibility visible_at results
      (record t { exams = update_where (λ e. e.id == exam.id) (stamp_used t.now) t.exams }))
