-- ===== src/Classroom/Exam/Postgres.antt =====
-- internal/classroom/postgres/exam.go: the SQL adapter, each statement as a function on the tables.
-- Failures of the connection are left out; constraints fail with their SQLSTATE.
use e_campus_server.Prelude.{
  ℕ, ◌+◌, Bool, false, not, ◌&&◌, Option, none, some, List, [], ◌∷◌, ◌==◌, ltb, is_set,
  if◌then◌else◌, contains, find, keep, count_where, Result, ok, err, Method, Done, affect, row_at,
}
use e_campus_server.Classroom.Errors.{
  Error, exam_not_found, conflict, exam_not_draft, exam_not_published, failure,
}
use e_campus_server.Classroom.Exam.Data.{
  Exam, published, closed, Attempt, private, is_draft, is_published,
}

-- The exams, their attempts, the accounts, and what the database generates.
pub record Tables : Type 0 where
  pub exams : List Exam
  pub attempts : List Attempt
  pub users : List ℕ
  pub fresh_id : ℕ
  pub now : ℕ

pub record ManualResult : Type 0 where
  pub student_id : ℕ
  pub total_score : ℕ

abbrev pub exam_key : Exam → ℕ
exam_key e = e.id

abbrev pub attempt_key : Attempt → ℕ
attempt_key a = a.id

abbrev pub unique_violation : ℕ
unique_violation = 23505

abbrev pub foreign_key_violation : ℕ
foreign_key_violation = 23503

abbrev pub not_null_violation : ℕ
not_null_violation = 23502

-- `sql.ErrNoRows`
abbrev pub no_rows : ℕ
no_rows = 2000

unfoldable pub create_exam : Exam → Method Tables Error Done
create_exam e t =
    if is_set (row_at exam_key e.id t.exams) then (err (failure unique_violation), t) else (
      ok tt,
      record t { exams = record e { version = 1; used_at = none; published_at = none } ∷ t.exams },
    )

abbrev in_offering : ℕ → Option Exam → Result Error Exam
in_offering offering none = err exam_not_found
in_offering offering (some e) = if e.offering_id == offering then ok e else err exam_not_found

unfoldable pub find_exam : ℕ → ℕ → Tables → Result Error Exam
find_exam offering id t = in_offering offering (row_at exam_key id t.exams)

unfoldable pub get_exam : ℕ → ℕ → Method Tables Error Exam
get_exam offering id t = (find_exam offering id t, t)

-- The `SET` list of `UpdateExam`.
unfoldable pub set_exam : Exam → Exam → Exam
set_exam e r = record r {
  section_id = e.section_id;
  title = e.title;
  description = e.description;
  questions = e.questions;
  total_score = e.total_score;
  duration_minutes = e.duration_minutes;
  shuffle_questions = e.shuffle_questions;
  shuffle_options = e.shuffle_options;
  show_results = e.show_results;
  max_attempts = e.max_attempts;
  available_from = e.available_from;
  available_until = e.available_until;
  version = r.version + 1;
}

abbrev pub store_exams : Tables → List Exam → Tables
store_exams t rows = record t { exams = rows }

abbrev pub version_or_conflict : Tables → Option (Exam × List Exam) → Result Error ℕ × Tables
version_or_conflict t none = (err conflict, t)
version_or_conflict t (some (r, rows)) = (ok r.version, store_exams t rows)

unfoldable pub update_exam : Exam → ℕ → Method Tables Error ℕ
unfolding set_exam
update_exam e expected t =
    version_or_conflict t
      (affect exam_key e.id (λ r. r.version == expected && is_draft r.status) (set_exam e) t.exams)

-- What a status change answers when no row was affected: the read's error, or the status'.
abbrev pub missed : Error → Result Error Exam → Error
missed e (ok _) = e
missed e (err e') = e'

abbrev pub affected_or :
    Error → ℕ → ℕ → Tables → Option (Exam × List Exam) → Result Error Done × Tables
affected_or e offering id t none = (err (missed e (find_exam offering id t)), t)
affected_or e offering id t (some (_, rows)) = (ok tt, store_exams t rows)

-- Attempts go with their exam.
abbrev pub drop_exam : ℕ → Tables → Tables
drop_exam id t = record t {
  exams = keep (λ e. not (e.id == id)) t.exams;
  attempts = keep (λ a. not (a.exam_id == id)) t.attempts;
}

abbrev pub deletable : ℕ → Option Exam → Bool
deletable offering none = false
deletable offering (some e) = e.offering_id == offering && is_draft e.status

unfoldable pub delete_exam : ℕ → ℕ → Method Tables Error Done
delete_exam offering id t =
    if deletable offering (row_at exam_key id t.exams)
    then (ok tt, drop_exam id t)
    else (err (missed exam_not_draft (find_exam offering id t)), t)

unfoldable pub publish_exam : ℕ → ℕ → ℕ → Method Tables Error Done
publish_exam offering id at t = affected_or exam_not_draft offering id t (
    affect exam_key id (λ r. r.offering_id == offering && is_draft r.status)
      (λ r. record r { status = published; published_at = some at }) t.exams)

unfoldable pub close_exam : ℕ → ℕ → Method Tables Error Done
close_exam offering id t = affected_or exam_not_published offering id t (
    affect exam_key id (λ r. r.offering_id == offering && is_published r.status)
      (λ r. record r { status = closed }) t.exams)

abbrev pub of_student : ℕ → ℕ → Attempt → Bool
of_student exam student a = a.exam_id == exam && a.student_id == student

abbrev pub is_open : ℕ → ℕ → Attempt → Bool
is_open exam student a = of_student exam student a && not (is_set a.submitted_at)

abbrev pub is_submitted : ℕ → ℕ → Attempt → Bool
is_submitted exam student a = of_student exam student a && is_set a.submitted_at

unfoldable pub open_attempt : ℕ → ℕ → Method Tables Error (Option Attempt)
open_attempt exam student t = (ok (find (is_open exam student) t.attempts), t)

abbrev pub new_attempt : ℕ → ℕ → ℕ → Tables → Attempt
new_attempt exam student at t = record {
  id = t.fresh_id;
  exam_id = exam;
  student_id = student;
  answers = [];
  scores = some [];
  total_score = none;
  started_at = some at;
  updated_at = none;
  submitted_at = none;
  late_accepted = none;
  graded_by = none;
  graded_at = none;
  visibility = private;
  visible_at = none;
}

abbrev pub has_parents : ℕ → ℕ → Tables → Bool
has_parents exam student t = is_set (row_at exam_key exam t.exams) && contains student t.users

abbrev pub push_attempt : Attempt → Tables → Tables
push_attempt a t = record t { attempts = a ∷ t.attempts; fresh_id = t.fresh_id + 1 }

-- `INSERT … SELECT … WHERE count < max`, under the unique index on open attempts and the foreign keys.
unfoldable pub insert_attempt : ℕ → ℕ → ℕ → ℕ → Method Tables Error Attempt
insert_attempt exam student max at t =
    if not (ltb (count_where (is_submitted exam student) t.attempts) max)
    then (err (failure no_rows), t)
    else if is_set (find (is_open exam student) t.attempts)
    then (err (failure unique_violation), t)
    else if not (has_parents exam student t)
    then (err (failure foreign_key_violation), t)
    else (ok (new_attempt exam student at t), push_attempt (new_attempt exam student at t) t)
