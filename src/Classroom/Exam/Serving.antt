-- ===== src/Classroom/Exam/Serving.antt =====
-- Any sequence of requests to the exam service of internal/classroom/exam.go.
use e_campus_server.Prelude.{
  ℕ, ◌≤◌, ◌≡◌, refl, Bool, true, false, not, Option, some, List, [], ◌∷◌, arith, inl, inr,
  Bool-cases, if◌then◌else◌, row_at, row_at-key, subst, sym, Done, Keeps, Result, ok, err, Method,
  throw_if, ◌>>◌,
}
use e_campus_server.Classroom.Errors.{
  Error, exam_not_published, exam_not_available, exam_not_manual, invalid_input,
}
use e_campus_server.Classroom.Exam.Data.{
  Exam, Attempt, ExamStatus, draft, published, closed, ExamMode, ResultVisibility, Answers, online,
  is_online, is_draft, is_published, is_manual, exam_available, valid_result_visibility,
}
use e_campus_server.Classroom.Exam.Scoring.{Question}
use e_campus_server.Classroom.Exam.Postgres.{
  Tables, ManualResult, exam_key, get_exam, find_exam, close_exam, delete_exam,
}
use e_campus_server.Classroom.Exam.Attempts.{start_attempt, record_results}
use e_campus_server.Classroom.Exam.Service.{
  create, update, publish, start, save, submit, grade, review, record_manual, default_visibility,
}
use e_campus_server.Classroom.Exam.Inputs.{CreateExamInput, UpdateExamInput}
use e_campus_server.Classroom.Exam.Caps.{
  Fits, WithinCaps, opens_of, total_of_student, close_exam-WithinCaps,
}
use e_campus_server.Classroom.Exam.Existence.{delete_exam-WithinCaps}
use e_campus_server.Classroom.Exam.AttemptCaps.{start_attempt-WithinCaps}
use e_campus_server.Classroom.Exam.ManualCaps.{record_results-WithinCaps}
use e_campus_server.Classroom.Exam.Requests.{
  find_exam-row, create-Keeps, update-Keeps, publish-Keeps, save-Keeps, submit-Keeps, grade-Keeps,
  review-Keeps,
}

published_not_draft : (s : ExamStatus) → is_published s ≡ true → is_draft s ≡ false
published_not_draft draft h = cc
published_not_draft published h = refl
published_not_draft closed h = refl
published_not_draft (ExamStatus.other _) h = refl

published_started : (e : Exam) (now : ℕ) → exam_available e now ≡ true → is_draft e.status ≡ false
unfolding exam_available
published_started e now h = published_not_draft e.status (ground (arith, h))

start-Keeps : (now offering exam user : ℕ) → Keeps WithinCaps (start now offering exam user)
unfolding Keeps start get_exam
start-Keeps now offering exam user t caps = go (find_exam offering exam t) refl
  where
    refusal : Exam → Error
    refusal e = if not (is_published e.status) then exam_not_published else exam_not_available

    go :
        (r : Result Error Exam)
        → find_exam offering exam t ≡ r
        → WithinCaps
            (elim r as (λ _. Result Error Attempt × Tables) [
              | ok e ↦
                  (throw_if (not (exam_available e now)) (refusal e)
                      >> start_attempt exam user e.max_attempts now)
                    t
              | err e ↦ (err e, t)
            ]).1
    go (err e) q = caps
    go (ok e) q = elim (Bool-cases (exam_available e now)) [
      | inl can ↦ rw can (
          start_attempt-WithinCaps exam user now t e (find_exam-row offering exam t e q)
            (published_started e now can) caps)
      | inr cannot ↦ rw cannot caps
    ]

online_or_manual : (m : ExamMode) → is_manual m ≡ true → is_online m ≡ false
online_or_manual ExamMode.unset h = cc
online_or_manual online h = cc
online_or_manual ExamMode.manual h = refl
online_or_manual (ExamMode.other _) h = cc

record_manual-Keeps :
    (offering exam : ℕ) (results : List ManualResult) (v : ResultVisibility) (at : Option ℕ)
    → Keeps WithinCaps (record_manual offering exam results v at)
unfolding Keeps record_manual get_exam
record_manual-Keeps offering exam results v at t caps = go (find_exam offering exam t) refl
  where
    recorded : Exam → Method Tables Error Done
    recorded e =
        throw_if (not (valid_result_visibility (default_visibility v))) invalid_input
        >> record_results e results (default_visibility v) at

    recorded-Keeps :
        (e : Exam)
        → row_at exam_key exam t.exams ≡ some e
        → is_online e.mode ≡ false
        → WithinCaps (recorded e t).1
    recorded-Keeps e there by_hand =
        elim (Bool-cases (valid_result_visibility (default_visibility v))) [
          | inr invalid ↦ rw invalid caps
          | inl valid ↦ rw valid (
              record_results-WithinCaps e results (default_visibility v) at t
                (subst (λ i. row_at exam_key i t.exams ≡ some e)
                  (sym (row_at-key exam_key exam t.exams {r = e} there)) there)
                by_hand caps)
        ]

    go :
        (r : Result Error Exam)
        → find_exam offering exam t ≡ r
        → WithinCaps
            (elim r as (λ _. Result Error Done × Tables) [
              | ok e ↦ (throw_if (not (is_manual e.mode)) exam_not_manual >> recorded e) t
              | err e ↦ (err e, t)
            ]).1
    go (err e) q = caps
    go (ok e) q = elim (Bool-cases (is_manual e.mode)) [
      | inl can ↦
          rw can
            (recorded-Keeps e (find_exam-row offering exam t e q) (online_or_manual e.mode can))
      | inr cannot ↦ rw cannot caps
    ]

-- A request, with the times, the new ids and the caller that it comes with.
pub data Request : Type 0 where
  creates : ℕ → ℕ → CreateExamInput → Request
  updates : ℕ → ℕ → UpdateExamInput → Request
  publishes : ℕ → ℕ → ℕ → Request
  closes deletes : ℕ → ℕ → Request
  starts : ℕ → ℕ → ℕ → ℕ → Request
  saves : ℕ → ℕ → ℕ → Answers → Request
  submits : ℕ → ℕ → ℕ → ℕ → Answers → Request
  grades : ℕ → ℕ → ℕ → List (ℕ × ℕ) → Request
  reviews : ℕ → ℕ → Option ResultVisibility → Option ℕ → Option Bool → Request
  records : ℕ → ℕ → List ManualResult → ResultVisibility → Option ℕ → Request

abbrev pub no_exams : List ℕ → ℕ → ℕ → Tables
no_exams users fresh now = record {
  exams = [];
  attempts = [];
  users = users;
  fresh_id = fresh;
  now = now;
}

no_exams-WithinCaps : (users : List ℕ) (fresh now : ℕ) → WithinCaps (no_exams users fresh now)
unfolding WithinCaps row_at
no_exams-WithinCaps users fresh now exam student = refl

module _ (bank : List ℕ → Result Error (List Question)) where
  -- The tables after one request, whatever it answered.
  unfoldable pub serve : Request → Tables → Tables
  serve (creates id now input) t = (create id now input t).1
  serve (updates offering id input) t = (update offering id input t).1
  serve (publishes now offering id) t = (publish now offering id t).1
  serve (closes offering id) t = (close_exam offering id t).1
  serve (deletes offering id) t = (delete_exam offering id t).1
  serve (starts now offering exam user) t = (start now offering exam user t).1
  serve (saves offering id user answers) t = (save offering id user answers t).1
  serve (submits now offering id user answers) t = (submit bank now offering id user answers t).1
  serve (grades offering id grader scores) t = (grade offering id grader scores t).1
  serve (reviews offering id v at late) t = (review offering id v at late t).1
  serve (records offering exam results v at) t = (record_manual offering exam results v at t).1

  unfoldable pub serve_all : List Request → Tables → Tables
  serve_all [] t = t
  serve_all (r ∷ rs) t = serve_all rs (serve r t)

  serve-WithinCaps : (r : Request) (t : Tables) → WithinCaps t → WithinCaps (serve r t)
  unfolding serve Keeps
  serve-WithinCaps (creates id now input) = create-Keeps id now input
  serve-WithinCaps (updates offering id input) = update-Keeps offering id input
  serve-WithinCaps (publishes now offering id) = publish-Keeps now offering id
  serve-WithinCaps (closes offering id) = close_exam-WithinCaps offering id
  serve-WithinCaps (deletes offering id) = delete_exam-WithinCaps offering id
  serve-WithinCaps (starts now offering exam user) = start-Keeps now offering exam user
  serve-WithinCaps (saves offering id user answers) = save-Keeps offering id user answers
  serve-WithinCaps (submits now offering id user answers) =
      submit-Keeps bank now offering id user answers
  serve-WithinCaps (grades offering id grader scores) = grade-Keeps offering id grader scores
  serve-WithinCaps (reviews offering id v at late) = review-Keeps offering id v at late
  serve-WithinCaps (records offering exam results v at) =
      record_manual-Keeps offering exam results v at

  serve_all-WithinCaps :
      (rs : List Request) (t : Tables) → WithinCaps t → WithinCaps (serve_all rs t)
  unfolding serve_all
  serve_all-WithinCaps [] t caps = caps
  serve_all-WithinCaps (r ∷ rs) t caps =
      serve_all-WithinCaps rs (serve r t) (serve-WithinCaps r t caps)

  -- Whatever requests were served since there were no exams, a student has at most one open attempt
  -- at an online exam, in all at most the exam's cap, and none while it is a draft.
  pub serve_all-Fits :
      (rs : List Request) (users : List ℕ) (fresh now exam student : ℕ) (e : Exam)
      → row_at exam_key exam (serve_all rs (no_exams users fresh now)).exams ≡ some e
      → is_online e.mode ≡ true
      → (opens_of exam student (serve_all rs (no_exams users fresh now)).attempts ≤ 1)
        × (total_of_student exam student (serve_all rs (no_exams users fresh now)).attempts
            ≤ e.max_attempts)
        × (is_draft e.status ≡ true
            → total_of_student exam student (serve_all rs (no_exams users fresh now)).attempts ≡ 0)
  unfolding WithinCaps
  serve_all-Fits rs users fresh now exam student e there =
      let t = serve_all rs (no_exams users fresh now) in
      subst
        (λ o. Fits o (opens_of exam student t.attempts) (total_of_student exam student t.attempts))
        there
        (serve_all-WithinCaps rs (no_exams users fresh now) (no_exams-WithinCaps users fresh now)
          exam student)
