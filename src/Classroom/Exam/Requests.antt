-- ===== src/Classroom/Exam/Requests.antt =====
-- Any sequence of requests to the exam service, and the caps on attempts.
use e_campus_server.Prelude.{
  Result, ℕ, ◌≡◌, ◌∙◌, ap, Bool, not, Option, some, List, [], ◌==◌, inl, inr, Bool-cases,
  Option-cases, is_set, row_at, ltb, value_or, Keeps, bind-Keeps, guard-Keeps, pure-Keeps,
  lift-Keeps, attempt-Keeps, ok, lift, attempt,
}
use e_campus_server.Classroom.Errors.{
  Error, invalid_input, exam_not_draft, attempt_not_found, no_questions_in_exam,
}
use e_campus_server.Classroom.Exam.Data.{
  Exam, ResultVisibility, Answers, is_draft, valid_exam_type, valid_exam_mode, valid_show_results,
}
use e_campus_server.Classroom.Exam.Scoring.{Question, total_of}
use e_campus_server.Classroom.Exam.Postgres.{
  Tables, exam_key, get_exam, find_exam, create_exam, update_exam, publish_exam,
}
use e_campus_server.Classroom.Exam.Attempts.{get_attempt, submit_attempt, grade_attempt}
use e_campus_server.Classroom.Exam.Service.{
  create, update, publish, attempt_in_offering, own_attempt, save, submit, grade, review, is_empty,
  hide_error, submission_scores, merge_scores, valid_if_set,
}
use e_campus_server.Classroom.Exam.Inputs.{
  CreateExamInput, UpdateExamInput, default_mode, default_show_results, default_attempts, new_exam,
  apply_exam_update,
}
use e_campus_server.Classroom.Exam.Caps.{
  WithinCaps, update_exam-WithinCaps, publish_exam-WithinCaps,
}
use e_campus_server.Classroom.Exam.Existence.{create_exam-WithinCaps}
use e_campus_server.Classroom.Exam.AttemptCaps.{
  save_answers-WithinCaps, submit_attempt-WithinCaps, grade_attempt-WithinCaps,
  update_attempt_review-WithinCaps,
}

pub find_exam-row :
    (offering id : ℕ) (t : Tables) (e : Exam)
    → find_exam offering id t ≡ ok e
    → row_at exam_key id t.exams ≡ some e
unfolding find_exam
find_exam-row offering id t e h = elim (Option-cases (row_at exam_key id t.exams)) [
  | inl q ↦ let k = rw q at h in cc
  | inr (r, q) ↦ elim (Bool-cases (r.offering_id == offering)) [
    | inl c ↦ let k = rw (q, c) at h in let same : r ≡ e = cc in q ∙ ap some same
    | inr c ↦ let k = rw (q, c) at h in cc
  ]
]

pub get_exam-Keeps : (offering id : ℕ) → Keeps WithinCaps (get_exam offering id)
unfolding Keeps get_exam
get_exam-Keeps offering id t caps = caps

pub get_attempt-Keeps : (id : ℕ) → Keeps WithinCaps (get_attempt id)
unfolding Keeps get_attempt
get_attempt-Keeps id t caps = caps

pub create-Keeps : (id now : ℕ) (input : CreateExamInput) → Keeps WithinCaps (create id now input)
unfolding create
create-Keeps id now input =
    guard-Keeps WithinCaps (not (valid_exam_type input.type)) invalid_input _ (
      guard-Keeps WithinCaps (not (valid_exam_mode (default_mode input.mode))) invalid_input _ (
        guard-Keeps WithinCaps (not (valid_show_results (default_show_results input.show_results)))
          invalid_input _
          (guard-Keeps WithinCaps (ltb (default_attempts input.max_attempts) 1) invalid_input _ (
            bind-Keeps WithinCaps (create_exam (new_exam id now input)) _ (create_exam-WithinCaps _)
              (λ _. pure-Keeps Error WithinCaps (new_exam id now input))))))

pub update-Keeps :
    (offering id : ℕ) (input : UpdateExamInput) → Keeps WithinCaps (update offering id input)
unfolding update
update-Keeps offering id input =
    bind-Keeps WithinCaps (get_exam offering id) _ (get_exam-Keeps offering id) (λ e.
      guard-Keeps WithinCaps (not (is_draft e.status)) exam_not_draft _ (
        bind-Keeps WithinCaps (lift (apply_exam_update input e)) _
          (lift-Keeps WithinCaps (apply_exam_update input e))
          (λ edited.
            bind-Keeps WithinCaps (update_exam edited edited.version) _
              (update_exam-WithinCaps edited edited.version)
              (λ version. pure-Keeps Error WithinCaps (record edited { version = version })))))

pub publish-Keeps : (now offering id : ℕ) → Keeps WithinCaps (publish now offering id)
unfolding publish
publish-Keeps now offering id =
    bind-Keeps WithinCaps (get_exam offering id) _ (get_exam-Keeps offering id) (λ e.
      guard-Keeps WithinCaps (is_empty e.questions) no_questions_in_exam
        (publish_exam offering id now) (publish_exam-WithinCaps offering id now))

pub attempt_in_offering-Keeps :
    (offering id : ℕ) → Keeps WithinCaps (attempt_in_offering offering id)
unfolding attempt_in_offering
attempt_in_offering-Keeps offering id =
    bind-Keeps WithinCaps (get_attempt id) _ (get_attempt-Keeps id) (λ a.
      bind-Keeps WithinCaps (attempt (get_exam offering a.exam_id)) _
        (attempt-Keeps WithinCaps (get_exam offering a.exam_id) (get_exam-Keeps offering a.exam_id))
        (λ looked.
          bind-Keeps WithinCaps (lift (hide_error attempt_not_found looked)) _
            (lift-Keeps WithinCaps (hide_error attempt_not_found looked))
            (λ _. pure-Keeps Error WithinCaps a)))

pub own_attempt-Keeps : (offering id user : ℕ) → Keeps WithinCaps (own_attempt offering id user)
unfolding own_attempt
own_attempt-Keeps offering id user =
    bind-Keeps WithinCaps (attempt_in_offering offering id) _
      (attempt_in_offering-Keeps offering id)
      (λ a.
        guard-Keeps WithinCaps (not (a.student_id == user)) attempt_not_found _
          (pure-Keeps Error WithinCaps a))

pub save-Keeps :
    (offering id user : ℕ) (answers : Answers) → Keeps WithinCaps (save offering id user answers)
unfolding save
save-Keeps offering id user answers =
    bind-Keeps WithinCaps (own_attempt offering id user) _ (own_attempt-Keeps offering id user)
      (λ _. save_answers-WithinCaps id answers)

pub submit-Keeps :
    (bank : List ℕ → Result Error (List Question)) (now offering id user : ℕ) (answers : Answers)
    → Keeps WithinCaps (submit bank now offering id user answers)
unfolding submit
submit-Keeps bank now offering id user answers =
    bind-Keeps WithinCaps (own_attempt offering id user) _ (own_attempt-Keeps offering id user)
      (λ a.
        bind-Keeps WithinCaps (get_exam offering a.exam_id) _ (get_exam-Keeps offering a.exam_id)
          (λ e.
            bind-Keeps WithinCaps (lift (submission_scores bank e answers)) _
              (lift-Keeps WithinCaps (submission_scores bank e answers))
              (λ scores.
                bind-Keeps WithinCaps (submit_attempt id answers scores.0 scores.1 now) _
                  (submit_attempt-WithinCaps id answers scores.0 scores.1 now)
                  (λ _. get_attempt-Keeps id))))

pub grade-Keeps :
    (offering id grader : ℕ) (manual_scores : List (ℕ × ℕ))
    → Keeps WithinCaps (grade offering id grader manual_scores)
unfolding grade
grade-Keeps offering id grader manual_scores =
    bind-Keeps WithinCaps (attempt_in_offering offering id) _
      (attempt_in_offering-Keeps offering id)
      (λ a. guard-Keeps WithinCaps (not (is_set a.submitted_at)) attempt_not_found _ (
        let scores = merge_scores manual_scores (value_or a.scores []) in
        bind-Keeps WithinCaps (grade_attempt id scores (total_of scores) grader) _
          (grade_attempt-WithinCaps id scores (total_of scores) grader)
          (λ _. get_attempt-Keeps id)))

pub review-Keeps :
    (offering id : ℕ) (v : Option ResultVisibility) (at : Option ℕ) (late : Option Bool)
    → Keeps WithinCaps (review offering id v at late)
unfolding review
review-Keeps offering id v at late = guard-Keeps WithinCaps (not (valid_if_set v)) invalid_input _ (
    bind-Keeps WithinCaps (attempt_in_offering offering id) _
      (attempt_in_offering-Keeps offering id) (λ _. update_attempt_review-WithinCaps id v at late))
