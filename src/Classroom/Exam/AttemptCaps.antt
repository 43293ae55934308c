-- ===== src/Classroom/Exam/AttemptCaps.antt =====
-- The statements on attempts keep the caps.
use e_campus_server.Prelude.{
  count_where-replace_row, count_where-none, ℕ, ◌<◌, ◌≡◌, refl, sym, subst, Bool, true, false, ◌&&◌,
  Option, none, some, List, ◌∷◌, ◌==◌, ==_iff, arith, inl, inr, Bool-cases, is_set, ltb,
  count_where, find, affect, row_at, affect-some, Keeps, Result, ok, err,
}
use e_campus_server.Classroom.Errors.{Error, failure}
use e_campus_server.Classroom.Exam.Data.{Exam, Attempt, Answers, Scores, ResultVisibility, is_draft}
use e_campus_server.Classroom.Exam.Postgres.{
  Tables, exam_key, attempt_key, of_student, is_open, is_submitted, has_parents, new_attempt,
  push_attempt, insert_attempt, open_attempt, unique_violation, no_rows,
}
use e_campus_server.Classroom.Exam.Attempts.{
  start_attempt, start_unless_open, settle, resumed, missing_scores, save_answers, submit_attempt,
  grade_attempt, update_attempt_review, written_or, unsubmitted,
}
use e_campus_server.Classroom.Exam.Counting.{count_split}
use e_campus_server.Classroom.Exam.Caps.{Fits, Fits-fewer, WithinCaps, opens_of, total_of_student}

-- One more attempt of a student who has none open and has submitted fewer than the cap.
pushed-WithinCaps :
    (exam student at : ℕ) (t : Tables) (e : Exam)
    → row_at exam_key exam t.exams ≡ some e
    → is_draft e.status ≡ false
    → ltb (count_where (is_submitted exam student) t.attempts) e.max_attempts ≡ true
    → is_set (find (is_open exam student) t.attempts) ≡ false
    → WithinCaps t
    → WithinCaps (push_attempt (new_attempt exam student at t) t)
unfolding WithinCaps
pushed-WithinCaps exam student at t e there started below closed_ caps x s =
    elim (Bool-cases (exam == x && student == s)) [
      | inl hit ↦
          let is_x : exam ≡ x = (==_iff exam x).0 (ground arith) in
          let is_s : student ≡ s = (==_iff student s).0 (ground arith) in
          let row : row_at exam_key x t.exams ≡ some e =
            subst (λ i. row_at exam_key i t.exams ≡ some e) is_x there in
          let opens : opens_of x s t.attempts ≡ 0 =
            subst (λ i. opens_of i s t.attempts ≡ 0) is_x
              (subst (λ j. opens_of exam j t.attempts ≡ 0) is_s
                (count_where-none (is_open exam student) t.attempts closed_)) in
          let submitted : count_where (is_submitted x s) t.attempts < e.max_attempts =
            subst (λ i. count_where (is_submitted i s) t.attempts < e.max_attempts) is_x
              (subst (λ j. count_where (is_submitted exam j) t.attempts < e.max_attempts) is_s
                (ground (arith, below))) in
          subst
            (λ o.
              Fits o (opens_of x s (new_attempt exam student at t ∷ t.attempts))
                (total_of_student x s (new_attempt exam student at t ∷ t.attempts)))
            (sym row)
            (λ online. (
              ground (arith, hit, opens),
              ground (arith, hit, opens, submitted, count_split x s t.attempts),
              λ d. ground (arith, d, started),
            ))
      | inr miss ↦
          Fits-fewer (row_at exam_key x t.exams) _ _ _ _ (ground (arith, miss))
            (ground (arith, miss)) (caps x s)
    ]

resumed-Keeps : (o : Option Attempt) → Keeps WithinCaps (resumed o)
unfolding Keeps
resumed-Keeps none t caps = caps
resumed-Keeps (some a) t caps = caps

settle-Keeps :
    (exam student : ℕ) (r : Result Error Attempt) → Keeps WithinCaps (settle exam student r)
unfolding Keeps open_attempt
settle-Keeps exam student (ok a) t caps = caps
settle-Keeps exam student (err (failure n)) t caps = elim (Bool-cases (n == unique_violation)) [
  | inl c ↦ rw c (resumed-Keeps (find (is_open exam student) t.attempts) t caps)
  | inr c ↦ elim (Bool-cases (n == no_rows)) [ inl d ↦ rw (c, d) caps | inr d ↦ rw (c, d) caps ]
]
settle-Keeps exam student (err e) t caps = caps

insert_attempt-WithinCaps :
    (exam student at : ℕ) (t : Tables) (e : Exam)
    → row_at exam_key exam t.exams ≡ some e
    → is_draft e.status ≡ false
    → WithinCaps t
    → WithinCaps (insert_attempt exam student e.max_attempts at t).1
unfolding insert_attempt
insert_attempt-WithinCaps exam student at t e there started caps =
    elim (Bool-cases (ltb (count_where (is_submitted exam student) t.attempts) e.max_attempts)) [
      | inr full ↦ rw full caps
      | inl below ↦ elim (Bool-cases (is_set (find (is_open exam student) t.attempts))) [
        | inl has ↦ rw (below, has) caps
        | inr closed_ ↦ elim (Bool-cases (has_parents exam student t)) [
          | inl parents ↦
              rw (below, closed_, parents)
                (pushed-WithinCaps exam student at t e there started below closed_ caps)
          | inr orphan ↦ rw (below, closed_, orphan) caps
        ]
      ]
    ]

pub start_attempt-WithinCaps :
    (exam student at : ℕ) (t : Tables) (e : Exam)
    → row_at exam_key exam t.exams ≡ some e
    → is_draft e.status ≡ false
    → WithinCaps t
    → WithinCaps (start_attempt exam student e.max_attempts at t).1
unfolding Keeps start_attempt open_attempt
start_attempt-WithinCaps exam student at t e there started caps =
    go (find (is_open exam student) t.attempts)
  where
    go : (o : Option Attempt) → WithinCaps (start_unless_open exam student e.max_attempts at o t).1
    go (some a) = caps
    go none =
        settle-Keeps exam student (insert_attempt exam student e.max_attempts at t).0
          (insert_attempt exam student e.max_attempts at t).1
          (insert_attempt-WithinCaps exam student at t e there started caps)

-- Changing an attempt's row keeps the caps when it stays the student's and is not opened again.
attempt_row-WithinCaps :
    (e : Error) (id : ℕ) (p : Attempt → Bool) (f : Attempt → Attempt) (t : Tables)
    → ((a : Attempt) (x s : ℕ) → of_student x s (f a) ≡ of_student x s a)
    → ((a : Attempt) (x s : ℕ) → is_open x s (f a) ≡ true → is_open x s a ≡ true)
    → WithinCaps t
    → WithinCaps (written_or e t (affect attempt_key id p f t.attempts)).1
unfolding WithinCaps
attempt_row-WithinCaps e id p f t same shuts caps = go (affect attempt_key id p f t.attempts) refl
  where
    go :
        (o : Option (Attempt × List Attempt))
        → affect attempt_key id p f t.attempts ≡ o
        → WithinCaps (written_or e t o).1
    go none q = caps
    go (some (r', rows')) q = λ x s.
        let (r, at, pr, is_r, is_rows) =
          affect-some attempt_key id p f t.attempts {r' = r'} {rows' = rows'} q in
        let total = count_where-replace_row (of_student x s) attempt_key id f t.attempts r at in
        let opens = count_where-replace_row (is_open x s) attempt_key id f t.attempts r at in
        subst
          (λ rows. Fits (row_at exam_key x t.exams) (opens_of x s rows) (total_of_student x s rows))
          (sym is_rows)
          (Fits-fewer (row_at exam_key x t.exams) _ _ _ _ (ground (arith, opens, shuts r x s))
            (ground (arith, total, same r x s)) (caps x s))

pub save_answers-WithinCaps :
    (id : ℕ) (answers : Answers) → Keeps WithinCaps (save_answers id answers)
unfolding Keeps save_answers
save_answers-WithinCaps id answers t caps =
    attempt_row-WithinCaps _ id _ _ t (λ a x s. refl) (λ a x s h. h) caps

pub submit_attempt-WithinCaps :
    (id : ℕ) (answers : Answers) (scores : Option Scores) (total : Option ℕ) (at : ℕ)
    → Keeps WithinCaps (submit_attempt id answers scores total at)
unfolding Keeps submit_attempt
submit_attempt-WithinCaps id answers none total at t caps = go (row_at attempt_key id t.attempts)
  where
    go : (o : Option Attempt) → WithinCaps (missing_scores t o).1
    go none = caps
    go (some a) = elim (Bool-cases (unsubmitted a)) [ inl h ↦ rw h caps | inr h ↦ rw h caps ]
submit_attempt-WithinCaps id answers (some scores) total at t caps =
    attempt_row-WithinCaps _ id _ _ t (λ a x s. refl) (λ a x s h. ground (arith, h)) caps

pub grade_attempt-WithinCaps :
    (id : ℕ) (scores : Scores) (total grader : ℕ)
    → Keeps WithinCaps (grade_attempt id scores total grader)
unfolding Keeps grade_attempt
grade_attempt-WithinCaps id scores total grader t caps =
    attempt_row-WithinCaps _ id _ _ t (λ a x s. refl) (λ a x s h. h) caps

pub update_attempt_review-WithinCaps :
    (id : ℕ) (visibility : Option ResultVisibility) (visible_at : Option ℕ) (late : Option Bool)
    → Keeps WithinCaps (update_attempt_review id visibility visible_at late)
unfolding Keeps update_attempt_review
update_attempt_review-WithinCaps id visibility visible_at late t caps =
    attempt_row-WithinCaps _ id _ _ t (λ a x s. refl) (λ a x s h. h) caps
