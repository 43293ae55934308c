-- ===== src/Classroom/Exam/Visibility.antt =====
-- When a student sees the result of an attempt.
use e_campus_server.Prelude.{ℕ, ◌≡◌, refl, true, false, arith, inl, inr, Bool-cases, is_set}
use e_campus_server.Classroom.Exam.Data.{
  Exam, Attempt, after_close, is_private, exam_available, result_visible, default_policy,
  ExamStatus, draft, published, closed, is_closed, is_published,
}

closed_unpublished : (s : ExamStatus) → is_closed s ≡ true → is_published s ≡ false
closed_unpublished closed h = refl
closed_unpublished draft h = cc
closed_unpublished published h = cc
closed_unpublished (ExamStatus.other _) h = cc

default_policy-exam_available :
    (e : Exam) (now : ℕ) → default_policy e now after_close ≡ true → exam_available e now ≡ false
unfolding exam_available
default_policy-exam_available e now h = ground (arith, closed_unpublished e.status)

-- A result under the policy `after_close` that the teacher has not decided on is not visible while the
-- exam can still be started.
pub result_visible-exam_available :
    (e : Exam) (a : Attempt) (now : ℕ)
    → e.show_results ≡ after_close
    → is_private a.visibility ≡ true
    → result_visible e a now ≡ true
    → exam_available e now ≡ false
unfolding result_visible exam_available
result_visible-exam_available e a now policy undecided h =
    elim (Bool-cases (is_set a.submitted_at)) [
      | inl c ↦
          let k : default_policy e now e.show_results ≡ true = rw (c, undecided) at h in
          default_policy-exam_available e now (rw policy at k)
      | inr c ↦ let k = rw c at h in cc
    ]
