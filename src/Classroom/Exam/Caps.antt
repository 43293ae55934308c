-- ===== src/Classroom/Exam/Caps.antt =====
-- How many attempts a student may have, and the statements that keep to it.
use e_campus_server.Prelude.{
  ℕ, ◌≤◌, ◌≡◌, refl, sym, ◌∙◌, subst, Bool, true, ◌&&◌, Option, none, some, List, ◌==◌, ==_iff,
  arith, inl, inr, Bool-cases, count_where, affect, row_at, replace_row, affect-some, row_at-key,
  row_at-replace_row_self, row_at-replace_row_ne, Keeps,
}
use e_campus_server.Classroom.Errors.{Error}
use e_campus_server.Classroom.Exam.Data.{Exam, Attempt, is_online, is_draft}
use e_campus_server.Classroom.Exam.Postgres.{
  Tables, exam_key, of_student, is_open, update_exam, set_exam, publish_exam, close_exam,
  affected_or, version_or_conflict, store_exams,
}

-- What an exam allows of one student's attempts, by their number and the number of open ones. An
-- exam that is not there has none; an online exam has at most one open, in all at most its cap, and
-- none while it is a draft. Manual exams, whose results are recorded by hand, have no cap.
abbrev pub Fits : Option Exam → ℕ → ℕ → Type 0
Fits none opens total = total ≡ 0
Fits (some e) opens total =
    is_online e.mode ≡ true
    → (opens ≤ 1) × (total ≤ e.max_attempts) × (is_draft e.status ≡ true → total ≡ 0)

abbrev pub opens_of : ℕ → ℕ → List Attempt → ℕ
opens_of exam student rows = count_where (is_open exam student) rows

abbrev pub total_of_student : ℕ → ℕ → List Attempt → ℕ
total_of_student exam student rows = count_where (of_student exam student) rows

unfoldable pub WithinCaps : Tables → Type 0
WithinCaps t =
    (exam student : ℕ)
    → Fits (row_at exam_key exam t.exams) (opens_of exam student t.attempts)
        (total_of_student exam student t.attempts)

pub Fits-fewer :
    (e : Option Exam) (opens opens' total total' : ℕ)
    → opens' ≤ opens
    → total' ≡ total
    → Fits e opens total
    → Fits e opens' total'
Fits-fewer none opens opens' total total' le same fits = same ∙ fits
Fits-fewer (some e) opens opens' total total' le same fits = λ online.
    let (one, cap, empty) = fits online in
    (omega (arith, le, one), omega (arith, same, cap), λ d. same ∙ empty d)

-- Changing an exam's row keeps the caps when what the row allows stays allowed.
pub exam_row-WithinCaps :
    (id : ℕ) (p : Exam → Bool) (f : Exam → Exam) (t : Tables) (r' : Exam) (rows' : List Exam)
    → ((r : Exam) → (f r).id ≡ r.id)
    → ((r : Exam) (opens total : ℕ)
        → p r ≡ true
        → Fits (some r) opens total
        → Fits (some (f r)) opens total)
    → affect exam_key id p f t.exams ≡ some (r', rows')
    → WithinCaps t
    → WithinCaps (store_exams t rows')
unfolding WithinCaps
exam_row-WithinCaps id p f t r' rows' key allows q caps x s =
    let (r, at, pr, is_r, is_rows) =
      affect-some exam_key id p f t.exams {r' = r'} {rows' = rows'} q in
    let opens = opens_of x s t.attempts in
    let total = total_of_student x s t.attempts in
    subst (λ rows. Fits (row_at exam_key x rows) opens total) (sym is_rows)
      (elim (Bool-cases (id == x)) [
        | inl hit ↦
            let is_x : id ≡ x = (==_iff id x).0 hit in
            let before : row_at exam_key x t.exams ≡ some r =
              subst (λ i. row_at exam_key i t.exams ≡ some r) is_x at in
            let after : row_at exam_key x (replace_row exam_key id f t.exams) ≡ some (f r) =
              subst (λ i. row_at exam_key i (replace_row exam_key id f t.exams) ≡ some (f r)) is_x
                (row_at-replace_row_self exam_key id f t.exams {r = r} at
                  (key r ∙ row_at-key exam_key id t.exams {r = r} at)) in
            subst (λ e. Fits e opens total) (sym after)
              (allows r opens total pr (subst (λ e. Fits e opens total) before (caps x s)))
        | inr miss ↦
            let same : row_at exam_key x (replace_row exam_key id f t.exams)
                ≡ row_at exam_key x t.exams =
              row_at-replace_row_ne exam_key id x f t.exams key (ground (arith, (==_iff id x).1)) in
            subst (λ e. Fits e opens total) (sym same) (caps x s)
      ])

affected_or-WithinCaps :
    (e : Error) (offering id : ℕ) (p : Exam → Bool) (f : Exam → Exam) (t : Tables)
    → ((r : Exam) → (f r).id ≡ r.id)
    → ((r : Exam) (opens total : ℕ)
        → p r ≡ true
        → Fits (some r) opens total
        → Fits (some (f r)) opens total)
    → WithinCaps t
    → WithinCaps (affected_or e offering id t (affect exam_key id p f t.exams)).1
affected_or-WithinCaps e offering id p f t key allows caps =
    go (affect exam_key id p f t.exams) refl
  where
    go :
        (o : Option (Exam × List Exam))
        → affect exam_key id p f t.exams ≡ o
        → WithinCaps (affected_or e offering id t o).1
    go none q = caps
    go (some (r', rows')) q = exam_row-WithinCaps id p f t r' rows' key allows q caps

abbrev editable : ℕ → Exam → Bool
editable expected r = r.version == expected && is_draft r.status

-- A draft has no attempts, so any cap will do.
set_exam-Fits :
    (e : Exam) (expected : ℕ) (r : Exam) (opens total : ℕ)
    → editable expected r ≡ true
    → Fits (some r) opens total
    → Fits (some (set_exam e r)) opens total
unfolding set_exam
set_exam-Fits e expected r opens total h fits online =
    let (one, cap, empty) = fits online in
    let none_yet : total ≡ 0 = empty (ground arith) in (one, omega (arith, none_yet), empty)

pub update_exam-WithinCaps : (e : Exam) (expected : ℕ) → Keeps WithinCaps (update_exam e expected)
unfolding Keeps update_exam set_exam
update_exam-WithinCaps e expected t caps =
    go (affect exam_key e.id (editable expected) (set_exam e) t.exams) refl
  where
    go :
        (o : Option (Exam × List Exam))
        → affect exam_key e.id (editable expected) (set_exam e) t.exams ≡ o
        → WithinCaps (version_or_conflict t o).1
    go none q = caps
    go (some (r', rows')) q =
        exam_row-WithinCaps e.id (editable expected) (set_exam e) t r' rows' (λ r. refl)
          (set_exam-Fits e expected) q caps

pub publish_exam-WithinCaps : (offering id at : ℕ) → Keeps WithinCaps (publish_exam offering id at)
unfolding Keeps publish_exam
publish_exam-WithinCaps offering id at t caps =
    affected_or-WithinCaps _ offering id _ _ t (λ r. refl)
      (λ r opens total h fits online.
        let (one, cap, empty) = fits online in (one, cap, λ d. ground (arith, d)))
      caps

pub close_exam-WithinCaps : (offering id : ℕ) → Keeps WithinCaps (close_exam offering id)
unfolding Keeps close_exam
close_exam-WithinCaps offering id t caps =
    affected_or-WithinCaps _ offering id _ _ t (λ r. refl)
      (λ r opens total h fits online.
        let (one, cap, empty) = fits online in (one, cap, λ d. ground (arith, d)))
      caps
