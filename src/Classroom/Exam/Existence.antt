-- ===== src/Classroom/Exam/Existence.antt =====
-- Creating and deleting exams keeps the caps.
use e_campus_server.Prelude.{
  ℕ, ◌≡◌, refl, sym, subst, Bool, true, false, not, none, some, List, [], ◌∷◌, ◌==◌, ==_iff, arith,
  inl, inr, Bool-cases, Option-cases, count_where, keep, row_at, Keeps,
}
use e_campus_server.Classroom.Exam.Data.{Exam, Attempt}
use e_campus_server.Classroom.Exam.Postgres.{
  Tables, exam_key, of_student, is_open, create_exam, delete_exam, drop_exam, deletable,
}
use e_campus_server.Classroom.Exam.Counting.{count_split}
use e_campus_server.Classroom.Exam.Caps.{Fits, Fits-fewer, WithinCaps, opens_of, total_of_student}

-- An exam with a new id has no attempts yet.
no_attempts-Fits :
    (e : Exam) (exam student : ℕ) (rows : List Attempt)
    → total_of_student exam student rows ≡ 0
    → Fits (some e) (opens_of exam student rows) (total_of_student exam student rows)
no_attempts-Fits e exam student rows h online =
    (omega (arith, h, count_split exam student rows), omega (arith, h), λ d. h)

added-WithinCaps :
    (e : Exam) (t : Tables)
    → row_at exam_key e.id t.exams ≡ none
    → WithinCaps t
    → WithinCaps (record t { exams = e ∷ t.exams })
unfolding WithinCaps row_at
added-WithinCaps e t absent caps x s = elim (Bool-cases (e.id == x)) [
  | inl hit ↦
      let missing : row_at exam_key x t.exams ≡ none =
        subst (λ i. row_at exam_key i t.exams ≡ none) ((==_iff e.id x).0 hit) absent in
      rw hit (
        no_attempts-Fits e x s t.attempts (
          subst (λ o. Fits o (opens_of x s t.attempts) (total_of_student x s t.attempts)) missing
            (caps x s)))
  | inr miss ↦ rw miss (caps x s)
]

pub create_exam-WithinCaps : (e : Exam) → Keeps WithinCaps (create_exam e)
unfolding Keeps create_exam
create_exam-WithinCaps e t caps = elim (Option-cases (row_at exam_key e.id t.exams)) [
  | inr (r, q) ↦ rw q caps
  | inl q ↦
      rw q
        (added-WithinCaps (record e { version = 1; used_at = none; published_at = none }) t q caps)
]

delete_empties :
    (id student : ℕ) (rows : List Attempt)
    → total_of_student id student (keep (λ a. not (a.exam_id == id)) rows) ≡ 0
delete_empties id student [] = refl
delete_empties id student (x ∷ rows) = elim (Bool-cases (x.exam_id == id)) [
  | inl hit ↦ ground (arith, hit, delete_empties id student rows)
  | inr miss ↦ ground (arith, miss, delete_empties id student rows)
]

delete_others :
    (id : ℕ) (p : Attempt → Bool) (rows : List Attempt)
    → ((a : Attempt) → (a.exam_id == id) ≡ true → p a ≡ false)
    → count_where p (keep (λ a. not (a.exam_id == id)) rows) ≡ count_where p rows
delete_others id p [] h = refl
delete_others id p (x ∷ rows) h = elim (Bool-cases (x.exam_id == id)) [
  | inl hit ↦ ground (arith, hit, h x, delete_others id p rows h)
  | inr miss ↦ ground (arith, miss, delete_others id p rows h)
]

row_at-delete_self :
    (id : ℕ) (rows : List Exam) → row_at exam_key id (keep (λ e. not (e.id == id)) rows) ≡ none
unfolding row_at
row_at-delete_self id [] = refl
row_at-delete_self id (x ∷ rows) = elim (Bool-cases (x.id == id)) [
  | inl hit ↦ rw hit (row_at-delete_self id rows)
  | inr miss ↦ rw (miss, miss) (row_at-delete_self id rows)
]

row_at-delete_ne :
    (id other : ℕ) (rows : List Exam)
    → (id == other) ≡ false
    → row_at exam_key other (keep (λ e. not (e.id == id)) rows) ≡ row_at exam_key other rows
unfolding row_at
row_at-delete_ne id other [] ne = refl
row_at-delete_ne id other (x ∷ rows) ne = elim (Bool-cases (x.id == id)) [
  | inl hit ↦ ground (arith, hit, ne, row_at-delete_ne id other rows ne)
  | inr miss ↦ ground (arith, miss, row_at-delete_ne id other rows ne)
]

drop_exam-WithinCaps : (id : ℕ) (t : Tables) → WithinCaps t → WithinCaps (drop_exam id t)
unfolding WithinCaps
drop_exam-WithinCaps id t caps x s =
    let rows = keep (λ (a : Attempt). not (a.exam_id == id)) t.attempts in
    let exams = keep (λ (e : Exam). not (e.id == id)) t.exams in
    elim (Bool-cases (id == x)) [
      | inl hit ↦
          subst
            (λ i. Fits (row_at exam_key i exams) (opens_of i s rows) (total_of_student i s rows))
            ((==_iff id x).0 hit)
            (subst (λ o. Fits o (opens_of id s rows) (total_of_student id s rows))
              (sym (row_at-delete_self id t.exams)) (delete_empties id s t.attempts))
      | inr miss ↦
          let opens : opens_of x s rows ≡ opens_of x s t.attempts =
            delete_others id (is_open x s) t.attempts (λ a h. ground (arith, h, miss)) in
          let total : total_of_student x s rows ≡ total_of_student x s t.attempts =
            delete_others id (of_student x s) t.attempts (λ a h. ground (arith, h, miss)) in
          subst (λ o. Fits o (opens_of x s rows) (total_of_student x s rows))
            (sym (row_at-delete_ne id x t.exams miss))
            (Fits-fewer (row_at exam_key x t.exams) _ _ _ _ (omega (arith, opens)) total (caps x s))
    ]

pub delete_exam-WithinCaps : (offering id : ℕ) → Keeps WithinCaps (delete_exam offering id)
unfolding Keeps delete_exam
delete_exam-WithinCaps offering id t caps =
    elim (Bool-cases (deletable offering (row_at exam_key id t.exams))) [
      | inl hit ↦ rw hit (drop_exam-WithinCaps id t caps)
      | inr miss ↦ rw miss caps
    ]
