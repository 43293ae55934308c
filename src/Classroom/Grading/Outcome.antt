-- ===== src/Classroom/Grading/Outcome.antt =====
-- What Finalize of internal/classroom/grading.go leaves behind.
use e_campus_server.Prelude.{
  ℕ, ◌+◌, ◌≡◌, refl, sym, ap, ◌∙◌, inl, inr, Bool-cases, Bool, true, false, not, ◌&&◌, List, [],
  ◌∷◌, ◌==◌, ==_iff, arith, any, map, keep, update_where, contains, length, if◌then◌else◌, Result,
  ok, err, Method, Done, pure, lift, ◌>>=◌, ◌>>◌, Keeps, bind-Keeps, pure-Keeps, lift-Keeps, Leads,
  bind-Leads, Right,
}
use e_campus_server.Classroom.Errors.{Error}
use e_campus_server.Management.Leave.Data.{EnrollmentStatus, is_enrolled}
use e_campus_server.Classroom.Grading.Data.{
  Arithmetic, Rule, rule_exam_ids, final_grade, pass_status,
}
use e_campus_server.Classroom.Grading.Service.{
  Enrollment, Tables, Readers, active_in, enrolled_of, gradable, graded, set_enrollment_grade,
  inputs_for, grade_all, scores_for,
}

keep_twice :
    (s : ℕ) (ids xs : List ℕ)
    → keep (λ x. not (contains x ids)) (keep (λ x. not (s == x)) xs)
      ≡ keep (λ x. not (contains x (s ∷ ids))) xs
keep_twice s ids [] = refl
keep_twice s ids (x ∷ xs) = elim (Bool-cases (s == x)) [
  | inl hit ↦ ground (arith, hit, keep_twice s ids xs)
  | inr miss ↦ elim (Bool-cases (contains x ids)) [
    | inl among ↦ ground (arith, miss, among, keep_twice s ids xs)
    | inr free ↦ ground (arith, miss, free, keep_twice s ids xs)
  ]
]

keep_all : (xs : List ℕ) → keep (λ x. not (contains x [])) xs ≡ xs
keep_all [] = refl
keep_all (x ∷ xs) = ap (λ ys. x ∷ ys) (keep_all xs)

keep_fewer :
    (p q : ℕ → Bool) (xs : List ℕ)
    → ((x : ℕ) → p x ≡ true → q x ≡ true)
    → keep q xs ≡ []
    → keep p xs ≡ []
keep_fewer p q [] imp h = refl
keep_fewer p q (x ∷ xs) imp h = elim (Bool-cases (q x)) [
  | inl inside ↦ let e = rw inside at h in cc
  | inr outside ↦ elim (Bool-cases (p x)) [
    | inl odd ↦ ground (arith, imp x odd, outside)
    | inr gone ↦ rw gone (keep_fewer p q xs imp (rw outside at h))
  ]
]

-- Nothing of a list is outside of it.
pub keep_gone : (xs : List ℕ) → keep (λ x. not (contains x xs)) xs ≡ []
keep_gone [] = refl
keep_gone (x ∷ xs) = rw ((==_iff x x).1 refl) (
    keep_fewer (λ y. not (contains y (x ∷ xs))) (λ y. not (contains y xs)) xs
      (λ y h. ground (arith, h)) (keep_gone xs))

module _ {R : Type 0} (k : R → ℕ) (p g : R → Bool) (u : R → R) (q : ℕ → Bool) where
  -- An update that takes the rows whose key fails `q` out of those that pass `p`.
  keep-update_where :
      ((r : R) → k (if g r then u r else r) ≡ k r)
      → ((r : R) → p (if g r then u r else r) ≡ (p r && q (k r)))
      → (rows : List R) → map k (keep p (update_where g u rows)) ≡ keep q (map k (keep p rows))
  keep-update_where same out [] = refl
  keep-update_where same out (r ∷ rows) = elim (Bool-cases (p r)) [
    | inr outside ↦ rw (out r, outside) (keep-update_where same out rows)
    | inl inside ↦ elim (Bool-cases (q (k r))) [
      | inl stays ↦
          rw (out r, inside, stays, same r) (ap (λ xs. k r ∷ xs) (keep-update_where same out rows))
      | inr goes ↦ rw (out r, inside, goes) (keep-update_where same out rows)
    ]
  ]

module _ {F : Type 0} (offering : ℕ) where
  graded_key :
      (student : ℕ) (grade : F) (status : EnrollmentStatus) (now : ℕ) (e : Enrollment F)
      → (if gradable offering student e then graded grade status now e else e).student_id
        ≡ e.student_id
  graded_key student grade status now e = elim (Bool-cases (gradable offering student e)) [
    | inl h ↦ rw h refl
    | inr h ↦ rw h refl
  ]

  graded_active :
      (student : ℕ) (grade : F) (status : EnrollmentStatus) (now : ℕ)
      → is_enrolled status ≡ false
      → (e : Enrollment F)
      → active_in offering (if gradable offering student e then graded grade status now e else e)
        ≡ (active_in offering e && not (student == e.student_id))
  graded_active student grade status now out e = elim (Bool-cases (gradable offering student e)) [
    | inl h ↦
        rw h
          (ground (arith, h, out, (==_iff student e.student_id).1, (==_iff e.student_id student).0))
    | inr h ↦
        rw h (ground (arith, h, (==_iff student e.student_id).0, (==_iff e.student_id student).1))
  ]

  -- A student with an outcome is no longer among the enrolled.
  enrolled_of-graded :
      (student : ℕ) (grade : F) (status : EnrollmentStatus) (now : ℕ) (rows : List (Enrollment F))
      → is_enrolled status ≡ false
      → enrolled_of offering
          (update_where (gradable offering student) (graded grade status now) rows)
        ≡ keep (λ x. not (student == x)) (enrolled_of offering rows)
  enrolled_of-graded student grade status now rows out =
      keep-update_where (λ e. e.student_id) (active_in offering) (gradable offering student)
        (graded grade status now) (λ x. not (student == x)) (graded_key student grade status now)
        (graded_active student grade status now out) rows

module _ {F : Type 0} (f : Arithmetic F) (readers : Readers F) (offering : ℕ) where
  inputs_for-Keeps :
      (P : Tables F → Type 0) (student : ℕ) (exam_ids : List ℕ)
      → Keeps P (inputs_for f readers offering student exam_ids)
  unfolding inputs_for
  inputs_for-Keeps P student exam_ids =
      let scores = scores_for f readers student exam_ids in
      let average = readers.student_assignment_average offering student in
      let rate = readers.student_attendance_rate offering student in
      bind-Keeps P (lift scores) _ (lift-Keeps P scores) (λ _.
        bind-Keeps P (lift average) _ (lift-Keeps P average)
          (λ _. bind-Keeps P (lift rate) _ (lift-Keeps P rate) (λ _. pure-Keeps Error P _)))

  -- The enrolled are `xs`, and so many have been notified.
  abbrev pub Standing : List ℕ → List ℕ → Tables F → Type 0
  Standing xs notified t = (enrolled_of offering t.enrollments ≡ xs) × (t.notified ≡ notified)

  pass_status-outcome :
      (grade : F) (threshold : ℕ) → is_enrolled (pass_status f grade threshold) ≡ false
  unfolding pass_status
  pass_status-outcome grade threshold = elim (Bool-cases (f.at_least grade (f.of_int threshold))) [
    | inl h ↦ rw h refl
    | inr h ↦ rw h refl
  ]

  -- After the loop over some students, all of whom got their grade.
  abbrev pub Graded : List ℕ → List ℕ → List ℕ → ℕ → Tables F → Type 0
  Graded ids xs notified n t =
      Standing (keep (λ x. not (contains x ids)) xs) notified t × (n ≡ length ids)

  set_grade-Standing :
      (student : ℕ) (grade : F) (status : EnrollmentStatus) (xs notified : List ℕ) (t : Tables F)
      → is_enrolled status ≡ false
      → Standing xs notified t
      → Right
          (λ _ s. Standing (keep (λ x. not (student == x)) xs) notified s)
          (set_enrollment_grade offering student grade status t)
  unfolding set_enrollment_grade
  set_grade-Standing student grade status xs notified t out (roster, told) =
      elim (Bool-cases (any (gradable offering student) t.enrollments)) [
        | inr missing ↦ rw missing tt
        | inl there ↦ rw there (
          enrolled_of-graded offering student grade status t.now t.enrollments out
              ∙ ap (keep (λ x. not (student == x))) roster,
          told,
        )
      ]

  module _ (threshold : ℕ) (rules : List (Rule F)) where
    pub grade_all-Graded :
        (ids xs notified : List ℕ)
        → Leads
            (Standing xs notified)
            (Graded ids xs notified)
            (grade_all f readers offering threshold rules ids)
    unfolding Leads grade_all Keeps
    grade_all-Graded [] xs notified t (roster, told) = ((roster ∙ sym (keep_all xs), told), refl)
    grade_all-Graded (student ∷ ids) xs notified t0 standing0 =
        bind-Leads (Standing xs notified) (Graded (student ∷ ids) xs notified)
          (inputs_for f readers offering student (rule_exam_ids rules)) _
          (inputs_for-Keeps (Standing xs notified) student (rule_exam_ids rules))
          (λ inputs t standing.
            written (grade_all-Graded ids (keep (λ x. not (student == x)) xs) notified)
              (set_enrollment_grade offering student (final_grade f inputs rules)
                (pass_status f (final_grade f inputs rules) threshold) t)
              t
              (set_grade-Standing student (final_grade f inputs rules)
                (pass_status f (final_grade f inputs rules) threshold) xs notified t
                (pass_status-outcome (final_grade f inputs rules) threshold) standing))
          t0 standing0
      where
        count : ℕ → Method (Tables F) Error ℕ
        count n = pure (n + 1)

        counted :
            (p : Result Error ℕ × Tables F) (t : Tables F)
            → Right (Graded ids (keep (λ x. not (student == x)) xs) notified) p
            → Right (Graded (student ∷ ids) xs notified) (((λ _. p) >>= count) t)
        counted (err e, s) t h = tt
        counted (ok n, s) t ((roster, told), same) =
            ((roster ∙ keep_twice student ids xs, told), omega (arith, same))

        written :
            Leads
              (Standing (keep (λ x. not (student == x)) xs) notified)
              (Graded ids (keep (λ x. not (student == x)) xs) notified)
              (grade_all f readers offering threshold rules ids)
            → (p : Result Error Done × Tables F) (t : Tables F)
            → Right (λ _ s. Standing (keep (λ x. not (student == x)) xs) notified s) p
            → Right
                (Graded (student ∷ ids) xs notified)
                (((λ _. p) >> (grade_all f readers offering threshold rules ids >>= count)) t)
        written rest (err e, s) t h = tt
        written rest (ok _, s) t h =
            counted (grade_all f readers offering threshold rules ids s) s (rest s h)
