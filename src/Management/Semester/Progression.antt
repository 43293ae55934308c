-- ===== src/Management/Semester/Progression.antt =====
-- What `EndSemester` counts.
use e_campus_server.Prelude.{
  ℕ, zero, suc, ◌+◌, ◌≡◌, refl, sym, subst, Bool, true, false, not, List, [], ◌∷◌, arith, inl, inr,
  Bool-cases, if◌then◌else◌, count_where, Result, ok, err, Method, Gives, GivesOf, bind-Gives,
  throw_if, ltb,
}
use e_campus_server.Management.Errors.{
  Error, is_conflict, semester_not_finalized, offerings_not_finalized,
}
use e_campus_server.Management.Semester.Data.{Semester, archived, finalized, eq_status}
use e_campus_server.Management.Semester.Service.{SemesterRepository, max_update_retries}
use e_campus_server.Management.Semester.End.{
  AcademicStudentInfo, Providers, EndSemesterResult, ProgressionOutcome, promoted, repeated,
  unchanged, failed, no_result, tally, process_student_semester_end, process_students, after_reread,
  after_archive, archive, warned, finish, end_semester,
}

abbrev pub Balanced : EndSemesterResult → Type 0
Balanced r = r.processed ≡ r.promoted_count + r.repeated_count + r.unchanged_count + r.errors

tally-Balanced :
    (o : ProgressionOutcome) (r : EndSemesterResult) → Balanced r → Balanced (tally o r)
unfolding tally
tally-Balanced promoted r b = omega (arith, b)
tally-Balanced repeated r b = omega (arith, b)
tally-Balanced unchanged r b = omega (arith, b)
tally-Balanced failed r b = omega (arith, b)

tally-processed :
    (o : ProgressionOutcome) (r : EndSemesterResult) → (tally o r).processed ≡ r.processed + 1
unfolding tally
tally-processed promoted r = refl
tally-processed repeated r = refl
tally-processed unchanged r = refl
tally-processed failed r = refl

-- One student more, skipped or counted.
skip_or_count :
    {S : Type 0} (active : Bool) (start rest : ℕ) (skipped counted : EndSemesterResult × S)
    → Balanced skipped.0 × (skipped.0.processed ≡ start + rest)
    → Balanced counted.0 × (counted.0.processed ≡ start + 1 + rest)
    → Balanced (if not active then skipped else counted).0
      × ((if not active then skipped else counted).0.processed
          ≡ start + ((if active then 1 else 0) + rest))
skip_or_count true start rest x y hx hy = (hy.0, omega (arith, hy.1))
skip_or_count false start rest x y hx hy = (hx.0, omega (arith, hx.1))

module _ {S : Type 0} (repo : SemesterRepository S) (providers : Providers S) where
  -- The loop counts each active student once, under one outcome.
  pub process_students-Balanced :
      (sem : Semester) (full : Bool) (sts : List AcademicStudentInfo) (r : EndSemesterResult)
      (s : S)
      → Balanced r
      → Balanced (process_students repo providers sem full sts r s).0
        × ((process_students repo providers sem full sts r s).0.processed
            ≡ r.processed + count_where (λ st. st.active) sts)
  unfolding process_students
  process_students-Balanced sem full [] r s b = (b, omega arith)
  process_students-Balanced sem full (st ∷ sts) r s b =
      let (o, s') = process_student_semester_end repo providers st sem full s in
      let (balanced, number) =
        process_students-Balanced sem full sts (tally o r) s' (tally-Balanced o r b) in
      skip_or_count st.active r.processed (count_where (λ st. st.active) sts) _ _
        (process_students-Balanced sem full sts r s b)
        (balanced, omega (arith, number, tally-processed o r))

  reread-Gives :
      (again : Semester → Method S Error EndSemesterResult) (r : EndSemesterResult) (sem : Semester)
      → ((x : Semester) → Gives (λ y. y ≡ r) (again x))
      → (read : Result Error Semester × S)
      → GivesOf (λ y. y ≡ r) (after_reread repo providers again sem read).0
  unfolding Gives
  reread-Gives again r sem h (ok fresh, s) = h _ s
  reread-Gives again r sem h (err e, s) = tt

  archived-Gives :
      (again : Semester → Method S Error EndSemesterResult) (id : ℕ) (r : EndSemesterResult)
      (sem : Semester)
      → ((x : Semester) → Gives (λ y. y ≡ r) (again x))
      → (written : Result Error ℕ × S)
      → GivesOf (λ y. y ≡ r) (after_archive repo providers again id r sem written).0
  archived-Gives again id r sem h (ok v, s) = refl
  archived-Gives again id r sem h (err e, s) = elim (Bool-cases (is_conflict e)) [
    | inl c ↦ rw c (reread-Gives again r sem h (repo.get_semester id s))
    | inr c ↦ rw c tt
  ]

  archive-Gives :
      (n id : ℕ) (r : EndSemesterResult) (sem : Semester)
      → Gives (λ y. y ≡ r) (archive repo providers n id r sem)
  unfolding archive Gives
  archive-Gives zero id r sem s = tt
  archive-Gives (suc n) id r sem s =
      archived-Gives (archive repo providers n id r) id r sem (archive-Gives n id r)
        (repo.update_semester sem sem.version s)

  same_result :
      (Q : EndSemesterResult → Type 0) (r : EndSemesterResult)
      → Q r
      → (x : Result Error EndSemesterResult) → GivesOf (λ y. y ≡ r) x
      → GivesOf Q x
  same_result Q r q (ok y) e = subst Q (sym e) q
  same_result Q r q (err e') e = tt

  finish-Gives :
      (id : ℕ) (sem : Semester) (full : Bool) (sts : List AcademicStudentInfo)
      → Gives Balanced (finish repo providers id sem full sts)
  unfolding finish Gives
  finish-Gives id sem full sts s =
      let p = process_students repo providers sem full sts no_result s in
      same_result Balanced (warned repo providers sem p.0)
        (process_students-Balanced sem full sts no_result s refl).0 _
        (archive-Gives max_update_retries id (warned repo providers sem p.0)
          (record sem { status = archived }) p.1)

  ends : (id : ℕ) → Gives Balanced (end_semester repo providers id)
  unfolding end_semester
  ends id = bind-Gives Balanced (repo.get_semester id) _ (λ sem.
      bind-Gives Balanced (throw_if (not (eq_status sem.status finalized)) semester_not_finalized) _
        (λ _. bind-Gives Balanced (providers.count_unfinalized_offerings id) _ (λ waiting.
          bind-Gives Balanced (throw_if (ltb 0 waiting) offerings_not_finalized) _ (λ _.
            bind-Gives Balanced providers.get_full_year_repeat _ (λ full.
              bind-Gives Balanced (providers.get_students_in_semester id) _
                (λ sts. finish-Gives id sem full sts))))))

  -- When `EndSemester` succeeds, each student it processed was promoted, repeated, unchanged or an error.
  pub end_semester-Balanced :
      (id : ℕ) (s s' : S) (r : EndSemesterResult)
      → end_semester repo providers id s ≡ (ok r, s')
      → r.processed ≡ r.promoted_count + r.repeated_count + r.unchanged_count + r.errors
  unfolding Gives
  end_semester-Balanced id s s' r q = subst (λ x. GivesOf Balanced x.0) q (ends id s)
