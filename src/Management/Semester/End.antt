-- ===== src/Management/Semester/End.antt =====
-- internal/management/semester.go: `EndSemester` and the progression of students. The providers of
-- students, offerings, enrollments, cohort groups and settings are a record of calls.
use e_campus_server.Prelude.{
  ℕ, zero, suc, ◌+◌, Bool, true, false, not, Option, some, List, [], ◌∷◌, ltb, leb, if◌then◌else◌,
  Result, ok, err, Method, Done, pure, throw_if, attempt, ◌>>=◌, ◌>>◌,
}
use e_campus_server.Management.Errors.{
  Error, conflict, semester_not_finalized, offerings_not_finalized, is_conflict,
}
use e_campus_server.Management.Semester.Data.{
  Semester, SemesterType, finalized, archived, eq_status, semester_runs_year_end,
}
use e_campus_server.Management.Semester.Service.{SemesterRepository, max_update_retries}

-- `active` says whether the student's status is `StudentActive`.
pub record AcademicStudentInfo : Type 0 where
  pub user_id : ℕ
  pub program_id : ℕ
  pub current_year : ℕ
  pub current_cohort_year : ℕ
  pub active : Bool

-- What `EndSemester` asks of its providers. A requirement is its minimum of credits.
pub record Providers (S : Type 0) : Type 0 where
  pub count_unfinalized_offerings : ℕ → Method S Error ℕ
  pub get_full_year_repeat : Method S Error Bool
  pub get_students_in_semester : ℕ → Method S Error (List AcademicStudentInfo)
  pub sum_completed_credits : ℕ → ℕ → Method S Error ℕ
  pub get_requirement : ℕ → ℕ → ℕ → SemesterType → Method S Error (Option ℕ)
  pub update_student_progression : ℕ → ℕ → ℕ → Method S Error Done
  pub record_cohort_change : ℕ → ℕ → ℕ → ℕ → ℕ → Method S Error Done
  pub reassign_cohort_groups : ℕ → ℕ → ℕ → ℕ → Method S Error Done

pub data ProgressionOutcome : Type 0 where
  unchanged promoted repeated failed : ProgressionOutcome

pub record EndSemesterResult : Type 0 where
  pub processed : ℕ
  pub promoted_count : ℕ
  pub repeated_count : ℕ
  pub unchanged_count : ℕ
  pub errors : ℕ
  pub warning : Bool

abbrev pub no_result : EndSemesterResult
no_result = record {
  processed = 0;
  promoted_count = 0;
  repeated_count = 0;
  unchanged_count = 0;
  errors = 0;
  warning = false;
}

-- The counters after one outcome.
unfoldable pub tally : ProgressionOutcome → EndSemesterResult → EndSemesterResult
tally promoted r = record r { processed = r.processed + 1; promoted_count = r.promoted_count + 1 }
tally repeated r = record r { processed = r.processed + 1; repeated_count = r.repeated_count + 1 }
tally unchanged r = record r {
  processed = r.processed + 1;
  unchanged_count = r.unchanged_count + 1;
}
tally failed r = record r { processed = r.processed + 1; errors = r.errors + 1 }

-- A missing requirement, or an error of its lookup, means no minimum.
abbrev min_credits : Result Error (Option ℕ) → ℕ
min_credits (ok (some n)) = n
min_credits _ = 0

-- Every error on the way is `outcomeError`.
abbrev outcome_of : {S : Type 0} → Result Error ProgressionOutcome × S → ProgressionOutcome × S
outcome_of (ok o, s) = (o, s)
outcome_of (err e, s) = (failed, s)

module _ {S : Type 0} (repo : SemesterRepository S) (providers : Providers S) where
  -- `processYearEnd`
  unfoldable pub process_year_end :
      AcademicStudentInfo → Bool → Bool → Method S Error ProgressionOutcome
  process_year_end st true full_repeat = do
    providers.update_student_progression st.user_id (st.current_year + 1) st.current_cohort_year
    pure promoted
  process_year_end st false true = do
    providers.update_student_progression st.user_id st.current_year (st.current_cohort_year + 1)
    providers.record_cohort_change st.user_id st.current_cohort_year (st.current_cohort_year + 1)
        st.current_year st.current_year
    providers.reassign_cohort_groups st.user_id st.program_id (st.current_cohort_year + 1)
        st.current_year
    pure repeated
  process_year_end st false false = do
    providers.record_cohort_change st.user_id st.current_cohort_year st.current_cohort_year
        st.current_year st.current_year
    pure unchanged

  abbrev pub year_end_or_unchanged :
      Bool → AcademicStudentInfo → Bool → Bool → Method S Error ProgressionOutcome
  year_end_or_unchanged true st passed full_repeat = process_year_end st passed full_repeat
  year_end_or_unchanged false st passed full_repeat = pure unchanged

  progress : AcademicStudentInfo → Semester → Bool → Method S Error ProgressionOutcome
  unfolding semester_runs_year_end
  progress st sem full_repeat = do
    earned ← providers.sum_completed_credits st.user_id sem.id
    requirement ← attempt (
        providers.get_requirement st.program_id st.current_cohort_year st.current_year sem.semester)
    year_end_or_unchanged (semester_runs_year_end sem.semester) st
        (leb (min_credits requirement) earned) full_repeat

  -- `processStudentSemesterEnd`
  unfoldable pub process_student_semester_end :
      AcademicStudentInfo → Semester → Bool → S → ProgressionOutcome × S
  unfolding progress
  process_student_semester_end st sem full_repeat s = outcome_of (progress st sem full_repeat s)

  -- The loop over the students.
  unfoldable pub process_students :
      Semester → Bool → List AcademicStudentInfo → EndSemesterResult → S → EndSemesterResult × S
  unfolding process_student_semester_end tally
  process_students sem full_repeat [] r s = (r, s)
  process_students sem full_repeat (st ∷ sts) r s =
      let skipped = process_students sem full_repeat sts r s in
      let (o, s') = process_student_semester_end st sem full_repeat s in
      let counted = process_students sem full_repeat sts (tally o r) s' in
      if not st.active then skipped else counted

  abbrev pub after_reread :
      (Semester → Method S Error EndSemesterResult)
      → Semester
      → Result Error Semester × S
      → Result Error EndSemesterResult × S
  after_reread again sem (err e, s) = (err e, s)
  after_reread again sem (ok fresh, s) = again (record sem { version = fresh.version }) s

  abbrev pub after_archive :
      (Semester → Method S Error EndSemesterResult)
      → ℕ
      → EndSemesterResult
      → Semester
      → Result Error ℕ × S
      → Result Error EndSemesterResult × S
  after_archive again id r sem (ok v, s) = (ok r, s)
  after_archive again id r sem (err e, s) =
      let retry = after_reread again sem (repo.get_semester id s) in
      if is_conflict e then retry else (err e, s)

  -- The final loop: on a conflict only the version is read again.
  unfoldable pub archive : ℕ → ℕ → EndSemesterResult → Semester → Method S Error EndSemesterResult
  archive zero id r sem s = (err conflict, s)
  archive (suc n) id r sem s =
      after_archive (archive n id r) id r sem (repo.update_semester sem sem.version s)

  abbrev pub warned : Semester → EndSemesterResult → EndSemesterResult
  warned sem r = record r { warning = not (semester_runs_year_end sem.semester) }

  -- From the students on.
  unfoldable pub finish :
      ℕ → Semester → Bool → List AcademicStudentInfo → Method S Error EndSemesterResult
  unfolding process_students archive
  finish id sem full_repeat students s =
      let (r, s') = process_students sem full_repeat students no_result s in
      archive max_update_retries id (warned sem r) (record sem { status = archived }) s'

  -- `EndSemester`
  unfoldable pub end_semester : ℕ → Method S Error EndSemesterResult
  unfolding finish
  end_semester id = do
    sem ← repo.get_semester id
    throw_if (not (eq_status sem.status finalized)) semester_not_finalized
    open_offerings ← providers.count_unfinalized_offerings id
    throw_if (ltb 0 open_offerings) offerings_not_finalized
    full_repeat ← providers.get_full_year_repeat
    students ← providers.get_students_in_semester id
    finish id sem full_repeat students
