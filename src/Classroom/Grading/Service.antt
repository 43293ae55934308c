-- ===== src/Classroom/Grading/Service.antt =====
-- internal/classroom/grading.go: the service, with the statements on enrollments that it reaches
-- (internal/classroom/postgres/readers.go and internal/management/postgres/enrollment.go).
use e_campus_server.Prelude.{
  ℕ, ◌+◌, Bool, true, false, not, ◌&&◌, ◌||◌, Option, none, some, List, [], ◌∷◌, ◌++◌, ◌==◌, any,
  map, keep, update_where, if◌then◌else◌, Result, ok, err, Method, Done, pure, throw_if, lift,
  ◌>>=◌, ◌>>◌,
}
use e_campus_server.Classroom.Errors.{
  Error, rule_exam_not_found, semester_not_grading, semester_archived, already_finalized,
  not_finalized, ungraded_work, no_enrollments, invalid_score, enrollment_not_found,
}
use e_campus_server.Classroom.Grading.Data.{
  Arithmetic, Rule, RuleType, assignments, ExamScore, GradeInputs, rule_exam_ids, validate_rules,
  final_grade, pass_status,
}
use e_campus_server.Management.Semester.Data.{SemesterStatus, grading, archived}
use e_campus_server.Management.Leave.Data.{
  EnrollmentStatus, enrolled, completed, failed, is_enrolled,
}

abbrev pub is_grading : SemesterStatus → Bool
is_grading grading = true
is_grading _ = false

abbrev is_archived : SemesterStatus → Bool
is_archived archived = true
is_archived _ = false

-- A row of course_enrollments.
pub record Enrollment (F : Type 0) : Type 0 where
  pub offering_id : ℕ
  pub student_id : ℕ
  pub final_grade : Option F
  pub status : EnrollmentStatus
  pub completed_at : Option ℕ

-- The enrollments, the rule sets, and whom the grading has notified.
pub record Tables (F : Type 0) : Type 0 where
  pub enrollments : List (Enrollment F)
  pub rules : List (ℕ × List (Rule F))
  pub notified : List ℕ
  pub now : ℕ

-- The ports that only read what grading does not change.
pub record Readers (F : Type 0) : Type 0 where
  pub semester_status : ℕ → Result Error SemesterStatus
  pub pass_threshold : ℕ → Result Error ℕ
  pub exams_belong_to_offering : ℕ → List ℕ → Result Error Bool
  pub has_ungraded_attempts : List ℕ → Result Error Bool
  pub has_ungraded_submissions : ℕ → Result Error Bool
  pub student_exam_scores : ℕ → List ℕ → Result Error (List (ℕ × ExamScore F))
  pub student_assignment_average : ℕ → ℕ → Result Error (F × Bool)
  pub student_attendance_rate : ℕ → ℕ → Result Error F

abbrev pub has_outcome : EnrollmentStatus → Bool
has_outcome completed = true
has_outcome failed = true
has_outcome _ = false

abbrev pub uses_assignments : RuleType → Bool
uses_assignments assignments = true
uses_assignments _ = false

module _ {F : Type 0} where
  abbrev pub active_in : ℕ → Enrollment F → Bool
  active_in offering e = e.offering_id == offering && is_enrolled e.status

  -- `EnrolledUserIDs`
  abbrev pub enrolled_of : ℕ → List (Enrollment F) → List ℕ
  enrolled_of offering rows = map (λ e. e.student_id) (keep (active_in offering) rows)

  unfoldable pub enrolled_user_ids : ℕ → Method (Tables F) Error (List ℕ)
  enrolled_user_ids offering t = (ok (enrolled_of offering t.enrollments), t)

  -- `IsOfferingFinalized`
  unfoldable pub offering_finalized : ℕ → Method (Tables F) Error Bool
  offering_finalized offering t = (
    ok (
        not (any (active_in offering) t.enrollments)
        && any (λ e. e.offering_id == offering) t.enrollments),
    t,
  )

  abbrev pub gradable : ℕ → ℕ → Enrollment F → Bool
  gradable offering student e =
      e.offering_id == offering
      && (e.student_id == student && (is_enrolled e.status || has_outcome e.status))

  abbrev pub graded : F → EnrollmentStatus → ℕ → Enrollment F → Enrollment F
  graded grade status now e = record e {
    final_grade = some grade;
    status = status;
    completed_at = some now;
  }

  -- `SetFinalGrade` of internal/management/postgres/enrollment.go
  unfoldable pub set_enrollment_grade : ℕ → ℕ → F → EnrollmentStatus → Method (Tables F) Error Done
  set_enrollment_grade offering student grade status t =
      if any (gradable offering student) t.enrollments
      then (
        ok tt,
        record t {
          enrollments =
              update_where (gradable offering student) (graded grade status t.now) t.enrollments;
        },
      )
      else (err enrollment_not_found, t)

  -- `ClearFinalGrades`
  unfoldable pub clear_enrollment_grades : ℕ → Method (Tables F) Error Done
  clear_enrollment_grades offering t = (
    ok tt,
    record t {
      enrollments =
          update_where (λ e. e.offering_id == offering && has_outcome e.status)
            (λ e. record e { final_grade = none; status = enrolled; completed_at = none })
            t.enrollments;
    },
  )

  abbrev rules_of : ℕ → List (ℕ × List (Rule F)) → Result Error (List (Rule F))
  rules_of offering [] = err Error.rules_not_found
  rules_of offering (p ∷ sets) = if p.0 == offering then ok p.1 else rules_of offering sets

  -- `Rules`
  unfoldable pub get_rules : ℕ → Method (Tables F) Error (List (Rule F))
  get_rules offering t = (rules_of offering t.rules, t)

  abbrev with_rules : ℕ → List (Rule F) → List (ℕ × List (Rule F)) → List (ℕ × List (Rule F))
  with_rules offering rules [] = (offering, rules) ∷ []
  with_rules offering rules (p ∷ sets) =
      if p.0 == offering then (offering, rules) ∷ sets else p ∷ with_rules offering rules sets

  -- The upsert of `SaveRules` in the repository.
  unfoldable pub store_rules : ℕ → List (Rule F) → Method (Tables F) Error Done
  store_rules offering rules t = (ok tt, record t { rules = with_rules offering rules t.rules })

  -- The notifications are best effort and leave no error.
  unfoldable pub notify : List ℕ → Method (Tables F) Error Done
  notify ids t = (ok tt, record t { notified = t.notified ++ ids })

  abbrev pub when_any :
      {A : Type 0} → List A → Method (Tables F) Error Done → Method (Tables F) Error Done
  when_any [] m = pure tt
  when_any (_ ∷ _) m = m

module _ {F : Type 0} (f : Arithmetic F) (readers : Readers F) where
  unfoldable pub refuse_archived : ℕ → Method (Tables F) Error Done
  refuse_archived offering = do
    status ← lift (readers.semester_status offering)
    throw_if (is_archived status) semester_archived

  -- The checks of `SaveRules` on a rule set that is not empty.
  unfoldable pub check_rules : ℕ → List (Rule F) → Method (Tables F) Error Done
  check_rules offering rules = do
    lift (validate_rules f rules)
    when_any (rule_exam_ids rules) (do
      belong ← lift (readers.exams_belong_to_offering offering (rule_exam_ids rules))
      throw_if (not belong) rule_exam_not_found)

  unfoldable pub save_rules : ℕ → List (Rule F) → Method (Tables F) Error Done
  save_rules offering rules = do
    refuse_archived offering
    when_any rules (check_rules offering rules)
    store_rules offering rules

  abbrev pub scores_for : ℕ → List ℕ → Result Error (List (ℕ × ExamScore F))
  scores_for student [] = ok []
  scores_for student (id ∷ ids) = readers.student_exam_scores student (id ∷ ids)

  -- `inputsFor`
  unfoldable pub inputs_for : ℕ → ℕ → List ℕ → Method (Tables F) Error (GradeInputs F)
  inputs_for offering student exam_ids = do
    scores ← lift (scores_for student exam_ids)
    average ← lift (readers.student_assignment_average offering student)
    rate ← lift (readers.student_attendance_rate offering student)
    pure (record {
      exam_scores = scores;
      assignment_avg = average.0;
      has_assignments = average.1;
      attendance_rate = rate;
    })

  unfoldable pub preview : ℕ → ℕ → Method (Tables F) Error F
  unfolding inputs_for
  preview offering student = do
    rules ← get_rules offering
    inputs ← inputs_for offering student (rule_exam_ids rules)
    pure (final_grade f inputs rules)

  -- The loop of `Finalize`; the count that stands beside an error is left out.
  unfoldable pub grade_all : ℕ → ℕ → List (Rule F) → List ℕ → Method (Tables F) Error ℕ
  grade_all offering pass_threshold rules [] = pure 0
  grade_all offering pass_threshold rules (student ∷ ids) = do
    inputs ← inputs_for offering student (rule_exam_ids rules)
    set_enrollment_grade offering student (final_grade f inputs rules)
        (pass_status f (final_grade f inputs rules) pass_threshold)
    rest ← grade_all offering pass_threshold rules ids
    pure (rest + 1)

  abbrev pub is_empty : List ℕ → Bool
  is_empty [] = true
  is_empty (_ ∷ _) = false

  -- The checks of `Finalize` on ungraded work.
  unfoldable pub refuse_ungraded : ℕ → List (Rule F) → Method (Tables F) Error Done
  refuse_ungraded offering rules = do
    when_any (rule_exam_ids rules) (do
      ungraded ← lift (readers.has_ungraded_attempts (rule_exam_ids rules))
      throw_if ungraded ungraded_work)
    when_any (keep (λ r. uses_assignments r.type) rules) (do
      ungraded ← lift (readers.has_ungraded_submissions offering)
      throw_if ungraded ungraded_work)

  -- The end of `Finalize`: the grades, and then the roster for the notifications.
  unfoldable pub grade_and_notify : ℕ → ℕ → List (Rule F) → List ℕ → Method (Tables F) Error ℕ
  grade_and_notify offering pass_threshold rules ids = do
    count ← grade_all offering pass_threshold rules ids
    roster ← enrolled_user_ids offering
    notify roster
    pure count

  unfoldable pub finalize : ℕ → Method (Tables F) Error ℕ
  finalize offering = do
    status ← lift (readers.semester_status offering)
    throw_if (not (is_grading status)) semester_not_grading
    finalized ← offering_finalized offering
    throw_if finalized already_finalized
    rules ← get_rules offering
    refuse_ungraded offering rules
    pass_threshold ← lift (readers.pass_threshold offering)
    ids ← enrolled_user_ids offering
    throw_if (is_empty ids) no_enrollments
    grade_and_notify offering pass_threshold rules ids

  unfoldable pub definalize : ℕ → Method (Tables F) Error Done
  unfolding refuse_archived
  definalize offering = do
    refuse_archived offering
    finalized ← offering_finalized offering
    throw_if (not finalized) not_finalized
    clear_enrollment_grades offering

  -- `Override`
  unfoldable pub override_grade : ℕ → ℕ → F → Method (Tables F) Error Done
  unfolding refuse_archived
  override_grade offering student grade = do
    throw_if (f.above f.zero grade || f.above grade f.hundred) invalid_score
    refuse_archived offering
    pass_threshold ← lift (readers.pass_threshold offering)
    set_enrollment_grade offering student grade (pass_status f grade pass_threshold)
