-- ===== src/Management/Semester/Examples.antt =====
-- Tests of the semester's lifecycle, and the theorems on it at a concrete calendar with another writer.
use e_campus_server.Prelude.{
  ℕ, ◌≡◌, refl, none, [], ◌∷◌, arith, ok, affect, row_at, replace_row, Bool, true, false, some,
  if◌then◌else◌, ◌==◌, any, ◌+◌, ◌≢◌, ap,
}
use e_campus_server.Management.Semester.Data.{
  spring, Semester, SemesterStatus, active, grading, finalized, valid_semester_status, eq_status,
  can_transition_semester, archived, semester_runs_year_end,
}
use e_campus_server.Management.Semester.Service.{
  update_loop, update_status, definalize, transition_edit, definalize_edit,
}
use e_campus_server.Management.Semester.Postgres.{
  Tables, get_semester, find_semester, update_semester, set_columns, postgres, clashes,
}
use e_campus_server.Management.Semester.Interleaving.{World, shared, BumpsVersion}
use e_campus_server.Management.Semester.End.{
  AcademicStudentInfo, Providers, EndSemesterResult, end_semester, finish, process_students,
  process_student_semester_end, process_year_end, tally, archive,
}
use e_campus_server.Management.Semester.Versions.{update_semester-version}
use e_campus_server.Management.Semester.Writes.{written}
use e_campus_server.Management.Semester.Progression.{end_semester-Balanced}
use e_campus_server.Management.Semester.Stale.{archive-overwrites, update_status-succeeds}
use e_campus_server.Management.Semester.Status.{MovesTo, update_status-MovesTo, definalize-MovesTo}

abbrev row_in : SemesterStatus → ℕ → Semester
row_in status version = record {
  id = 4;
  academic_year_id = 1;
  semester = spring;
  start_date = 10;
  end_date = 20;
  registration_start = none;
  registration_end = none;
  grade_entry_start = none;
  grade_entry_end = none;
  pass_threshold = 50;
  status = status;
  created_at = 0;
  deleted_at = none;
  version = version;
}

abbrev tables_in : SemesterStatus → ℕ → Tables
tables_in status version = record {
  semesters = row_in status version ∷ [];
  academic_years = 1 ∷ [];
  fresh_id = 9;
  now = 5;
}

-- Another request that only inserts an academic year between the statements.
abbrev opens_year : Tables → Tables
opens_year t = record t { academic_years = 2 ∷ t.academic_years }

abbrev world_in : SemesterStatus → ℕ → World
world_in status version = record {
  tables = tables_in status version;
  others = opens_year ∷ opens_year ∷ [];
}

abbrev left_in : SemesterStatus → ℕ → World
left_in status version = record {
  tables = opens_year (opens_year (tables_in status version));
  others = [];
}

opens_year-BumpsVersion : BumpsVersion opens_year
opens_year-BumpsVersion t id r r' a b v = ground (arith, a, b)

-- The run: active to grading.
moves :
    update_status shared 4 grading (world_in active 3) ≡ (ok (row_in grading 4), left_in grading 4)
unfolding update_status update_loop transition_edit can_transition_semester valid_semester_status
    get_semester find_semester update_semester set_columns affect row_at replace_row
moves = refl

-- A finalized semester goes back.
goes_back : definalize shared 4 (world_in finalized 6) ≡ (ok (row_in grading 7), left_in grading 7)
unfolding definalize update_loop definalize_edit get_semester find_semester update_semester
    set_columns affect row_at replace_row
goes_back = refl

update_status-MovesTo_example :
    MovesTo
      (λ from. can_transition_semester from grading)
      grading
      4
      (world_in active 3)
      (row_in grading 4)
      (left_in grading 4)
update_status-MovesTo_example =
    update_status-MovesTo 4 grading (world_in active 3) (left_in grading 4) (row_in grading 4)
      (opens_year-BumpsVersion, (opens_year-BumpsVersion, tt)) moves

definalize-MovesTo_example :
    MovesTo
      (eq_status finalized)
      grading
      4
      (world_in finalized 6)
      (row_in grading 7)
      (left_in grading 7)
definalize-MovesTo_example =
    definalize-MovesTo 4 (world_in finalized 6) (left_in grading 7) (row_in grading 7)
      (opens_year-BumpsVersion, (opens_year-BumpsVersion, tt)) goes_back

abbrev student : ℕ → Bool → AcademicStudentInfo
student id enrolled = record {
  user_id = id;
  program_id = 1;
  current_year = 2;
  current_cohort_year = 2024;
  active = enrolled;
}

-- Student 21 has the credits, 22 has not, and 23 is not active; students repeat whole years.
abbrev records_office : Providers Tables
records_office = record {
  count_unfinalized_offerings = λ _ s. (ok 0, s);
  get_full_year_repeat = λ s. (ok true, s);
  get_students_in_semester =
      λ _ s. (ok (student 21 true ∷ student 22 true ∷ student 23 false ∷ []), s);
  sum_completed_credits = λ user _ s. (ok (if user == 21 then 30 else 10), s);
  get_requirement = λ _ _ _ _ s. (ok (some 20), s);
  update_student_progression = λ _ _ _ s. (ok tt, s);
  record_cohort_change = λ _ _ _ _ _ s. (ok tt, s);
  reassign_cohort_groups = λ _ _ _ _ s. (ok tt, s);
}

abbrev one_each : EndSemesterResult
one_each = record {
  processed = 2;
  promoted_count = 1;
  repeated_count = 1;
  unchanged_count = 0;
  errors = 0;
  warning = false;
}

ended :
    end_semester postgres records_office 4 (tables_in finalized 6)
    ≡ (ok one_each, tables_in archived 7)
unfolding end_semester finish process_students process_student_semester_end process_year_end tally
    archive semester_runs_year_end get_semester find_semester update_semester set_columns affect
    row_at replace_row
ended = refl

end_semester-Balanced_example : 2 ≡ 1 + 1 + 0 + 0
end_semester-Balanced_example =
    end_semester-Balanced postgres records_office 4 (tables_in finalized 6) (tables_in archived 7)
      one_each ended

grading_found : find_semester 4 (tables_in grading 7).semesters ≡ ok (row_in grading 7)
unfolding find_semester row_at
grading_found = refl

no_clash :
    any
      (clashes (set_columns (row_in archived 6) (row_in grading 7)))
      (tables_in grading 7).semesters
    ≡ false
unfolding set_columns
no_clash = refl

archive-overwrites_example :
    (archive postgres records_office 3 4 one_each (row_in archived 6) (tables_in grading 7)
      ≡ (ok one_each, written (row_in archived 7) (tables_in grading 7)))
    × (find_semester 4 (written (row_in archived 7) (tables_in grading 7)).semesters
        ≡ ok (set_columns (row_in archived 6) (row_in grading 7)))
archive-overwrites_example =
    archive-overwrites records_office 1 one_each (row_in archived 6) (row_in grading 7)
      (tables_in grading 7) grading_found refl no_clash

active_found : find_semester 4 (tables_in active 3).semesters ≡ ok (row_in active 3)
unfolding find_semester row_at
active_found = refl

may_grade : can_transition_semester active grading ≡ true
unfolding can_transition_semester
may_grade = refl

is_status : valid_semester_status grading ≡ true
unfolding valid_semester_status
is_status = refl

update_status-succeeds_example :
    (update_status postgres 4 grading (tables_in active 3)
      ≡ (ok (row_in grading 4), written (row_in grading 3) (tables_in active 3)))
    × (find_semester 4 (written (row_in grading 3) (tables_in active 3)).semesters
        ≡ ok (row_in grading 4))
update_status-succeeds_example =
    update_status-succeeds 4 grading (row_in active 3) (tables_in active 3) active_found is_status
      may_grade refl

regraded :
    find_semester 4 (update_semester (row_in grading 3) 3 (tables_in active 3)).1.semesters
    ≡ ok (row_in grading 4)
unfolding update_semester find_semester set_columns affect row_at replace_row
regraded = refl

update_semester-version_example : (row_in grading 4).version ≢ (row_in active 3).version
update_semester-version_example =
    update_semester-version (row_in grading 3) 3 (tables_in active 3) 4 (row_in active 3)
      (row_in grading 4) active_found regraded
      (λ e. let v = ap (λ (x : Semester). x.version) e in ground (arith, v))
