-- ===== src/Management/Semester/Data.antt =====
-- internal/management/semester.go: the semester, its closed vocabularies and its lifecycle table. Times
-- are numbers.
use e_campus_server.Prelude.{
  ℕ, Bool, true, false, Option, List, [], ◌∷◌, ◌==◌, any, value_or, or_else,
}

-- `other` is any string that is no semester type.
pub data SemesterType : Type 0 where
  fall spring summer annual : SemesterType
  other : ℕ → SemesterType

pub data SemesterStatus : Type 0 where
  upcoming active grading finalized archived : SemesterStatus
  other : ℕ → SemesterStatus

pub record Semester : Type 0 where
  pub id : ℕ
  pub academic_year_id : ℕ
  pub semester : SemesterType
  pub start_date : ℕ
  pub end_date : ℕ
  pub registration_start : Option ℕ
  pub registration_end : Option ℕ
  pub grade_entry_start : Option ℕ
  pub grade_entry_end : Option ℕ
  pub pass_threshold : ℕ
  pub status : SemesterStatus
  pub created_at : ℕ
  pub deleted_at : Option ℕ
  pub version : ℕ

pub record SemesterUpdate : Type 0 where
  pub semester : Option SemesterType
  pub start_date : Option ℕ
  pub end_date : Option ℕ
  pub registration_start : Option ℕ
  pub registration_end : Option ℕ
  pub grade_entry_start : Option ℕ
  pub grade_entry_end : Option ℕ
  pub pass_threshold : Option ℕ

unfoldable pub valid_semester_type : SemesterType → Bool
valid_semester_type (SemesterType.other _) = false
valid_semester_type _ = true

unfoldable pub valid_semester_status : SemesterStatus → Bool
valid_semester_status (SemesterStatus.other _) = false
valid_semester_status _ = true

abbrev pub eq_type : SemesterType → SemesterType → Bool
eq_type fall fall = true
eq_type spring spring = true
eq_type summer summer = true
eq_type annual annual = true
eq_type (SemesterType.other a) (SemesterType.other b) = a == b
eq_type _ _ = false

abbrev pub eq_status : SemesterStatus → SemesterStatus → Bool
eq_status upcoming upcoming = true
eq_status active active = true
eq_status grading grading = true
eq_status finalized finalized = true
eq_status archived archived = true
eq_status (SemesterStatus.other a) (SemesterStatus.other b) = a == b
eq_status _ _ = false

-- The map in `CanTransitionSemester`; an unknown status has no entry.
abbrev pub transitions : SemesterStatus → List SemesterStatus
transitions upcoming = active ∷ []
transitions active = grading ∷ []
transitions grading = finalized ∷ []
transitions finalized = archived ∷ grading ∷ []
transitions _ = []

unfoldable pub can_transition_semester : SemesterStatus → SemesterStatus → Bool
can_transition_semester from to = any (λ allowed. eq_status allowed to) (transitions from)

unfoldable pub semester_runs_year_end : SemesterType → Bool
semester_runs_year_end spring = true
semester_runs_year_end annual = true
semester_runs_year_end _ = false

-- The patch of `Update`, all but the term, which wants a lookup first.
unfoldable pub apply_semester_update : SemesterUpdate → Semester → Semester
apply_semester_update u s = record s {
  start_date = value_or u.start_date s.start_date;
  end_date = value_or u.end_date s.end_date;
  registration_start = or_else u.registration_start s.registration_start;
  registration_end = or_else u.registration_end s.registration_end;
  grade_entry_start = or_else u.grade_entry_start s.grade_entry_start;
  grade_entry_end = or_else u.grade_entry_end s.grade_entry_end;
  pass_threshold = value_or u.pass_threshold s.pass_threshold;
}
