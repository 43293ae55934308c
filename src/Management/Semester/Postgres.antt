-- ===== src/Management/Semester/Postgres.antt =====
-- internal/management/postgres/semester.go: the SQL adapter, each statement as a function on the
-- tables. Failures of the connection are not modelled here, and `version` does not overflow.
use e_campus_server.Prelude.{
  ℕ, ◌+◌, Bool, not, ◌&&◌, Option, none, some, List, ◌∷◌, ◌==◌, if◌then◌else◌, is_set, any,
  contains, Result, ok, err, Method, Done, affect, row_at,
}
use e_campus_server.Management.Errors.{
  Error, conflict, semester_not_found, academic_year_not_found, failure,
}
use e_campus_server.Management.Semester.Data.{Semester, SemesterType, eq_type}
use e_campus_server.Management.Semester.Service.{SemesterRepository}

-- The tables that the semester statements read and write: the semesters, the keys of the live
-- academic years, the live offerings (key and semester), and what the database generates.
pub record Tables : Type 0 where
  pub semesters : List Semester
  pub academic_years : List ℕ
  pub fresh_id : ℕ
  pub now : ℕ

abbrev pub semester_key : Semester → ℕ
semester_key r = r.id

abbrev pub is_live : Semester → Bool
is_live r = not (is_set r.deleted_at)

abbrev pub live_row : Option Semester → Result Error Semester
live_row none = err semester_not_found
live_row (some r) = if is_live r then ok r else err semester_not_found

-- What `GetSemester` answers on given tables.
unfoldable pub find_semester : ℕ → List Semester → Result Error Semester
find_semester id rows = live_row (row_at semester_key id rows)

unfoldable pub get_semester : ℕ → Method Tables Error Semester
get_semester id t = (find_semester id t.semesters, t)

-- The `SET` list of `UpdateSemester`.
unfoldable pub set_columns : Semester → Semester → Semester
set_columns s r = record r {
  semester = s.semester;
  start_date = s.start_date;
  end_date = s.end_date;
  registration_start = s.registration_start;
  registration_end = s.registration_end;
  grade_entry_start = s.grade_entry_start;
  grade_entry_end = s.grade_entry_end;
  pass_threshold = s.pass_threshold;
  status = s.status;
  version = r.version + 1;
}

-- The partial unique index on live rows.
abbrev pub same_term : ℕ → SemesterType → Semester → Bool
same_term year term r = r.academic_year_id == year && eq_type r.semester term && is_live r

-- A violation of the index comes back as the driver's own error.
abbrev pub unique_violation : Error
unique_violation = failure 23505

abbrev pub clashes : Semester → Semester → Bool
clashes s r = not (r.id == s.id) && same_term s.academic_year_id s.semester r

abbrev pub at_version : ℕ → Semester → Bool
at_version expected r = r.version == expected && is_live r

abbrev pub missed : Result Error Semester → Error
missed (ok r) = conflict
missed (err e) = semester_not_found

abbrev pub update_outcome :
    Semester → Tables → Option (Semester × List Semester) → Result Error ℕ × Tables
update_outcome s t none = (err (missed (find_semester s.id t.semesters)), t)
update_outcome s t (some (r, rows)) =
    if any (clashes r) t.semesters
    then (err unique_violation, t)
    else (ok r.version, record t { semesters = rows })

unfoldable pub update_semester : Semester → ℕ → Method Tables Error ℕ
unfolding set_columns
update_semester s expected t =
    update_outcome s t (affect semester_key s.id (at_version expected) (set_columns s) t.semesters)

unfoldable pub semester_exists : ℕ → SemesterType → Method Tables Error Bool
semester_exists year term t = (ok (any (same_term year term) t.semesters), t)

unfoldable pub create_semester : Semester → Method Tables Error Semester
create_semester s t =
    if any (same_term s.academic_year_id s.semester) t.semesters
    then (err unique_violation, t)
    else (let r = record s {
      id = t.fresh_id;
      created_at = t.now;
      deleted_at = none;
      version = 0;
    } in
        (ok r, record t { semesters = r ∷ t.semesters; fresh_id = t.fresh_id + 1 }))

unfoldable pub get_academic_year : ℕ → Method Tables Error Done
get_academic_year id t =
    (if contains id t.academic_years then ok tt else err academic_year_not_found, t)

abbrev pub postgres : SemesterRepository Tables
postgres = record {
  create_semester = create_semester;
  get_semester = get_semester;
  update_semester = update_semester;
  semester_exists = semester_exists;
  get_academic_year = get_academic_year;
}
