-- ===== src/Management/Semester/Service.antt =====
-- internal/management/semester.go: `Create`, `Update`, `UpdateStatus` and `Definalize`, over the port
-- `SemesterRepository` on a store of any kind.
use e_campus_server.Prelude.{
  ℕ, zero, suc, Bool, true, not, Option, none, some, ◌==◌, if◌then◌else◌, Result, ok, err, Method,
  Done, pure, throw_if, ◌>>=◌, ◌>>◌,
}
use e_campus_server.Management.Errors.{
  Error, conflict, duplicate_semester, invalid_status, invalid_status_transition,
  semester_not_finalized, semester_archived, is_conflict,
}
use e_campus_server.Management.Semester.Data.{
  SemesterType, SemesterStatus, Semester, SemesterUpdate, upcoming, grading, finalized, archived,
  valid_semester_type, valid_semester_status, eq_type, eq_status, can_transition_semester,
  apply_semester_update,
}

-- `CreateSemester` returns the row as the database completed it.
pub record SemesterRepository (S : Type 0) : Type 0 where
  pub create_semester : Semester → Method S Error Semester
  pub get_semester : ℕ → Method S Error Semester
  -- The new version, or `conflict` where another writer changed the row.
  pub update_semester : Semester → ℕ → Method S Error ℕ
  pub semester_exists : ℕ → SemesterType → Method S Error Bool
  pub get_academic_year : ℕ → Method S Error Done

abbrev pub max_update_retries : ℕ
max_update_retries = 3

abbrev default_threshold : ℕ → ℕ
default_threshold n = if n == 0 then 50 else n

-- `Definalize`'s guards on the row that it read.
unfoldable pub definalize_edit : Semester → Result Error Semester
definalize_edit sem =
    if eq_status sem.status archived
    then err semester_archived
    else if not (eq_status sem.status finalized)
    then err semester_not_finalized
    else ok (record sem { status = grading })

unfoldable pub transition_edit : SemesterStatus → Semester → Result Error Semester
unfolding can_transition_semester
transition_edit to sem =
    if not (can_transition_semester sem.status to)
    then err invalid_status_transition
    else ok (record sem { status = to })

module _ {S : Type 0} (repo : SemesterRepository S) where
  -- `Create`
  unfoldable pub create : Semester → Method S Error Semester
  unfolding valid_semester_type
  create sem = do
    throw_if (not (valid_semester_type sem.semester)) invalid_status
    repo.get_academic_year sem.academic_year_id
    exists ← repo.semester_exists sem.academic_year_id sem.semester
    throw_if exists duplicate_semester
    repo.create_semester
        (record sem { pass_threshold = default_threshold sem.pass_threshold; status = upcoming })

  -- The end of a round: on a conflict the next round.
  abbrev pub finish_round :
      Method S Error Semester → Semester → Result Error ℕ × S → Result Error Semester × S
  finish_round again sem (ok v, s) = (ok (record sem { version = v }), s)
  finish_round again sem (err e, s) =
      let retry = again s in if is_conflict e then retry else (err e, s)

  abbrev pub write_back :
      Method S Error Semester → Result Error Semester × S → Result Error Semester × S
  write_back again (err e, s) = (err e, s)
  write_back again (ok sem, s) = finish_round again sem (repo.update_semester sem sem.version s)

  -- The loop that `Update`, `UpdateStatus` and `Definalize` share: read, edit, compare and swap; on
  -- a conflict, again, as often as the first argument says.
  unfoldable pub update_loop :
      ℕ → (Semester → Method S Error Semester) → ℕ → Method S Error Semester
  update_loop zero edit id s = (err conflict, s)
  update_loop (suc n) edit id s =
      write_back (update_loop n edit id) ((repo.get_semester id >>= edit) s)

  change_term : SemesterUpdate → SemesterType → Semester → Method S Error Semester
  unfolding apply_semester_update
  change_term upd term sem = do
    throw_if (← repo.semester_exists sem.academic_year_id term) duplicate_semester
    pure (apply_semester_update upd (record sem { semester = term }))

  patch : SemesterUpdate → Option SemesterType → Semester → Method S Error Semester
  unfolding change_term
  patch upd none sem = pure (apply_semester_update upd sem)
  patch upd (some term) sem =
      if not (eq_type term sem.semester)
      then change_term upd term sem
      else pure (apply_semester_update upd sem)

  abbrev is_known : Option SemesterType → Bool
  is_known none = true
  is_known (some t) = valid_semester_type t

  -- `Update`
  unfoldable pub update : ℕ → SemesterUpdate → Method S Error Semester
  unfolding update_loop patch valid_semester_type
  update id upd = do
    throw_if (not (is_known upd.semester)) invalid_status
    update_loop max_update_retries (patch upd upd.semester) id

  -- `UpdateStatus`
  unfoldable pub update_status : ℕ → SemesterStatus → Method S Error Semester
  update_status id to = do
    throw_if (not (valid_semester_status to)) invalid_status
    update_loop max_update_retries (λ sem s. (transition_edit to sem, s)) id

  -- `Definalize`
  unfoldable pub definalize : ℕ → Method S Error Semester
  definalize id = update_loop max_update_retries (λ sem s. (definalize_edit sem, s)) id
