-- ===== src/Management/Semester/Stale.antt =====
-- `EndSemester` against another writer, and `UpdateStatus` without one.
use e_campus_server.Prelude.{
  ℕ, suc, ◌+◌, ◌≡◌, refl, sym, ◌∙◌, ap, subst, true, false, not, ◌==◌, any, if◌then◌else◌, Result,
  ok, err, throw_if, ◌>>◌, Method,
}
use e_campus_server.Management.Errors.{Error, invalid_status, invalid_status_transition}
use e_campus_server.Management.Semester.Data.{
  Semester, SemesterStatus, can_transition_semester, valid_semester_status,
}
use e_campus_server.Management.Semester.Service.{
  max_update_retries, update_loop, write_back, finish_round, transition_edit, update_status,
}
use e_campus_server.Management.Semester.Postgres.{
  Tables, find_semester, get_semester, set_columns, clashes, postgres,
}
use e_campus_server.Management.Semester.Commit.{find_semester-id}
use e_campus_server.Management.Semester.End.{
  Providers, EndSemesterResult, after_reread, after_archive, archive,
}
use e_campus_server.Management.Semester.Writes.{
  written, update_semester-accepts, update_semester-refuses,
}

-- When the row has another version than the copy read before, and no other live row has the copy's
-- term, the archiving of `EndSemester` still succeeds with two rounds left, and overwrites the row with
-- that copy, whatever status the row has now.
pub archive-overwrites :
    (providers : Providers Tables) (n : ℕ) (r : EndSemesterResult) (sem row : Semester) (t : Tables)
    → find_semester sem.id t.semesters ≡ ok row
    → (row.version == sem.version) ≡ false
    → any (clashes (set_columns sem row)) t.semesters ≡ false
    → (archive postgres providers (suc (suc n)) sem.id r sem t
        ≡ (ok r, written (record sem { version = row.version }) t))
      × (find_semester sem.id (written (record sem { version = row.version }) t).semesters
          ≡ ok (set_columns sem row))
unfolding archive get_semester set_columns
archive-overwrites providers n r sem row t found stale free =
    let fresh = record sem { version = row.version } in
    let again = archive postgres providers (suc n) sem.id r in
    let last = archive postgres providers n sem.id r in
    let (accepted, left) = update_semester-accepts fresh row t found refl free in
    (
      ap (after_archive postgres providers again sem.id r sem)
            (update_semester-refuses sem row t found stale)
          ∙ ap (λ x. after_reread postgres providers again sem (x, t)) found
          ∙ ap (after_archive postgres providers last sem.id r fresh) accepted,
      left,
    )

-- Without other writers a request to `UpdateStatus` that the lifecycle allows succeeds, if no other live
-- row has the same term: it returns the row with the new status and the next version, and the tables hold that row.
pub update_status-succeeds :
    (id : ℕ) (to : SemesterStatus) (row : Semester) (t : Tables)
    → find_semester id t.semesters ≡ ok row
    → valid_semester_status to ≡ true
    → can_transition_semester row.status to ≡ true
    → any (clashes row) t.semesters ≡ false
    → (update_status postgres id to t ≡ (
      ok (record row { status = to; version = row.version + 1 }),
      written (record row { status = to }) t,
    ))
      × (find_semester id (written (record row { status = to }) t).semesters
          ≡ ok (record row { status = to; version = row.version + 1 }))
unfolding update_status update_loop transition_edit get_semester set_columns
update_status-succeeds id to row t found valid allowed free =
    let sem = record row { status = to } in
    let edit : Semester → Method Tables Error Semester = λ x s. (transition_edit to x, s) in
    let again = update_loop postgres 2 edit id in
    let is_id : row.id ≡ id = find_semester-id id t.semesters {r = row} found in
    let found' : find_semester row.id t.semesters ≡ ok row =
      subst (λ i. find_semester i t.semesters ≡ ok row) (sym is_id) found in
    let (accepted, left) = update_semester-accepts sem row t found' refl free in
    (
      ap
            (λ b.
              (throw_if (not b) invalid_status >> update_loop postgres max_update_retries edit id)
                t)
            valid
          ∙ ap
              (λ x. write_back postgres again (elim x as (λ _. Result Error Semester × Tables) [
                | ok y ↦ edit y t
                | err e ↦ (err e, t)
              ]))
              found
          ∙ ap
              (λ b.
                write_back postgres again
                  ((if not b then err invalid_status_transition else ok sem), t))
              allowed
          ∙ ap (finish_round postgres again sem) accepted,
      subst (λ i. find_semester i (written sem t).semesters ≡ ok (set_columns sem row)) is_id left,
    )
