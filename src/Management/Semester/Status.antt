-- ===== src/Management/Semester/Status.antt =====
-- The lifecycle of a semester (`UpdateStatus`, `Definalize`) among other transactions.
use e_campus_server.Prelude.{
  ℕ, ◌+◌, ◌≡◌, sym, ◌∙◌, ap, Bool, true, arith, inl, inr, All, Result, ok, Bool-cases,
}
use e_campus_server.Management.Errors.{Error}
use e_campus_server.Management.Semester.Data.{
  Semester, SemesterStatus, grading, finalized, eq_status, can_transition_semester,
  valid_semester_status,
}
use e_campus_server.Management.Semester.Service.{
  max_update_retries, update_loop, transition_edit, definalize_edit, update_status, definalize,
}
use e_campus_server.Management.Semester.Postgres.{find_semester, set_columns}
use e_campus_server.Management.Semester.Interleaving.{World, shared, advance, BumpsVersion}
use e_campus_server.Management.Semester.Commit.{Commits, update_loop-Commits}

-- Of the tables that the other transactions alone have made, some hold a row whose status the
-- request may leave; the request has replaced that row by itself with the new status and the next
-- version, and returned it.
pub MovesTo : (SemesterStatus → Bool) → SemesterStatus → ℕ → World → Semester → World → Type 0
MovesTo may to id w sem w' =
    (k : ℕ) × (row : Semester) × (find_semester id (advance k w).semesters ≡ ok row)
    × (may row.status ≡ true)
    × (sem ≡ record row { status = to; version = row.version + 1 })
    × (find_semester id w'.tables.semesters ≡ ok sem)

-- An edit that is guarded by the status and sets only it.
pub SetsStatus :
    (SemesterStatus → Bool) → SemesterStatus → (Semester → Result Error Semester) → Type 0
SetsStatus may to edit =
    (r e : Semester) → edit r ≡ ok e → (may r.status ≡ true) × (e ≡ record r { status = to })

abbrev may_move : SemesterStatus → SemesterStatus → Bool
may_move to from = can_transition_semester from to

transition_edit-SetsStatus :
    (to : SemesterStatus) → SetsStatus (may_move to) to (transition_edit to)
unfolding SetsStatus transition_edit
transition_edit-SetsStatus to r e h = elim (Bool-cases (can_transition_semester r.status to)) [
  | inl c ↦ let k = rw c at h in (c, ground arith)
  | inr c ↦ let k = rw c at h in cc
]

definalize_edit-SetsStatus : SetsStatus (eq_status finalized) grading definalize_edit
unfolding SetsStatus definalize_edit
definalize_edit-SetsStatus r e h = (ground arith, ground arith)

module _ (may : SemesterStatus → Bool) (to : SemesterStatus)
    (edit : Semester → Result Error Semester) (sets : SetsStatus may to edit) where
  status_keeps : (r e : Semester) → edit r ≡ ok e → (e.id ≡ r.id) × (e.version ≡ r.version)
  unfolding SetsStatus
  status_keeps r e h =
      let (_, same) = sets r e h in
      (ap (λ (x : Semester). x.id) same, ap (λ (x : Semester). x.version) same)

  Commits-MovesTo :
      (id : ℕ) (w w' : World) (sem : Semester)
      → Commits edit id w sem w'
      → MovesTo may to id w sem w'
  unfolding Commits MovesTo SetsStatus set_columns
  Commits-MovesTo id w w' sem (k, row, e, found, ed, left, is_sem) =
      let (fits, same) = sets row e ed in
      let is_row : sem ≡ record row { status = to; version = row.version + 1 } =
        is_sem ∙ ap (λ (x : Semester). record x { version = row.version + 1 }) same in
      (
        k,
        row,
        found,
        fits,
        is_row,
        left ∙ ap (λ x. ok (set_columns x row)) same ∙ ap ok (sym is_row),
      )

  loop-MovesTo :
      (n id : ℕ) (w w' : World) (sem : Semester)
      → All BumpsVersion w.others
      → update_loop shared n (λ r s. (edit r, s)) id w ≡ (ok sem, w')
      → MovesTo may to id w sem w'
  loop-MovesTo n id w w' sem bumps q =
      Commits-MovesTo id w w' sem (update_loop-Commits edit status_keeps n id w w' sem bumps q)

-- Among transactions that bump the version, a successful `UpdateStatus` has replaced one row, as some
-- of those transactions alone left it, by itself with the new status and the next version, and the
-- row's status was one that `CanTransitionSemester` lets go there.
pub update_status-MovesTo :
    (id : ℕ) (to : SemesterStatus) (w w' : World) (sem : Semester)
    → All BumpsVersion w.others
    → update_status shared id to w ≡ (ok sem, w')
    → MovesTo (λ from. can_transition_semester from to) to id w sem w'
unfolding update_status
update_status-MovesTo id to w w' sem bumps q = elim (Bool-cases (valid_semester_status to)) [
  | inl c ↦
      loop-MovesTo (may_move to) to (transition_edit to) (transition_edit-SetsStatus to)
        max_update_retries id w w' sem bumps (rw c at q)
  | inr c ↦ let k = rw c at q in cc
]

-- Among transactions that bump the version, a successful `Definalize` has replaced one row, as some of
-- those transactions alone left it, by itself in grading with the next version, and the row was finalized.
pub definalize-MovesTo :
    (id : ℕ) (w w' : World) (sem : Semester)
    → All BumpsVersion w.others
    → definalize shared id w ≡ (ok sem, w')
    → MovesTo (eq_status finalized) grading id w sem w'
unfolding definalize
definalize-MovesTo id w w' sem bumps q =
    loop-MovesTo (eq_status finalized) grading definalize_edit definalize_edit-SetsStatus
      max_update_retries id w w' sem bumps q
