-- ===== src/Management/Semester/Commit.antt =====
-- What a successful `UpdateStatus` or `Definalize` has done, whatever ran beside it.
use e_campus_server.Prelude.{
  ℕ, zero, suc, ◌+◌, ◌≡◌, refl, sym, ◌∙◌, ap, subst, true, some, List, [], ◌∷◌, arith, inl, inr,
  All, any, Result, ok, err, Bool-cases, Option-cases, affect, row_at, affect-some,
  row_at-replace_row_self, row_at-key, Method,
}
use e_campus_server.Management.Errors.{Error, is_conflict}
use e_campus_server.Management.Semester.Data.{Semester}
use e_campus_server.Management.Semester.Service.{update_loop, finish_round, write_back}
use e_campus_server.Management.Semester.Postgres.{
  Tables, semester_key, is_live, find_semester, set_columns, at_version, update_semester,
  get_semester, update_outcome, clashes,
}
use e_campus_server.Management.Semester.Interleaving.{
  World, after, disturb, shared, advance, BumpsVersion,
}

pub find_semester-row :
    (id : ℕ) (rows : List Semester) {r : Semester}
    → find_semester id rows ≡ ok r
    → row_at semester_key id rows ≡ some r
unfolding find_semester
find_semester-row id rows {r} h = elim (Option-cases (row_at semester_key id rows)) [
  | inl e ↦ let k = rw e at h in cc
  | inr (x, e) ↦ let k = rw e at h in ground arith
]

clash_free :
    (s : Semester) (t t' : Tables) (r : Semester) (rows : List Semester) {v : ℕ}
    → update_outcome s t (some (r, rows)) ≡ (ok v, t')
    → (v ≡ r.version) × (t' ≡ record t { semesters = rows })
clash_free s t t' r rows {v} h = elim (Bool-cases (any (clashes r) t.semesters)) [
  | inl c ↦ let k = rw c at h in cc
  | inr c ↦ let k = rw c at h in (ground arith, ground arith)
]

pub at_version-fields :
    (expected : ℕ) (r : Semester)
    → at_version expected r ≡ true
    → (r.version ≡ expected) × (is_live r ≡ true)
at_version-fields expected r h = ground arith

pub found_live :
    (id : ℕ) (rows : List Semester) (r : Semester)
    → row_at semester_key id rows ≡ some r
    → is_live r ≡ true
    → find_semester id rows ≡ ok r
unfolding find_semester
found_live id rows r e live = rw (e, live)

pub find_semester-id :
    (id : ℕ) (rows : List Semester) {r : Semester} → find_semester id rows ≡ ok r → r.id ≡ id
find_semester-id id rows {r} h =
    row_at-key semester_key id rows {r = r} (find_semester-row id rows {r = r} h)

returned :
    (edited sem : Semester) (v : ℕ)
    → ◌≡◌ {A = Result Error Semester} (ok (record edited { version = v })) (ok sem)
    → sem ≡ record edited { version = v }
returned edited sem v h = cc

-- A successful write: the row that it met, and the tables that it left.
pub update_semester-ok :
    (s : Semester) (expected : ℕ) (t t' : Tables) {v : ℕ}
    → update_semester s expected t ≡ (ok v, t')
    → (r : Semester) × (find_semester s.id t.semesters ≡ ok r)
      × (r.version ≡ expected)
      × (v ≡ r.version + 1)
      × (find_semester s.id t'.semesters ≡ ok (set_columns s r))
unfolding update_semester
update_semester-ok s expected t t' {v} h =
    elim (Option-cases
      (affect semester_key s.id (at_version expected) (set_columns s) t.semesters)) [
        | inl e ↦ let k = rw e at h in cc
        | inr (p, e) ↦
            let (r, at, fits, is_r, is_rows) =
              affect-some semester_key s.id (at_version expected) (set_columns s) t.semesters
                {r' = p.0} {rows' = p.1} e in
            let (is_v, is_t) = clash_free s t t' p.0 p.1 {v = v} (rw e at h) in
            let (same, live) = at_version-fields expected r fits in
            let id : r.id ≡ s.id = row_at-key semester_key s.id t.semesters {r = r} at in
            (
              r,
              found_live s.id t.semesters r at live,
              same,
              rw (is_v, is_r) refl,
              rw (is_t, is_rows)
                  (found_live s.id _ (set_columns s r)
                    (row_at-replace_row_self semester_key s.id (set_columns s) t.semesters {r = r}
                      at id)
                    live),
            )
      ]

-- A refused write leaves the tables alone.
pub update_semester-err :
    (s : Semester) (expected : ℕ) (t t' : Tables) {e : Error}
    → update_semester s expected t ≡ (err e, t')
    → t' ≡ t
unfolding update_semester
update_semester-err s expected t t' {e} h =
    elim (Option-cases
      (affect semester_key s.id (at_version expected) (set_columns s) t.semesters)) [
        | inl q ↦ let k = rw q at h in cc
        | inr (p, q) ↦ elim (Bool-cases (any (clashes p.0) t.semesters)) [
          | inl c ↦ let k = rw (q, c) at h in cc
          | inr c ↦ let k = rw (q, c) at h in cc
        ]
      ]

-- Between a read and the write that follows it the row is another, or has the version that was read.
after_row :
    (fs : List (Tables → Tables)) (t : Tables) (id : ℕ) (r r' : Semester)
    → All BumpsVersion fs
    → find_semester id t.semesters ≡ ok r
    → find_semester id (after fs t).tables.semesters ≡ ok r'
    → r'.version ≡ r.version
    → r' ≡ r
after_row [] t id r r' h a b v = ground (arith, a, b)
after_row (f ∷ fs) t id r r' h a b v = h.0 t id r r' a b v

after_rest :
    (fs : List (Tables → Tables)) (t : Tables)
    → All BumpsVersion fs
    → All BumpsVersion (after fs t).others
after_rest [] t h = tt
after_rest (f ∷ fs) t h = h.1

-- Some foreign transactions have run and nothing else when the row is met; the edit of that row is
-- what is written and returned.
unfoldable pub Commits : (Semester → Result Error Semester) → ℕ → World → Semester → World → Type 0
Commits edit id w sem w' =
    (k : ℕ) × (row : Semester) × (edited : Semester) × (find_semester id (advance k w).semesters
      ≡ ok row)
    × (edit row ≡ ok edited)
    × (find_semester id w'.tables.semesters ≡ ok (set_columns edited row))
    × (sem ≡ record edited { version = row.version + 1 })

module _ (edit : Semester → Result Error Semester)
    (keeps : (r e : Semester) → edit r ≡ ok e → (e.id ≡ r.id) × (e.version ≡ r.version)) where
  Commits-later :
      (id : ℕ) (w w' : World) (sem : Semester)
      → Commits edit id (disturb (disturb w)) sem w'
      → Commits edit id w sem w'
  unfolding Commits advance
  Commits-later id w w' sem (k, row, e, found, ok_, is_row, is_sem) =
      (suc (suc k), row, e, found, ok_, is_row, is_sem)

  -- One round, with what the later rounds do as `again`.
  module _ (id : ℕ) (w w' : World) (sem : Semester) (again : Method World Error Semester)
      (bumps : All BumpsVersion w.others)
      (later : again (disturb (disturb w)) ≡ (ok sem, w')
        → Commits edit id (disturb (disturb w)) sem w') where
    retried :
        (e : Error) {t : Tables}
        → finish_round shared again sem
            (err e, record { tables = t; others = (disturb (disturb w)).others })
          ≡ (ok sem, w')
        → t ≡ (disturb (disturb w)).tables
        → again (disturb (disturb w)) ≡ (ok sem, w')
    retried e {t} q same = elim (Bool-cases (is_conflict e)) [
      | inl c ↦
          let k : again (record { tables = t; others = (disturb (disturb w)).others })
              ≡ (ok sem, w') =
            rw c at q in
          subst
            (λ x.
              again (record { tables = x; others = (disturb (disturb w)).others }) ≡ (ok sem, w'))
            same k
      | inr c ↦ let k = rw c at q in cc
    ]

    after_write :
        (row edited : Semester) (written : Result Error ℕ) (t : Tables)
        → find_semester id (disturb w).tables.semesters ≡ ok row
        → edit row ≡ ok edited
        → update_semester edited edited.version (disturb (disturb w)).tables ≡ (written, t)
        → finish_round shared again edited
            (written, record { tables = t; others = (disturb (disturb w)).others })
          ≡ (ok sem, w')
        → Commits edit id w sem w'
    unfolding Commits advance
    after_write row edited (ok v) t found ed wrote q =
        let (r, at, ver, is_v, is_row) =
          update_semester-ok edited edited.version (disturb (disturb w)).tables t {v = v} wrote in
        let (same_id, same_version) = keeps row edited ed in
        let is_id : edited.id ≡ id = same_id ∙ find_semester-id id _ {r = row} found in
        let met =
          subst (λ i. find_semester i (disturb (disturb w)).tables.semesters ≡ ok r) is_id at in
        let same : r ≡ row =
          after_row (disturb w).others (disturb w).tables id row r
            (after_rest w.others w.tables bumps) found met (ver ∙ same_version) in
        let left =
          subst (λ i. find_semester i t.semesters ≡ ok (set_columns edited r)) is_id is_row in
        (
          2,
          r,
          edited,
          met,
          subst (λ x. edit x ≡ ok edited) (sym same) ed,
          subst (λ x. find_semester id x.tables.semesters ≡ ok (set_columns edited r))
              (ap (λ x. x.1) q) left,
          returned edited sem v (ap (λ x. x.0) q) ∙ ap (λ n. record edited { version = n }) is_v,
        )
    after_write row edited (err e) t found ed wrote q =
        let same : t ≡ (disturb (disturb w)).tables =
          update_semester-err edited edited.version (disturb (disturb w)).tables t {e = e} wrote in
        Commits-later id w w' sem (later (retried e q same))

    after_edit :
        (row : Semester) (edited : Result Error Semester)
        → find_semester id (disturb w).tables.semesters ≡ ok row
        → edit row ≡ edited
        → write_back shared again (edited, disturb w) ≡ (ok sem, w')
        → Commits edit id w sem w'
    after_edit row (err e) found ed q = cc
    after_edit row (ok edited) found ed q =
        let u = update_semester edited edited.version (disturb (disturb w)).tables in
        after_write row edited u.0 u.1 found ed refl q

    after_read :
        (read : Result Error Semester)
        → find_semester id (disturb w).tables.semesters ≡ read
        → write_back shared again
            (elim read [ ok r ↦ (edit r, disturb w) | err e ↦ (err e, disturb w) ])
          ≡ (ok sem, w')
        → Commits edit id w sem w'
    after_read (err e) found q = cc
    after_read (ok row) found q = after_edit row (edit row) found refl q

  pub update_loop-Commits :
      (n id : ℕ) (w w' : World) (sem : Semester)
      → All BumpsVersion w.others
      → update_loop shared n (λ r s. (edit r, s)) id w ≡ (ok sem, w')
      → Commits edit id w sem w'
  unfolding update_loop get_semester
  update_loop-Commits zero id w w' sem h q = cc
  update_loop-Commits (suc n) id w w' sem h q =
      after_read id w w' sem (update_loop shared n (λ r s. (edit r, s)) id) h
        (λ p.
          update_loop-Commits n id (disturb (disturb w)) w' sem
            (after_rest _ _ (after_rest w.others w.tables h)) p)
        (find_semester id (disturb w).tables.semesters) refl q
