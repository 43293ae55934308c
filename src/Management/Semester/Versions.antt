-- ===== src/Management/Semester/Versions.antt =====
-- `UpdateSemester` gives a row that it changes another version.
use e_campus_server.Prelude.{
  ℕ, ◌+◌, ◌≡◌, ◌≢◌, refl, sym, ◌∙◌, ap, subst, true, Option, none, some, List, ◌==◌, ==_iff, arith,
  inl, inr, any, Result, ok, Bool-cases, affect, row_at, replace_row, row_at-key,
  row_at-replace_row_self, row_at-replace_row_ne, affect-some,
}
use e_campus_server.Management.Errors.{Error}
use e_campus_server.Management.Semester.Data.{Semester}
use e_campus_server.Management.Semester.Postgres.{
  Tables, semester_key, find_semester, set_columns, at_version, update_semester, update_outcome,
  clashes, live_row,
}
use e_campus_server.Management.Semester.Interleaving.{BumpsVersion}
use e_campus_server.Management.Semester.Commit.{find_semester-row, found_live, at_version-fields}

same_find :
    (id : ℕ) (t : Tables) (r r' : Semester)
    → find_semester id t.semesters ≡ ok r
    → find_semester id t.semesters ≡ ok r'
    → r' ≡ r
same_find id t r r' a b =
    let both : ◌≡◌ {A = Result Error Semester} (ok r') (ok r) = sym b ∙ a in cc

module _ (s : Semester) (expected : ℕ) (t : Tables) (id : ℕ) (r r' : Semester)
    (found : find_semester id t.semesters ≡ ok r) where
  replaced :
      (q : Semester)
      → row_at semester_key s.id t.semesters ≡ some q
      → at_version expected q ≡ true
      → find_semester id (replace_row semester_key s.id (set_columns s) t.semesters) ≡ ok r'
      → r'.version ≡ r.version
      → r' ≡ r
  unfolding find_semester set_columns
  replaced q at fits left version = elim (Bool-cases (s.id == id)) [
    | inl hit ↦
        let is_id : s.id ≡ id = (==_iff s.id id).0 hit in
        let left' =
          found_live s.id _ (set_columns s q)
            (row_at-replace_row_self semester_key s.id (set_columns s) t.semesters {r = q} at
              (row_at-key semester_key s.id t.semesters {r = q} at))
            (at_version-fields expected q fits).1 in
        let is_r' : r' ≡ set_columns s q =
          same_find id
            (record t { semesters = replace_row semester_key s.id (set_columns s) t.semesters })
            (set_columns s q) r'
            (subst
              (λ i.
                find_semester i (replace_row semester_key s.id (set_columns s) t.semesters)
                ≡ ok (set_columns s q))
              is_id left')
            left in
        let there : row_at semester_key id t.semesters ≡ some q =
          subst (λ i. row_at semester_key i t.semesters ≡ some q) is_id at in
        let is_q : ◌≡◌ {A = Option Semester} (some q) (some r) =
          sym there ∙ find_semester-row id t.semesters {r = r} found in
        let q_is_r : q ≡ r = cc in
        let bumped : r'.version ≡ r.version + 1 =
          ap (λ (x : Semester). x.version) is_r' ∙ ap (λ (x : Semester). x.version + 1) q_is_r in
        ground (arith, bumped, version)
    | inr miss ↦
        let same : row_at semester_key id
              (replace_row semester_key s.id (set_columns s) t.semesters)
            ≡ row_at semester_key id t.semesters =
          row_at-replace_row_ne semester_key s.id id (set_columns s) t.semesters (λ x. refl)
            (ground (arith, (==_iff s.id id).1, miss)) in
        same_find id t r r' found (sym (ap live_row same) ∙ left)
  ]

  outcome :
      (o : Option (Semester × List Semester))
      → affect semester_key s.id (at_version expected) (set_columns s) t.semesters ≡ o
      → find_semester id (update_outcome s t o).1.semesters ≡ ok r'
      → r'.version ≡ r.version
      → r' ≡ r
  outcome none q left version = same_find id t r r' found left
  outcome (some (x, rows)) q left version = elim (Bool-cases (any (clashes x) t.semesters)) [
    | inl clash ↦ same_find id t r r' found (rw clash at left)
    | inr free ↦
        let (y, at, fits, is_x, is_rows) =
          affect-some semester_key s.id (at_version expected) (set_columns s) t.semesters {r' = x}
            {rows' = rows} q in
        replaced y at fits (subst (λ l. find_semester id l ≡ ok r') is_rows (rw free at left))
          version
  ]

-- The hypothesis `BumpsVersion` on other transactions holds of the code's own write.
pub update_semester-BumpsVersion :
    (s : Semester) (expected : ℕ) → BumpsVersion (λ t. (update_semester s expected t).1)
unfolding update_semester
update_semester-BumpsVersion s expected t id r r' found left version =
    outcome s expected t id r r' found
      (affect semester_key s.id (at_version expected) (set_columns s) t.semesters) refl left version

-- A row that a write of `UpdateSemester` has changed, whichever it was, has another version than before.
pub update_semester-version :
    (s : Semester) (expected : ℕ) (t : Tables) (id : ℕ) (r r' : Semester)
    → find_semester id t.semesters ≡ ok r
    → find_semester id (update_semester s expected t).1.semesters ≡ ok r'
    → r' ≢ r
    → r'.version ≢ r.version
update_semester-version s expected t id r r' found left changed version =
    changed (update_semester-BumpsVersion s expected t id r r' found left version)
