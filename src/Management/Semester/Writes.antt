-- ===== src/Management/Semester/Writes.antt =====
-- What `UpdateSemester` of postgres/semester.go answers, from the row that it meets.
use e_campus_server.Prelude.{
  ℕ, ◌+◌, ◌≡◌, ◌∙◌, ap, subst, true, false, none, some, List, ◌==◌, ==_iff, arith, inl, inr, any,
  if◌then◌else◌, ok, err, Bool-cases, Option-cases, affect, row_at, replace_row, row_at-key,
  row_at-replace_row_self, affect-row,
}
use e_campus_server.Management.Errors.{conflict}
use e_campus_server.Management.Semester.Data.{Semester}
use e_campus_server.Management.Semester.Postgres.{
  Tables, semester_key, is_live, find_semester, set_columns, at_version, update_semester,
  update_outcome, clashes, missed, unique_violation,
}
use e_campus_server.Management.Semester.Commit.{find_semester-row, found_live}

find_semester-live :
    (id : ℕ) (rows : List Semester) (r : Semester) → find_semester id rows ≡ ok r → is_live r ≡ true
unfolding find_semester
find_semester-live id rows r h = elim (Option-cases (row_at semester_key id rows)) [
  | inl e ↦ let k = rw e at h in cc
  | inr (x, e) ↦ elim (Bool-cases (is_live x)) [
    | inl live ↦
        let same = rw (e, live) at h in
        let is_x : x ≡ r = cc in subst (λ y. is_live y ≡ true) is_x live
    | inr dead ↦ let k = rw (e, dead) at h in cc
  ]
]

-- The tables after a write that met the row.
abbrev pub written : Semester → Tables → Tables
written s t = record t { semesters = replace_row semester_key s.id (set_columns s) t.semesters }

pub update_semester-accepts :
    (s row : Semester) (t : Tables)
    → find_semester s.id t.semesters ≡ ok row
    → row.version ≡ s.version
    → any (clashes (set_columns s row)) t.semesters ≡ false
    → (update_semester s s.version t ≡ (ok (row.version + 1), written s t))
      × (find_semester s.id (written s t).semesters ≡ ok (set_columns s row))
unfolding update_semester set_columns
update_semester-accepts s row t found same free =
    let at = find_semester-row s.id t.semesters {r = row} found in
    let live = find_semester-live s.id t.semesters row found in
    let fits : at_version s.version row ≡ true =
      ground (arith, (==_iff row.version s.version).1 same, live) in
    let affected : affect semester_key s.id (at_version s.version) (set_columns s) t.semesters
        ≡ some (set_columns s row, replace_row semester_key s.id (set_columns s) t.semesters) =
      affect-row semester_key s.id (at_version s.version) (set_columns s) t.semesters row at
      ∙ ap
          (λ b.
            if b
            then some (set_columns s row, replace_row semester_key s.id (set_columns s) t.semesters)
            else none)
          fits in
    (
      ap (update_outcome s t) affected
          ∙ ap (λ b. if b then (err unique_violation, t) else (ok (row.version + 1), written s t))
              free,
      found_live s.id _ (set_columns s row)
          (row_at-replace_row_self semester_key s.id (set_columns s) t.semesters {r = row} at
            (row_at-key semester_key s.id t.semesters {r = row} at))
          live,
    )

pub update_semester-refuses :
    (s row : Semester) (t : Tables)
    → find_semester s.id t.semesters ≡ ok row
    → (row.version == s.version) ≡ false
    → update_semester s s.version t ≡ (err conflict, t)
unfolding update_semester
update_semester-refuses s row t found stale =
    let at = find_semester-row s.id t.semesters {r = row} found in
    let fits : at_version s.version row ≡ false = ground (arith, stale) in
    let affected : affect semester_key s.id (at_version s.version) (set_columns s) t.semesters
        ≡ none =
      affect-row semester_key s.id (at_version s.version) (set_columns s) t.semesters row at
      ∙ ap
          (λ b.
            if b
            then some (set_columns s row, replace_row semester_key s.id (set_columns s) t.semesters)
            else none)
          fits in
    ap (update_outcome s t) affected ∙ ap (λ x. (err (missed x), t)) found
