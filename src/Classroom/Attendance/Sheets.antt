-- ===== src/Classroom/Attendance/Sheets.antt =====
-- The sheets that `Initialize` of internal/classroom/attendance.go makes.
use e_campus_server.Prelude.{
  Result, err, ℕ, ◌+◌, ◌≡◌, refl, sym, ap, subst, inl, inr, Bool-cases, Bool, true, List, [], ◌∷◌,
  ==_iff, arith, any, all, ok,
}
use e_campus_server.Classroom.Errors.{Error}
use e_campus_server.Classroom.Attendance.Postgres.{
  Tables, Attendance, initialize_attendance, initialized, on_sheet, blank, insertable,
}

-- The tables with a student's row on the sheet of a lesson.
abbrev with_row : ℕ → ℕ → Tables → Tables
with_row lesson student t = record t {
  attendance = blank t.fresh_id lesson student ∷ t.attendance;
  fresh_id = t.fresh_id + 1;
}

module _ (lesson : ℕ) where
  -- What is on a sheet stays.
  initialized-any :
      (p : Attendance → Bool) (ids : List ℕ) (t : Tables)
      → any p t.attendance ≡ true
      → any p (initialized lesson ids t).1.attendance ≡ true
  initialized-any p [] t there = there
  initialized-any p (x ∷ ids) t there = elim (Bool-cases (any (on_sheet lesson x) t.attendance)) [
    | inl on ↦ rw on (initialized-any p ids t there)
    | inr missing ↦ rw missing (initialized-any p ids (with_row lesson x t) (ground (arith, there)))
  ]

  initialized-all :
      (ids : List ℕ) (t : Tables)
      → all (λ s. any (on_sheet lesson s) (initialized lesson ids t).1.attendance) ids ≡ true
  initialized-all [] t = refl
  initialized-all (x ∷ ids) t = elim (Bool-cases (any (on_sheet lesson x) t.attendance)) [
    | inl on ↦
        let same : initialized lesson (x ∷ ids) t ≡ initialized lesson ids t = rw on refl in
        subst Filled (sym same)
          (rw (initialized-any (on_sheet lesson x) ids t on) (initialized-all ids t))
    | inr missing ↦
        let t' = with_row lesson x t in
        let on : any (on_sheet lesson x) t'.attendance ≡ true =
          rw ((==_iff lesson lesson).1 refl, (==_iff x x).1 refl) refl in
        let same : initialized lesson (x ∷ ids) t
            ≡ ((initialized lesson ids t').0 + 1, (initialized lesson ids t').1) =
          rw missing refl in
        subst Filled (sym same)
          (rw (initialized-any (on_sheet lesson x) ids t' on) (initialized-all ids t'))
  ]
    where
      Filled : ℕ × Tables → Type 0
      Filled p = all (λ s. any (on_sheet lesson s) p.1.attendance) (x ∷ ids) ≡ true

  -- Nothing is missing.
  initialized_complete :
      (ids : List ℕ) (t : Tables)
      → all (λ s. any (on_sheet lesson s) t.attendance) ids ≡ true
      → initialized lesson ids t ≡ (0, t)
  initialized_complete [] t on = refl
  initialized_complete (x ∷ ids) t on = elim (Bool-cases (any (on_sheet lesson x) t.attendance)) [
    | inl there ↦ rw there (initialized_complete ids t (ground (arith, on, there)))
    | inr missing ↦ ground (arith, on, missing)
  ]

insertable-all :
    (lesson : ℕ) (ids : List ℕ) (t : Tables)
    → all (λ s. any (on_sheet lesson s) t.attendance) ids ≡ true
    → all (insertable lesson t) ids ≡ true
insertable-all lesson [] t on = refl
insertable-all lesson (x ∷ ids) t on = ground (arith, on, insertable-all lesson ids t)

-- No row more, or the same error.
abbrev pub repeated : Result Error ℕ → Result Error ℕ
repeated (ok n) = ok 0
repeated (err e) = err e

-- A second initialization of a sheet for the same students adds no row when the first one succeeded,
-- and answers its error when it failed; it leaves the tables as the first one left them.
pub initialize_attendance-again :
    (lesson : ℕ) (ids : List ℕ) (t : Tables)
    → initialize_attendance lesson ids (initialize_attendance lesson ids t).1
      ≡ (repeated (initialize_attendance lesson ids t).0, (initialize_attendance lesson ids t).1)
unfolding initialize_attendance
initialize_attendance-again lesson ids t = elim (Bool-cases (all (insertable lesson t) ids)) [
  | inr broken ↦ rw (broken, broken) refl
  | inl sound ↦
      let t' = (initialized lesson ids t).1 in
      let on = initialized-all lesson ids t in
      rw (sound, insertable-all lesson ids t' on)
        (ap (λ p. (ok p.0, p.1)) (initialized_complete lesson ids t' on))
]
