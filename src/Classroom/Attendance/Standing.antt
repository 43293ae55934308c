-- ===== src/Classroom/Attendance/Standing.antt =====
-- Decided excuses under the statements and requests of internal/classroom/attendance.go.
use e_campus_server.Prelude.{
  ℕ, ◌+◌, ◌≡◌, refl, sym, ◌∙◌, subst, inl, inr, Bool-cases, true, false, not, Option, none, some,
  List, [], ◌∷◌, ◌==◌, ==_iff, arith, any, all, keep, contains, ◌||◌, Bool, if◌then◌else◌, ok, err,
  Result, affect, affect-some, row_at, row_at-replace_row_ne, Keeps, bind-Keeps, guard-Keeps,
  lift-Keeps, pure-Keeps,
}
use e_campus_server.Classroom.Errors.{Error}
use e_campus_server.Classroom.Attendance.Postgres.{
  Tables, ExcuseStatus, ExcuseRequest, AttendanceUpdate, is_pending, excuse_key, attendance_key,
  valid_percentage, valid_excuse_decision, lesson_for_attendance, initialize_attendance,
  initialized, on_sheet, blank, get_attendance, mark_attendance, rows_or_missing, bulk_mark,
  committed, mark_rows, create_excuse, same_excuse, get_excuse, review_excuse, reviewed,
  excuses_or_reviewed, refers, foreign_key_violation, insertable, is_empty, first_of, offering_of,
  delete_lesson,
}
use e_campus_server.Classroom.Attendance.Service.{
  initialize, initialize_unless_empty, mark, update_mark, request_excuse, new_excuse, review,
}

-- A decided excuse stands as it was decided.
unfoldable pub Stands : ℕ → ExcuseRequest → Tables → Type 0
Stands id e t = row_at excuse_key id t.excuses ≡ some e

-- The id of an excuse that is there is taken.
taken :
    (new e : ExcuseRequest) (rows : List ExcuseRequest)
    → row_at excuse_key new.id rows ≡ some e
    → any (same_excuse new) rows ≡ true
unfolding row_at
taken new e [] there = cc
taken new e (x ∷ rows) there = elim (Bool-cases (x.id == new.id)) [
  | inl hit ↦ ground (arith, hit)
  | inr miss ↦ ground (arith, miss, taken new e rows)
]

module _ (id : ℕ) (e : ExcuseRequest) where
  chosen :
      {A : Type 0} (c : Bool) (x y : Result Error A × Tables)
      → Stands id e x.1
      → Stands id e y.1
      → Stands id e (if c then x else y).1
  chosen true x y h k = h
  chosen false x y h k = k

  create_excuse-Stands : (new : ExcuseRequest) → Keeps (Stands id e) (create_excuse new)
  unfolding Keeps Stands create_excuse row_at
  create_excuse-Stands new t stands = elim (Bool-cases (any (same_excuse new) t.excuses)) [
    | inl clash ↦ rw clash stands
    | inr free ↦ elim (Bool-cases (new.id == id)) [
      | inl hit ↦
          let clash = taken new e t.excuses (
            subst (λ i. row_at excuse_key i t.excuses ≡ some e) (sym ((==_iff new.id id).0 hit))
              stands) in
          ground (arith, clash, free)
      | inr miss ↦ rw free (
          chosen (refers new.lesson_id new.student_id t)
            (ok tt, record t { excuses = new ∷ t.excuses }) (err foreign_key_violation, t)
            (rw miss stands) stands)
    ]
  ]

  review_excuse-Stands :
      is_pending e.status ≡ false
      → (other reviewer : ℕ) (status : ExcuseStatus) (note : Option ℕ) (at : ℕ)
      → Keeps (Stands id e) (review_excuse other reviewer status note at)
  unfolding Keeps Stands review_excuse
  review_excuse-Stands decided other reviewer status note at t stands =
      go
        (affect excuse_key other (λ x. is_pending x.status) (reviewed status note reviewer at)
          t.excuses)
        refl
    where
      go :
          (o : Option (ExcuseRequest × List ExcuseRequest))
          → affect excuse_key other
              (λ x. is_pending x.status)
              (reviewed status note reviewer at)
              t.excuses
            ≡ o
          → Stands id e (excuses_or_reviewed reviewer t o).1
      go none q = stands
      go (some (x, rows)) q =
          let (r, there, open_, is_x, is_rows) =
            affect-some excuse_key other (λ y. is_pending y.status)
              (reviewed status note reviewer at) t.excuses {r' = x} {rows' = rows} q in
          chosen (contains reviewer t.users) (ok tt, record t { excuses = rows })
            (err foreign_key_violation, t)
            (elim (Bool-cases (other == id)) [
              | inl hit ↦
                  let at_id : row_at excuse_key id t.excuses ≡ some r =
                    subst (λ i. row_at excuse_key i t.excuses ≡ some r) ((==_iff other id).0 hit)
                      there in
                  let same = sym at_id ∙ stands in ground (arith, same, open_, decided)
              | inr miss ↦
                  subst (λ xs. row_at excuse_key id xs ≡ some e) (sym is_rows)
                    (row_at-replace_row_ne excuse_key other id (reviewed status note reviewer at)
                        t.excuses (λ y. refl) (ground (arith, miss, (==_iff other id).1))
                      ∙ stands)
            ])
            stands

  lesson_for_attendance-Stands :
      (offering lesson : ℕ) → Keeps (Stands id e) (lesson_for_attendance offering lesson)
  unfolding Keeps lesson_for_attendance
  lesson_for_attendance-Stands offering lesson t stands = stands

  initialized-Stands :
      (lesson : ℕ) (ids : List ℕ) (t : Tables)
      → Stands id e t
      → Stands id e (initialized lesson ids t).1
  unfolding Stands
  initialized-Stands lesson [] t stands = stands
  initialized-Stands lesson (student ∷ ids) t stands =
      elim (Bool-cases (any (on_sheet lesson student) t.attendance)) [
        | inl there ↦ rw there (initialized-Stands lesson ids t stands)
        | inr missing ↦ rw missing (
            initialized-Stands lesson ids
              (record t {
                attendance = blank t.fresh_id lesson student ∷ t.attendance;
                fresh_id = t.fresh_id + 1;
              })
              stands)
      ]

  initialize_unless_empty-Stands :
      (lesson : ℕ) (ids : List ℕ) → Keeps (Stands id e) (initialize_unless_empty lesson ids)
  unfolding Keeps initialize_attendance Stands
  initialize_unless_empty-Stands lesson [] t stands = stands
  initialize_unless_empty-Stands lesson (x ∷ ids) t stands =
      let (n, t') = initialized lesson (x ∷ ids) t in
      chosen (all (insertable lesson t) (x ∷ ids)) (ok n, t') (err foreign_key_violation, t)
        (initialized-Stands lesson (x ∷ ids) t stands) stands

  get_attendance-Stands : (offering row : ℕ) → Keeps (Stands id e) (get_attendance offering row)
  unfolding Keeps get_attendance
  get_attendance-Stands offering row t stands = stands

  mark_attendance-Stands :
      (row marker percentage at : ℕ)
      → Keeps (Stands id e) (mark_attendance row marker percentage at)
  unfolding Keeps mark_attendance Stands
  mark_attendance-Stands row marker percentage at t stands =
      go (affect attendance_key row (λ a. true) _ t.attendance)
    where
      go : (o : Option _) → Stands id e (rows_or_missing marker t o).1
      go none = stands
      go (some (_, rows)) =
          chosen (contains marker t.users) (ok tt, record t { attendance = rows })
            (err foreign_key_violation, t) stands stands

  bulk_mark-Stands :
      (lesson marker : ℕ) (updates : List AttendanceUpdate) (at : ℕ)
      → Keeps (Stands id e) (bulk_mark lesson marker updates at)
  unfolding Keeps bulk_mark Stands
  bulk_mark-Stands lesson marker updates at t stands =
      go (is_empty updates || contains marker t.users)
        (mark_rows lesson marker at updates t.attendance)
        (mark_rows lesson marker at (first_of updates) t.attendance)
    where
      go : (known : Bool) (o first : Option _) → Stands id e (committed known t o first).1
      go true none first = stands
      go true (some rows) first = stands
      go false o none = stands
      go false o (some _) = stands

  get_excuse-Stands : (offering row : ℕ) → Keeps (Stands id e) (get_excuse offering row)
  unfolding Keeps get_excuse
  get_excuse-Stands offering row t stands = stands

  pub initialize-Stands :
      (enrolled : Result Error (List ℕ)) (offering lesson : ℕ)
      → Keeps (Stands id e) (initialize enrolled offering lesson)
  unfolding initialize
  initialize-Stands enrolled offering lesson =
      bind-Keeps (Stands id e) _ _ (lesson_for_attendance-Stands offering lesson) (λ required.
        guard-Keeps (Stands id e) (not required) _ _ (
          bind-Keeps (Stands id e) _ _ (lift-Keeps (Stands id e) enrolled)
            (initialize_unless_empty-Stands lesson)))

  pub mark-Stands :
      (now offering lesson marker : ℕ) (updates : List AttendanceUpdate)
      → Keeps (Stands id e) (mark now offering lesson marker updates)
  unfolding mark
  mark-Stands now offering lesson marker updates =
      bind-Keeps (Stands id e) _ _ (lesson_for_attendance-Stands offering lesson) (λ required.
        guard-Keeps (Stands id e) (not required) _ _
          (guard-Keeps (Stands id e) _ _ _ (bulk_mark-Stands lesson marker updates now)))

  pub update_mark-Stands :
      (now offering row marker percentage : ℕ)
      → Keeps (Stands id e) (update_mark now offering row marker percentage)
  unfolding update_mark
  update_mark-Stands now offering row marker percentage =
      guard-Keeps (Stands id e) (not (valid_percentage percentage)) _ _ (
        bind-Keeps (Stands id e) _ _ (get_attendance-Stands offering row)
          (λ _. mark_attendance-Stands row marker percentage now))

  pub request_excuse-Stands :
      (now new offering lesson user reason : ℕ)
      → Keeps (Stands id e) (request_excuse now new offering lesson user reason)
  unfolding request_excuse
  request_excuse-Stands now new offering lesson user reason =
      guard-Keeps (Stands id e) (reason == 0) _ _ (
        bind-Keeps (Stands id e) _ _ (lesson_for_attendance-Stands offering lesson) (λ required.
          guard-Keeps (Stands id e) (not required) _ _ (
            bind-Keeps (Stands id e) _ _
              (create_excuse-Stands (new_excuse now new lesson user reason))
              (λ _. pure-Keeps Error (Stands id e) _))))

  pub review-Stands :
      is_pending e.status ≡ false
      → (now offering row reviewer : ℕ) (status : ExcuseStatus) (note : Option ℕ)
      → Keeps (Stands id e) (review now offering row reviewer status note)
  unfolding review
  review-Stands decided now offering row reviewer status note =
      guard-Keeps (Stands id e) (not (valid_excuse_decision status)) _ _ (
        bind-Keeps (Stands id e) _ _ (get_excuse-Stands offering row) (λ x.
          guard-Keeps (Stands id e) (x.student_id == reviewer) _ _
            (review_excuse-Stands decided row reviewer status note now)))

kept :
    (lesson id : ℕ) (e : ExcuseRequest) (rows : List ExcuseRequest)
    → (e.lesson_id == lesson) ≡ false
    → row_at excuse_key id rows ≡ some e
    → row_at excuse_key id (keep (λ x. not (x.lesson_id == lesson)) rows) ≡ some e
unfolding row_at
kept lesson id e [] other there = cc
kept lesson id e (x ∷ rows) other there = elim (Bool-cases (x.id == id)) [
  | inl hit ↦
      let is_e : some x ≡ some e = rw hit at there in
      let apart : (x.lesson_id == lesson) ≡ false = ground (arith, is_e, other) in
      rw (apart, hit) is_e
  | inr miss ↦
      let rest = kept lesson id e rows other (rw miss at there) in
      elim (Bool-cases (x.lesson_id == lesson)) [
        | inl gone ↦ rw gone rest
        | inr stays ↦ rw (stays, miss) rest
      ]
]

pub delete_lesson-Stands :
    (offering lesson id : ℕ) (e : ExcuseRequest)
    → (e.lesson_id == lesson) ≡ false
    → Keeps (Stands id e) (delete_lesson offering lesson)
unfolding Keeps Stands delete_lesson
delete_lesson-Stands offering lesson id e other t stands =
    elim (Bool-cases (offering_of offering lesson t)) [
      | inl there ↦ rw there (kept lesson id e t.excuses other stands)
      | inr missing ↦ rw missing stands
    ]
