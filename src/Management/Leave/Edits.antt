-- ===== src/Management/Leave/Edits.antt =====
-- Leaves under UpdateStudent of internal/management/student.go.
use e_campus_server.Prelude.{
  ℕ, zero, suc, ◌≤◌, ◌≡◌, refl, sym, subst, inl, inr, Bool, true, false, not, Option, none, some,
  List, Bool-cases, count_where, row_at, affect-row, row_at-key, Keeps, guard-Keeps, value_or,
  Result, ok, err, Method, attempt, ◌>>=◌, ◌==◌,
}
use e_campus_server.Management.Errors.{Error, is_conflict, invalid_status}
use e_campus_server.Management.Leave.Data.{
  Student, StudentStatus, StudentUpdate, patched, is_on_leave, valid_shift, valid_tuition,
  valid_student_status,
}
use e_campus_server.Management.Leave.Postgres.{
  Tables, student_key, get_student, store_student, student_stored, set_student_columns, found,
}
use e_campus_server.Management.Leave.Service.{edit_student, edit_rounds, finish_edit, valid_if_set}
use e_campus_server.Management.Leave.Sound.{holds, OnLeaveHas, Sound}
use e_campus_server.Management.Leave.Status.{replaced-HeldFor}

abbrev sets_on_leave : Option StudentStatus → Bool
sets_on_leave none = false
sets_on_leave (some status) = is_on_leave status

abbrev pub puts_on_leave : StudentUpdate → Bool
puts_on_leave upd = sets_on_leave upd.status

-- The status after an edit that puts nobody on leave.
edited_status :
    (o : Option StudentStatus) (s : Student) (n : ℕ)
    → sets_on_leave o ≡ false
    → OnLeaveHas (some s) n
    → is_on_leave (value_or o s.status) ≡ true
    → 1 ≤ n
edited_status none s n other held on = held on
edited_status (some status) s n other held on = cc

store_student-Sound :
    (id : ℕ) (upd : StudentUpdate) (s : Student) (expected : ℕ) (t : Tables)
    → puts_on_leave upd ≡ false
    → row_at student_key id t.students ≡ some s
    → Sound t
    → Sound (store_student (patched upd s) expected t).1
unfolding store_student Sound
store_student-Sound id upd s expected t other there (one, held) =
    subst wrote (sym (affect-row student_key s.user_id p f t.students s at))
      (elim (Bool-cases (p s)) [
        | inl h ↦ rw h (
          one,
          replaced-HeldFor s.user_id f t s (λ r. refl) at
              (edited_status upd.status s (count_where (holds s.user_id) t.leaves) other (
                subst (λ o. OnLeaveHas o (count_where (holds s.user_id) t.leaves)) at
                  (held s.user_id)))
              (λ student ne. held student),
        )
        | inr h ↦ rw h (missed (row_at student_key s.user_id t.students))
      ])
  where
    f : Student → Student
    f = set_student_columns (patched upd s)

    p : Student → Bool
    p r = r.version == expected

    wrote : Option (Student × List Student) → Type 0
    wrote o = Sound (student_stored t (row_at student_key s.user_id t.students) o).1

    missed : (o : Option Student) → Sound (student_stored t o none).1
    missed none = (one, held)
    missed (some _) = (one, held)

    at : row_at student_key s.user_id t.students ≡ some s
    at =
        subst (λ x. row_at student_key x t.students ≡ some s)
          (sym (row_at-key student_key id t.students {r = s} there)) there

-- The end of a round.
finished :
    (student : Student) (again : Method Tables Error Student) (t : Tables)
    → Keeps Sound again
    → (p : Result Error ℕ × Tables) → Sound p.1
    → Sound ((attempt (λ _. p) >>= finish_edit student again) t).1
unfolding Keeps
finished student again t keeps (ok v, s) h = h
finished student again t keeps (err e, s) h = elim (Bool-cases (is_conflict e)) [
  | inl lost ↦ rw lost (keeps s h)
  | inr refused ↦ rw refused h
]

-- A round, on what it reads.
round :
    (again : Method Tables Error Student) (id : ℕ) (upd : StudentUpdate) (t : Tables)
    → puts_on_leave upd ≡ false
    → Sound t
    → Keeps Sound again
    → (o : Option Student) → row_at student_key id t.students ≡ o
    → Sound
        (((λ _. (found o, t)) >>= λ student.
            attempt (store_student (patched upd student) student.version)
            >>= finish_edit (patched upd student) again)
          t).1
round again id upd t other sound keeps none there = sound
round again id upd t other sound keeps (some s) there =
    finished (patched upd s) again t keeps (store_student (patched upd s) s.version t)
      (store_student-Sound id upd s s.version t other there sound)

edit_rounds-Sound :
    (rounds id : ℕ) (upd : StudentUpdate)
    → puts_on_leave upd ≡ false
    → Keeps Sound (edit_rounds rounds id upd)
unfolding Keeps edit_rounds get_student
edit_rounds-Sound zero id upd other t sound = sound
edit_rounds-Sound (suc rounds) id upd other t sound =
    round (edit_rounds rounds id upd) id upd t other sound (edit_rounds-Sound rounds id upd other)
      (row_at student_key id t.students) refl

pub edit_student-Sound :
    (id : ℕ) (upd : StudentUpdate) → puts_on_leave upd ≡ false → Keeps Sound (edit_student id upd)
unfolding edit_student
edit_student-Sound id upd other =
    guard-Keeps Sound (not (valid_if_set valid_shift upd.shift)) invalid_status _ (
      guard-Keeps Sound (not (valid_if_set valid_tuition upd.tuition)) invalid_status _ (
        guard-Keeps Sound (not (valid_if_set valid_student_status upd.status)) invalid_status _
          (edit_rounds-Sound 3 id upd other)))
