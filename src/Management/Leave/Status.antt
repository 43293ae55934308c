-- ===== src/Management/Leave/Status.antt =====
-- Moving a student's status keeps what holds of leaves.
use e_campus_server.Prelude.{
  ℕ, ◌≤◌, ◌≡◌, ◌≢◌, refl, sym, ◌∙◌, subst, inl, inr, Bool, true, false, Option, none, some, List,
  ◌==◌, ==_iff, arith, Bool-cases, count_where, affect, row_at, replace_row, affect-row,
  affect-missing, row_at-key, row_at-replace_row_self, row_at-replace_row_ne,
}
use e_campus_server.Management.Leave.Data.{
  Student, StudentStatus, active, on_leave, is_on_leave, graduated, withdrawn, suspended,
}
use e_campus_server.Management.Leave.Postgres.{
  Tables, student_key, same_status, moved, status_set, set_student_status,
}
use e_campus_server.Management.Leave.Sound.{holds, OnLeaveHas, HeldFor, Sound, SoundBut}

-- A student's status is moved when it is `from`.
status_row :
    (id : ℕ) (from to : StudentStatus) (t : Tables) (P : Tables → Type 0)
    → (row_at student_key id t.students ≡ none → P t)
    → ((r : Student)
        → row_at student_key id t.students ≡ some r
        → same_status r.status from ≡ false
        → P t)
    → ((r : Student)
        → row_at student_key id t.students ≡ some r
        → same_status r.status from ≡ true
        → P (record t { students = replace_row student_key id (moved to) t.students }))
    → P (set_student_status id from to t).1
unfolding set_student_status
status_row id from to t P gone other hit = go (row_at student_key id t.students) refl
  where
    wrote : Option (Student × List Student) → Type 0
    wrote o = P (status_set t o).1

    p : Student → Bool
    p s = same_status s.status from

    go :
        (o : Option Student)
        → row_at student_key id t.students ≡ o
        → wrote (affect student_key id p (moved to) t.students)
    go none q = subst wrote (sym (affect-missing student_key id p (moved to) t.students q)) (gone q)
    go (some r) q =
        subst wrote (sym (affect-row student_key id p (moved to) t.students r q))
          (elim (Bool-cases (same_status r.status from)) [
            | inl h ↦ rw h (hit r q h)
            | inr h ↦ rw h (other r q h)
          ])

-- One student's row is another.
pub replaced-HeldFor :
    (x : ℕ) (f : Student → Student) (t : Tables) (r : Student)
    → ((s : Student) → (f s).user_id ≡ s.user_id)
    → row_at student_key x t.students ≡ some r
    → (is_on_leave (f r).status ≡ true → 1 ≤ count_where (holds x) t.leaves)
    → ((student : ℕ) → x ≢ student → HeldFor student t)
    → (student : ℕ)
    → HeldFor student (record t { students = replace_row student_key x f t.students })
replaced-HeldFor x f t r same there has others student = elim (Bool-cases (x == student)) [
  | inl hit ↦
      subst (λ y. HeldFor y (record t { students = replace_row student_key x f t.students }))
        ((==_iff x student).0 hit)
        (subst (λ o. OnLeaveHas o (count_where (holds x) t.leaves))
          (sym (
            row_at-replace_row_self student_key x f t.students {r = r} there
              (same r ∙ row_at-key student_key x t.students {r = r} there)))
          has)
  | inr miss ↦
      let ne : x ≢ student = ground (arith, miss, (==_iff x student).1) in
      subst (λ o. OnLeaveHas o (count_where (holds student) t.leaves))
        (sym (row_at-replace_row_ne student_key x student f t.students same ne)) (others student ne)
]

-- Someone whom a leave holds may be put on leave, and anyone may be moved to another status.
pub set_student_status-Sound :
    (x : ℕ) (from to : StudentStatus) (t : Tables)
    → (is_on_leave to ≡ true → 1 ≤ count_where (holds x) t.leaves)
    → Sound t
    → Sound (set_student_status x from to t).1
unfolding Sound
set_student_status-Sound x from to t has (one, held) =
    status_row x from to t Sound (λ e. (one, held)) (λ r e h. (one, held))
      (λ r there h. (one, replaced-HeldFor x (moved to) t r (λ s. refl) there has (λ s ne. held s)))

not_on_leave : (s : StudentStatus) → same_status s on_leave ≡ false → is_on_leave s ≡ false
not_on_leave active h = refl
not_on_leave graduated h = refl
not_on_leave withdrawn h = refl
not_on_leave suspended h = refl
not_on_leave on_leave h = cc
not_on_leave (StudentStatus.other n) h = refl

filled :
    (x : ℕ) (t : Tables)
    → HeldFor x t
    → ((student : ℕ) → x ≢ student → HeldFor student t)
    → (student : ℕ) → HeldFor student t
filled x t at others student = elim (Bool-cases (x == student)) [
  | inl hit ↦ subst (λ y. HeldFor y t) ((==_iff x student).0 hit) at
  | inr miss ↦ others student (ground (arith, miss, (==_iff x student).1))
]

-- Reactivating the one student that may be on leave without a leave.
pub reactivated-Sound :
    (x : ℕ) (t : Tables) → SoundBut x t → Sound (set_student_status x on_leave active t).1
unfolding Sound SoundBut
reactivated-Sound x t (one, others) =
    status_row x on_leave active t Sound
      (λ e. (
        one,
        filled x t (subst (λ o. OnLeaveHas o (count_where (holds x) t.leaves)) (sym e) tt) others,
      ))
      (λ r e h. (
        one,
        filled x t
            (subst (λ o. OnLeaveHas o (count_where (holds x) t.leaves)) (sym e)
              (λ on. ground (arith, on, not_on_leave r.status h)))
            others,
      ))
      (λ r there h.
        (one, replaced-HeldFor x (moved active) t r (λ s. refl) there (λ on. cc) others))
