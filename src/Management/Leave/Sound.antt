-- ===== src/Management/Leave/Sound.antt =====
-- The statements on leaves and on a student's status keep what holds of them.
use e_campus_server.Prelude.{
  ℕ, ◌≤◌, ◌≡◌, ◌≢◌, refl, subst, inl, inr, Bool, true, ◌&&◌, ◌||◌, Option, none, some, List, ◌==◌,
  ==_iff, arith, Bool-cases, any, count_where, count_where-replace_row, count_where-any, is_set,
  contains, false, affect, row_at, replace_row, affect-some, Keeps, Result, ok, err,
}
use e_campus_server.Management.Errors.{Error}
use e_campus_server.Management.Leave.Data.{Leave, Student, is_on_leave, leave_withdraws}
use e_campus_server.Management.Leave.Postgres.{
  Tables, leave_key, student_key, is_open, open_of, create_leave, approvable, approved,
  approve_leave, closed, end_leave, leave_written, leave_signed, refers,
}

-- An open, approved leave of the kind that puts a student on leave.
abbrev pub holds : ℕ → Leave → Bool
holds student l = open_of student l && (is_set l.approved_at && leave_withdraws l.type)

abbrev pub OnLeaveHas : Option Student → ℕ → Type 0
OnLeaveHas none n = Unit
OnLeaveHas (some s) n = is_on_leave s.status ≡ true → 1 ≤ n

-- Every student has at most one open leave.
abbrev pub OneOpen : List Leave → Type 0
OneOpen leaves = (student : ℕ) → count_where (open_of student) leaves ≤ 1

abbrev pub HeldFor : ℕ → Tables → Type 0
HeldFor student t =
    OnLeaveHas (row_at student_key student t.students) (count_where (holds student) t.leaves)

-- And a student on leave has an open, approved leave that is not short.
unfoldable pub Sound : Tables → Type 0
Sound t = OneOpen t.leaves × ((student : ℕ) → HeldFor student t)

-- The same, but for one student's status.
unfoldable pub SoundBut : ℕ → Tables → Type 0
SoundBut x t = OneOpen t.leaves × ((student : ℕ) → x ≢ student → HeldFor student t)

pub OnLeaveHas-more : (o : Option Student) (n m : ℕ) → n ≤ m → OnLeaveHas o n → OnLeaveHas o m
OnLeaveHas-more none n m le h = tt
OnLeaveHas-more (some s) n m le h = λ on. omega (arith, le, h on)

-- One leave is replaced, with which no leave is opened.
fewer_open :
    (id : ℕ) (f : Leave → Leave) (rows : List Leave) (r : Leave)
    → row_at leave_key id rows ≡ some r
    → ((student : ℕ) → open_of student (f r) ≡ true → open_of student r ≡ true)
    → OneOpen rows
    → OneOpen (replace_row leave_key id f rows)
fewer_open id f rows r there shuts one student =
    let counted = count_where-replace_row (open_of student) leave_key id f rows r there in
    ground (arith, counted, shuts student, one student)

-- What an approval leaves: when it withdraws enrollments, the leave holds its student.
abbrev pub Approved : Result Error Leave × Tables → Type 0
Approved (err e, t) = Sound t
Approved (ok l, t) =
    Sound t × (leave_withdraws l.type ≡ true → 1 ≤ count_where (holds l.student_id) t.leaves)

pub approve_leave-Approved :
    (id approver : ℕ) (t : Tables) → Sound t → Approved (approve_leave id approver t)
unfolding Sound approve_leave
approve_leave-Approved id approver t (one, held) =
    go (contains approver t.users) (affect leave_key id approvable f t.leaves) refl _
  where
    f : Leave → Leave
    f = approved approver t.now

    go :
        (known : Bool) (o : Option (Leave × List Leave))
        → affect leave_key id approvable f t.leaves ≡ o
        → (e : Error) → Approved (leave_signed known e t o)
    go true none q e = (one, held)
    go false none q e = (one, held)
    go false (some _) q e = (one, held)
    go true (some (l, rows)) q e =
        let (r, there, fits, is_l, is_rows) =
          affect-some leave_key id approvable f t.leaves {r' = l} {rows' = rows} q in
        rw (is_l, is_rows)
          (
            (
              fewer_open id f t.leaves r there (λ s h. h) one,
              λ student.
                  let counted =
                    count_where-replace_row (holds student) leave_key id f t.leaves r there in
                  OnLeaveHas-more (row_at student_key student t.students)
                    (count_where (holds student) t.leaves) _ (ground (arith, counted))
                    (held student),
            ),
            λ kind.
                let counted =
                  count_where-replace_row (holds r.student_id) leave_key id f t.leaves r there in
                ground (arith, counted, kind, fits, (==_iff r.student_id r.student_id).1),
          )

-- What the end of a leave leaves: only its student may be on leave without one.
abbrev pub Ended : Result Error Leave × Tables → Type 0
Ended (err e, t) = Sound t
Ended (ok l, t) = SoundBut l.student_id t

pub end_leave-Ended : (id : ℕ) (t : Tables) → Sound t → Ended (end_leave id t)
unfolding Sound SoundBut end_leave
end_leave-Ended id t (one, held) = go (affect leave_key id is_open (closed t.now) t.leaves) refl _
  where
    go :
        (o : Option (Leave × List Leave))
        → affect leave_key id is_open (closed t.now) t.leaves ≡ o
        → (e : Error) → Ended (leave_written e t o)
    go none q e = (one, held)
    go (some (l, rows)) q e =
        let (r, there, fits, is_l, is_rows) =
          affect-some leave_key id is_open (closed t.now) t.leaves {r' = l} {rows' = rows} q in
        rw (is_l, is_rows)
          (
            fewer_open id (closed t.now) t.leaves r there (λ s h. ground (arith, h)) one,
            λ student other.
                let counted =
                  count_where-replace_row (holds student) leave_key id (closed t.now) t.leaves r
                    there in
                OnLeaveHas-more (row_at student_key student t.students)
                  (count_where (holds student) t.leaves) _
                  (ground (arith, counted, other, (==_iff r.student_id student).0)) (held student),
          )

pub create_leave-Sound : (l : Leave) → Keeps Sound (create_leave l)
unfolding Keeps Sound create_leave
create_leave-Sound l t (one, held) =
    elim (Bool-cases
      (any (open_of l.student_id) t.leaves || is_set (row_at leave_key t.fresh_id t.leaves))) [
        | inl taken ↦ rw taken (one, held)
        | inr free ↦ elim (Bool-cases (refers l t)) [
          | inr unknown ↦ rw (free, unknown) (one, held)
          | inl known ↦
              rw (free, known)
                (
                  λ student. elim (Bool-cases (l.student_id == student)) [
                    | inl same ↦
                        let none_yet : count_where (open_of l.student_id) t.leaves ≡ 0 =
                          count_where-any (open_of l.student_id) t.leaves (ground (arith, free)) in
                        let none_of : count_where (open_of student) t.leaves ≡ 0 =
                          subst (λ x. count_where (open_of x) t.leaves ≡ 0)
                            ((==_iff l.student_id student).0 same) none_yet in
                        ground (arith, same, none_of)
                    | inr differ ↦ ground (arith, differ, one student)
                  ],
                  λ student.
                      OnLeaveHas-more (row_at student_key student t.students)
                        (count_where (holds student) t.leaves) _ (ground arith) (held student),
                )
        ]
      ]
