-- ===== src/Management/Leave/Serving.antt =====
-- Any sequence of requests to the leave service of internal/management/leave.go, and of calls of
-- UpdateStudent of student.go.
use e_campus_server.Prelude.{
  ℕ, ◌≤◌, ◌≡◌, ap, ◌∙◌, inl, inr, Bool, true, false, ◌||◌, any, not, some, List, [], ◌∷◌, arith,
  Bool-cases, count_where, row_at, affect-row, replace_row, row_at-replace_row_self, row_at-key,
  Result, ok, err, Method, ◌>>=◌, ◌>>◌, pure, Keeps, guard-Keeps, bind-Keeps, pure-Keeps,
}
use e_campus_server.Management.Errors.{Error}
use e_campus_server.Management.Leave.Data.{
  Leave, Student, StudentUpdate, LeaveRequest, active, on_leave, valid_leave_type, leave_withdraws,
}
use e_campus_server.Management.Leave.Postgres.{
  Tables, leave_key, student_key, open_of, is_open, create_leave, approve_leave, end_leave,
  add_leave_semesters, get_leave_semesters, get_student, set_student_status,
  withdraw_enrollments_for_leave, moved, closed, same_status, status_set, leave_written,
}
use e_campus_server.Management.Leave.Service.{
  request_leave, approve, finish, requested, unless_empty, withdraw_and_move, follow_on,
  edit_student,
}
use e_campus_server.Management.Leave.Sound.{
  holds, OnLeaveHas, HeldFor, Sound, Approved, Ended, approve_leave-Approved, end_leave-Ended,
  create_leave-Sound,
}
use e_campus_server.Management.Leave.Edits.{puts_on_leave, edit_student-Sound}
use e_campus_server.Management.Leave.Status.{set_student_status-Sound, reactivated-Sound}

-- Nothing is written after an outcome.
answered :
    {A C : Type 0} (p : Result Error A × Tables) (c : C) (t : Tables)
    → Sound p.1
    → Sound (((λ _. p) >> pure {S = Tables} {E = Error} c) t).1
answered (ok a, s) c t h = h
answered (err e, s) c t h = h

-- Withdrawing enrollments and moving the student, for whom there is the leave.
moves :
    (l : Leave) (ids : List ℕ) (s : Tables)
    → Sound s
    → 1 ≤ count_where (holds l.student_id) s.leaves
    → Sound (withdraw_and_move l ids s).1
unfolding withdraw_enrollments_for_leave Sound
moves l [] s h has = set_student_status-Sound l.student_id active on_leave s (λ on. has) h
moves l (x ∷ ids) s h has =
    set_student_status-Sound l.student_id active on_leave
      (withdraw_enrollments_for_leave l.student_id (x ∷ ids) s).1 (λ on. has) h

approve-Sound : (id approver : ℕ) → Keeps Sound (approve id approver)
unfolding Keeps approve get_leave_semesters
approve-Sound id approver t sound =
    go (approve_leave id approver t) (approve_leave-Approved id approver t sound)
  where
    answer : Leave → List ℕ → Method Tables Error (Leave × List ℕ)
    answer leave ids = pure (leave, ids)

    rest : Leave → Method Tables Error (Leave × List ℕ)
    rest leave = get_leave_semesters id >>= λ ids.
        follow_on (leave_withdraws leave.type) leave ids >> answer leave ids

    go : (p : Result Error Leave × Tables) → Approved p → Sound (((λ _. p) >>= rest) t).1
    go (err e, s) h = h
    go (ok l, s) (h, has) = elim (Bool-cases (leave_withdraws l.type)) [
      | inr brief ↦ rw brief h
      | inl long ↦ rw long (answered (withdraw_and_move l _ s) _ s (moves l _ s h (has long)))
    ]

finish-Sound : (id : ℕ) → Keeps Sound (finish id)
unfolding Keeps finish
finish-Sound id t sound = go (end_leave id t) (end_leave-Ended id t sound)
  where
    rest : Leave → Method Tables Error Leave
    rest leave = set_student_status leave.student_id on_leave active >> pure leave

    go : (p : Result Error Leave × Tables) → Ended p → Sound (((λ _. p) >>= rest) t).1
    go (err e, s) h = h
    go (ok l, s) h =
        answered (set_student_status l.student_id on_leave active s) l s
          (reactivated-Sound l.student_id s h)

add_leave_semesters-Sound :
    (leave : ℕ) (ids : List ℕ) → Keeps Sound (unless_empty ids (add_leave_semesters leave ids))
unfolding Keeps add_leave_semesters Sound
add_leave_semesters-Sound leave [] t h = h
add_leave_semesters-Sound leave (x ∷ ids) t h = h

get_student-Sound : (id : ℕ) → Keeps Sound (get_student id)
unfolding Keeps get_student
get_student-Sound id t h = h

request_leave-Sound : (student : ℕ) (req : LeaveRequest) → Keeps Sound (request_leave student req)
unfolding request_leave
request_leave-Sound student req = guard-Keeps Sound (not (valid_leave_type req.type)) _ _ (
    bind-Keeps Sound (get_student student) _ (get_student-Sound student) (λ _.
      bind-Keeps Sound (create_leave (requested student req)) _
        (create_leave-Sound (requested student req))
        (λ leave.
          bind-Keeps Sound
            (unless_empty req.semester_ids (add_leave_semesters leave.id req.semester_ids)) _
            (add_leave_semesters-Sound leave.id req.semester_ids) (λ _. pure-Keeps Error Sound _))))

pub data Request : Type 0 where
  requests : ℕ → LeaveRequest → Request
  approves : ℕ → ℕ → Request
  ends : ℕ → Request
  edits : ℕ → StudentUpdate → Request
  clock : ℕ → Request

-- The tables after one request, whatever it answered; and the passing of time.
unfoldable pub serve : Request → Tables → Tables
serve (requests student req) t = (request_leave student req t).1
serve (approves id approver) t = (approve id approver t).1
serve (ends id) t = (finish id t).1
serve (edits id upd) t = (edit_student id upd t).1
serve (clock now) t = record t { now = now }

unfoldable pub serve_all : List Request → Tables → Tables
serve_all [] t = t
serve_all (r ∷ rs) t = serve_all rs (serve r t)

-- An edit of a student that sets the status on leave.
abbrev pub edits_on_leave : Request → Bool
edits_on_leave (edits id upd) = puts_on_leave upd
edits_on_leave _ = false

or-false : (a b : Bool) → (a || b) ≡ false → (a ≡ false) × (b ≡ false)
or-false a b h = ground arith

serve_all-Keeps :
    (rs : List Request) (t : Tables)
    → any edits_on_leave rs ≡ false
    → Sound t
    → Sound (serve_all rs t)
unfolding serve_all serve Keeps Sound
serve_all-Keeps [] t other h = h
serve_all-Keeps (edits id upd ∷ rs) t other h =
    let (this, rest) = or-false (puts_on_leave upd) _ other in
    serve_all-Keeps rs _ rest (edit_student-Sound id upd this t h)
serve_all-Keeps (requests student req ∷ rs) t other h =
    serve_all-Keeps rs _ other (request_leave-Sound student req t h)
serve_all-Keeps (approves id approver ∷ rs) t other h =
    serve_all-Keeps rs _ other (approve-Sound id approver t h)
serve_all-Keeps (ends id ∷ rs) t other h = serve_all-Keeps rs _ other (finish-Sound id t h)
serve_all-Keeps (clock now ∷ rs) t other h = serve_all-Keeps rs _ other h

-- Whatever requests to the leave service and calls of UpdateStudent were served, one after the other,
-- since there were no leaves and nobody was on leave, if no such call sets the status on leave: every
-- student has at most one open leave, and a student on leave has an open, approved leave that is not
-- short.
pub serve_all-HeldFor :
    (rs : List Request) (t : Tables) (student : ℕ)
    → any edits_on_leave rs ≡ false
    → t.leaves ≡ []
    → ((x : ℕ) → OnLeaveHas (row_at student_key x t.students) 0)
    → (count_where (open_of student) (serve_all rs t).leaves ≤ 1) × HeldFor student (serve_all rs t)
unfolding Sound
serve_all-HeldFor rs t student other empty nobody =
    let (one, held) =
      serve_all-Keeps rs t other (rw empty (λ s. omega arith), λ x. rw empty (nobody x)) in
    (one student, held student)

ended :
    (id : ℕ) (t : Tables) (l : Leave)
    → row_at leave_key id t.leaves ≡ some l
    → is_open l ≡ true
    → end_leave id t ≡ (
      ok (closed t.now l),
      record t { leaves = replace_row leave_key id (closed t.now) t.leaves },
    )
unfolding end_leave
ended id t l there open_ =
    ap (leave_written _ t)
      (rw open_ at (affect-row leave_key id is_open (closed t.now) t.leaves l there))

back_from_leave :
    (x : ℕ) (t : Tables) (s : Student)
    → row_at student_key x t.students ≡ some s
    → s.status ≡ on_leave
    → set_student_status x on_leave active t
      ≡ (ok true, record t { students = replace_row student_key x (moved active) t.students })
unfolding set_student_status
back_from_leave x t s there status = ap (status_set t) (
    rw status at (
      affect-row student_key x (λ y. same_status y.status on_leave) (moved active) t.students s
        there))

-- The end of any open leave, whatever its type and whether it was approved or not, makes its student
-- active who is on leave.
pub finish-reactivates :
    (id : ℕ) (t : Tables) (l : Leave) (s : Student)
    → row_at leave_key id t.leaves ≡ some l
    → is_open l ≡ true
    → row_at student_key l.student_id t.students ≡ some s
    → s.status ≡ on_leave
    → row_at student_key l.student_id (finish id t).1.students ≡ some (moved active s)
unfolding finish
finish-reactivates id t l s there open_ enrolled status =
    let t' : Tables = record t { leaves = replace_row leave_key id (closed t.now) t.leaves } in
    let give : Leave → Method Tables Error Leave = λ leave. pure leave in
    let rest : Result Error Leave × Tables → Tables = λ p.
      (((λ _. p) >>= λ leave. set_student_status leave.student_id on_leave active >> give leave)
        t).1 in
    let last : Result Error Bool × Tables → Tables =
      λ p. (((λ _. p) >> give (closed t.now l)) t').1 in
    ap (λ r. row_at student_key l.student_id r.students)
      (ap rest (ended id t l there open_)
        ∙ ap last (back_from_leave l.student_id t' s enrolled status))
    ∙ row_at-replace_row_self student_key l.student_id (moved active) t.students {r = s} enrolled
        (row_at-key student_key l.student_id t.students {r = s} enrolled)
