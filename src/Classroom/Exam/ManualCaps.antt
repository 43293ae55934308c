-- ===== src/Classroom/Exam/ManualCaps.antt =====
-- Recording results of a manual exam keeps the caps of the online ones.
use e_campus_server.Prelude.{
  count_where-update_where, ℕ, ◌+◌, ◌≡◌, refl, sym, subst, Bool, false, Option, some, List, [], ◌∷◌,
  ◌==◌, ==_iff, arith, inl, inr, Bool-cases, is_set, find, update_where, row_at, Result, ok, err,
}
use e_campus_server.Classroom.Errors.{Error}
use e_campus_server.Classroom.Exam.Data.{Exam, Attempt, ResultVisibility, is_online}
use e_campus_server.Classroom.Exam.Postgres.{
  Tables, ManualResult, exam_key, of_student, is_open, has_parents,
}
use e_campus_server.Classroom.Exam.Attempts.{
  record_results, upsert_result, upsert_results, recorded, closed_by, stamp_used,
  commit_or_rollback,
}
use e_campus_server.Classroom.Exam.Caps.{Fits, Fits-fewer, WithinCaps, opens_of, total_of_student}

-- The caps hold, and the exam that is recorded is there and not online.
abbrev Recordable : ℕ → Tables → Type 0
Recordable exam t =
    WithinCaps t × (r : Exam) × (row_at exam_key exam t.exams ≡ some r) × (is_online r.mode ≡ false)

-- Attempts of that exam may change at will.
other_attempts-Recordable :
    (exam fresh : ℕ) (t : Tables) (rows : List Attempt)
    → ((x s : ℕ)
        → (exam == x) ≡ false
        → (opens_of x s rows ≡ opens_of x s t.attempts)
          × (total_of_student x s rows ≡ total_of_student x s t.attempts))
    → Recordable exam t
    → Recordable exam (record t { attempts = rows; fresh_id = fresh })
unfolding WithinCaps
other_attempts-Recordable exam fresh t rows same (caps, r, there, by_hand) = (
  λ x s. elim (Bool-cases (exam == x)) [
    | inl hit ↦
        subst (λ o. Fits o (opens_of x s rows) (total_of_student x s rows))
          (sym (subst (λ i. row_at exam_key i t.exams ≡ some r) ((==_iff exam x).0 hit) there))
          (λ online. cc)
    | inr miss ↦
        let (opens, total) = same x s miss in
        Fits-fewer (row_at exam_key x t.exams) _ _ _ _ (omega (arith, opens)) total (caps x s)
  ],
  r,
  there,
  by_hand,
)

upsert_result-Recordable :
    (exam : ℕ) (v : ResultVisibility) (at : Option ℕ) (res : ManualResult) (t : Tables)
    → Recordable exam t
    → Recordable exam (upsert_result exam v at res t)
unfolding upsert_result
upsert_result-Recordable exam v at res t inv =
    elim (Bool-cases (is_set (find (is_open exam res.student_id) t.attempts))) [
      | inl has ↦ rw has (
          other_attempts-Recordable exam t.fresh_id t
            (update_where (is_open exam res.student_id) (closed_by res v at t.now) t.attempts)
            (λ x s miss. (
              count_where-update_where (is_open x s) (is_open exam res.student_id)
                  (closed_by res v at t.now) t.attempts (λ a h. ground (arith, h, miss)),
              count_where-update_where (of_student x s) (is_open exam res.student_id)
                  (closed_by res v at t.now) t.attempts (λ a h. refl),
            ))
            inv)
      | inr new ↦ rw new (
          other_attempts-Recordable exam (t.fresh_id + 1) t (recorded exam res v at t ∷ t.attempts)
            (λ x s miss. (ground (arith, miss), ground (arith, miss))) inv)
    ]

upsert_results-Recordable :
    (exam : ℕ) (v : ResultVisibility) (at : Option ℕ) (results : List ManualResult) (t t' : Tables)
    → upsert_results exam v at results t ≡ ok t'
    → Recordable exam t
    → Recordable exam t'
unfolding upsert_results
upsert_results-Recordable exam v at [] t t' q inv =
    let same : t ≡ t' = cc in subst (λ u. Recordable exam u) same inv
upsert_results-Recordable exam v at (res ∷ results) t t' q inv =
    elim (Bool-cases (has_parents exam res.student_id t)) [
      | inl c ↦
          upsert_results-Recordable exam v at results (upsert_result exam v at res t) t' (rw c at q)
            (upsert_result-Recordable exam v at res t inv)
      | inr c ↦ let k = rw c at q in cc
    ]

-- The stamp leaves alone what the caps read.
stamped-Fits :
    (q : Exam → Bool) (now x opens total : ℕ) (rows : List Exam)
    → Fits (row_at exam_key x rows) opens total
    → Fits (row_at exam_key x (update_where q (stamp_used now) rows)) opens total
unfolding row_at
stamped-Fits q now x opens total [] fits = fits
stamped-Fits q now x opens total (e ∷ rows) fits = elim (Bool-cases (q e)) [
  | inl h ↦ elim (Bool-cases (e.id == x)) [
    | inl k ↦ rw (h, k) (rw k at fits)
    | inr k ↦ rw (h, k) (stamped-Fits q now x opens total rows (rw k at fits))
  ]
  | inr h ↦ elim (Bool-cases (e.id == x)) [
    | inl k ↦ rw (h, k) (rw k at fits)
    | inr k ↦ rw (h, k) (stamped-Fits q now x opens total rows (rw k at fits))
  ]
]

-- A stamp keeps the mode.
stamped-row :
    (q : Exam → Bool) (now x : ℕ) (rows : List Exam) (r : Exam)
    → row_at exam_key x rows ≡ some r
    → is_online r.mode ≡ false
    → (r' : Exam) × (row_at exam_key x (update_where q (stamp_used now) rows) ≡ some r')
      × (is_online r'.mode ≡ false)
unfolding row_at
stamped-row q now x [] r there by_hand = cc
stamped-row q now x (e ∷ rows) r there by_hand = elim (Bool-cases (e.id == x)) [
  | inl k ↦
      let is_r : e ≡ r = let w = rw k at there in cc in
      let mode : is_online e.mode ≡ false =
        subst (λ y. is_online y.mode ≡ false) (sym is_r) by_hand in
      elim (Bool-cases (q e)) [
        | inl h ↦ (stamp_used now e, rw (h, k) refl, mode)
        | inr h ↦ (e, rw (h, k) refl, mode)
      ]
  | inr k ↦
      let (r', at, mode) = stamped-row q now x rows r (rw k at there) by_hand in
      elim (Bool-cases (q e)) [
        | inl h ↦ (r', rw (h, k) at, mode)
        | inr h ↦ (r', rw (h, k) at, mode)
      ]
]

pub record_results-WithinCaps :
    (exam : Exam) (results : List ManualResult) (v : ResultVisibility) (at : Option ℕ) (t : Tables)
    → row_at exam_key exam.id t.exams ≡ some exam
    → is_online exam.mode ≡ false
    → WithinCaps t
    → WithinCaps (record_results exam results v at t).1
unfolding record_results WithinCaps
record_results-WithinCaps exam results v at t there by_hand caps =
    go (upsert_results exam.id v at results stamped) refl
  where
    stamped : Tables
    stamped = record t { exams = update_where (λ e. e.id == exam.id) (stamp_used t.now) t.exams }

    go :
        (r : Result Error Tables)
        → upsert_results exam.id v at results stamped ≡ r
        → WithinCaps (commit_or_rollback t r).1
    go (err e) q = caps
    go (ok t') q =
        let (r, row, mode) = stamped-row _ t.now exam.id t.exams exam there by_hand in
        let caps' : (x s : ℕ)
            → Fits (row_at exam_key x stamped.exams) (opens_of x s t.attempts)
                (total_of_student x s t.attempts) =
          λ x s.
            stamped-Fits _ t.now x (opens_of x s t.attempts) (total_of_student x s t.attempts)
              t.exams (caps x s) in
        (upsert_results-Recordable exam.id v at results stamped t' q (caps', r, row, mode)).0
