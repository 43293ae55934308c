-- ===== src/Classroom/Grading/Finalize.antt =====
-- Finalize of internal/classroom/grading.go as a whole: who is left, and who is notified.
use e_campus_server.Prelude.{
  ℕ, ◌≡◌, refl, sym, ap, ◌∙◌, subst, Bool, true, false, not, List, [], ◌∷◌, ◌++◌, keep, length,
  Result, ok, err, Method, Done, pure, lift, throw_if, ◌>>=◌, ◌>>◌, Keeps, bind-Keeps, lift-Keeps,
  throw_if-Keeps, Leads, bind-Leads, Right,
}
use e_campus_server.Classroom.Errors.{Error}
use e_campus_server.Classroom.Grading.Data.{Arithmetic, Rule, rule_exam_ids}
use e_campus_server.Classroom.Grading.Service.{
  Tables, Readers, enrolled_of, enrolled_user_ids, notify, offering_finalized, get_rules, grade_all,
  refuse_ungraded, grade_and_notify, finalize, when_any, is_empty, is_grading, uses_assignments,
}
use e_campus_server.Classroom.Grading.Outcome.{Standing, Graded, grade_all-Graded, keep_gone}

append_nothing : (xs : List ℕ) → xs ++ [] ≡ xs
append_nothing [] = refl
append_nothing (x ∷ xs) = ap (λ ys. x ∷ ys) (append_nothing xs)

module _ {F : Type 0} (f : Arithmetic F) (readers : Readers F) (offering : ℕ) where
  -- Nobody is enrolled without an outcome, nobody more was notified, and all of `xs` were graded.
  abbrev pub Closed : List ℕ → List ℕ → ℕ → Tables F → Type 0
  Closed xs told n t =
      (enrolled_of offering t.enrollments ≡ []) × (t.notified ≡ told) × (n ≡ length xs)

  grade_and_notify-Closed :
      (threshold : ℕ) (rules : List (Rule F)) (xs told : List ℕ)
      → Leads
          (Standing f readers offering xs told)
          (Closed xs told)
          (grade_and_notify f readers offering threshold rules xs)
  unfolding Leads grade_and_notify enrolled_user_ids notify
  grade_and_notify-Closed threshold rules xs told t standing =
      go (grade_all f readers offering threshold rules xs t)
        (grade_all-Graded f readers offering threshold rules xs xs told t standing)
    where
      rest : ℕ → Method (Tables F) Error ℕ
      rest n = enrolled_user_ids offering >>= λ roster. notify roster >> pure n

      go :
          (p : Result Error ℕ × Tables F)
          → Right (Graded f readers offering xs xs told) p
          → Right (Closed xs told) (((λ _. p) >>= rest) t)
      go (err e, s) h = tt
      go (ok n, s) ((roster, told_), same) =
          let nobody : enrolled_of offering s.enrollments ≡ [] = roster ∙ keep_gone xs in
          (nobody, ap (λ ys. s.notified ++ ys) nobody ∙ append_nothing s.notified ∙ told_, same)

  when_any-Keeps :
      {A : Type 0} (P : Tables F → Type 0) (xs : List A) (m : Method (Tables F) Error Done)
      → Keeps P m
      → Keeps P (when_any xs m)
  unfolding Keeps
  when_any-Keeps P [] m h t p = p
  when_any-Keeps P (x ∷ xs) m h t p = h t p

  refuse_ungraded-Keeps :
      (P : Tables F → Type 0) (rules : List (Rule F))
      → Keeps P (refuse_ungraded f readers offering rules)
  unfolding refuse_ungraded
  refuse_ungraded-Keeps P rules =
      let attempts = readers.has_ungraded_attempts (rule_exam_ids rules) in
      let submissions = readers.has_ungraded_submissions offering in
      bind-Keeps P (when_any (rule_exam_ids rules) _) _
        (when_any-Keeps P (rule_exam_ids rules) _ (
          bind-Keeps P (lift attempts) _ (lift-Keeps P attempts)
            (λ u. throw_if-Keeps P u Error.ungraded_work)))
        (λ _. when_any-Keeps P (keep (λ r. uses_assignments r.type) rules) _ (
          bind-Keeps P (lift submissions) _ (lift-Keeps P submissions)
            (λ u. throw_if-Keeps P u Error.ungraded_work)))

  roster-Closed :
      (pass : ℕ) (rules : List (Rule F)) (xs told : List ℕ)
      → Leads (Standing f readers offering xs told) (Closed xs told) (
          enrolled_user_ids offering >>= λ ids.
          throw_if (is_empty f readers ids) Error.no_enrollments
          >> grade_and_notify f readers offering pass rules ids)
  unfolding Leads enrolled_user_ids
  roster-Closed pass rules xs told s (roster, told_) =
      subst (λ ids. Right (Closed xs told) (graded_unless (is_empty f readers ids) ids))
        (sym roster) (go (is_empty f readers xs))
    where
      graded_unless : Bool → List ℕ → Result Error ℕ × Tables F
      graded_unless b ids =
          (throw_if b Error.no_enrollments >> grade_and_notify f readers offering pass rules ids) s

      go : (b : Bool) → Right (Closed xs told) (graded_unless b xs)
      go true = tt
      go false = grade_and_notify-Closed pass rules xs told s (roster, told_)

  -- When Finalize answers a count, it is the number of the students that were enrolled, none of them is
  -- enrolled any more, and so nobody is notified.
  pub finalize-Closed :
      (t : Tables F)
      → Right
          (Closed (enrolled_of offering t.enrollments) t.notified)
          (finalize f readers offering t)
  unfolding finalize offering_finalized get_rules Leads Keeps
  finalize-Closed t =
      let xs = enrolled_of offering t.enrollments in
      let P : Tables F → Type 0 = Standing f readers offering xs t.notified in
      let Q : ℕ → Tables F → Type 0 = Closed xs t.notified in
      let status = readers.semester_status offering in
      let threshold = readers.pass_threshold offering in
      bind-Leads P Q (lift status) _ (lift-Keeps P status)
        (λ s.
          bind-Leads P Q (throw_if (not (is_grading s)) Error.semester_not_grading) _
            (throw_if-Keeps P (not (is_grading s)) Error.semester_not_grading)
            (λ _.
              bind-Leads P Q (offering_finalized offering) _ (λ u p. p)
                (λ finalized.
                  bind-Leads P Q (throw_if finalized Error.already_finalized) _
                    (throw_if-Keeps P finalized Error.already_finalized)
                    (λ _.
                      bind-Leads P Q (get_rules offering) _ (λ u p. p)
                        (λ rules.
                          bind-Leads P Q (refuse_ungraded f readers offering rules) _
                            (refuse_ungraded-Keeps P rules)
                            (λ _.
                              bind-Leads P Q (lift threshold) _ (lift-Keeps P threshold)
                                (λ pass. roster-Closed pass rules xs t.notified)))))))
        t (refl, refl)
