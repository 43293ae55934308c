-- ===== src/Classroom/Exam/Awards.antt =====
-- What automatic grading of internal/classroom/exam.go awards, for whatever numbers the weights are.
use e_campus_server.Prelude.{
  ℕ, ◌≡◌, refl, Bool, true, false, ◌&&◌, Option, none, some, List, [], ◌∷◌, ◌==◌, inl, inr,
  Bool-cases, is_set, any, if◌then◌else◌, contains, all, length,
}
use e_campus_server.Classroom.Exam.Data.{Answer, Answers}
use e_campus_server.Classroom.Exam.Scoring.{
  Question, QuestionType, single, true_false, multiple, short_answer, auto_grade, grade_answer,
  grade_choice, grade_choice_set, score_or_zero, weight_of, has_ungraded, lookup, to_index,
  to_int_slice, same_int_set,
}

-- A question that only a human grades.
abbrev pub is_short : QuestionType → Bool
is_short short_answer = true
is_short _ = false

-- A short answer was given.
abbrev pub awaits : Answers → Question → Bool
awaits answers q = is_short q.type && is_set (lookup q.id answers)

-- The right answer to a choice question, given as what its type asks for.
abbrev index_is : Option ℕ → Option ℕ → Bool
index_is (some correct) (some given) = given == correct
index_is _ _ = false

abbrev set_is : Option (List ℕ) → Option (List ℕ) → Bool
set_is (some correct) (some given) =
    length correct == length given && all (λ v. contains v correct) given
set_is _ _ = false

abbrev right_for : QuestionType → Question → Answer → Bool
right_for single q a = index_is q.correct_index (to_index a)
right_for true_false q a = index_is q.correct_index (to_index a)
right_for multiple q a = set_is q.correct_set (to_int_slice a)
right_for _ q a = false

abbrev pub answered_right : Question → Option Answer → Bool
answered_right q none = false
answered_right q (some a) = right_for q.type q a

module _ {W : Type 0} (nothing : W) where
  -- One entry for each question, in order: open for a short answer, the whole weight for a right choice,
  -- nothing otherwise.
  unfoldable pub Awarded : List (ℕ × W) → Answers → List Question → List (ℕ × Option W) → Type 0
  Awarded weights answers [] scores = scores ≡ []
  Awarded weights answers (q ∷ qs) [] = ⊥
  Awarded weights answers (q ∷ qs) ((id, s) ∷ scores) =
      (id ≡ q.id)
      × (s ≡ (
          if awaits answers q
          then none
          else some (
              if answered_right q (lookup q.id answers)
              then weight_of nothing weights q
              else nothing)))
      × Awarded weights answers qs scores

  choice_award :
      (c : Option ℕ) (a : Answer) (w : W)
      → grade_choice nothing c a w ≡ (if index_is c (to_index a) then w else nothing)
  unfolding grade_choice
  choice_award none a w = refl
  choice_award (some c) a w = go (to_index a)
    where
      go :
          (o : Option ℕ)
          → (elim o as (λ _. W) [ none ↦ nothing | some given ↦ if given == c then w else nothing ])
            ≡ (if index_is (some c) o then w else nothing)
      go none = refl
      go (some given) = refl

  choices_award :
      (c : Option (List ℕ)) (a : Answer) (w : W)
      → grade_choice_set nothing c a w ≡ (if set_is c (to_int_slice a) then w else nothing)
  unfolding grade_choice_set same_int_set
  choices_award none a w = refl
  choices_award (some c) a w = go (to_int_slice a)
    where
      go :
          (o : Option (List ℕ))
          → (elim o as (λ _. W) [
            | none ↦ nothing
            | some given ↦ if same_int_set c given then w else nothing
          ])
            ≡ (if set_is (some c) o then w else nothing)
      go none = refl
      go (some given) = elim (Bool-cases (length c == length given)) [
        | inl same ↦ rw same refl
        | inr differ ↦ rw differ refl
      ]

  award_by_type :
      (t : QuestionType) (q : Question) (w : W) (a : Answer)
      → q.type ≡ t
      → grade_answer nothing q w a
        ≡ (if is_short q.type then none else some (if right_for q.type q a then w else nothing))
  unfolding grade_answer
  award_by_type single q w a e = rw (e, choice_award q.correct_index a w) refl
  award_by_type true_false q w a e = rw (e, choice_award q.correct_index a w) refl
  award_by_type multiple q w a e = rw (e, choices_award q.correct_set a w) refl
  award_by_type short_answer q w a e = rw e refl
  award_by_type (QuestionType.other _) q w a e = rw e refl

  award :
      (q : Question) (w : W) (o : Option Answer)
      → score_or_zero nothing q w o ≡ (
          if is_short q.type && is_set o
          then none
          else some (if answered_right q o then w else nothing))
  award q w none = elim (Bool-cases (is_short q.type)) [ inl h ↦ rw h refl | inr h ↦ rw h refl ]
  award q w (some a) = elim (Bool-cases (is_short q.type)) [
    | inl h ↦ rw (award_by_type q.type q w a refl, h) refl
    | inr h ↦ rw (award_by_type q.type q w a refl, h) refl
  ]

  -- After automatic grading a score is missing exactly when a short answer was given.
  pub has_ungraded-auto_grade :
      (qs : List Question) (weights : List (ℕ × W)) (answers : Answers)
      → has_ungraded (auto_grade nothing qs weights answers) ≡ any (awaits answers) qs
  unfolding has_ungraded auto_grade
  has_ungraded-auto_grade [] weights answers = refl
  has_ungraded-auto_grade (q ∷ qs) weights answers = elim (Bool-cases (awaits answers q)) [
    | inl open_ ↦ rw (award q (weight_of nothing weights q) (lookup q.id answers), open_) refl
    | inr closed ↦
        rw (award q (weight_of nothing weights q) (lookup q.id answers), closed)
          (has_ungraded-auto_grade qs weights answers)
  ]
