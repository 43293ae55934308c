-- ===== src/Classroom/Exam/Scoring.antt =====
-- internal/classroom/exam.go: automatic grading, totals, and the total weight of an exam.
use e_campus_server.Prelude.{
  ℕ, ◌+◌, Bool, true, false, not, Option, none, some, List, [], ◌∷◌, ◌==◌, if◌then◌else◌, is_set,
  value_or, all, contains, length,
}
use e_campus_server.Classroom.Exam.Data.{
  ExamQuestion, Scalar, Answer, scalar, items, Answers, Scores, number,
}

pub data QuestionType : Type 0 where
  single multiple true_false short_answer : QuestionType
  other : ℕ → QuestionType

-- What grading reads of a bank question. `Correct` is JSON of which grading decodes one index or a
-- list of them; either decoding may fail.
pub record Question : Type 0 where
  pub id : ℕ
  pub type : QuestionType
  pub correct_index : Option ℕ
  pub correct_set : Option (List ℕ)

unfoldable pub exam_total : List ExamQuestion → ℕ
exam_total [] = 0
exam_total (q ∷ qs) = q.score + exam_total qs

-- A map by its entries, of which the first for a key counts.
abbrev pub lookup : {A : Type 0} → ℕ → List (ℕ × A) → Option A
lookup k [] = none
lookup k ((x, v) ∷ rest) = if x == k then some v else lookup k rest

abbrev to_int : Scalar → Option ℕ
to_int (number n) = some n
to_int Scalar.other = none

abbrev both : Option ℕ → Option (List ℕ) → Option (List ℕ)
both (some n) (some ns) = some (n ∷ ns)
both _ _ = none

abbrev to_ints : List Scalar → Option (List ℕ)
to_ints [] = some []
to_ints (x ∷ xs) = both (to_int x) (to_ints xs)

abbrev pub to_int_slice : Answer → Option (List ℕ)
to_int_slice (scalar _) = none
to_int_slice (items xs) = to_ints xs

abbrev pub to_index : Answer → Option ℕ
to_index (scalar x) = to_int x
to_index (items _) = none

unfoldable pub same_int_set : List ℕ → List ℕ → Bool
same_int_set a b = if not (length a == length b) then false else all (λ v. contains v a) b

-- Grading is the same for whatever numbers the weights are, floats in the code: it only takes them over.
module _ {W : Type 0} (nothing : W) where
  unfoldable pub grade_choice : Option ℕ → Answer → W → W
  grade_choice none answer weight = nothing
  grade_choice (some correct) answer weight = elim (to_index answer) [
    | none ↦ nothing
    | some given ↦ if given == correct then weight else nothing
  ]

  unfoldable pub grade_choice_set : Option (List ℕ) → Answer → W → W
  unfolding same_int_set
  grade_choice_set none answer weight = nothing
  grade_choice_set (some correct) answer weight = elim (to_int_slice answer) [
    | none ↦ nothing
    | some given ↦ if same_int_set correct given then weight else nothing
  ]

  -- The switch of `AutoGrade` on an answered question.
  unfoldable pub grade_answer : Question → W → Answer → Option W
  unfolding grade_choice grade_choice_set
  grade_answer q weight answer = elim q.type [
    | single ↦ some (grade_choice q.correct_index answer weight)
    | true_false ↦ some (grade_choice q.correct_index answer weight)
    | multiple ↦ some (grade_choice_set q.correct_set answer weight)
    | short_answer ↦ none
    | QuestionType.other _ ↦ some nothing
  ]

  abbrev pub score_or_zero : Question → W → Option Answer → Option W
  score_or_zero q weight none = some nothing
  score_or_zero q weight (some answer) = grade_answer q weight answer

  -- A weight that is missing from the map reads as zero.
  abbrev pub weight_of : List (ℕ × W) → Question → W
  weight_of weights q = value_or (lookup q.id weights) nothing

  -- The map that `AutoGrade` fills, in the order of the questions.
  unfoldable pub auto_grade : List Question → List (ℕ × W) → Answers → List (ℕ × Option W)
  unfolding grade_answer
  auto_grade [] weights answers = []
  auto_grade (q ∷ qs) weights answers =
      (q.id, score_or_zero q (weight_of weights q) (lookup q.id answers))
      ∷ auto_grade qs weights answers

-- The sum of `TotalOf`, in the order of the entries.
unfoldable pub total_of : Scores → ℕ
total_of [] = 0
total_of ((_, s) ∷ rest) = value_or s 0 + total_of rest

unfoldable pub has_ungraded : {W : Type 0} → List (ℕ × Option W) → Bool
has_ungraded [] = false
has_ungraded ((_, s) ∷ rest) = if not (is_set s) then true else has_ungraded rest
