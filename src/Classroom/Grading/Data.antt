-- ===== src/Classroom/Grading/Data.antt =====
-- internal/classroom/grading.go: rules, inputs, and the pure computation of a grade. Floats are a type
-- with the operations that the code uses, of which nothing is assumed.
use e_campus_server.Prelude.{
  ℕ, Bool, true, false, Option, none, some, List, [], ◌∷◌, ◌++◌, ◌==◌, contains, length,
  if◌then◌else◌, Result, ok, err, Done,
}
use e_campus_server.Classroom.Errors.{Error, invalid_input, invalid_rules}
use e_campus_server.Management.Leave.Data.{EnrollmentStatus, completed, failed}

pub record Arithmetic (F : Type 0) : Type 0 where
  pub zero : F
  pub hundred : F
  pub tolerance : F
  pub add : F → F → F
  pub subtract : F → F → F
  pub multiply : F → F → F
  pub divide : F → F → F
  pub of_int : ℕ → F
  pub round : F → F
  pub absolute : F → F
  -- `a > b`, `a >= b` and `a == b`.
  pub above : F → F → Bool
  pub at_least : F → F → Bool
  pub same : F → F → Bool

pub data RuleType : Type 0 where
  single best_of average attendance assignments : RuleType
  other : ℕ → RuleType

unfoldable pub valid_rule_type : RuleType → Bool
valid_rule_type (RuleType.other _) = false
valid_rule_type _ = true

pub record Rule (F : Type 0) : Type 0 where
  pub type : RuleType
  pub weight : F
  pub exam_id : Option ℕ
  pub exam_ids : List ℕ

pub record ExamScore (F : Type 0) : Type 0 where
  pub total_score : Option F
  pub max_score : F

-- A missing exam's score is Go's zero value.
pub record GradeInputs (F : Type 0) : Type 0 where
  pub exam_scores : List (ℕ × ExamScore F)
  pub assignment_avg : F
  pub has_assignments : Bool
  pub attendance_rate : F

-- `add` in `RuleExamIDs`.
abbrev pub add_id : List ℕ → ℕ → List ℕ
add_id ids id = if contains id ids then ids else ids ++ (id ∷ [])

abbrev pub add_ids : List ℕ → List ℕ → List ℕ
add_ids ids [] = ids
add_ids ids (x ∷ xs) = add_ids (add_id ids x) xs

abbrev pub add_option : List ℕ → Option ℕ → List ℕ
add_option ids none = ids
add_option ids (some id) = add_id ids id

abbrev pub add_rules : {F : Type 0} → List ℕ → List (Rule F) → List ℕ
add_rules ids [] = ids
add_rules ids (r ∷ rules) = add_rules (add_ids (add_option ids r.exam_id) r.exam_ids) rules

unfoldable pub rule_exam_ids : {F : Type 0} → List (Rule F) → List ℕ
rule_exam_ids rules = add_rules [] rules

module _ {F : Type 0} (f : Arithmetic F) where
  abbrev rules_total : F → List (Rule F) → Result Error F
  rules_total total [] = ok total
  rules_total total (r ∷ rules) =
      let rest = rules_total (f.add total r.weight) rules in
      if valid_rule_type r.type then rest else err invalid_input

  abbrev near_hundred : Result Error F → Result Error Done
  near_hundred (err e) = err e
  near_hundred (ok total) =
      if f.above (f.absolute (f.subtract total f.hundred)) f.tolerance
      then err invalid_rules
      else ok tt

  unfoldable pub validate_rules : List (Rule F) → Result Error Done
  validate_rules rules = near_hundred (rules_total f.zero rules)

  abbrev percent_of : F → Option F → F
  percent_of max none = f.zero
  percent_of max (some total) =
      if f.same max f.zero then f.zero else f.multiply (f.divide total max) f.hundred

  -- `examPercent` of the score that the map has for an exam.
  abbrev exam_percent : List (ℕ × ExamScore F) → ℕ → F
  exam_percent [] id = f.zero
  exam_percent (p ∷ scores) id =
      if p.0 == id then percent_of p.1.max_score p.1.total_score else exam_percent scores id

  abbrev weighted : F → F → F
  weighted percent weight = f.divide (f.multiply percent weight) f.hundred

  abbrev best_percent : List (ℕ × ExamScore F) → F → List ℕ → F
  best_percent scores best [] = best
  best_percent scores best (id ∷ ids) =
      best_percent scores
        (if f.above (exam_percent scores id) best then exam_percent scores id else best) ids

  abbrev sum_percent : List (ℕ × ExamScore F) → F → List ℕ → F
  sum_percent scores sum [] = sum
  sum_percent scores sum (id ∷ ids) = sum_percent scores (f.add sum (exam_percent scores id)) ids

  abbrev single_points : GradeInputs F → F → Rule F → Option ℕ → F
  single_points inputs total r none = total
  single_points inputs total r (some id) =
      f.add total (weighted (exam_percent inputs.exam_scores id) r.weight)

  abbrev average_points : GradeInputs F → F → Rule F → List ℕ → F
  average_points inputs total r [] = total
  average_points inputs total r (id ∷ ids) = f.add total (
      weighted
        (f.divide (sum_percent inputs.exam_scores f.zero (id ∷ ids)) (f.of_int (length (id ∷ ids))))
        r.weight)

  -- One turn of the loop of `FinalGrade`.
  abbrev rule_points : GradeInputs F → F → Rule F → RuleType → F
  rule_points inputs total r single = single_points inputs total r r.exam_id
  rule_points inputs total r best_of =
      f.add total (weighted (best_percent inputs.exam_scores f.zero r.exam_ids) r.weight)
  rule_points inputs total r average = average_points inputs total r r.exam_ids
  rule_points inputs total r attendance = f.add total (weighted inputs.attendance_rate r.weight)
  rule_points inputs total r assignments =
      if inputs.has_assignments
      then f.add total (weighted inputs.assignment_avg r.weight)
      else total
  rule_points inputs total r (RuleType.other _) = total

  abbrev grade_total : GradeInputs F → F → List (Rule F) → F
  grade_total inputs total [] = total
  grade_total inputs total (r ∷ rules) =
      grade_total inputs (rule_points inputs total r r.type) rules

  unfoldable pub final_grade : GradeInputs F → List (Rule F) → F
  final_grade inputs rules = f.round (grade_total inputs f.zero rules)

  unfoldable pub pass_status : F → ℕ → EnrollmentStatus
  pass_status grade pass_threshold =
      if f.at_least grade (f.of_int pass_threshold) then completed else failed
