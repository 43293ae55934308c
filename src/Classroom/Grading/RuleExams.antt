-- ===== src/Classroom/Grading/RuleExams.antt =====
-- RuleExamIDs of internal/classroom/grading.go lists every exam that the rules name, once.
use e_campus_server.Prelude.{
  ℕ, ◌+◌, ◌≤◌, ◌≡◌, refl, sym, ap, ◌∙◌, inl, inr, Bool-cases, Bool, true, false, ◌||◌, Option, none,
  some, List, [], ◌∷◌, ◌++◌, ◌==◌, ==_iff, arith, contains, any, count_where, if◌then◌else◌,
}
use e_campus_server.Classroom.Grading.Data.{
  Rule, add_id, add_ids, add_option, add_rules, rule_exam_ids,
}

-- A rule names an exam.
abbrev pub is_exam : Option ℕ → ℕ → Bool
is_exam none x = false
is_exam (some id) x = id == x

abbrev pub names_exam : {F : Type 0} → ℕ → Rule F → Bool
names_exam x r = is_exam r.exam_id x || contains x r.exam_ids

abbrev pub occurrences : ℕ → List ℕ → ℕ
occurrences x ids = count_where (λ i. i == x) ids

-- How often an id is listed: once if it is to be, and else never.
abbrev pub once : Bool → ℕ
once b = if b then 1 else 0

occurrences_append :
    (x : ℕ) (ids more : List ℕ)
    → occurrences x (ids ++ more) ≡ occurrences x ids + occurrences x more
occurrences_append x [] more = omega arith
occurrences_append x (i ∷ ids) more = omega (arith, occurrences_append x ids more)

contains-occurrences : (x : ℕ) (ids : List ℕ) → contains x ids ≡ false → occurrences x ids ≡ 0
contains-occurrences x [] h = refl
contains-occurrences x (i ∷ ids) h = ground (arith, h, contains-occurrences x ids)

listed-occurrences : (x : ℕ) (ids : List ℕ) → contains x ids ≡ true → 1 ≤ occurrences x ids
listed-occurrences x [] h = cc
listed-occurrences x (i ∷ ids) h = ground (arith, h, listed-occurrences x ids)

-- The list has each id that is `b` at `x` once.
abbrev Lists : (ℕ → Bool) → List ℕ → Type 0
Lists b ids = (x : ℕ) → occurrences x ids ≡ once (b x)

add_id-Lists :
    (b : ℕ → Bool) (ids : List ℕ) (id : ℕ)
    → Lists b ids
    → Lists (λ x. b x || id == x) (add_id ids id)
add_id-Lists b ids id lists x = elim (Bool-cases (contains id ids)) [
  | inl there ↦ rw there (elim (Bool-cases (id == x)) [
    | inl same ↦
        let is_x : id ≡ x = (==_iff id x).0 same in
        let listed = listed-occurrences id ids there in
        let count = lists id in rw (sym is_x) (ground (arith, listed, count, (==_iff id id).1))
    | inr differ ↦ ground (arith, differ, lists x)
  ])
  | inr missing ↦ rw missing (elim (Bool-cases (id == x)) [
    | inl same ↦
        let is_x : id ≡ x = (==_iff id x).0 same in
        let none_yet = contains-occurrences id ids missing in
        let split = occurrences_append id ids (id ∷ []) in
        rw (sym is_x) (ground (arith, none_yet, split, (==_iff id id).1))
    | inr differ ↦
        let split = occurrences_append x ids (id ∷ []) in ground (arith, differ, lists x, split)
  ])
]

Lists-again : (b c : ℕ → Bool) (ids : List ℕ) → ((x : ℕ) → b x ≡ c x) → Lists b ids → Lists c ids
Lists-again b c ids same lists x = lists x ∙ ap once (same x)

or_assoc : (a b c : Bool) → ((a || b) || c) ≡ (a || (b || c))
or_assoc true b c = refl
or_assoc false b c = refl

or_none : (a : Bool) → (a || false) ≡ a
or_none true = refl
or_none false = refl

add_ids-Lists :
    (b : ℕ → Bool) (ids more : List ℕ)
    → Lists b ids
    → Lists (λ x. b x || contains x more) (add_ids ids more)
add_ids-Lists b ids [] lists = Lists-again b _ ids (λ x. sym (or_none (b x))) lists
add_ids-Lists b ids (m ∷ more) lists =
    Lists-again _ _ (add_ids (add_id ids m) more) (λ x. or_assoc (b x) (m == x) (contains x more))
      (add_ids-Lists (λ x. b x || m == x) (add_id ids m) more (add_id-Lists b ids m lists))

add_option-Lists :
    (b : ℕ → Bool) (ids : List ℕ) (o : Option ℕ)
    → Lists b ids
    → Lists (λ x. b x || is_exam o x) (add_option ids o)
add_option-Lists b ids none lists = Lists-again b _ ids (λ x. sym (or_none (b x))) lists
add_option-Lists b ids (some id) lists = add_id-Lists b ids id lists

add_rules-Lists :
    {F : Type 0} (b : ℕ → Bool) (ids : List ℕ) (rules : List (Rule F))
    → Lists b ids
    → Lists (λ x. b x || any (names_exam x) rules) (add_rules ids rules)
add_rules-Lists b ids [] lists = Lists-again b _ ids (λ x. sym (or_none (b x))) lists
add_rules-Lists b ids (r ∷ rules) lists =
    Lists-again _ _ _
      (λ x.
        ap (λ c. c || any (names_exam x) rules)
          (or_assoc (b x) (is_exam r.exam_id x) (contains x r.exam_ids))
        ∙ or_assoc (b x) (names_exam x r) (any (names_exam x) rules))
      (add_rules-Lists (λ x. (b x || is_exam r.exam_id x) || contains x r.exam_ids)
        (add_ids (add_option ids r.exam_id) r.exam_ids) rules
        (add_ids-Lists (λ x. b x || is_exam r.exam_id x) (add_option ids r.exam_id) r.exam_ids
          (add_option-Lists b ids r.exam_id lists)))

-- RuleExamIDs lists an exam once if some rule names it, alone or among several, and else not at all.
pub rule_exam_ids-once :
    {F : Type 0} (rules : List (Rule F)) (x : ℕ)
    → occurrences x (rule_exam_ids rules) ≡ once (any (names_exam x) rules)
unfolding rule_exam_ids
rule_exam_ids-once rules = add_rules-Lists (λ x. false) [] rules (λ x. refl)
