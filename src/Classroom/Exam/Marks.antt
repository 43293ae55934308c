-- ===== src/Classroom/Exam/Marks.antt =====
-- What automatic grading gives.
use e_campus_server.Prelude.{
  ℕ, zero, suc, ◌≤◌, ◌≡◌, ◌↔◌, sym, ◌∙◌, refl, Bool, true, false, List, [], ◌∷◌, arith, inl, inr,
  Bool-cases, contains, length, all, ◌==◌, ==_iff, if◌then◌else◌,
}
use e_campus_server.Classroom.Exam.Scoring.{same_int_set}

-- No number twice.
abbrev pub Distinct : List ℕ → Type 0
Distinct [] = Unit
Distinct (x ∷ xs) = (contains x xs ≡ false) × Distinct xs

-- A list without the first occurrence of a number.
drop_one : ℕ → List ℕ → List ℕ
drop_one v [] = []
drop_one v (x ∷ xs) = if x == v then xs else x ∷ drop_one v xs

length-drop_one :
    (v : ℕ) (xs : List ℕ) → contains v xs ≡ true → length xs ≡ suc (length (drop_one v xs))
unfolding drop_one
length-drop_one v [] h = cc
length-drop_one v (x ∷ xs) h = ground (arith, length-drop_one v xs)

contains-drop_one :
    (v u : ℕ) (xs : List ℕ)
    → contains u xs ≡ true
    → (v == u) ≡ false
    → contains u (drop_one v xs) ≡ true
unfolding drop_one
contains-drop_one v u [] h ne = cc
contains-drop_one v u (x ∷ xs) h ne = ground (arith, contains-drop_one v u xs)

sub_drop :
    (y : ℕ) (xs ys : List ℕ)
    → contains y ys ≡ false
    → all (λ v. contains v xs) ys ≡ true
    → all (λ v. contains v (drop_one y xs)) ys ≡ true
sub_drop y xs [] h sub = refl
sub_drop y xs (v ∷ ys) h sub = ground (arith, contains-drop_one y v xs, sub_drop y xs ys)

-- Distinct elements of `ys`, as many as the elements of `xs`, are all of `xs`.
covers :
    (xs ys : List ℕ)
    → Distinct ys
    → length xs ≡ length ys
    → all (λ v. contains v xs) ys ≡ true
    → (u : ℕ) → contains u xs ≡ true
    → contains u ys ≡ true
covers [] [] d len sub u h = cc
covers (x ∷ xs) [] d len sub u h = ground arith
covers xs (y ∷ ys) d len sub u h = elim (Bool-cases (y == u)) [
  | inl hit ↦ ground (arith, hit)
  | inr miss ↦
      let has : contains y xs ≡ true = ground arith in
      let rest : contains u ys ≡ true =
        covers (drop_one y xs) ys d.1 (omega (arith, len, length-drop_one y xs has))
          (sub_drop y xs ys d.0 (ground arith)) u (contains-drop_one y u xs h miss) in
      ground (arith, rest)
]

subset_length :
    (xs ys : List ℕ) → Distinct ys → all (λ v. contains v xs) ys ≡ true → length ys ≤ length xs
subset_length xs [] d sub = omega arith
subset_length xs (y ∷ ys) d sub =
    let has : contains y xs ≡ true = ground arith in
    omega (
      arith,
      length-drop_one y xs has,
      subset_length (drop_one y xs) ys d.1 (sub_drop y xs ys d.0 (ground arith)),
    )

member_of_all :
    (xs ys : List ℕ) (u : ℕ)
    → all (λ v. contains v xs) ys ≡ true
    → contains u ys ≡ true
    → contains u xs ≡ true
member_of_all xs [] u sub h = cc
member_of_all xs (y ∷ ys) u sub h = ground (arith, (==_iff y u).0, member_of_all xs ys u)

contains_weaken :
    (f : ℕ → Bool) (y : ℕ) (ys : List ℕ)
    → ((u : ℕ) → contains u (y ∷ ys) ≡ true → f u ≡ true)
    → (u : ℕ) → contains u ys ≡ true
    → f u ≡ true
contains_weaken f y ys sub u h = sub u (ground (arith, h))

all_of_members :
    (f : ℕ → Bool) (ys : List ℕ) → ((u : ℕ) → contains u ys ≡ true → f u ≡ true) → all f ys ≡ true
all_of_members f [] sub = refl
all_of_members f (y ∷ ys) sub = ground (
  arith,
  sub y (ground (arith, (==_iff y y).1 refl)),
  all_of_members f ys (contains_weaken f y ys sub),
)

-- For answers and keys without repetition, `sameIntSet` says exactly that both have the same elements.
pub same_int_set_iff :
    (a b : List ℕ)
    → Distinct a
    → Distinct b
    → (same_int_set a b ≡ true) ↔ ((u : ℕ) → contains u a ≡ contains u b)
unfolding same_int_set
same_int_set_iff a b da db = (
  λ h u.
      let len : length a ≡ length b = ground arith in
      let sub : all (λ v. contains v a) b ≡ true = ground arith in
      ground (arith, covers a b db len sub u, member_of_all a b u sub),
  λ same.
      let into : all (λ v. contains v a) b ≡ true =
        all_of_members (λ v. contains v a) b (λ u h. same u ∙ h) in
      let back : all (λ v. contains v b) a ≡ true =
        all_of_members (λ v. contains v b) a (λ u h. sym (same u) ∙ h) in
      ground (arith, into, subset_length a b db into, subset_length b a da back),
)

abbrev pub repeat : ℕ → ℕ → List ℕ
repeat zero x = []
repeat (suc n) x = x ∷ repeat n x

length-repeat : (n x : ℕ) → length (repeat n x) ≡ n
length-repeat zero x = refl
length-repeat (suc n) x = omega (arith, length-repeat n x)

all-repeat : (f : ℕ → Bool) (n x : ℕ) → f x ≡ true → all f (repeat n x) ≡ true
all-repeat f zero x h = refl
all-repeat f (suc n) x h = ground (arith, h, all-repeat f n x h)

-- One right choice, given as often as there are right choices, passes `sameIntSet`.
pub same_int_set-repeat :
    (a : List ℕ) (x : ℕ) → contains x a ≡ true → same_int_set a (repeat (length a) x) ≡ true
unfolding same_int_set
same_int_set-repeat a x h =
    ground (arith, length-repeat (length a) x, all-repeat (λ v. contains v a) (length a) x h)
