-- ===== src/Prelude/Lists.antt =====
-- Lists: the Boolean searches that Go writes as loops, and predicates by recursion.
use Prim.Native.Nat.{ℕ, suc, ◌+◌}
use mathlib.Core.Path.{◌≡◌, refl}
use mathlib.Core.Logic.{inl, inr}
use mathlib.Core.Bool.{Bool, true, false, ◌&&◌, ◌||◌}
use mathlib.Core.Option.{Option, none, some}
use mathlib.Core.List.{List, [], ◌∷◌, ◌++◌}
use native.Mathlib.Omega.{arith}
use e_campus_server.Prelude.Tests.{if◌then◌else◌, ◌==◌, is_set, Bool-cases}

module _ {ℓ} {A : Type ℓ} where
  abbrev pub length : List A → ℕ
  length [] = 0
  length (x ∷ xs) = suc (length xs)

  -- A loop that returns true at the first hit.
  abbrev pub any : (A → Bool) → List A → Bool
  any p [] = false
  any p (x ∷ xs) = p x || any p xs

  abbrev pub all : (A → Bool) → List A → Bool
  all p [] = true
  all p (x ∷ xs) = p x && all p xs

  -- A loop that returns the first hit.
  abbrev pub find : (A → Bool) → List A → Option A
  find p [] = none
  find p (x ∷ xs) = if p x then some x else find p xs

  abbrev pub keep : (A → Bool) → List A → List A
  keep p [] = []
  keep p (x ∷ xs) = if p x then x ∷ keep p xs else keep p xs

  -- `UPDATE … SET … WHERE p`
  abbrev pub update_where : (A → Bool) → (A → A) → List A → List A
  update_where p f [] = []
  update_where p f (x ∷ xs) = (if p x then f x else x) ∷ update_where p f xs

  -- `SELECT count(*) … WHERE p`
  abbrev pub count_where : (A → Bool) → List A → ℕ
  count_where p [] = 0
  count_where p (x ∷ xs) = (if p x then 1 else 0) + count_where p xs

  pub length-append : (xs ys : List A) → length (xs ++ ys) ≡ length xs + length ys
  length-append [] ys = omega arith
  length-append (x ∷ xs) ys = omega (arith, length-append xs ys)

abbrev pub contains : ℕ → List ℕ → Bool
contains a [] = false
contains a (x ∷ xs) = x == a || contains a xs

-- A predicate by recursion computes to tuples, which the tactics read and build.
abbrev pub All {ℓ κ} : {A : Type ℓ} → (A → Type κ) → List A → Type κ
All P [] = Unit
All P (x ∷ xs) = P x × All P xs

module _ {ℓ} {A : Type ℓ} where
  -- A search finds something exactly when the Boolean loop says that there is something.
  pub is_set-find : (p : A → Bool) (xs : List A) → is_set (find p xs) ≡ any p xs
  is_set-find p [] = refl
  is_set-find p (x ∷ xs) = ground (arith, is_set-find p xs)

  pub find-holds : (p : A → Bool) (xs : List A) {a : A} → find p xs ≡ some a → p a ≡ true
  find-holds p [] e = cc
  find-holds p (x ∷ xs) {a} e = ground (arith, find-holds p xs {a = a})

  pub any-or : (p q : A → Bool) (xs : List A) → any (λ x. p x || q x) xs ≡ (any p xs || any q xs)
  any-or p q [] = refl
  any-or p q (x ∷ xs) = ground (arith, any-or p q xs)

  pub any_mono :
      (p q : A → Bool)
      → ((x : A) → p x ≡ true → q x ≡ true)
      → (xs : List A) → any p xs ≡ true
      → any q xs ≡ true
  any_mono p q imp [] h = cc
  any_mono p q imp (x ∷ xs) h = ground (arith, imp x, any_mono p q imp xs)

  -- Whatever a filtered list's search finds passes the filter too.
  pub find-keep :
      (p q : A → Bool) (xs : List A) {a : A}
      → find p (keep q xs) ≡ some a
      → (p a ≡ true) × (q a ≡ true)
  find-keep p q [] e = cc
  find-keep p q (x ∷ xs) {a} e = elim (Bool-cases (q x)) [
    | inl h ↦ ground (arith, find-keep p q xs {a = a})
    | inr h ↦ ground (arith, find-keep p q xs {a = a} (rw h at e))
  ]

module _ {ℓ} {A : Type ℓ} where
  pub All-of-all : (p : A → Bool) (xs : List A) → all p xs ≡ true → All (λ x. p x ≡ true) xs
  All-of-all p [] h = tt
  All-of-all p (x ∷ xs) h = ground (arith, All-of-all p xs)

  pub All-imp {κ μ} :
      (P : A → Type κ) (Q : A → Type μ)
      → ((x : A) → P x → Q x)
      → (xs : List A) → All P xs
      → All Q xs
  All-imp P Q imp [] h = tt
  All-imp P Q imp (x ∷ xs) h = (imp x h.0, All-imp P Q imp xs h.1)

  -- A search misses where all elements fail its test.
  pub find-none : (p : A → Bool) (xs : List A) → All (λ x. p x ≡ false) xs → find p xs ≡ none
  find-none p [] h = refl
  find-none p (x ∷ xs) h = rw h.0 (find-none p xs h.1)

  pub any-none : (p : A → Bool) (xs : List A) → All (λ x. p x ≡ false) xs → any p xs ≡ false
  any-none p [] h = refl
  any-none p (x ∷ xs) h = rw h.0 (any-none p xs h.1)
