-- ===== src/Pagination/Escape.antt =====
-- What the escaped search text matches.
use e_campus_server.Prelude.{
  ℕ, ◌≡◌, refl, sym, ap, ◌∙◌, inl, inr, Bool-cases, Bool, true, false, ◌&&◌, ◌||◌, [], ◌∷◌, ◌++◌,
  ◌==◌, ==_iff, arith, if◌then◌else◌,
}
use e_campus_server.Pagination.{Text, backslash, percent, underscore, replace_all, escape_like}

abbrev pub special : ℕ → Bool
special c = c == backslash || (c == percent || c == underscore)

-- The escape in one pass.
abbrev pub escape_each : Text → Text
escape_each [] = []
escape_each (c ∷ s) = (if special c then backslash ∷ c ∷ [] else c ∷ []) ++ escape_each s

append_assoc : (a b c : Text) → (a ++ b) ++ c ≡ a ++ (b ++ c)
append_assoc [] b c = refl
append_assoc (x ∷ a) b c = ap (λ s. x ∷ s) (append_assoc a b c)

replace_all-append :
    (old : ℕ) (new s t : Text)
    → replace_all old new (s ++ t) ≡ replace_all old new s ++ replace_all old new t
replace_all-append old new [] t = refl
replace_all-append old new (c ∷ s) t =
    ap (λ r. (if c == old then new else c ∷ []) ++ r) (replace_all-append old new s t)
    ∙ sym (
        append_assoc (if c == old then new else c ∷ []) (replace_all old new s)
          (replace_all old new t))

abbrev step : ℕ → Text → Text
step c s = replace_all c (backslash ∷ c ∷ []) s

escape_like-append : (s t : Text) → escape_like (s ++ t) ≡ escape_like s ++ escape_like t
unfolding escape_like
escape_like-append s t =
    ap (λ r. step underscore (step percent r))
      (replace_all-append backslash (backslash ∷ backslash ∷ []) s t)
    ∙ ap (λ r. step underscore r)
        (replace_all-append percent (backslash ∷ percent ∷ []) (step backslash s)
          (step backslash t))
    ∙ replace_all-append underscore (backslash ∷ underscore ∷ []) (step percent (step backslash s))
        (step percent (step backslash t))

escape_one : (c : ℕ) → escape_like (c ∷ []) ≡ (if special c then backslash ∷ c ∷ [] else c ∷ [])
unfolding escape_like
escape_one c = elim (Bool-cases (c == backslash)) [
  | inl h ↦ rw ((==_iff c backslash).0 h) refl
  | inr h ↦ elim (Bool-cases (c == percent)) [
    | inl k ↦ rw ((==_iff c percent).0 k) refl
    | inr k ↦ elim (Bool-cases (c == underscore)) [
      | inl l ↦ rw ((==_iff c underscore).0 l) refl
      | inr l ↦ rw (h, k, l) refl
    ]
  ]
]

-- The three replacements, one after the other, put a backslash before every special character, and
-- before no other.
pub escape_like-each : (s : Text) → escape_like s ≡ escape_each s
unfolding escape_like
escape_like-each [] = refl
escape_like-each (c ∷ s) =
    escape_like-append (c ∷ []) s
    ∙ ap (λ r. r ++ escape_like s) (escape_one c)
    ∙ ap (λ r. (if special c then backslash ∷ c ∷ [] else c ∷ []) ++ r) (escape_like-each s)

-- The text starts with `q`, or has it somewhere, by a comparison of characters.
abbrev pub starts : (ℕ → ℕ → Bool) → Text → Text → Bool
starts same [] s = true
starts same (c ∷ q) [] = false
starts same (c ∷ q) (x ∷ s) = same c x && starts same q s

abbrev pub has_text : (ℕ → ℕ → Bool) → Text → Text → Bool
has_text same q [] = starts same q []
has_text same q (x ∷ s) = starts same q (x ∷ s) || has_text same q s

abbrev pub one : (ℕ → ℕ → Bool) → ℕ → (Text → Bool) → Text → Bool
one same c rest [] = false
one same c rest (x ∷ s) = same c x && rest s

-- What PostgreSQL documents of LIKE, and of ILIKE with a comparison that ignores case.
pub record IsLike (same : ℕ → ℕ → Bool) (like : Text → Text → Bool) : Type 0 where
  pub nothing : like [] [] ≡ true
  pub literal : (c : ℕ) (p s : Text) → special c ≡ false → like (c ∷ p) s ≡ one same c (like p) s
  pub escaped : (c : ℕ) (p s : Text) → like (backslash ∷ c ∷ p) s ≡ one same c (like p) s
  pub any_none : (p : Text) → like (percent ∷ p) [] ≡ like p []
  pub any_some :
      (p : Text) (x : ℕ) (s : Text)
      → like (percent ∷ p) (x ∷ s) ≡ (like p (x ∷ s) || like (percent ∷ p) s)
  pub underscored : (p s : Text) → like (underscore ∷ p) s ≡ one (λ c x. true) underscore (like p) s

module _ (same : ℕ → ℕ → Bool) (like : Text → Text → Bool) (laws : IsLike same like) where
  like_all : (s : Text) → like (percent ∷ []) s ≡ true
  like_all [] = laws.any_none [] ∙ laws.nothing
  like_all (x ∷ s) = ground (arith, laws.any_some [] x s, like_all s)

  one-starts :
      (c : ℕ) (q : Text)
      → ((t : Text) → like (escape_each q ++ (percent ∷ [])) t ≡ starts same q t)
      → (s : Text) → one same c (like (escape_each q ++ (percent ∷ []))) s ≡ starts same (c ∷ q) s
  one-starts c q rest [] = refl
  one-starts c q rest (x ∷ s) = ap (λ b. same c x && b) (rest s)

  like-starts : (q s : Text) → like (escape_each q ++ (percent ∷ [])) s ≡ starts same q s
  like-starts [] s = like_all s
  like-starts (c ∷ q) s = elim (Bool-cases (special c)) [
    | inl h ↦
        rw h (laws.escaped c (escape_each q ++ (percent ∷ [])) s ∙ one-starts c q (like-starts q) s)
    | inr h ↦
        rw h
          (laws.literal c (escape_each q ++ (percent ∷ [])) s h ∙ one-starts c q (like-starts q) s)
  ]

  like_has : (q s : Text) → like (percent ∷ (escape_each q ++ (percent ∷ []))) s ≡ has_text same q s
  like_has q [] = laws.any_none (escape_each q ++ (percent ∷ [])) ∙ like-starts q []
  like_has q (x ∷ s) =
      laws.any_some (escape_each q ++ (percent ∷ [])) x s
      ∙ ap (λ b. b || like (percent ∷ (escape_each q ++ (percent ∷ []))) s) (like-starts q (x ∷ s))
      ∙ ap (λ b. starts same q (x ∷ s) || b) (like_has q s)

  -- With LIKE as it is documented, the pattern that the repositories search with, the escaped query
  -- between two percent signs, matches exactly the texts that have the query in them, character by
  -- character.
  pub like-escape_like :
      (q s : Text) → like (percent ∷ (escape_like q ++ (percent ∷ []))) s ≡ has_text same q s
  like-escape_like q s =
      ap (λ r. like (percent ∷ (r ++ (percent ∷ []))) s) (escape_like-each q) ∙ like_has q s
