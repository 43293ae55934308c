-- ===== src/Prelude/Invariant.antt =====
-- Calls that keep an invariant of the store, and how they chain.
use mathlib.Core.Bool.{Bool, true, false}
use e_campus_server.Prelude.Outcome.{
  Result, ok, err, Method, pure, throw_if, lift, attempt, ◌>>=◌, ◌>>◌,
}

-- Whatever a call answers, the store that it leaves has the property again.
unfoldable pub Keeps : {S E A : Type 0} → (S → Type 0) → Method S E A → Type 0
Keeps P m = (s : _) → P s → P (m s).1

module _ {S E : Type 0} (P : S → Type 0) where
  -- What follows a call whose outcome is known.
  bound :
      {A B : Type 0} (f : A → Method S E B)
      → ((a : A) → Keeps P (f a))
      → (r : Result E A) (s : S) → P s
      → P (elim r as (λ _. Result E B × S) [ ok a ↦ f a s | err e ↦ (err e, s) ]).1
  unfolding Keeps
  bound f h (ok a) s p = h a s p
  bound f h (err e) s p = p

  pub bind-Keeps :
      {A B : Type 0} (m : Method S E A) (f : A → Method S E B)
      → Keeps P m
      → ((a : A) → Keeps P (f a))
      → Keeps P (m >>= f)
  unfolding Keeps
  bind-Keeps m f hm hf s p = bound f hf (m s).0 (m s).1 (hm s p)

  -- A guard before a call.
  pub guard-Keeps :
      {A : Type 0} (c : Bool) (e : E) (m : Method S E A) → Keeps P m → Keeps P (throw_if c e >> m)
  unfolding Keeps
  guard-Keeps true e m h s p = p
  guard-Keeps false e m h s p = h s p

  pub throw_if-Keeps : (c : Bool) (e : E) → Keeps P (throw_if c e)
  unfolding Keeps
  throw_if-Keeps c e s p = p

  pub lift-Keeps : {A : Type 0} (r : Result E A) → Keeps P (lift r)
  unfolding Keeps
  lift-Keeps r s p = p

  pub attempt-Keeps : {A : Type 0} (m : Method S E A) → Keeps P m → Keeps P (attempt m)
  unfolding Keeps
  attempt-Keeps m h s p = h s p

pub pure-Keeps :
    {S : Type 0} (E : Type 0) {A : Type 0} (P : S → Type 0) (a : A) → Keeps {E = E} P (pure a)
unfolding Keeps
pure-Keeps E P a s p = p

-- Whatever a call returns, if it returns no error, has the property.
abbrev pub GivesOf : {E A : Type 0} → (A → Type 0) → Result E A → Type 0
GivesOf Q (ok a) = Q a
GivesOf Q (err e) = Unit

unfoldable pub Gives : {S E A : Type 0} → (A → Type 0) → Method S E A → Type 0
Gives Q m = (s : _) → GivesOf Q (m s).0

module _ {S E B : Type 0} (Q : B → Type 0) where
  continued :
      {A : Type 0} (f : A → Method S E B)
      → ((a : A) → Gives Q (f a))
      → (r : Result E A) (s : S)
      → GivesOf Q (elim r as (λ _. Result E B × S) [ ok a ↦ f a s | err e ↦ (err e, s) ]).0
  unfolding Gives
  continued f h (ok a) s = h a s
  continued f h (err e) s = tt

  pub bind-Gives :
      {A : Type 0} (m : Method S E A) (f : A → Method S E B)
      → ((a : A) → Gives Q (f a))
      → Gives Q (m >>= f)
  unfolding Gives
  bind-Gives m f h s = continued f h (m s).0 (m s).1

-- From a store with the property `P`, whatever a call returns is right with the store that it leaves.
abbrev pub Right : {S E A : Type 0} → (A → S → Type 0) → Result E A × S → Type 0
Right Q (ok a, s) = Q a s
Right Q (err e, s) = Unit

unfoldable pub Leads : {S E A : Type 0} → (S → Type 0) → (A → S → Type 0) → Method S E A → Type 0
Leads P Q m = (s : _) → P s → Right Q (m s)

module _ {S E B : Type 0} (P : S → Type 0) (Q : B → S → Type 0) where
  led :
      {A : Type 0} (f : A → Method S E B)
      → ((a : A) → Leads P Q (f a))
      → (r : Result E A) (s : S) → P s
      → Right Q (elim r as (λ _. Result E B × S) [ ok a ↦ f a s | err e ↦ (err e, s) ])
  unfolding Leads
  led f h (ok a) s p = h a s p
  led f h (err e) s p = tt

  pub bind-Leads :
      {A : Type 0} (m : Method S E A) (f : A → Method S E B)
      → Keeps P m
      → ((a : A) → Leads P Q (f a))
      → Leads P Q (m >>= f)
  unfolding Leads Keeps
  bind-Leads m f hm hf s p = led f hf (m s).0 (m s).1 (hm s p)
