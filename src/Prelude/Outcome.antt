-- ===== src/Prelude/Outcome.antt =====
-- Go's pair `(T, error)` as a value, and calls that change a store.
use mathlib.Core.Path.{◌≡◌, refl}
use mathlib.Core.Logic.{◌⊎◌, inl, inr}
use mathlib.Core.Bool.{Bool}
use e_campus_server.Prelude.Tests.{if◌then◌else◌}

pub data Result (E : Type 0) (A : Type 0) : Type 0 where
  ok : A → Result E A
  err : E → Result E A

-- A method that reads and writes a store. What was written before an error stays written.
abbrev pub Method : Type 0 → Type 0 → Type 0 → Type 0
Method S E A = S → Result E A × S

abbrev pub Done : Type 0
Done = Unit {0}

-- `if err != nil { return err }` after a call that only reads.
abbrev pub try : {E A B : Type 0} → Result E A → (A → Result E B) → Result E B
try (ok a) f = f a
try (err e) f = err e

module _ {S E A : Type 0} where
  abbrev pub pure : A → Method S E A
  pure a s = (ok a, s)

  abbrev pub throw : E → Method S E A
  throw e s = (err e, s)

  -- A computed result as a call that leaves the store alone.
  abbrev pub lift : Result E A → Method S E A
  lift r s = (r, s)

  -- A call whose error the caller looks at, as in `errors.Is(err, ErrConflict)`.
  abbrev pub attempt : Method S E A → Method S E (Result E A)
  attempt m s = let (r, s') = m s in (ok r, s')

infixl 5 ◌>>=◌ ◌>>◌
abbrev pub ◌>>=◌ : {S E A B : Type 0} → Method S E A → (A → Method S E B) → Method S E B
◌>>=◌ m f s = let (r, s') = m s in elim r [ ok a ↦ f a s' | err e ↦ (err e, s') ]

abbrev pub ◌>>◌ : {S E A B : Type 0} → Method S E A → Method S E B → Method S E B
m >> k = m >>= λ _. k

-- `if c { return e }`
abbrev pub throw_if : {S E : Type 0} → Bool → E → Method S E Done
throw_if c e s = (if c then err e else ok tt, s)

pub Result-cases :
    {E A : Type 0} (r : Result E A) → ((a : A) × (r ≡ ok a)) ⊎ ((e : E) × (r ≡ err e))
Result-cases (ok a) = inl (a, refl)
Result-cases (err e) = inr (e, refl)
