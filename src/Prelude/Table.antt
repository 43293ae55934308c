-- ===== src/Prelude/Table.antt =====
-- A table with a primary key, as a list of rows of which a key finds the first. With distinct keys,
-- which the primary key enforces, that is the only one.
use Prim.Native.Nat.{ℕ}
use mathlib.Core.Path.{◌≡◌, refl, ap}
use mathlib.Core.Logic.{◌≢◌, inl, inr}
use mathlib.Core.Bool.{Bool, true}
use mathlib.Core.Option.{Option, none, some}
use mathlib.Core.List.{List, [], ◌∷◌}
use native.Mathlib.Omega.{arith}
use e_campus_server.Prelude.Tests.{◌==◌, if◌then◌else◌, Bool-cases, ==_iff}

module _ {R : Type 0} (key : R → ℕ) where
  -- `SELECT * FROM t WHERE id = $1`
  unfoldable pub row_at : ℕ → List R → Option R
  row_at id [] = none
  row_at id (r ∷ rows) = if key r == id then some r else row_at id rows

  unfoldable pub replace_row : ℕ → (R → R) → List R → List R
  replace_row id f [] = []
  replace_row id f (r ∷ rows) = if key r == id then f r ∷ rows else r ∷ replace_row id f rows

  affect_row : ℕ → (R → Bool) → (R → R) → List R → Option R → Option (R × List R)
  affect_row id p f rows none = none
  affect_row id p f rows (some r) = if p r then some (f r, replace_row id f rows) else none

  -- `UPDATE t SET f WHERE id = $1 AND p RETURNING *`; `none` means that no row was affected.
  unfoldable pub affect : ℕ → (R → Bool) → (R → R) → List R → Option (R × List R)
  unfolding affect_row
  affect id p f rows = affect_row id p f rows (row_at id rows)

  pub row_at-key : (id : ℕ) (rows : List R) {r : R} → row_at id rows ≡ some r → key r ≡ id
  unfolding row_at
  row_at-key id [] e = cc
  row_at-key id (x ∷ rows) {r} e = elim (Bool-cases (key x == id)) [
    | inl hit ↦ let k = rw hit at e in ground (arith, (==_iff (key x) id).0 hit)
    | inr miss ↦ row_at-key id rows {r = r} (rw miss at e)
  ]

  pub row_at-replace_row_self :
      (id : ℕ) (f : R → R) (rows : List R) {r : R}
      → row_at id rows ≡ some r
      → key (f r) ≡ id
      → row_at id (replace_row id f rows) ≡ some (f r)
  unfolding row_at replace_row
  row_at-replace_row_self id f [] e k = cc
  row_at-replace_row_self id f (x ∷ rows) {r} e k = elim (Bool-cases (key x == id)) [
    | inl hit ↦ ground arith
    | inr miss ↦ ground (arith, row_at-replace_row_self id f rows {r = r})
  ]

  pub row_at-replace_row_ne :
      (id other : ℕ) (f : R → R) (rows : List R)
      → ((r : R) → key (f r) ≡ key r)
      → id ≢ other
      → row_at other (replace_row id f rows) ≡ row_at other rows
  unfolding row_at replace_row
  row_at-replace_row_ne id other f [] h ne = refl
  row_at-replace_row_ne id other f (x ∷ rows) h ne =
      ground (arith, h x, row_at-replace_row_ne id other f rows h ne)

  -- The update of the row that is found.
  pub affect-row :
      (id : ℕ) (p : R → Bool) (f : R → R) (rows : List R) (r : R)
      → row_at id rows ≡ some r
      → affect id p f rows ≡ (if p r then some (f r, replace_row id f rows) else none)
  unfolding affect
  affect-row id p f rows r e = ap (affect_row id p f rows) e

  -- No row is found, and none is affected.
  pub affect-missing :
      (id : ℕ) (p : R → Bool) (f : R → R) (rows : List R)
      → row_at id rows ≡ none
      → affect id p f rows ≡ none
  unfolding affect
  affect-missing id p f rows e = ap (affect_row id p f rows) e

  -- What an affected row tells of the table before and after.
  pub affect-some :
      (id : ℕ) (p : R → Bool) (f : R → R) (rows : List R) {r' : R} {rows' : List R}
      → affect id p f rows ≡ some (r', rows')
      → (r : R) × (row_at id rows ≡ some r)
        × (p r ≡ true)
        × (r' ≡ f r)
        × (rows' ≡ replace_row id f rows)
  unfolding affect
  affect-some id p f rows {r'} {rows'} e = go (row_at id rows) refl e
    where
      go :
          (o : Option R)
          → row_at id rows ≡ o
          → affect_row id p f rows o ≡ some (r', rows')
          → (r : R) × (row_at id rows ≡ some r)
            × (p r ≡ true)
            × (r' ≡ f r)
            × (rows' ≡ replace_row id f rows)
      go none q h = cc
      go (some r) q h = (r, q, ground arith, ground arith, ground arith)
