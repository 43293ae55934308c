-- ===== src/Prelude/Counts.antt =====
-- How the statements of Prelude/Table change the number of rows that a condition counts.
use Prim.Native.Nat.{ℕ, ◌+◌, ◌≤◌}
use mathlib.Core.Path.{◌≡◌, refl}
use mathlib.Core.Logic.{inl, inr}
use mathlib.Core.Bool.{Bool, true, false}
use mathlib.Core.Option.{some}
use mathlib.Core.List.{List, [], ◌∷◌}
use native.Mathlib.Omega.{arith}
use e_campus_server.Prelude.Tests.{if◌then◌else◌, ◌==◌, is_set, Bool-cases}
use e_campus_server.Prelude.Lists.{count_where, find, keep, update_where, any}
use e_campus_server.Prelude.Table.{row_at, replace_row}

abbrev pub bit : Bool → ℕ
bit b = if b then 1 else 0

module _ {R : Type 0} (p : R → Bool) where
  -- One row is replaced.
  pub count_where-replace_row :
      (key : R → ℕ) (id : ℕ) (f : R → R) (rows : List R) (r : R)
      → row_at key id rows ≡ some r
      → count_where p (replace_row key id f rows) + bit (p r) ≡ count_where p rows + bit (p (f r))
  unfolding row_at replace_row
  count_where-replace_row key id f [] r e = cc
  count_where-replace_row key id f (x ∷ rows) r e = elim (Bool-cases (key x == id)) [
    | inl hit ↦ ground arith
    | inr miss ↦ ground (arith, miss, count_where-replace_row key id f rows r)
  ]

  -- A search that misses counts nothing.
  pub count_where-none : (rows : List R) → is_set (find p rows) ≡ false → count_where p rows ≡ 0
  count_where-none [] h = refl
  count_where-none (x ∷ rows) h = elim (Bool-cases (p x)) [
    | inl hit ↦ ground arith
    | inr miss ↦ ground (arith, miss, count_where-none rows)
  ]

  pub count_where-any : (rows : List R) → any p rows ≡ false → count_where p rows ≡ 0
  count_where-any [] h = refl
  count_where-any (x ∷ rows) h = elim (Bool-cases (p x)) [
    | inl hit ↦ ground arith
    | inr miss ↦ ground (arith, miss, count_where-any rows)
  ]

  pub count_where-keep :
      (q : R → Bool) (rows : List R) → count_where p (keep q rows) ≤ count_where p rows
  count_where-keep q [] = omega arith
  count_where-keep q (x ∷ rows) = elim (Bool-cases (q x)) [
    | inl hit ↦ ground (arith, hit, count_where-keep q rows)
    | inr miss ↦ ground (arith, miss, count_where-keep q rows)
  ]

  pub count_where-update_where :
      (q : R → Bool) (f : R → R) (rows : List R)
      → ((a : R) → q a ≡ true → p (f a) ≡ p a)
      → count_where p (update_where q f rows) ≡ count_where p rows
  count_where-update_where q f [] h = refl
  count_where-update_where q f (x ∷ rows) h = elim (Bool-cases (q x)) [
    | inl hit ↦ ground (arith, hit, h x hit, count_where-update_where q f rows h)
    | inr miss ↦ ground (arith, miss, count_where-update_where q f rows h)
  ]
