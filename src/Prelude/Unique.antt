-- ===== src/Prelude/Unique.antt =====
-- Columns whose values are distinct, as a primary key and a unique index enforce, and how the
-- statements of Prelude/Table keep them so.
use Prim.Native.Nat.{ℕ}
use mathlib.Core.Path.{◌≡◌, refl}
use mathlib.Core.Logic.{◌≢◌, inl, inr}
use mathlib.Core.Bool.{Bool, true, false}
use mathlib.Core.Option.{Option, none, some}
use mathlib.Core.List.{List, [], ◌∷◌}
use native.Mathlib.Omega.{arith}
use e_campus_server.Prelude.Tests.{◌==◌, if◌then◌else◌, Bool-cases, ==_iff}
use e_campus_server.Prelude.Lists.{keep, update_where}
use e_campus_server.Prelude.Table.{row_at, replace_row}

module _ {R : Type 0} (key : R → ℕ) where
  unfoldable pub Distinct : List R → Type 0
  Distinct [] = Unit
  Distinct (x ∷ rows) = (row_at key (key x) rows ≡ none) × Distinct rows

  -- The key of a row that another column finds is not one that the table lacks.
  absent :
      (column : R → ℕ) (v k : ℕ) (rows : List R) (r : R)
      → row_at key k rows ≡ none
      → row_at column v rows ≡ some r
      → key r ≢ k
  unfolding row_at
  absent column v k [] r gone there same = cc
  absent column v k (x ∷ rows) r gone there same = elim (Bool-cases (key x == k)) [
    | inl hit ↦ ground (arith, hit)
    | inr miss ↦ elim (Bool-cases (column x == v)) [
      | inl found ↦ ground (arith, miss, found, (==_iff (key x) k).1)
      | inr other ↦ absent column v k rows r (ground (arith, miss)) (ground (arith, other)) same
    ]
  ]

  -- A row that another column finds is the one that its key finds.
  pub row_at-key_of :
      (column : R → ℕ) (v : ℕ) (rows : List R) (r : R)
      → Distinct rows
      → row_at column v rows ≡ some r
      → row_at key (key r) rows ≡ some r
  unfolding Distinct row_at
  row_at-key_of column v [] r d there = cc
  row_at-key_of column v (x ∷ rows) r d there = elim (Bool-cases (column x == v)) [
    | inl found ↦ ground (arith, found, (==_iff (key x) (key r)).1)
    | inr other ↦
        let there' : row_at column v rows ≡ some r = ground (arith, other) in
        let ne = absent column v (key x) rows r d.0 there' in
        ground (arith, row_at-key_of column v rows r d.1 there', ne)
  ]

  pub replace_row-key_of :
      (column : R → ℕ) (v : ℕ) (f : R → R) (rows : List R) (r : R)
      → Distinct rows
      → row_at column v rows ≡ some r
      → replace_row column v f rows ≡ replace_row key (key r) f rows
  unfolding Distinct row_at replace_row
  replace_row-key_of column v f [] r d there = cc
  replace_row-key_of column v f (x ∷ rows) r d there = elim (Bool-cases (column x == v)) [
    | inl found ↦ ground (arith, found, (==_iff (key x) (key r)).1)
    | inr other ↦
        let there' : row_at column v rows ≡ some r = ground (arith, other) in
        let ne = absent column v (key x) rows r d.0 there' in
        ground (arith, other, replace_row-key_of column v f rows r d.1 there', ne)
  ]

  row_at-replace_row-none :
      (column : R → ℕ) (v : ℕ) (f : R → R)
      → ((r : R) → key (f r) ≡ key r)
      → (other : ℕ) (rows : List R) → row_at key other rows ≡ none
      → row_at key other (replace_row column v f rows) ≡ none
  unfolding row_at replace_row
  row_at-replace_row-none column v f same other [] e = refl
  row_at-replace_row-none column v f same other (x ∷ rows) e =
      ground (arith, same x, row_at-replace_row-none column v f same other rows)

  pub replace_row-Distinct :
      (column : R → ℕ) (v : ℕ) (f : R → R)
      → ((r : R) → key (f r) ≡ key r)
      → (rows : List R) → Distinct rows
      → Distinct (replace_row column v f rows)
  unfolding Distinct replace_row
  replace_row-Distinct column v f same [] d = tt
  replace_row-Distinct column v f same (x ∷ rows) d = elim (Bool-cases (column x == v)) [
    | inl hit ↦ rw (hit, same x) d
    | inr miss ↦ rw miss (
      row_at-replace_row-none column v f same (key x) rows d.0,
      replace_row-Distinct column v f same rows d.1,
    )
  ]

  row_at-keep-none :
      (p : R → Bool) (other : ℕ) (rows : List R)
      → row_at key other rows ≡ none
      → row_at key other (keep p rows) ≡ none
  unfolding row_at
  row_at-keep-none p other [] e = refl
  row_at-keep-none p other (x ∷ rows) e = elim (Bool-cases (p x)) [
    | inl hit ↦ ground (arith, hit, row_at-keep-none p other rows)
    | inr miss ↦ ground (arith, miss, row_at-keep-none p other rows)
  ]

  pub keep-Distinct : (p : R → Bool) (rows : List R) → Distinct rows → Distinct (keep p rows)
  unfolding Distinct
  keep-Distinct p [] d = tt
  keep-Distinct p (x ∷ rows) d = elim (Bool-cases (p x)) [
    | inl hit ↦ rw hit (row_at-keep-none p (key x) rows d.0, keep-Distinct p rows d.1)
    | inr miss ↦ rw miss (keep-Distinct p rows d.1)
  ]

  -- What a filter by key leaves of a lookup.
  pub row_at-keep_key :
      (p : R → Bool) (other : ℕ) (rows : List R)
      → ((r : R) → key r ≡ other → p r ≡ true)
      → row_at key other (keep p rows) ≡ row_at key other rows
  unfolding row_at
  row_at-keep_key p other [] h = refl
  row_at-keep_key p other (x ∷ rows) h = elim (Bool-cases (p x)) [
    | inl hit ↦ ground (arith, hit, row_at-keep_key p other rows h)
    | inr miss ↦ ground (arith, miss, h x, (==_iff (key x) other).0, row_at-keep_key p other rows h)
  ]

  pub row_at-keep_gone :
      (p : R → Bool) (other : ℕ) (rows : List R)
      → ((r : R) → key r ≡ other → p r ≡ false)
      → row_at key other (keep p rows) ≡ none
  unfolding row_at
  row_at-keep_gone p other [] h = refl
  row_at-keep_gone p other (x ∷ rows) h = elim (Bool-cases (p x)) [
    | inl hit ↦ ground (arith, hit, h x, (==_iff (key x) other).0, row_at-keep_gone p other rows h)
    | inr miss ↦ ground (arith, miss, row_at-keep_gone p other rows h)
  ]

  abbrev pub update_row : (R → Bool) → (R → R) → Option R → Option R
  update_row p f none = none
  update_row p f (some r) = some (if p r then f r else r)

  pub row_at-update_where :
      (p : R → Bool) (f : R → R)
      → ((r : R) → key (f r) ≡ key r)
      → (id : ℕ) (rows : List R)
      → row_at key id (update_where p f rows) ≡ update_row p f (row_at key id rows)
  unfolding row_at
  row_at-update_where p f same id [] = refl
  row_at-update_where p f same id (x ∷ rows) = elim (Bool-cases (p x)) [
    | inl hit ↦ ground (arith, hit, same x, row_at-update_where p f same id rows)
    | inr miss ↦ ground (arith, miss, row_at-update_where p f same id rows)
  ]

  pub update_where-Distinct :
      (p : R → Bool) (f : R → R)
      → ((r : R) → key (f r) ≡ key r)
      → (rows : List R) → Distinct rows
      → Distinct (update_where p f rows)
  unfolding Distinct
  update_where-Distinct p f same [] d = tt
  update_where-Distinct p f same (x ∷ rows) d =
      let gone : (k : ℕ) → row_at key k rows ≡ none → row_at key k (update_where p f rows) ≡ none =
        λ k e. ground (arith, row_at-update_where p f same k rows) in
      elim (Bool-cases (p x)) [
        | inl hit ↦ rw (hit, same x) (gone (key x) d.0, update_where-Distinct p f same rows d.1)
        | inr miss ↦ rw miss (gone (key x) d.0, update_where-Distinct p f same rows d.1)
      ]
