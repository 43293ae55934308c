-- ===== src/Prelude.antt =====
-- The names that every module shares: those of the libraries, passed on, and the helpers of the
-- children. It models no file of the repository.
pub mod Tests
pub mod Lists
pub mod Outcome
pub mod Table
pub mod Unique
pub mod Counts
pub mod Invariant
pub use Tests.*
pub use Lists.*
pub use Outcome.*
unfoldable pub use Invariant.{Keeps, Gives, Leads}
pub use Invariant.{
  Right, bind-Leads, GivesOf, bind-Gives, bind-Keeps, guard-Keeps, throw_if-Keeps, pure-Keeps,
  lift-Keeps, attempt-Keeps,
}
unfoldable pub use Table.{affect, row_at, replace_row}
pub use Counts.*
unfoldable pub use Unique.{Distinct}
pub use Unique.{
  row_at-key_of, replace_row-key_of, replace_row-Distinct, keep-Distinct, row_at-keep_key,
  row_at-keep_gone, row_at-update_where, update_row, update_where-Distinct,
}
pub use Table.{
  row_at-key, row_at-replace_row_self, row_at-replace_row_ne, affect-some, affect-row,
  affect-missing,
}
pub use Prim.Native.Nat.{ℕ, zero, suc, ◌+◌, ◌-◌, ◌*◌, ◌/◌, ◌%◌, ◌^◌, ◌≤◌, ◌<◌}
pub use mathlib.Core.Path.{◌≡◌, refl, sym, ap, ◌∙◌, subst}
pub use mathlib.Core.Logic.{◌≢◌, ◌↔◌, ◌⊎◌, inl, inr}
pub use mathlib.Core.Bool.{Bool, true, false, not, ◌&&◌, ◌||◌}
pub use mathlib.Core.Option.{Option, none, some}
pub use mathlib.Core.List.{List, [], ◌∷◌, ◌++◌, map}
pub use native.Mathlib.Omega.{arith}
