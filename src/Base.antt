-- ===== src/Base.antt =====
-- The names that the other modules share: the libraries', passed on, and those of the children.
mod Tests
mod Lists
mod Strings
pub mod Results
pub mod Actions
pub mod Int
pub mod Count
pub use Tests.*
pub use Lists.*
pub use Strings.{concat, same_text}
pub use Count.*
pub use Results.{
  Error, root_with_parent_directory, directory_without_parent, directory_not_found, parsing_id,
  notify_failed, no_reconciler, expected_one_row, bad_query, unexpected_type, other, wrap, Panic,
  nil_dereference, index_out_of_range, makeslice_len_out_of_range, slice_bounds_out_of_range,
  invalid_argument, Outcome, ok, err, err_with, panic, diverge, is_not_found, is_parsing_id,
}
pub use Actions.*
pub use Prim.Native.Nat.{ℕ, zero, suc, ◌+◌, ◌-◌, ◌*◌, ◌/◌, ◌%◌, ◌^◌, ◌≤◌, ◌<◌, min}
pub use Prim.Native.String.{String}
pub use mathlib.Core.Path.{◌≡◌, refl, sym, ap, ◌∙◌, subst}
pub use mathlib.Core.Logic.{◌≢◌, ◌↔◌, ◌⊎◌, inl, inr}
pub use mathlib.Core.Bool.{Bool, true, false, not, ◌&&◌, ◌||◌}
pub use mathlib.Core.Option.{Option, none, some}
pub use mathlib.Core.List.{List, [], ◌∷◌, ◌++◌, map, reverse, reverse_aux, foldl}
pub use native.Mathlib.Omega.{arith}
