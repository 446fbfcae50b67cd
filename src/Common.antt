-- ===== src/Common.antt =====
-- The names that the other modules share: the libraries', passed on, and those of the children.
mod Tests
mod Lists
mod Maps
mod Keyed
mod Results
pub mod Actions
pub mod Text
mod Slices
mod Sort
mod TextOrder
pub use Tests.*
pub use Lists.{
  length, length-append, any, All, In, In-append_left, In-append_right, In-keep, In-of_keep,
  List-cases,
}
unfoldable pub use Lists.{keep}
unfoldable pub use Maps.{lookup, insert, delete}
pub use Maps.{
  Map, has_key, HasUniqueKeys, lookup-insert, lookup-delete, lookup-insert_self, lookup-insert_ne,
  lookup-delete_self, lookup-delete_ne, values,
}
pub use Keyed.*
pub use TextOrder.*
pub use Results.*
pub use Slices.*
pub use Sort.{IsSorted, Sorter, IsOrder, All-perm, In→All, All→In, All-map, In-perm, length-perm}
unfoldable pub use Sort.{place, insertion_sort, insertion_sorter}
pub use Prim.Native.Nat.{ℕ, zero, suc, ◌+◌, ◌-◌, ◌*◌, ◌≤◌, ◌<◌}
pub use Prim.Native.String.{String}
pub use mathlib.Core.Path.{◌≡◌, refl, sym, ap, subst, ◌∙◌}
pub use mathlib.Core.Logic.{◌≢◌, ◌↔◌, ◌⊎◌, inl, inr}
pub use mathlib.Core.Bool.{Bool, true, false, not, ◌&&◌, ◌||◌}
pub use mathlib.Core.Option.{Option, none, some}
pub use mathlib.Core.List.{List, [], ◌∷◌, ◌++◌, map, reverse}
pub use text.Mathlib.TextEquality.{eq_iff}
pub use native.Mathlib.Omega.{arith}
