-- ===== src/Prelude.antt =====
-- The names that the other modules share: the libraries', passed on, and those of the children.
mod Tests
mod Lists
mod Outcome
mod Pigeonhole
pub mod Int
pub mod Text
pub use Tests.*
pub use Lists.{
  length, get_elem?, In, All, Distinct, all, any, is_empty, length-append, in-append_left,
  in-append_right, in-append_cases, All-append, All-at, All-of_in, in-map, in-map_cases, contains,
  contains-eq_true, contains-of_in, contains-eq_false, not_nil-of_not_empty, put, keys,
  lookup-of_in, in-of_lookup,
}
unfoldable pub use Lists.{lookup}
pub use Outcome.*
pub use Pigeonhole.{length-le_of_distinct, in-of_length}
pub use Prim.Native.Nat.{ℕ, zero, suc, ◌+◌, ◌-◌, ◌*◌, ◌/◌, ◌%◌, ◌^◌, ◌≤◌, ◌<◌}
pub use Prim.Native.Char.{Char, code}
pub use Prim.Native.String.{String}
pub use mathlib.Core.Path.{◌≡◌, refl, sym, ap, subst, fun_ext, ◌∙◌}
pub use mathlib.Core.Logic.{◌≢◌, ◌↔◌, ◌⊎◌, inl, inr}
pub use mathlib.Core.Bool.{Bool, true, false, ◌&&◌, ◌||◌, not}
pub use mathlib.Core.Option.{Option, none, some}
pub use mathlib.Core.List.{List, [], ◌∷◌, ◌++◌, map}
pub use native.Mathlib.Omega.{arith}
pub use text.Mathlib.Text.{◌==◌}
pub use text.Mathlib.TextEquality.{eq_iff}
