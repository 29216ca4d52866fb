-- ===== src/Prelude.antt =====
-- The names that the other modules share: the libraries', passed on, and those of the children.
mod Tests
mod Raise
mod Maps
mod Integers
mod Counts
mod Entries
pub use Tests.*
pub use Raise.*
pub use Integers.*
pub use Entries.{
  keys, values, keys-put, keys-put_there, values-put, get-absent, get-value, keys-pop, values-pop,
  pop-absent,
}
pub use Counts.{times, times-without, times-last}
unfoldable pub use Counts.{without}
pub use Maps.{Dict, dict_has, get-put, get-pop, get-empty}
unfoldable pub use Maps.{dict_get, dict_put, dict_pop}
pub use Prim.Native.Nat.{ℕ, zero, suc, ◌+◌, ◌-◌, ◌*◌, ◌/◌, ◌%◌, ◌^◌, ◌≤◌, ◌<◌}
pub use Prim.Native.String.{String}
pub use mathlib.Core.Path.{◌≡◌, refl, sym, ap, subst, ◌∙◌}
pub use mathlib.Core.Logic.{◌≢◌, ◌↔◌, ◌⊎◌, inl, inr}
pub use mathlib.Core.Bool.{Bool, true, false, ◌&&◌, ◌||◌, not}
pub use mathlib.Core.Option.{Option, none, some}
pub use mathlib.Core.List.{List, [], ◌∷◌, ◌++◌, map}
pub use native.Mathlib.Omega.{arith}
pub use text.Mathlib.Text.{◌==◌ as str_eq, starts_with}
pub use text.Mathlib.TextEquality.{eq_iff}
