-- ===== src/Prelude.antt =====
-- The names that the other modules share: the libraries', passed on, and those of the children.
mod Tests
mod Lists
mod Predicates
mod Minimum
mod Bytes
mod Int
mod Texts
mod Sort
pub use Tests.*
pub use Lists.*
unfoldable pub use Minimum.{minimum_by}
pub use Minimum.{minimum_by-All, minimum_by-eq-none, minimum_by-least, minimum_by-measure}
pub use Predicates.*
unfoldable pub use Bytes.{bytes_eq}
pub use Bytes.{bytes_eq_refl, bytes_eq_sound}
pub use Int.{ℤ, pos, negsuc, ltb_ℤ, eq_ℤ, Between, AtLeast}
pub use Texts.{codes, codes-injective}
pub use Prim.Native.Nat.{ℕ, zero, suc, ◌+◌, ◌-◌, ◌*◌, ◌/◌, ◌%◌, ◌^◌, ◌≤◌, ◌<◌, min, max}
pub use Prim.Native.String.{String}
pub use mathlib.Core.Path.{◌≡◌, refl, sym, ap, subst, ◌∙◌}
pub use mathlib.Core.Logic.{◌≢◌, ◌↔◌, ◌⊎◌, inl, inr}
pub use mathlib.Core.Bool.{Bool, true, false, not, ◌&&◌, ◌||◌, false≢true}
pub use mathlib.Core.Option.{Option, none, some}
pub use mathlib.Core.List.{List, [], ◌∷◌, ◌++◌, map}
pub use native.Mathlib.Omega.{arith}
pub use text.Mathlib.Text.{◌==◌ as str_eq}
pub use text.Mathlib.TextEquality.{eq_iff}
pub use text.Mathlib.TextPositions.{eq_refl}
unfoldable pub use Sort.{insert_by, sort_by}
pub use Sort.{Sorted, sort_by-All, sort_by-mem, sort_by-Sorted, take-Sorted}
