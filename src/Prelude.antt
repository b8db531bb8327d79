-- ===== src/Prelude.antt =====
-- Names that the other modules share: the libraries', passed on, and those of the children.
pub mod Tests
pub mod Lists
pub mod Dicts
pub mod Text
pub mod Slices
pub mod Options
pub mod Clean
pub mod Unique
pub use Tests.*
unfoldable pub use Lists.{from_keys}
pub use Lists.*
pub use Text.Strip.{strip-strip, strip-solid}
unfoldable pub use Text.{is_space, strip, without_dashes, clean_ids, upper}
pub use Slices.*
pub use Clean.*
pub use Unique.*
pub use Dicts.*
pub use Text.{is_empty, lstrip, rstrip, or_empty, codes, codes_eqb, upper_code}
pub use Prim.Native.Nat.{ℕ, zero, suc, ◌+◌, ◌-◌, ◌*◌, ◌/◌, ◌%◌, ◌≤◌, ◌<◌}
pub use Prim.Native.String.{String}
pub use mathlib.Core.Path.{◌≡◌, refl, sym, ap, ◌∙◌, subst}
pub use mathlib.Core.Logic.{◌≢◌, ◌↔◌, ◌⊎◌, inl, inr}
pub use mathlib.Core.Bool.{Bool, true, false, not, ◌&&◌, ◌||◌}
pub use mathlib.Core.Option.{Option, none, some}
pub use mathlib.Core.List.{List, [], ◌∷◌, ◌++◌, map}
pub use native.Mathlib.Omega.{arith}
pub use text.Mathlib.Text.{◌==◌}
pub use text.Mathlib.TextEquality.{eq_iff}
pub use text.Mathlib.TextPositions.{eq_refl}
