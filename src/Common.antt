-- ===== src/Common.antt =====
-- What the other modules share: names of the libraries, Boolean tests, lists, texts and Go's maps.
mod Tests
mod Lists
mod Text
mod Integers
mod Query
pub mod Dict
pub use Tests.*
pub use Lists.*
pub use Integers.*
pub use Text.{codes, utf8, IsPlain, codes-of_codes, ne_of_test, test_of_ne}
unfoldable pub use Query.{query_escape}
unfoldable pub use Text.{of_codes, to_char, is_blank, trim_space, quote, decimal}
pub use Prim.Native.Nat.{ℕ, zero, suc, ◌+◌, ◌-◌, ◌*◌, ◌/◌, ◌%◌, ◌^◌, ◌≤◌, ◌<◌}
pub use Prim.Native.String.{String, ◌++◌ as ◌⧺◌}
pub use mathlib.Core.Path.{◌≡◌, refl, sym, ap, ◌∙◌, subst}
pub use mathlib.Core.Logic.{◌≢◌, ◌↔◌, ◌⊎◌, inl, inr}
pub use mathlib.Core.Bool.{Bool, true, false, not, ◌&&◌, ◌||◌}
pub use mathlib.Core.Option.{Option, none, some}
pub use mathlib.Core.List.{List, [], ◌∷◌, ◌++◌, map}
pub use native.Mathlib.Omega.{arith}
pub use text.Mathlib.Text.{◌==◌}
pub use text.Mathlib.TextEquality.{eq_iff}
pub use text.Mathlib.TextPositions.{eq_refl}
unfoldable pub use native.Mathlib.Decide.{dec_lt}
