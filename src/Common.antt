-- ===== src/Common.antt =====
-- The names that the other modules share: the libraries', passed on, and those of its children.
-- Text is a list of Unicode code points (`Str`), as `str::chars` yields them.
mod Tests
mod Lists
mod Slices
mod Outcome
mod Chars
mod Digits
mod Int
mod Split
mod Utf8
pub use Tests.*
pub use Lists.*
unfoldable pub use Digits.*
unfoldable pub use Int.*
unfoldable pub use Split.*
unfoldable pub use Utf8.*
pub use Slices.*
unfoldable pub use Chars.*
pub use Outcome.*
pub use Prim.Native.Nat.{ℕ, zero, suc, ◌+◌, ◌-◌, ◌*◌, ◌/◌, ◌%◌, ◌^◌, ◌≤◌, ◌<◌}
pub use mathlib.Core.Path.{◌≡◌, refl, sym, ap, ap₂, ◌∙◌, subst}
pub use mathlib.Core.Logic.{◌≢◌, ◌↔◌, ◌⊎◌, inl, inr}
pub use mathlib.Core.Bool.{Bool, true, false, not, ◌&&◌, ◌||◌}
pub use mathlib.Core.Option.{Option, none, some}
pub use mathlib.Core.List.{List, [], ◌∷◌, ◌++◌, map, append-nil, append_assoc}
pub use native.Mathlib.Omega.{arith}
