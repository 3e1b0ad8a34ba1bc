-- ===== src/Common.antt =====
-- Names that every part shares: the libraries' own, passed on, and the helpers of the children.
mod Tests
mod Lists
mod Results
mod Texts
mod Ascii
pub mod Int
pub use Tests.*
pub use Lists.*
pub use Results.*
pub use Texts.*
pub use Ascii.{parse_u64_lt}
unfoldable pub use Ascii.{to_ascii_lowercase, parse_u64}
pub use Prim.Native.Nat.{ℕ, zero, suc, ◌+◌, ◌-◌, ◌*◌, ◌%◌, ◌^◌, ◌≤◌, ◌<◌}
pub use Prim.Native.String.{String}
pub use mathlib.Core.Path.{◌≡◌, refl, sym, ap, subst, ◌∙◌}
pub use mathlib.Core.Logic.{◌≢◌, ◌↔◌, ◌⊎◌, inl, inr}
pub use mathlib.Core.Bool.{Bool, true, false, not, ◌&&◌, ◌||◌}
pub use mathlib.Core.Option.{Option, none, some}
pub use mathlib.Core.List.{List, [], ◌∷◌, ◌++◌, map}
pub use native.Mathlib.Omega.{arith}
unfoldable pub use native.Mathlib.Decide.{dec_lt, ℕ_discrete}
