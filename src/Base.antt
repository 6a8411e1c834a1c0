-- ===== src/Base.antt =====
-- The names that the modules share: the libraries', passed on, and those of the children.
mod Tests
mod Lists
mod Int
mod Recent
mod Strings
pub mod Result
pub mod Assoc
pub mod Context
pub mod RedisHash
pub mod RedisKeys
pub use Tests.*
pub use Lists.*
pub use Recent.*
pub use Int.*
pub use Strings.{Bytes, codes, eqs→eq, eqs_refl, eqs_iff, has_prefix-append, has_byte-append}
unfoldable pub use Strings.{
  eqs, has_prefix, has_byte, contains_any, contains, lower_byte, to_lower, elem,
}
pub use Prim.Native.Nat.{ℕ, zero, suc, ◌+◌, ◌-◌, ◌*◌, ◌/◌, ◌%◌, ◌^◌, ◌≤◌, ◌<◌, min, max}
pub use Prim.Native.String.{String}
pub use mathlib.Core.Path.{◌≡◌, refl, sym, ap, ◌∙◌, subst, fun_ext}
pub use mathlib.Core.Logic.{◌≢◌, ◌↔◌, ◌⊎◌, inl, inr}
pub use mathlib.Core.Bool.{Bool, true, false, ◌&&◌, ◌||◌, not}
pub use mathlib.Core.Option.{Option, none, some}
pub use mathlib.Core.List.{List, [], ◌∷◌, ◌++◌, map}
pub use native.Mathlib.Omega.{arith}
