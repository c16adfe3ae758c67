-- ===== src/Prelude.antt =====
-- The names that the other modules share: the libraries' names passed on, and those of the
-- children: tests, lists, byte strings, dictionaries, bit facts.
mod Tests
mod Lists
mod Bytes
mod Ints
pub mod Bits
pub mod Words
pub mod Dict
pub use Tests.*
pub use Lists.*
pub use Ints.*
unfoldable pub use Bytes.{str_eq, has_prefix, has_suffix}
pub use Bytes.{Str, codes, str_eq_iff, str_eq_self}
pub use Prim.Native.Nat.{ℕ, zero, suc, ◌+◌, ◌-◌, ◌*◌, ◌/◌, ◌%◌, ◌^◌, ◌≤◌, ◌<◌}
pub use mathlib.Core.Path.{◌≡◌, refl, sym, ap, ◌∙◌}
pub use mathlib.Core.Logic.{◌≢◌, ◌↔◌, ◌⊎◌, inl, inr}
pub use mathlib.Core.Bool.{Bool, true, false, not, ◌&&◌, ◌||◌}
pub use mathlib.Core.Option.{Option, none, some}
pub use mathlib.Core.List.{List, [], ◌∷◌, ◌++◌, map}
pub use native.Mathlib.Omega.{arith}
