-- ===== src/Prelude.antt =====
-- Names that every module shares: the libraries', passed on, tests on numbers and byte strings,
-- signed integers, and the state-passing actions in which the stateful code is written.
mod Tests
mod Strings
pub mod Int
pub mod Action
pub mod Words
pub use Tests.*
pub use Strings.*
unfoldable pub use Strings.{◌=b=◌}
pub use Prim.Native.Nat.{ℕ, zero, suc, ◌+◌, ◌-◌, ◌*◌, ◌/◌, ◌%◌, ◌^◌, ◌≤◌, ◌<◌}
pub use Prim.Native.String.{String}
pub use mathlib.Core.Path.{◌≡◌, refl, sym, ap, ◌∙◌}
pub use mathlib.Core.Logic.{◌≢◌, ◌↔◌, ◌⊎◌, inl, inr}
pub use mathlib.Core.Bool.{Bool, true, false, not, ◌&&◌, ◌||◌}
pub use mathlib.Core.Option.{Option, none, some}
pub use mathlib.Core.List.{List, [], ◌∷◌, ◌++◌, map, append_assoc, append-nil}
pub use native.Mathlib.Omega.{arith}
