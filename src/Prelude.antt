-- ===== src/Prelude.antt =====
-- Names that every module shares: those of the libraries, passed on, the Boolean tests on the
-- native numbers, and the children's texts, finite maps and lists.
pub mod Tests
pub mod Decimal
pub mod Equality
pub mod Ints
pub mod Lines
pub mod Lists
pub mod Maps
pub mod Members
pub mod Numbers
pub mod Replace
pub mod Results
pub mod Sorting
pub mod Texts
pub mod Utf8
pub use Tests.{
  ltb, leb, if◌then◌else◌, Bool-cases, Option-cases, ltb→lt, lt→ltb, leb→le, is_some, is_none,
  tests,
}
pub use Equality.{PartialEq, ◌==◌, nat_eq, list_eq, eq_sound, eq_refl}
pub use Lists.{length, sum, all, any, All, contains, take, drop}
pub use Prim.Native.Nat.{ℕ, zero, suc, ◌+◌, ◌-◌, ◌*◌, ◌/◌, ◌%◌, ◌^◌, ◌≤◌, ◌<◌}
pub use mathlib.Core.Path.{◌≡◌, refl, sym, ap, subst, ◌∙◌}
pub use mathlib.Core.Logic.{◌≢◌, ◌↔◌, ◌⊎◌, inl, inr}
pub use mathlib.Core.Bool.{Bool, true, false, not, ◌&&◌, ◌||◌}
pub use mathlib.Core.Option.{Option, none, some}
pub use mathlib.Core.List.{List, [], ◌∷◌, ◌++◌, map, reverse}
pub use native.Mathlib.Omega.{arith}
