-- ===== src/Prelude.antt =====
-- Names that every module shares: the libraries' names passed on, tests on native numbers, lists
-- measured by native numbers, signed integers and the unary order's well-foundedness.
mod Tests
pub mod Lists
pub mod Int
pub use Tests.*
pub use Lists.{
  length, get_elem?, set, modify, remove_at, take, drop, replicate, sum, All, length-append,
  length-set, length-map, length-replicate,
}
pub use Prim.Native.Nat.{ℕ, zero, suc, ◌+◌, ◌-◌, ◌*◌, ◌/◌, ◌%◌, ◌^◌, ◌≤◌, ◌<◌, min, max}
pub use Prim.Native.String.{String}
pub use mathlib.Core.Path.{◌≡◌, refl, sym, ap, subst, ◌∙◌, ◌≡⟨◌⟩◌, ◌∎}
pub use mathlib.Core.Logic.{◌≢◌, ◌↔◌, ◌⊎◌, inl, inr}
pub use mathlib.Core.Bool.{Bool, true, false, not, ◌&&◌, ◌||◌}
pub use mathlib.Core.Option.{Option, none, some}
pub use mathlib.Core.List.{List, [], ◌∷◌, ◌++◌, map, append-nil, append_assoc}
pub use native.Mathlib.Omega.{arith}
