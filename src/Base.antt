-- ===== src/Base.antt =====
-- The names that the other modules share: the libraries', passed on, and those of the children.
mod Tests
mod Maps
mod Results
mod Queues
mod Sums
pub use Tests.*
pub use Results.*
unfoldable pub use Queues.{remove_key}
pub use Queues.{
  length, length-append, drop_first, contains-append, append-Distinct, drop_first-contains,
  contains-remove_key, remove_key-Distinct, length-remove_key,
}
unfoldable pub use Sums.{sum_to, count}
pub use Sums.{sum_to-same, sum_to-change, sum_to-le, sum_to-zero, count-append, count_from-zero}
unfoldable pub use Maps.{contains, count_from}
pub use Maps.{
  update, Distinct, count_from-le, count_from-update_below, count_from-set, count_from-clear,
  count_from-none,
}
pub use Prim.Native.Nat.{ℕ, zero, suc, ◌+◌, ◌-◌, ◌*◌, ◌/◌, ◌%◌, ◌^◌, ◌≤◌, ◌<◌, min, max}
pub use mathlib.Core.Path.{◌≡◌, refl, sym, ap, subst, ◌∙◌, fun_ext}
pub use mathlib.Core.Logic.{◌≢◌, ◌↔◌, ◌⊎◌, inl, inr}
pub use mathlib.Core.Bool.{Bool, true, false, not, ◌&&◌, ◌||◌}
pub use mathlib.Core.Option.{Option, none, some}
pub use mathlib.Core.List.{List, [], ◌∷◌, ◌++◌, map}
pub use native.Mathlib.Omega.{arith}
