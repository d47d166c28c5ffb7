-- ===== src/Shared.antt =====
-- The names that the other modules share: those of the libraries, passed on, and of the children.
mod Tests
mod Lists
mod Sorting
mod Keys
mod Strings
mod Scan
mod Assoc
mod Paths
pub mod Cuts
pub mod Trims
pub mod Order
pub use Tests.*
pub use Lists.*
pub use Sorting.*
pub use Keys.*
unfoldable pub use Cuts.{cut}
pub use Strings.{concat, join}
unfoldable pub use Strings.{decimal}
pub use Scan.{Cut, contains-concat, concat-append, cut_prefix-append, cut_prefix-clash}
pub use Assoc.{
  none_not_some, some_inj, lookup-insert, IsKeyed, insert-IsKeyed, All-insert, Memᴰ-of_lookup,
  lookup-of_Memᴰ,
}
unfoldable pub use Assoc.{lookup, insert}
unfoldable pub use Paths.{join_path}
unfoldable pub use Scan.{trim_space, cut_prefix, cut_at, trim_right_of, contains, clash, lines}
pub use Prim.Native.Nat.{ℕ, zero, suc, ◌+◌, ◌-◌, ◌*◌, ◌≤◌, ◌<◌}
pub use Prim.Native.String.{String}
pub use mathlib.Core.Path.{◌≡◌, refl, sym, ap, ◌∙◌}
pub use mathlib.Core.Logic.{◌≢◌, ◌↔◌, ◌⊎◌, inl, inr}
pub use mathlib.Core.Bool.{Bool, true, false, not, ◌&&◌, ◌||◌}
pub use mathlib.Core.Option.{Option, none, some}
pub use mathlib.Core.List.{List, [], ◌∷◌, ◌++◌, map}
pub use native.Mathlib.Omega.{arith}
pub use text.Mathlib.Text.{◌==◌}
pub use text.Mathlib.TextEquality.{eq_iff}
