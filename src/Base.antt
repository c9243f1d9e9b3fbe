-- ===== src/Base.antt =====
-- The names that the other modules share: those of the libraries and of the modules below.
mod Tests
mod Lists
mod Sorting
mod Words
mod Order
mod Text
mod Chars
pub mod Map
pub use Tests.*
pub use Lists.*
pub use Sorting.*
pub use Words.*
pub use Order.*
pub use Text.*
pub use Text.Numbers.*
pub use Text.Trim.*
pub use Chars.*
unfoldable pub use Text.{is_blank, is_whitespace, decimal, trim, trim_start, trim_end}
unfoldable pub use Chars.{join, lines, split, split_once}
unfoldable pub use Text.Numbers.{parse_number}
unfoldable pub use Sorting.{sort_by}
pub use Prim.Native.Nat.{
  ℕ, zero, suc, Ordering, compare, min, max, ◌+◌, ◌-◌, ◌*◌, ◌/◌, ◌%◌, ◌^◌, ◌≤◌, ◌<◌,
}
pub use Prim.Native.String.{String}
pub use mathlib.Core.Path.{◌≡◌, refl, sym, ap, ◌∙◌, subst, ◌≡⟨◌⟩◌, ◌∎}
pub use mathlib.Core.Logic.{◌≢◌, ◌↔◌, ◌⊎◌, inl, inr}
pub use mathlib.Core.Bool.{Bool, true, false, not, ◌&&◌, ◌||◌}
pub use mathlib.Core.Option.{Option, none, some}
pub use mathlib.Core.List.{List, [], ◌∷◌, ◌++◌, map, append-nil, append_assoc, reverse}
pub use native.Mathlib.Omega.{arith}
