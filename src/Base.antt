-- ===== src/Base.antt =====
-- The names that the modules of the library share: the libraries', passed on, and those of three
-- children (Boolean tests, lists over the native numbers, machine words). Bits and Flags, on the bits of
-- numbers, are named by their users.
mod Tests
mod Lists
mod Words
pub mod Bits
pub mod Flags
pub use Tests.*
pub use Lists.*
pub use Words.{u32, sub32, u16, u8, page_size, passes_below_lem}
unfoldable pub use Words.{passes_below}
pub use Prim.Native.Nat.{
  ℕ, zero, suc, ◌+◌, ◌-◌, ◌*◌, ◌/◌, ◌%◌, ◌^◌, ◌≤◌, ◌<◌, bit_and, bit_or, bit_xor,
}
pub use mathlib.Core.Path.{◌≡◌, refl, sym, ap, ◌∙◌, subst, fun_ext}
pub use mathlib.Core.Logic.{◌≢◌, ◌↔◌, ◌⊎◌, inl, inr}
pub use mathlib.Core.Bool.{Bool, true, false, not, ◌&&◌, ◌||◌}
pub use mathlib.Core.Option.{Option, none, some}
pub use mathlib.Core.List.{List, [], ◌∷◌, ◌++◌, map, append-nil, append_assoc}
pub use native.Mathlib.Omega.{arith}
unfoldable pub use native.Mathlib.Decide.{dec_lt, dec_le, ℕ_discrete}
