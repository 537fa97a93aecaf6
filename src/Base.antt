-- ===== src/Base.antt =====
-- The names that the other modules share: the libraries', passed on, and those of the children.
mod Tests
mod Lists
mod Index
mod Rotation
mod Texts
mod Maps
mod Queries
mod MapEntries
mod Decimal
pub use Tests.*
pub use Lists.*
pub use Index.*
pub use Rotation.*
pub use Queries.*
pub use MapEntries.{
  remove-insert, AllEntries, Entries, Entries-lookup, Entries-insert, Entries-remove, Entries-mono,
  At, Entries-At,
}
pub use Texts.{Text, codes}
pub use Maps.{
  Key, text_key, nat_key, is_yes, is_some, ◌=ₖ◌, Map, Set, contains_key, lookup-insert,
  lookup-insert_same, lookup-remove, Unique, insert-Unique, remove-Unique, kept, lookup-retain,
  retain-Unique,
}
unfoldable pub use Maps.{lookup, insert, remove, retain}
unfoldable pub use Texts.{Text-discrete, text_ltb}
unfoldable pub use Decimal.{digits_from, decimal}
pub use Prim.Native.Nat.{ℕ, zero, suc, ◌+◌, ◌-◌, ◌*◌, ◌/◌, ◌%◌, ◌^◌, ◌≤◌, ◌<◌, min}
pub use mathlib.Core.Path.{◌≡◌, refl, sym, ap, ◌∙◌, subst}
pub use mathlib.Core.Logic.{◌≢◌, ◌↔◌, ◌⊎◌, inl, inr}
pub use mathlib.Core.Bool.{Bool, true, false, not, ◌&&◌, ◌||◌}
pub use mathlib.Core.Option.{Option, none, some}
pub use mathlib.Core.List.{List, [], ◌∷◌, ◌++◌, map, append-nil, append_assoc}
pub use native.Mathlib.Omega.{arith}
unfoldable pub use native.Mathlib.Decide.{dec_lt, ℕ_discrete}
