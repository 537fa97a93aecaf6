-- ===== src/Base/MapEntries.antt =====
-- What holds of every entry of a map that keeps one entry for a key.
use mathlib.Core.Path.{◌≡◌, subst}
use mathlib.Core.Logic.{◌⊎◌, inl, inr}
use mathlib.Core.Bool.{false}
use mathlib.Core.Option.{none, some}
use mathlib.Core.List.{[], ◌∷◌}
use native.Mathlib.Omega.{arith}
use cs_stratum_bridge.Base.Tests.{Bool-cases}
use cs_stratum_bridge.Base.Maps.{
  Key, ◌=ₖ◌, Map, lookup, insert, remove, Unique, insert-Unique, remove-Unique,
}

module _ {K V : Type 0} ⦃key : Key K⦄ where
  -- What holds of every entry.
  abbrev pub AllEntries {κ} : (K → V → Type κ) → Map K V → Type κ
  AllEntries P [] = Unit
  AllEntries P ((k, v) ∷ m) = P k v × AllEntries P m

  AllEntries-lookup {κ} :
      (P : K → V → Type κ) (k : K) (v : V) (m : Map K V)
      → AllEntries P m
      → lookup k m ≡ some v
      → P k v
  unfolding lookup
  AllEntries-lookup P k v [] all found = absurd (cc)
  AllEntries-lookup P k v ((j, w) ∷ m) (pw, all) found = elim (key.dec j k) [
    | yes here ↦ let value : w ≡ v = ground arith in subst (λ i. P i v) here (subst (P j) value pw)
    | no there ↦ AllEntries-lookup P k v m all (ground arith)
  ]

  AllEntries-insert {κ} :
      (P : K → V → Type κ) (k : K) (v : V) (m : Map K V)
      → P k v
      → AllEntries P m
      → AllEntries P (insert k v m)
  unfolding insert
  AllEntries-insert P k v [] pv all = (pv, tt)
  AllEntries-insert P k v ((j, w) ∷ m) pv (pw, all) = elim (Bool-cases (j =ₖ k)) [
    | inl here ↦ rw here (pv, all)
    | inr there ↦ rw there (pw, AllEntries-insert P k v m pv all)
  ]

  AllEntries-remove {κ} :
      (P : K → V → Type κ) (k : K) (m : Map K V) → AllEntries P m → AllEntries P (remove k m)
  unfolding remove
  AllEntries-remove P k [] all = tt
  AllEntries-remove P k ((j, w) ∷ m) (pw, all) = elim (Bool-cases (j =ₖ k)) [
    | inl here ↦ rw here (AllEntries-remove P k m all)
    | inr there ↦ rw there (pw, AllEntries-remove P k m all)
  ]

  abbrev pub Entries {κ} : (K → V → Type κ) → Map K V → Type κ
  Entries P m = Unique m × AllEntries P m

  pub remove-insert : (k : K) (v : V) (m : Map K V) → remove k (insert k v m) ≡ remove k m
  unfolding remove insert
  remove-insert k v [] = ground arith
  remove-insert k v ((j, w) ∷ m) = ground (arith, remove-insert k v m)

  pub Entries-lookup {κ} :
      (P : K → V → Type κ) (k : K) (v : V) (m : Map K V) → Entries P m → lookup k m ≡ some v → P k v
  Entries-lookup P k v m (u, all) found = AllEntries-lookup P k v m all found

  pub Entries-insert {κ} :
      (P : K → V → Type κ) (k : K) (v : V) (m : Map K V)
      → P k v
      → Entries P m
      → Entries P (insert k v m)
  Entries-insert P k v m pv (u, all) = (insert-Unique k v m u, AllEntries-insert P k v m pv all)

  pub Entries-remove {κ} :
      (P : K → V → Type κ) (k : K) (m : Map K V) → Entries P m → Entries P (remove k m)
  Entries-remove P k m (u, all) = (remove-Unique k m u, AllEntries-remove P k m all)

  AllEntries-mono {κ μ} :
      {P : K → V → Type κ} {Q : K → V → Type μ} (f : (k : K) (v : V) → P k v → Q k v) (m : Map K V)
      → AllEntries P m
      → AllEntries Q m
  AllEntries-mono f [] all = tt
  AllEntries-mono f ((k, v) ∷ m) (pv, all) = (f k v pv, AllEntries-mono f m all)

  pub Entries-mono {κ μ} :
      {P : K → V → Type κ} {Q : K → V → Type μ} (f : (k : K) (v : V) → P k v → Q k v) (m : Map K V)
      → Entries P m
      → Entries Q m
  Entries-mono f m (u, all) = (u, AllEntries-mono f m all)

  -- What holds besides of the value of one key.
  abbrev pub At {κ μ} : (K → V → Type κ) → K → (V → Type μ) → K → V → Type (κ ⊔ μ)
  At P k Q j v = P j v × (((j =ₖ k) ≡ false) ⊎ Q v)

  AllEntries-absent {κ μ} :
      (P : K → V → Type κ) (k : K) (Q : V → Type μ) (m : Map K V)
      → lookup k m ≡ none
      → AllEntries P m
      → AllEntries (At P k Q) m
  unfolding lookup
  AllEntries-absent P k Q [] gone all = tt
  AllEntries-absent P k Q ((j, w) ∷ m) gone (pw, all) = elim (Bool-cases (j =ₖ k)) [
    | inl here ↦ absurd (ground arith)
    | inr there ↦ ((pw, inl there), AllEntries-absent P k Q m (ground arith) all)
  ]

  AllEntries-At {κ μ} :
      (P : K → V → Type κ) (k : K) (Q : V → Type μ) (v : V) (m : Map K V)
      → Unique m
      → lookup k m ≡ some v
      → Q v
      → AllEntries P m
      → AllEntries (At P k Q) m
  unfolding lookup
  AllEntries-At P k Q v [] u found qv all = tt
  AllEntries-At P k Q v ((j, w) ∷ m) (fresh, u) found qv (pw, all) = elim (key.dec j k) [
    | yes here ↦
        let value : v ≡ w = ground arith in
        let gone : lookup k m ≡ none = subst (λ i. lookup i m ≡ none) here (ground arith) in
        ((pw, inr (subst Q value qv)), AllEntries-absent P k Q m gone all)
    | no there ↦ ((pw, inl (ground arith)), AllEntries-At P k Q v m u (ground arith) qv all)
  ]

  pub Entries-At {κ μ} :
      (P : K → V → Type κ) (k : K) (Q : V → Type μ) (v : V) (m : Map K V)
      → lookup k m ≡ some v
      → Q v
      → Entries P m
      → Entries (At P k Q) m
  Entries-At P k Q v m found qv (u, all) = (u, AllEntries-At P k Q v m u found qv all)
