-- ===== src/Base/Maps.antt =====
-- `DashMap`, `IndexMap`, `HashMap` and `HashSet`: the entries in insertion order.
use mathlib.Core.Path.{◌≡◌, refl}
use mathlib.Core.Bool.{Bool, true, false}
use mathlib.Core.Option.{Option, none, some}
use mathlib.Core.List.{List, [], ◌∷◌}
use native.Mathlib.Omega.{arith}
use native.Mathlib.Decide.{ℕ_discrete}
use Prim.Native.Nat.{ℕ}
use cs_stratum_bridge.Base.Tests.{if◌then◌else◌}
use cs_stratum_bridge.Base.Texts.{Text, Text-discrete}

-- The keys of a map: what `Eq` gives.
pub record Key (K : Type 0) : Type 0 where
  pub dec : Discrete K

instance abbrev pub text_key : Key Text
text_key = record { dec = Text-discrete }

instance abbrev pub nat_key : Key ℕ
nat_key = record { dec = ℕ_discrete }

-- A test by a decision, as a Boolean.
abbrev pub is_yes {ℓ} : {P : Type ℓ} → Dec P → Bool
is_yes (yes _) = true
is_yes (no _) = false

infix 50 ◌=ₖ◌
abbrev pub ◌=ₖ◌ : {K : Type 0} ⦃k : Key K⦄ → K → K → Bool
◌=ₖ◌ ⦃k⦄ a b = is_yes (k.dec a b)

abbrev pub Map : Type 0 → Type 0 → Type 0
Map K V = List (K × V)

abbrev pub is_some {ℓ} : {A : Type ℓ} → Option A → Bool
is_some none = false
is_some (some _) = true

-- `retain` keeps an entry exactly if its value passes.
abbrev pub kept {ℓ} : {V : Type ℓ} → (V → Bool) → Option V → Option V
kept p none = none
kept p (some v) = if p v then some v else none

module _ {K V : Type 0} ⦃key : Key K⦄ where
  unfoldable pub lookup : K → Map K V → Option V
  lookup k [] = none
  lookup k ((j, v) ∷ m) = if j =ₖ k then some v else lookup k m

  -- The value of a key that is present is replaced in place; a new key goes to the end.
  unfoldable pub insert : K → V → Map K V → Map K V
  insert k v [] = (k, v) ∷ []
  insert k v ((j, w) ∷ m) = if j =ₖ k then (k, v) ∷ m else (j, w) ∷ insert k v m

  -- The order of the other entries stays, as by `shift_remove`.
  unfoldable pub remove : K → Map K V → Map K V
  remove k [] = []
  remove k ((j, w) ∷ m) = if j =ₖ k then remove k m else (j, w) ∷ remove k m

  abbrev pub contains_key : K → Map K V → Bool
  contains_key k m = is_some (lookup k m)

  -- `retain`, with a test of the value.
  unfoldable pub retain : (V → Bool) → Map K V → Map K V
  retain p [] = []
  retain p ((j, w) ∷ m) = if p w then (j, w) ∷ retain p m else retain p m

  pub lookup-insert :
      (k j : K) (v : V) (m : Map K V)
      → lookup j (insert k v m) ≡ (if k =ₖ j then some v else lookup j m)
  unfolding lookup insert
  lookup-insert k j v [] = refl
  lookup-insert k j v ((i, w) ∷ m) = ground (arith, lookup-insert k j v m)

  pub lookup-insert_same : (k : K) (v : V) (m : Map K V) → lookup k (insert k v m) ≡ some v
  lookup-insert_same k v m = ground (arith, lookup-insert k k v m)

  pub lookup-remove :
      (k j : K) (m : Map K V) → lookup j (remove k m) ≡ (if k =ₖ j then none else lookup j m)
  unfolding lookup remove
  lookup-remove k j [] = ground arith
  lookup-remove k j ((i, w) ∷ m) = ground (arith, lookup-remove k j m)

  -- A map keeps one entry for a key.
  abbrev pub Unique : Map K V → Type 0
  Unique [] = Unit
  Unique ((k, v) ∷ m) = (contains_key k m ≡ false) × Unique m

  pub insert-Unique : (k : K) (v : V) (m : Map K V) → Unique m → Unique (insert k v m)
  unfolding insert lookup
  insert-Unique k v [] u = (refl, tt)
  insert-Unique k v ((j, w) ∷ m) u = ground (arith, insert-Unique k v m u.1, lookup-insert k j v m)

  pub remove-Unique : (k : K) (m : Map K V) → Unique m → Unique (remove k m)
  unfolding remove
  remove-Unique k [] u = tt
  remove-Unique k ((j, w) ∷ m) u = ground (arith, remove-Unique k m u.1, lookup-remove k j m)

  pub lookup-retain :
      (p : V → Bool) (j : K) (m : Map K V) → Unique m → lookup j (retain p m) ≡ kept p (lookup j m)
  unfolding lookup retain
  lookup-retain p j [] u = refl
  lookup-retain p j ((i, w) ∷ m) u = ground (arith, lookup-retain p j m u.1)

  pub retain-Unique : (p : V → Bool) (m : Map K V) → Unique m → Unique (retain p m)
  unfolding retain
  retain-Unique p [] u = tt
  retain-Unique p ((i, w) ∷ m) u = ground (arith, retain-Unique p m u.1, lookup-retain p i m u.1)

-- A `HashSet` is a map to the unit.
abbrev pub Set : Type 0 → Type 0
Set K = Map K (Unit {0})
