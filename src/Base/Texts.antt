-- ===== src/Base/Texts.antt =====
-- A Rust `String`: its bytes. Equality is decided, and the order is that of `str::cmp`, byte by byte.
use Prim.Native.Nat.{ℕ, compare, Ordering}
use Prim.Native.Char.{code}
use Prim.Native.String.{String}
use mathlib.Core.Path.{refl, ap₂}
use mathlib.Core.Logic.{◌≢◌}
use mathlib.Core.Bool.{Bool, true, false}
use mathlib.Core.List.{List, [], ◌∷◌}
use native.Mathlib.Decide.{ℕ_discrete}

abbrev pub Text : Type 0
Text = List ℕ

nil-ne-cons : {b : ℕ} {t : Text} → [] ≢ b ∷ t
nil-ne-cons h = cc

cons-ne-nil : {b : ℕ} {t : Text} → b ∷ t ≢ []
cons-ne-nil h = cc

head_ne : {a b : ℕ} {s t : Text} → a ≢ b → a ∷ s ≢ b ∷ t
head_ne n e = n (cc)

tail_ne : {a b : ℕ} {s t : Text} → s ≢ t → a ∷ s ≢ b ∷ t
tail_ne n e = n (cc)

unfoldable pub Text-discrete : Discrete Text
unfolding ℕ_discrete nil-ne-cons cons-ne-nil tail_ne head_ne
Text-discrete [] [] = yes refl
Text-discrete [] (b ∷ t) = no nil-ne-cons
Text-discrete (a ∷ s) [] = no cons-ne-nil
Text-discrete (a ∷ s) (b ∷ t) =
    let rest = Text-discrete s t in
    elim (ℕ_discrete a b) [
      | yes p ↦ elim rest [ yes q ↦ yes (ap₂ ◌∷◌ p q) | no n ↦ no (tail_ne n) ]
      | no n ↦ no (head_ne n)
    ]

-- `s < t`.
unfoldable pub text_ltb : Text → Text → Bool
text_ltb [] [] = false
text_ltb [] (b ∷ t) = true
text_ltb (a ∷ s) [] = false
text_ltb (a ∷ s) (b ∷ t) =
    let rest = text_ltb s t in
    elim (compare a b) [ Ordering.lt ↦ true | Ordering.eq ↦ rest | Ordering.gt ↦ false ]

-- The bytes of a literal, if it is ASCII.
abbrev pub codes : String → Text
codes String.[] = []
codes (String.◌∷◌ c s) = code c ∷ codes s
