-- ===== src/Base/Rotation.antt =====
-- A list read round from an index.
use Prim.Native.Nat.{ℕ, zero, suc, ◌+◌, ◌-◌, ◌%◌, ◌<◌}
use mathlib.Core.Path.{◌≡◌, refl, ap, ◌∙◌, subst}
use mathlib.Core.List.{List, [], ◌∷◌, ◌++◌, Perm, perm_append_comm}
use mathlib.Core.List.{Perm, perm_append_comm}
use native.Mathlib.Omega.{arith}
use native.Mathlib.Decide.{dec_lt}
use cs_stratum_bridge.Base.Lists.{length, get_elem?, take, drop, length-take, length-append}
use cs_stratum_bridge.Base.Index.{
  get_elem?-append_left, get_elem?-append_right, get_elem?-drop, get_elem?-take, length-drop,
}

module _ {ℓ} {A : Type ℓ} where
  -- The list from an index on, and round to it again.
  abbrev pub rotation : ℕ → List A → List A
  rotation start ks = drop start ks ++ take start ks

  pub length-rotation : (s : ℕ) (ks : List A) → s < length ks → length (rotation s ks) ≡ length ks
  length-rotation s ks h =
      omega (arith, length-append (drop s ks) (take s ks), length-drop s ks, length-take s ks)

  pub get_elem?-rotation :
      (s i : ℕ) (ks : List A)
      → s < length ks
      → i < length ks
      → get_elem? (rotation s ks) i ≡ get_elem? ks ((s + i) % length ks)
  get_elem?-rotation s i ks hs hi = elim (dec_lt (s + i) (length ks)) [
    | yes p ↦
        get_elem?-append_left (drop s ks) (take s ks) i (omega (arith, length-drop s ks))
        ∙ get_elem?-drop s ks i
        ∙ ap (get_elem? ks) (grind arith)
    | no n ↦
        ap (get_elem? (rotation s ks)) (omega (arith, length-drop s ks))
        ∙ get_elem?-append_right (drop s ks) (take s ks) (s + i - length ks)
        ∙ get_elem?-take s ks (s + i - length ks) (omega arith)
        ∙ ap (get_elem? ks) (grind arith)
  ]

  pub rotation-nil : (s : ℕ) → rotation s [] ≡ []
  rotation-nil zero = refl
  rotation-nil (suc s) = refl

  pub take-append-drop : (n : ℕ) (xs : List A) → take n xs ++ drop n xs ≡ xs
  take-append-drop zero xs = refl
  take-append-drop (suc n) [] = refl
  take-append-drop (suc n) (x ∷ xs) = rw (take-append-drop n xs)

  -- Every element once.
  pub rotation-perm : (s : ℕ) (xs : List A) → Perm (rotation s xs) xs
  rotation-perm s xs =
      subst (Perm (rotation s xs)) (take-append-drop s xs)
        (perm_append_comm (drop s xs) (take s xs))
