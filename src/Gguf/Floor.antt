-- ===== src/Gguf/Floor.antt =====
-- The floor of memory that src/opoi/expert_vram.rs asks of a host.
use cs_stratum_bridge.Base.{
  Bool, true, false, ℕ, zero, suc, ◌+◌, ◌*◌, ◌/◌, ◌%◌, ◌-◌, ◌==◌, ◌≤◌, ◌<◌, ltb, ◌≡◌, refl, ap, ◌∙◌,
  sym, if◌then◌else◌, Text, nat_key, Map, lookup, Option, none, some, arith, inl, inr, ◌⊎◌,
  Bool-cases, ==_iff,
}
use native.Mathlib.Nat.{div-add-mod, mul_assoc}
use cs_stratum_bridge.Gguf.Vram.{
  Sized, sized, refused, VramErr, share, block_share, ggml_block_and_type_size, max_bytes, greater,
  div_ceil_mb, min_vram_mb_for_range, u64,
}

-- The greater of two is at least each, and is one of them.
greater-left : (a : ℕ) (r : Option ℕ) → (m : ℕ) × (greater (some a) r ≡ some m) × (a ≤ m)
greater-left a none = (a, refl, omega arith)
greater-left a (some b) = ((if ltb a b then b else a), refl, ground arith)

greater-right : (o : Option ℕ) (b : ℕ) → (m : ℕ) × (greater o (some b) ≡ some m) × (b ≤ m)
greater-right none b = (b, refl, omega arith)
greater-right (some a) b = ((if ltb a b then b else a), refl, ground arith)

greater_cases : (o r : Option ℕ) (m : ℕ) → greater o r ≡ some m → (o ≡ some m) ⊎ (r ≡ some m)
greater_cases none r m e = inr e
greater_cases (some a) none m e = inl e
greater_cases (some a) (some b) m e = elim (Bool-cases (ltb a b)) [
  | inl less ↦ inr (ground arith)
  | inr more ↦ inl (ground arith)
]

-- A layer of the range with a size.
max_bytes_above :
    (per_layer : Map ℕ ℕ) (n layer l b : ℕ)
    → layer ≤ l
    → l < layer + n
    → lookup l per_layer ≡ some b
    → (m : ℕ) × (max_bytes per_layer layer n ≡ some m) × (b ≤ m)
unfolding max_bytes
max_bytes_above per_layer zero layer l b ge lt e = absurd (omega arith)
max_bytes_above per_layer (suc n) layer l b ge lt e = elim (Bool-cases (l == layer)) [
  | inl first ↦
      let same : l ≡ layer = (==_iff l layer).0 first in
      let here : lookup layer per_layer ≡ some b =
        ap (λ (k : ℕ). lookup k per_layer) (sym same) ∙ e in
      let (m, g, le) = greater-left b (max_bytes per_layer (suc layer) n) in
      (m, ap (λ (o : Option ℕ). greater o (max_bytes per_layer (suc layer) n)) here ∙ g, le)
  | inr later ↦
      let (m', e', le') =
        max_bytes_above per_layer n (suc layer) l b (ground arith) (omega arith) e in
      let (m, g, le) = greater-right (lookup layer per_layer) m' in
      (m, ap (greater (lookup layer per_layer)) e' ∙ g, omega arith)
]

max_bytes_attained :
    (per_layer : Map ℕ ℕ) (n layer m : ℕ)
    → max_bytes per_layer layer n ≡ some m
    → (l : ℕ) × (layer ≤ l) × (l < layer + n) × (lookup l per_layer ≡ some m)
unfolding max_bytes
max_bytes_attained per_layer zero layer m e = cc
max_bytes_attained per_layer (suc n) layer m e =
    elim (greater_cases (lookup layer per_layer) (max_bytes per_layer (suc layer) n) m e) [
      | inl here ↦ (layer, omega arith, omega arith, here)
      | inr later ↦
          let (l, ge, lt, found) = max_bytes_attained per_layer n (suc layer) m later in
          (l, omega arith, omega arith, found)
    ]

-- If a layer of the range has a size, the floor is a number of megabytes that no layer of the range
-- exceeds, and that some layer of the range needs: with one megabyte less it would not fit.
pub min_vram_mb_for_range_lem :
    (per_layer : Map ℕ ℕ) (layer_start layer_end l b : ℕ)
    → layer_start ≤ l
    → l < layer_end
    → lookup l per_layer ≡ some b
    → (mb : ℕ) × (worst : ℕ) × (most : ℕ) × (min_vram_mb_for_range per_layer layer_start layer_end
        ≡ some mb)
      × (b ≤ mb * 1048576)
      × (layer_start ≤ worst)
      × (worst < layer_end)
      × (lookup worst per_layer ≡ some most)
      × (most ≤ mb * 1048576)
      × (mb * 1048576 < most + 1048576)
unfolding min_vram_mb_for_range
min_vram_mb_for_range_lem per_layer layer_start layer_end l b ge lt e =
    let n : ℕ = layer_end - layer_start in
    let (m, found, le) = max_bytes_above per_layer n layer_start l b ge (omega arith) e in
    let (worst, ge', lt', e') = max_bytes_attained per_layer n layer_start m found in
    (
      (m + 1048575) / 1048576,
      worst,
      m,
      ap div_ceil_mb found,
      omega arith,
      ge',
      omega arith,
      e',
      omega arith,
      omega arith,
    )

if_refused :
    (b : Bool) (o : Sized ℕ) (x : VramErr) (s : ℕ)
    → (if b then o else refused x) ≡ sized s
    → (b ≡ true) × (o ≡ sized s)
if_refused true o x s e = (refl, e)
if_refused false o x s e = absurd (cc)

sized-injective : (a b : ℕ) → ◌≡◌ {A = Sized ℕ} (sized a) (sized b) → a ≡ b
sized-injective a b e = cc

divided : (a n : ℕ) → a % n ≡ 0 → n * (a / n) ≡ a
divided a n e = omega (arith, div-add-mod a n)

times_more : (n x : ℕ) → 0 < n → x ≤ n * x
times_more zero x h = absurd (omega arith)
times_more (suc n) x h = grind arith

-- The product over the experts and the blocks, put together.
whole :
    (n block r bytes elements per : ℕ)
    → n * per ≡ elements
    → block * r ≡ per
    → n * (block * (r * bytes)) ≡ elements * bytes
whole n block r bytes elements per e f =
    ap (◌*◌ n) (sym (mul_assoc block r bytes) ∙ ap (λ (t : ℕ). t * bytes) f)
    ∙ sym (mul_assoc n per bytes)
    ∙ ap (λ (t : ℕ). t * bytes) e

share_inv :
    (name : Text) (t elements n s block bytes : ℕ)
    → share name t elements n ≡ sized s
    → ggml_block_and_type_size t ≡ some (block, bytes)
    → (elements % n ≡ 0) × ((elements / n % block ≡ 0) × (u64 (elements / n / block * bytes) ≡ s))
unfolding share
share_inv name t elements n s block bytes e size =
    let (even, e') = if_refused (elements % n == 0) _ _ s e in
    let (even', e'') =
      if_refused (elements / n % block == 0) _ _ s
        (sym (ap (block_share name t (elements / n)) size) ∙ e') in
    ((==_iff _ _).0 even, ((==_iff _ _).0 even', sized-injective _ s e''))

-- A tensor's share is exact: as many experts as there are, each of the share's bytes, make up its
-- elements at the size of its type. Provided that the bytes of its elements fit 64 bits.
pub share_lem :
    (name : Text) (ggml_type elements n_expert s block bytes : ℕ)
    → share name ggml_type elements n_expert ≡ sized s
    → ggml_block_and_type_size ggml_type ≡ some (block, bytes)
    → 0 < n_expert
    → 0 < block
    → elements * bytes < 18446744073709551616
    → n_expert * (block * s) ≡ elements * bytes
share_lem name ggml_type elements n_expert s block bytes e size some_expert some_block fits =
    let (even, (even', exact)) = share_inv name ggml_type elements n_expert s block bytes e size in
    let per : ℕ = elements / n_expert in
    let r : ℕ = per / block in
    let all : n_expert * (block * (r * bytes)) ≡ elements * bytes =
      whole n_expert block r bytes elements per (divided elements n_expert even)
        (divided per block even') in
    let small : r * bytes < 18446744073709551616 = omega (
      arith,
      times_more n_expert (block * (r * bytes)) some_expert,
      times_more block (r * bytes) some_block,
    ) in
    let plain : s ≡ r * bytes = omega arith in ap (λ (t : ℕ). n_expert * (block * t)) plain ∙ all
