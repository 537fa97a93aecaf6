-- ===== src/Bytes.antt =====
-- Bytes that src/opoi writes and compares: `to_le_bytes`, `from_le_bytes` and `eq_ignore_ascii_case`.
use cs_stratum_bridge.Base.{
  ℕ, ◌+◌, ◌*◌, ◌/◌, ◌%◌, ◌<◌, ◌≡◌, refl, List, [], ◌∷◌, ◌++◌, length, All, arith, leb, ◌&&◌,
  if◌then◌else◌, Text, text_key, ◌=ₖ◌, Bool, map,
}

abbrev pub to_le_bytes : ℕ → List ℕ
to_le_bytes n = n % 256 ∷ n / 256 % 256 ∷ n / 65536 % 256 ∷ n / 16777216 % 256 ∷ []

abbrev pub encode_tokens : List ℕ → List ℕ
encode_tokens [] = []
encode_tokens (t ∷ ts) = to_le_bytes t ++ encode_tokens ts

-- `from_le_bytes`.
abbrev pub from_le_bytes : List ℕ → ℕ
from_le_bytes [] = 0
from_le_bytes (b ∷ bs) = b + 256 * from_le_bytes bs

-- `eq_ignore_ascii_case`.
abbrev pub lower : ℕ → ℕ
lower b = if leb 65 b && leb b 90 then b + 32 else b

abbrev pub same_ignoring_case : Text → Text → Bool
same_ignoring_case s t = map lower s =ₖ map lower t

-- A `u32`.
abbrev pub IsU32 : ℕ → Type 0
IsU32 n = n < 4294967296

cons-injective : {a b : ℕ} {s t : List ℕ} → a ∷ s ≡ b ∷ t → (a ≡ b) × (s ≡ t)
cons-injective e = (cc, cc)

-- Four bytes and what follows them are read back.
pub to_le_bytes-injective :
    (n m : ℕ) (r s : List ℕ)
    → IsU32 n
    → IsU32 m
    → to_le_bytes n ++ r ≡ to_le_bytes m ++ s
    → (n ≡ m) × (r ≡ s)
to_le_bytes-injective n m r s hn hm e =
    let (e0, t0) = cons-injective e in
    let (e1, t1) = cons-injective t0 in
    let (e2, t2) = cons-injective t1 in let (e3, t3) = cons-injective t2 in (omega arith, t3)

-- Lists of the same length with what follows them.
pub append-injective :
    (xs ys r s : List ℕ) → length xs ≡ length ys → xs ++ r ≡ ys ++ s → (xs ≡ ys) × (r ≡ s)
append-injective [] [] r s h e = (refl, e)
append-injective [] (y ∷ ys) r s h e = absurd (omega arith)
append-injective (x ∷ xs) [] r s h e = absurd (omega arith)
append-injective (x ∷ xs) (y ∷ ys) r s h e =
    let (head, tail) = cons-injective e in
    let (front, back) = append-injective xs ys r s (omega arith) tail in (cc, back)

pub encode_tokens-injective :
    (xs ys : List ℕ) → All IsU32 xs → All IsU32 ys → encode_tokens xs ≡ encode_tokens ys → xs ≡ ys
encode_tokens-injective [] [] hx hy e = refl
encode_tokens-injective [] (y ∷ ys) hx hy e = absurd (cc)
encode_tokens-injective (x ∷ xs) [] hx hy e = absurd (cc)
encode_tokens-injective (x ∷ xs) (y ∷ ys) (hx, hxs) (hy, hys) e =
    let (same, rest) = to_le_bytes-injective x y (encode_tokens xs) (encode_tokens ys) hx hy e in
    let tail = encode_tokens-injective xs ys hxs hys rest in cc
