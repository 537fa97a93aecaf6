-- ===== src/Http/Bitwise.antt =====
-- `constant_time_eq` of src/http/handlers.rs is equality.
use cs_stratum_bridge.Base.{
  ℕ, zero, suc, ◌+◌, ◌*◌, ◌/◌, ◌%◌, ◌<◌, ◌≡◌, refl, ap, ◌∙◌, Text, true, [], ◌∷◌, length, All,
  arith,
}
use cs_stratum_bridge.Http.{
  xor_bit, or_bit, bitwise, xor_byte, or_byte, fold_pairs, constant_time_eq,
}

-- The numbers of so many bits.
abbrev below : ℕ → ℕ
below zero = 1
below (suc n) = 2 * below n

bitwise-or-zero :
    (n x y : ℕ) → x < below n → y < below n → bitwise or_bit n x y ≡ 0 → (x ≡ 0) × (y ≡ 0)
bitwise-or-zero zero x y hx hy h = (omega arith, omega arith)
bitwise-or-zero (suc n) x y hx hy h =
    let bits : or_bit (x % 2) (y % 2) ≡ 0 = omega arith in
    let lows : (x % 2) + (y % 2) ≡ 0 = ground arith in
    let (x0, y0) = bitwise-or-zero n (x / 2) (y / 2) (omega arith) (omega arith) (omega arith) in
    (omega arith, omega arith)

bitwise-xor-zero : (n x y : ℕ) → x < below n → y < below n → bitwise xor_bit n x y ≡ 0 → x ≡ y
bitwise-xor-zero zero x y hx hy h = omega arith
bitwise-xor-zero (suc n) x y hx hy h =
    let bits : xor_bit (x % 2) (y % 2) ≡ 0 = omega arith in
    let lows : x % 2 ≡ y % 2 = ground arith in
    let same = bitwise-xor-zero n (x / 2) (y / 2) (omega arith) (omega arith) (omega arith) in
    omega arith

bitwise-xor-same : (n x : ℕ) → bitwise xor_bit n x x ≡ 0
bitwise-xor-same zero x = refl
bitwise-xor-same (suc n) x = ground (arith, bitwise-xor-same n (x / 2))

bitwise-xor-below : (n x y : ℕ) → bitwise xor_bit n x y < below n
bitwise-xor-below zero x y = omega arith
bitwise-xor-below (suc n) x y = ground (arith, bitwise-xor-below n (x / 2) (y / 2))

bitwise-or-below : (n x y : ℕ) → bitwise or_bit n x y < below n
bitwise-or-below zero x y = omega arith
bitwise-or-below (suc n) x y = ground (arith, bitwise-or-below n (x / 2) (y / 2))

abbrev pub IsByte : ℕ → Type 0
IsByte x = x < 256

fold_pairs-zero :
    (acc : ℕ) (a b : Text)
    → IsByte acc
    → All IsByte a
    → All IsByte b
    → length a ≡ length b
    → fold_pairs acc a b ≡ 0
    → (acc ≡ 0) × (a ≡ b)
unfolding fold_pairs
fold_pairs-zero acc [] [] hacc ha hb len h = (h, refl)
fold_pairs-zero acc [] (y ∷ ys) hacc ha hb len h = absurd (omega arith)
fold_pairs-zero acc (x ∷ xs) [] hacc ha hb len h = absurd (omega arith)
fold_pairs-zero acc (x ∷ xs) (y ∷ ys) hacc (hx, hxs) (hy, hys) len h =
    let differ : xor_byte x y < 256 = bitwise-xor-below 8 x y in
    let next : or_byte acc (xor_byte x y) < 256 = bitwise-or-below 8 acc (xor_byte x y) in
    let (none, rest) =
      fold_pairs-zero (or_byte acc (xor_byte x y)) xs ys next hxs hys (omega arith) h in
    let (clear, equal) = bitwise-or-zero 8 acc (xor_byte x y) hacc differ none in
    let head : x ≡ y = bitwise-xor-zero 8 x y hx hy equal in
    (clear, ap (λ z. z ∷ xs) head ∙ ap (λ zs. y ∷ zs) rest)

pub constant_time_eq_sound :
    (a b : Text) → All IsByte a → All IsByte b → constant_time_eq a b ≡ true → a ≡ b
unfolding constant_time_eq
constant_time_eq_sound a b ha hb h =
    let len : length a ≡ length b = ground arith in
    let folded : fold_pairs 0 a b ≡ 0 = ground arith in
    (fold_pairs-zero 0 a b (omega arith) ha hb len folded).1

fold_pairs-same : (a : Text) → fold_pairs 0 a a ≡ 0
unfolding fold_pairs
fold_pairs-same [] = refl
fold_pairs-same (x ∷ xs) =
    ap (λ d. fold_pairs (or_byte 0 d) xs xs) (bitwise-xor-same 8 x) ∙ fold_pairs-same xs

pub constant_time_eq_refl : (a : Text) → constant_time_eq a a ≡ true
unfolding constant_time_eq
constant_time_eq_refl a = ground (arith, fold_pairs-same a)
