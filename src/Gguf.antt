-- ===== src/Gguf.antt =====
-- src/opoi/expert_vram.rs: the header of a GGUF file, read from the bytes of its beginning. The text
-- of an error is kept as what it is about.
pub mod Header
pub mod Fuel
pub mod Print
pub mod Skip
pub mod RoundTrip
pub mod Vram
pub mod Estimator
pub mod Floor
mod Tests
use cs_stratum_bridge.Base.{ℕ, zero, suc, ◌+◌, ◌*◌, List, [], ◌∷◌, Text}
use cs_stratum_bridge.Bytes.{from_le_bytes}

-- What an invalid header is refused for.
pub data Reason : Type 0 where
  string_too_long array_too_long unknown_value_type : ℕ → Reason
  bad_magic : List ℕ → Reason
  implausible_counts : ℕ → ℕ → Reason
  implausible_dims : ℕ → Text → Reason

pub data ParseErr : Type 0 where
  incomplete : ParseErr
  invalid : Reason → ParseErr

-- `out_of_fuel` is no value of the code: the recursion into nested arrays was cut.
pub data Parsed {ℓ} (A : Type ℓ) : Type ℓ where
  ok : A → Parsed A
  failed : ParseErr → Parsed A
  out_of_fuel : Parsed A

-- The cursor is the bytes that are left.
abbrev pub Parser : Type 0 → Type 0
Parser A = List ℕ → Parsed (A × List ℕ)

abbrev pub pure : {A : Type 0} → A → Parser A
pure a bs = ok (a, bs)

abbrev pub fail : {A : Type 0} → ParseErr → Parser A
fail e bs = failed e

abbrev pub continue : {A B : Type 0} → Parsed (A × List ℕ) → (A → Parser B) → Parsed (B × List ℕ)
continue (ok (a, bs)) f = f a bs
continue (failed e) f = failed e
continue out_of_fuel f = out_of_fuel

infixl 5 ◌>>=◌
abbrev pub ◌>>=◌ : {A B : Type 0} → Parser A → (A → Parser B) → Parser B
(p >>= f) bs = continue (p bs) f

-- `read_exact` of so many bytes.
unfoldable pub read_exact_or_incomplete : ℕ → Parser (List ℕ)
read_exact_or_incomplete zero bs = ok ([], bs)
read_exact_or_incomplete (suc n) [] = failed incomplete
read_exact_or_incomplete (suc n) (b ∷ bs) =
    continue (read_exact_or_incomplete n bs) (λ read. pure (b ∷ read))

unfoldable pub read_u32 : Parser ℕ
read_u32 = read_exact_or_incomplete 4 >>= λ bytes. pure (from_le_bytes bytes)

unfoldable pub read_u64 : Parser ℕ
read_u64 = read_exact_or_incomplete 8 >>= λ bytes. pure (from_le_bytes bytes)

abbrev pub header_prefix_cap_bytes : ℕ
header_prefix_cap_bytes = 16 * 1024 * 1024

abbrev pub max_metadata_or_tensor_count : ℕ
max_metadata_or_tensor_count = 1_000_000
