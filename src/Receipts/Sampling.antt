-- ===== src/Receipts/Sampling.antt =====
-- src/opoi/b3lite.rs: `should_sample` and `B3LiteConfig`. An `f64` is its 64 bits, with the arithmetic of
-- the hardware; the digest is a library's.
use cs_stratum_bridge.Base.{
  ℕ, ◌+◌, ◌*◌, ◌-◌, ◌^◌, ltb, if◌then◌else◌, Text, Bool, true, false, List, [], ◌∷◌, take,
}

pub record B3LiteConfig : Type 0 where
  pub secret : List ℕ
  pub sample_rate : ℕ

pub record Rate : Type 0 where
  pub le : ℕ → ℕ → Bool
  pub mul : ℕ → ℕ → ℕ
  pub from_u64 : ℕ → ℕ
  pub to_u64 : ℕ → ℕ

-- The bits of `1.0`.
abbrev pub one : ℕ
one = 4607182418800017408

abbrev pub from_be_bytes : List ℕ → ℕ → ℕ
from_be_bytes [] n = n
from_be_bytes (b ∷ bs) n = from_be_bytes bs (256 * n + b)

module _ (rate_ops : Rate) (sha256 : List ℕ → List ℕ) where
  abbrev pub threshold : ℕ → ℕ
  threshold rate = rate_ops.to_u64 (rate_ops.mul rate (rate_ops.from_u64 (2 ^ 64 - 1)))

  unfoldable pub should_sample : Text → ℕ → Bool
  should_sample signature_hex rate =
      if rate_ops.le rate 0
      then false
      else (if rate_ops.le one rate
          then true
          else ltb (from_be_bytes (take 8 (sha256 signature_hex)) 0) (threshold rate))
