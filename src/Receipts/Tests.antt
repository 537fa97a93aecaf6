-- ===== src/Receipts/Tests.antt =====
-- The tests of src/opoi/b3lite.rs, and the theorem at a concrete receipt.
use cs_stratum_bridge.Base.{
  ◌≡◌, refl, false, codes, text_key, ◌=ₖ◌, Text-discrete, ℕ_discrete, [], ◌∷◌, arith,
}
use cs_stratum_bridge.Receipts.{ReceiptFields, canonical_bytes}
use cs_stratum_bridge.Receipts.Canonical.{Fits, canonical_bytes-injective}

abbrev sample_fields : ReceiptFields
sample_fields = record {
  request_id = codes "req-1";
  miner_wallet = codes "wallet-a";
  model_id = codes "QWEN2_5_0_5B";
  gguf_sha256 = codes "aaaa";
  response_hash = codes "bbbb";
  generated_token_ids = 1 ∷ 2 ∷ 3 ∷ [];
}

abbrev shifted : ReceiptFields
shifted = record sample_fields { request_id = codes "req-1w"; miner_wallet = codes "allet-a" }

field_boundary_shift_does_not_collide :
    (canonical_bytes sample_fields =ₖ canonical_bytes shifted) ≡ false
unfolding canonical_bytes Text-discrete ℕ_discrete
field_boundary_shift_does_not_collide = refl

sample_fields-Fits : Fits sample_fields
sample_fields-Fits = record {
  request_id = omega arith;
  miner_wallet = omega arith;
  model_id = omega arith;
  gguf_sha256 = omega arith;
  response_hash = omega arith;
  tokens = (omega arith, (omega arith, (omega arith, tt)));
}

canonical_bytes-injective_example : sample_fields ≡ sample_fields
canonical_bytes-injective_example =
    canonical_bytes-injective sample_fields sample_fields sample_fields-Fits sample_fields-Fits refl
