-- ===== src/Receipts/Canonical.antt =====
-- The bytes of a receipt of src/opoi/b3lite.rs determine its fields.
use cs_stratum_bridge.Base.{ℕ, ◌%◌, ◌≡◌, List, ◌++◌, length, All, arith}
use cs_stratum_bridge.Bytes.{
  IsU32, to_le_bytes-injective, append-injective, encode_tokens-injective,
}
use cs_stratum_bridge.Receipts.{ReceiptFields, put_text, canonical_bytes}

put_text-injective :
    (s t r q : List ℕ)
    → IsU32 (length s)
    → IsU32 (length t)
    → put_text s ++ r ≡ put_text t ++ q
    → (s ≡ t) × (r ≡ q)
put_text-injective s t r q hs ht e =
    let (count, rest) =
      to_le_bytes-injective (length s % 4294967296) (length t % 4294967296) (s ++ r) (t ++ q)
        (omega arith) (omega arith) e in
    append-injective s t r q (omega arith) rest

-- Every length fits a `u32`, and so does every token.
pub record Fits (f : ReceiptFields) : Type 0 where
  pub request_id : IsU32 (length f.request_id)
  pub miner_wallet : IsU32 (length f.miner_wallet)
  pub model_id : IsU32 (length f.model_id)
  pub gguf_sha256 : IsU32 (length f.gguf_sha256)
  pub response_hash : IsU32 (length f.response_hash)
  pub tokens : All IsU32 f.generated_token_ids

-- Two receipts with the same canonical bytes are the same receipt: no text can be moved over the
-- boundary of a field and no token changed. Provided that the length of each text and each token fits
-- 32 bits.
pub canonical_bytes-injective :
    (f g : ReceiptFields) → Fits f → Fits g → canonical_bytes f ≡ canonical_bytes g → f ≡ g
unfolding canonical_bytes
canonical_bytes-injective f g hf hg e =
    let (e0, r0) = put_text-injective _ _ _ _ hf.request_id hg.request_id e in
    let (e1, r1) = put_text-injective _ _ _ _ hf.miner_wallet hg.miner_wallet r0 in
    let (e2, r2) = put_text-injective _ _ _ _ hf.model_id hg.model_id r1 in
    let (e3, r3) = put_text-injective _ _ _ _ hf.gguf_sha256 hg.gguf_sha256 r2 in
    let (e4, r4) = put_text-injective _ _ _ _ hf.response_hash hg.response_hash r3 in
    let (_, r5) =
      to_le_bytes-injective (length f.generated_token_ids % 4294967296)
        (length g.generated_token_ids % 4294967296) _ _ (omega arith) (omega arith) r4 in
    let e5 = encode_tokens-injective _ _ hf.tokens hg.tokens r5 in cc
