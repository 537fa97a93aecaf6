-- ===== src/Receipts.antt =====
-- src/opoi/b3lite.rs: the receipt of a served response. The keyed digest and the hexadecimal text are
-- a library's.
pub mod Canonical
pub mod Sampling
mod Tests
use cs_stratum_bridge.Base.{
  ℕ, ◌+◌, ◌%◌, ◌^◌, leb, ◌&&◌, if◌then◌else◌, Text, text_key, ◌=ₖ◌, Bool, List, [], ◌∷◌, ◌++◌,
  length, map,
}
use cs_stratum_bridge.Bytes.{to_le_bytes, encode_tokens, same_ignoring_case}

pub record ReceiptFields : Type 0 where
  pub request_id : Text
  pub miner_wallet : Text
  pub model_id : Text
  pub gguf_sha256 : Text
  pub response_hash : Text
  pub generated_token_ids : List ℕ

-- The body of the first loop: the length, as a `u32`, and the bytes.
abbrev pub put_text : Text → List ℕ
put_text s = to_le_bytes (length s % 2 ^ 32) ++ s

unfoldable pub canonical_bytes : ReceiptFields → List ℕ
canonical_bytes f =
    put_text f.request_id
    ++ (put_text f.miner_wallet
        ++ (put_text f.model_id
            ++ (put_text f.gguf_sha256
                ++ (put_text f.response_hash
                    ++ (to_le_bytes (length f.generated_token_ids % 2 ^ 32)
                        ++ encode_tokens f.generated_token_ids)))))

module _ (hex_encode : List ℕ → Text) (hmac_sha256 : List ℕ → List ℕ → List ℕ) where
  unfoldable pub sign_receipt : List ℕ → ReceiptFields → Text
  sign_receipt secret f = hex_encode (hmac_sha256 secret (canonical_bytes f))

  unfoldable pub verify_receipt : List ℕ → ReceiptFields → Text → Bool
  verify_receipt secret f signature_hex = same_ignoring_case (sign_receipt secret f) signature_hex
