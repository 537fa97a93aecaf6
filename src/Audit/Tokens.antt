-- ===== src/Audit/Tokens.antt =====
-- `decode_token_ids_hex` of src/opoi/b3lite_audit.rs reads what `build_response` of
-- src/opoi/shard_engine.rs writes: the tokens, four bytes each.
use cs_stratum_bridge.Base.{
  ℕ, ◌*◌, ◌%◌, ◌≡◌, refl, ap, ◌∙◌, Text, Option, some, List, [], ◌∷◌, length, All, arith, ◌==◌,
  ==_iff, true,
}
use cs_stratum_bridge.Bytes.{encode_tokens, to_le_bytes, from_le_bytes, IsU32}
use cs_stratum_bridge.Shard.{build_response}
use cs_stratum_bridge.Audit.{decode_token_ids_hex, whole_ids, ids_of}

ids_of-encode_tokens : (ids : List ℕ) → All IsU32 ids → ids_of (encode_tokens ids) ≡ ids
ids_of-encode_tokens [] h = refl
ids_of-encode_tokens (id ∷ ids) (small, rest) =
    let same : from_le_bytes (to_le_bytes id) ≡ id = omega arith in
    ground (arith, ids_of-encode_tokens ids rest)

length-encode_tokens : (ids : List ℕ) → length (encode_tokens ids) ≡ 4 * length ids
length-encode_tokens [] = omega arith
length-encode_tokens (id ∷ ids) = omega (arith, length-encode_tokens ids)

-- The tokens of a response, 32 bits each, are read back by an audit from the text that is written for
-- them. The hexadecimal text is read back as its bytes.
pub decode_token_ids_hex-build_response :
    (sha256_hex hex_encode : List ℕ → Text) (hex_decode : Text → Option (List ℕ))
    → ((bytes : List ℕ) → hex_decode (hex_encode bytes) ≡ some bytes)
    → (ids : List ℕ) → All IsU32 ids
    → decode_token_ids_hex hex_decode (build_response sha256_hex hex_encode ids).1 ≡ some ids
unfolding decode_token_ids_hex build_response
decode_token_ids_hex-build_response sha256_hex hex_encode hex_decode round ids h =
    let whole : (length (encode_tokens ids) % 4 == 0) ≡ true =
      (==_iff _ _).1 (omega (arith, length-encode_tokens ids)) in
    ap whole_ids (round (encode_tokens ids)) ∙ ground (arith, ids_of-encode_tokens ids h)
