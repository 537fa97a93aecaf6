-- ===== src/Gguf/Tests.antt =====
-- Concrete headers, as the tests of src/opoi/expert_vram.rs build them.
use cs_stratum_bridge.Base.{
  ℕ, ◌+◌, ◌*◌, ◌≤◌, ◌<◌, ◌≡◌, ◌≢◌, refl, List, [], ◌∷◌, ◌++◌, Text, codes, text_key, nat_key,
  Text-discrete, ℕ_discrete, lookup, Map, some, arith,
}
use cs_stratum_bridge.Gguf.{
  ok, failed, out_of_fuel, incomplete, invalid, bad_magic, read_exact_or_incomplete, read_u32,
  read_u64,
}
use cs_stratum_bridge.Gguf.Header.{GgufTensorInfo, parse_gguf_tensor_infos, parse_header, kind_of}
use cs_stratum_bridge.Gguf.Fuel.{parse_gguf_tensor_infos-ne-out_of_fuel}
use cs_stratum_bridge.Gguf.Print.{
  number, text, elements, no_values, value, Header, IsHeader, put_header, table, IsValue, AreValues,
}
use cs_stratum_bridge.Gguf.RoundTrip.{parse_gguf_tensor_infos-put_header}
use cs_stratum_bridge.Gguf.Vram.{sized, share, ggml_block_and_type_size, min_vram_mb_for_range}
use cs_stratum_bridge.Gguf.Floor.{min_vram_mb_for_range_lem, share_lem}

abbrev as_text : List ℕ → Text
as_text bytes = bytes

abbrev gate_info : GgufTensorInfo
gate_info = record { dims = 32 ∷ 2 ∷ 4 ∷ []; ggml_type = 2 }

-- One number, one array of texts, and one tensor.
abbrev small_header : Header
small_header = record {
  version = 3;
  pairs =
      record { key = codes "a"; meta = number 4 (32 ∷ 0 ∷ 0 ∷ 0 ∷ []) }
      ∷ record {
        key = codes "b";
        meta = elements 8 (value (text (codes "x")) (value (text (codes "yz")) no_values));
      }
      ∷ [];
  tensors = record { name = codes "blk.0.ffn_gate_exps.weight"; info = gate_info; offset = 0 } ∷ [];
}

small_header-IsHeader : IsHeader small_header
unfolding IsValue AreValues kind_of
small_header-IsHeader = record {
  version = omega arith;
  pair_count = omega arith;
  tensor_count = omega arith;
  pairs = (
    (omega arith, omega arith, (omega arith, refl)),
    (
      (
        omega arith,
        omega arith,
        (omega arith, omega arith, (refl, omega arith, (refl, omega arith, tt))),
      ),
      tt,
    ),
  );
  tensors = (
    (
      omega arith,
      omega arith,
      (omega arith, (omega arith, (omega arith, tt))),
      omega arith,
      omega arith,
    ),
    tt,
  );
}

parse_gguf_tensor_infos-put_header_example :
    parse_gguf_tensor_infos as_text (put_header small_header ++ 7 ∷ 7 ∷ [])
    ≡ ok (table as_text small_header.tensors [])
parse_gguf_tensor_infos-put_header_example =
    parse_gguf_tensor_infos-put_header as_text small_header (7 ∷ 7 ∷ []) small_header-IsHeader

parse_gguf_tensor_infos-ne-out_of_fuel_example :
    parse_gguf_tensor_infos as_text (codes "GGUF" ++ 3 ∷ 0 ∷ 0 ∷ 0 ∷ []) ≢ out_of_fuel
parse_gguf_tensor_infos-ne-out_of_fuel_example =
    parse_gguf_tensor_infos-ne-out_of_fuel as_text (codes "GGUF" ++ 3 ∷ 0 ∷ 0 ∷ 0 ∷ [])

-- A header that is cut short, and bytes that are no header.
truncated_header :
    parse_gguf_tensor_infos as_text (codes "GGUF" ++ 3 ∷ 0 ∷ 0 ∷ 0 ∷ []) ≡ failed incomplete
unfolding parse_gguf_tensor_infos parse_header read_exact_or_incomplete read_u32 read_u64
    Text-discrete ℕ_discrete
truncated_header = refl

bad_magic_bytes :
    parse_gguf_tensor_infos as_text (codes "NOPE!") ≡ failed (invalid (bad_magic (codes "NOPE")))
unfolding parse_gguf_tensor_infos parse_header read_exact_or_incomplete Text-discrete ℕ_discrete
bad_magic_bytes = refl

abbrev two_layers : Map ℕ ℕ
two_layers = (0, 1048576) ∷ (1, 1048577) ∷ []

layer_one : lookup 1 two_layers ≡ some 1048577
unfolding lookup ℕ_discrete
layer_one = refl

min_vram_mb_for_range_lem_example :
    (mb : ℕ) × (worst : ℕ) × (most : ℕ) × (min_vram_mb_for_range two_layers 0 2 ≡ some mb)
    × (1048577 ≤ mb * 1048576)
    × (0 ≤ worst)
    × (worst < 2)
    × (lookup worst two_layers ≡ some most)
    × (most ≤ mb * 1048576)
    × (mb * 1048576 < most + 1048576)
min_vram_mb_for_range_lem_example =
    min_vram_mb_for_range_lem two_layers 0 2 1 1048577 (omega arith) (omega arith) layer_one

gate_share : share (codes "gate") 2 256 4 ≡ sized 36
unfolding share ggml_block_and_type_size lookup ℕ_discrete
gate_share = refl

q4_0_size : ggml_block_and_type_size 2 ≡ some (32, 18)
unfolding ggml_block_and_type_size lookup ℕ_discrete
q4_0_size = refl

share_lem_example : 4 * (32 * 36) ≡ 256 * 18
share_lem_example =
    share_lem (codes "gate") 2 256 4 36 32 18 gate_share q4_0_size (omega arith) (omega arith)
      (omega arith)
