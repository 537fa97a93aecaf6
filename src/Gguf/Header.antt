-- ===== src/Gguf/Header.antt =====
-- `parse_gguf_tensor_infos` of src/opoi/expert_vram.rs. `from_utf8_lossy` is the standard library's.
-- The recursion into nested arrays takes fuel; the loops count down.
use cs_stratum_bridge.Base.{
  ℕ, zero, suc, ◌==◌, ltb, ◌||◌, if◌then◌else◌, List, [], ◌∷◌, Text, codes, text_key, ◌=ₖ◌, Map,
  insert, length,
}
use cs_stratum_bridge.Gguf.{
  string_too_long, array_too_long, unknown_value_type, bad_magic, implausible_counts,
  implausible_dims, invalid, Parsed, ok, failed, out_of_fuel, Parser, pure, fail, continue, ◌>>=◌,
  read_exact_or_incomplete, read_u32, read_u64, header_prefix_cap_bytes,
  max_metadata_or_tensor_count,
}

pub record GgufTensorInfo : Type 0 where
  pub dims : List ℕ
  pub ggml_type : ℕ

-- The bytes of a string, as they stand in the file.
unfoldable pub read_string_bytes : Parser (List ℕ)
read_string_bytes = read_u64 >>= λ len.
    if ltb header_prefix_cap_bytes len
    then fail (invalid (string_too_long len))
    else read_exact_or_incomplete len

-- The value types of the metadata.
pub data ValueKind : Type 0 where
  scalar : ℕ → ValueKind
  string array unknown : ValueKind

unfoldable pub kind_of : ℕ → ValueKind
kind_of vtype =
    if vtype == 0 || vtype == 1 || vtype == 7
    then scalar 1
    else (if vtype == 2 || vtype == 3
        then scalar 2
        else (if vtype == 4 || vtype == 5 || vtype == 6
            then scalar 4
            else (if vtype == 10 || vtype == 11 || vtype == 12
                then scalar 8
                else (if vtype == 8 then string else (if vtype == 9 then array else unknown)))))

-- A loop that reads nothing but its position.
unfoldable pub skip_times : ℕ → Parser (Unit {0}) → Parser (Unit {0})
skip_times zero p bs = ok (tt, bs)
skip_times (suc n) p bs = continue (p bs) (λ _. skip_times n p)

-- With the call for an element of an array.
abbrev pub skip_kind : (ℕ → Parser (Unit {0})) → ℕ → ValueKind → Parser (Unit {0})
skip_kind skip vtype (scalar width) = read_exact_or_incomplete width >>= λ _. pure tt
skip_kind skip vtype string = read_string_bytes >>= λ _. pure tt
skip_kind skip vtype array = read_u32 >>= λ elem_type. read_u64 >>= λ len.
    if ltb max_metadata_or_tensor_count len
    then fail (invalid (array_too_long len))
    else skip_times len (skip elem_type)
skip_kind skip vtype unknown = fail (invalid (unknown_value_type vtype))

unfoldable pub skip_metadata_value : ℕ → ℕ → Parser (Unit {0})
skip_metadata_value zero vtype bs = out_of_fuel
skip_metadata_value (suc fuel) vtype bs =
    skip_kind (skip_metadata_value fuel) vtype (kind_of vtype) bs

-- One pair of the metadata.
unfoldable pub skip_pair : ℕ → Parser (Unit {0})
skip_pair fuel = read_string_bytes >>= λ _. read_u32 >>= λ vtype. skip_metadata_value fuel vtype

unfoldable pub read_dims : ℕ → Parser (List ℕ)
read_dims zero bs = ok ([], bs)
read_dims (suc n) bs =
    continue (read_u64 bs) (λ d rest. continue (read_dims n rest) (λ ds. pure (d ∷ ds)))

module _ (from_utf8_lossy : List ℕ → Text) where
  abbrev pub read_info_of : Text → ℕ → Parser (Text × GgufTensorInfo)
  read_info_of name n_dims =
      if ltb max_metadata_or_tensor_count n_dims
      then fail (invalid (implausible_dims n_dims name))
      else read_dims n_dims >>= λ dims. read_u32 >>= λ ggml_type.
          read_u64 >>= λ _. pure (name, record { dims = dims; ggml_type = ggml_type })

  -- One entry of the table of tensors; its offset is read and dropped.
  unfoldable pub read_info : Parser (Text × GgufTensorInfo)
  read_info = read_string_bytes >>= λ name.
      read_u32 >>= λ n_dims. read_info_of (from_utf8_lossy name) n_dims

  unfoldable pub read_infos : ℕ → Map Text GgufTensorInfo → Parser (Map Text GgufTensorInfo)
  read_infos zero infos bs = ok (infos, bs)
  read_infos (suc n) infos bs =
      continue (read_info bs) (λ entry. read_infos n (insert entry.0 entry.1 infos))

  abbrev pub read_tables : ℕ → ℕ → ℕ → Parser (Map Text GgufTensorInfo)
  read_tables fuel tensor_count kv_count =
      if ltb max_metadata_or_tensor_count tensor_count || ltb max_metadata_or_tensor_count kv_count
      then fail (invalid (implausible_counts tensor_count kv_count))
      else skip_times kv_count (skip_pair fuel) >>= λ _. read_infos tensor_count []

  -- With fuel for the depth of the arrays.
  unfoldable pub parse_header : ℕ → Parser (Map Text GgufTensorInfo)
  parse_header fuel = read_exact_or_incomplete 4 >>= λ magic.
      if magic =ₖ codes "GGUF"
      then (read_u32 >>= λ version. read_u64 >>= λ tensor_count.
          read_u64 >>= λ kv_count. read_tables fuel tensor_count kv_count)
      else fail (invalid (bad_magic magic))

  abbrev pub drop_rest :
      Parsed (Map Text GgufTensorInfo × List ℕ) → Parsed (Map Text GgufTensorInfo)
  drop_rest (ok (infos, rest)) = ok infos
  drop_rest (failed e) = failed e
  drop_rest out_of_fuel = out_of_fuel

  -- An array costs twelve bytes, so there is fuel for any depth.
  unfoldable pub parse_gguf_tensor_infos : List ℕ → Parsed (Map Text GgufTensorInfo)
  parse_gguf_tensor_infos bytes = drop_rest (parse_header (suc (length bytes)) bytes)
