-- ===== src/Gguf/Print.antt =====
-- The bytes of a GGUF header, as the format lays them out and as the tests of src/opoi/expert_vram.rs
-- build them: what the reader is measured against.
use cs_stratum_bridge.Base.{
  ℕ, suc, ◌/◌, ◌%◌, ◌≤◌, ◌<◌, ◌≡◌, List, [], ◌∷◌, ◌++◌, Text, codes, text_key, Map, insert, length,
  All,
}
use cs_stratum_bridge.Gguf.{header_prefix_cap_bytes, max_metadata_or_tensor_count}
use cs_stratum_bridge.Gguf.Header.{GgufTensorInfo, scalar, kind_of}

abbrev pub le4 : ℕ → List ℕ
le4 v = v % 256 ∷ v / 256 % 256 ∷ v / 65536 % 256 ∷ v / 16777216 % 256 ∷ []

abbrev pub le8 : ℕ → List ℕ
le8 v =
    v % 256
    ∷ v / 256 % 256
    ∷ v / 65536 % 256
    ∷ v / 16777216 % 256
    ∷ v / 4294967296 % 256
    ∷ v / 1099511627776 % 256
    ∷ v / 281474976710656 % 256
    ∷ v / 72057594037927936 % 256
    ∷ []

-- A value of the metadata: a number by its type and bytes, a text, or the elements of an array.
mutual
  pub data MetaValue : Type 0 where
    number : ℕ → List ℕ → MetaValue
    text : List ℕ → MetaValue
    elements : ℕ → MetaValues → MetaValue

  pub data MetaValues : Type 0 where
    no_values : MetaValues
    value : MetaValue → MetaValues → MetaValues

abbrev pub tag : MetaValue → ℕ
tag (number t bytes) = t
tag (text bytes) = 8
tag (elements t vs) = 9

abbrev pub count : MetaValues → ℕ
count no_values = 0
count (value v vs) = suc (count vs)

abbrev pub put_string : List ℕ → List ℕ
put_string s = le8 (length s) ++ s

unfoldable mutual
  pub put_value : MetaValue → List ℕ
  put_value (number t bytes) = bytes
  put_value (text bytes) = put_string bytes
  put_value (elements t vs) = le4 t ++ (le8 (count vs) ++ put_values vs)

  pub put_values : MetaValues → List ℕ
  put_values no_values = []
  put_values (value v vs) = put_value v ++ put_values vs

-- The sizes that the format and the reader allow, and one type for the elements of an array.
unfoldable mutual
  pub IsValue : MetaValue → Type 0
  IsValue (number t bytes) = (t < 4294967296) × (kind_of t ≡ scalar (length bytes))
  IsValue (text bytes) = length bytes ≤ header_prefix_cap_bytes
  IsValue (elements t vs) =
      (t < 4294967296) × (count vs ≤ max_metadata_or_tensor_count) × AreValues t vs

  pub AreValues : ℕ → MetaValues → Type 0
  AreValues t no_values = Unit
  AreValues t (value v vs) = (tag v ≡ t) × IsValue v × AreValues t vs

-- A pair of the metadata, and an entry of the table of tensors.
pub record Pair : Type 0 where
  pub key : List ℕ
  pub meta : MetaValue

pub record Tensor : Type 0 where
  pub name : List ℕ
  pub info : GgufTensorInfo
  pub offset : ℕ

pub record Header : Type 0 where
  pub version : ℕ
  pub pairs : List Pair
  pub tensors : List Tensor

unfoldable pub put_pairs : List Pair → List ℕ
put_pairs [] = []
put_pairs (p ∷ ps) = put_string p.key ++ (le4 (tag p.meta) ++ (put_value p.meta ++ put_pairs ps))

unfoldable pub put_dims : List ℕ → List ℕ
put_dims [] = []
put_dims (d ∷ ds) = le8 d ++ put_dims ds

unfoldable pub put_tensors : List Tensor → List ℕ
put_tensors [] = []
put_tensors (t ∷ ts) =
    put_string t.name
    ++ (le4 (length t.info.dims)
        ++ (put_dims t.info.dims ++ (le4 t.info.ggml_type ++ (le8 t.offset ++ put_tensors ts))))

unfoldable pub put_header : Header → List ℕ
put_header h =
    codes "GGUF"
    ++ (le4 h.version
        ++ (le8 (length h.tensors)
            ++ (le8 (length h.pairs) ++ (put_pairs h.pairs ++ put_tensors h.tensors))))

abbrev pub IsPair : Pair → Type 0
IsPair p = (length p.key ≤ header_prefix_cap_bytes) × (tag p.meta < 4294967296) × IsValue p.meta

abbrev pub IsU64 : ℕ → Type 0
IsU64 n = n < 18446744073709551616

abbrev pub IsTensor : Tensor → Type 0
IsTensor t =
    (length t.name ≤ header_prefix_cap_bytes)
    × (length t.info.dims ≤ max_metadata_or_tensor_count)
    × All IsU64 t.info.dims
    × (t.info.ggml_type < 4294967296)
    × IsU64 t.offset

pub record IsHeader (h : Header) : Type 0 where
  pub version : h.version < 4294967296
  pub pair_count : length h.pairs ≤ max_metadata_or_tensor_count
  pub tensor_count : length h.tensors ≤ max_metadata_or_tensor_count
  pub pairs : All IsPair h.pairs
  pub tensors : All IsTensor h.tensors

-- The table that the entries make: of two with one name the later stays.
unfoldable pub table :
    (List ℕ → Text) → List Tensor → Map Text GgufTensorInfo → Map Text GgufTensorInfo
table from_utf8_lossy [] infos = infos
table from_utf8_lossy (t ∷ ts) infos =
    table from_utf8_lossy ts (insert (from_utf8_lossy t.name) t.info infos)
