-- ===== src/Gguf/Vram.antt =====
-- The memory of an expert, from the shapes of the tensors: `expert_vram_bytes_for_layer` and
-- `min_vram_mb_for_range` of src/opoi/expert_vram.rs. Products and sums of `u64` wrap. What is fetched
-- and kept for a model is an argument: the bytes of each layer.
use cs_stratum_bridge.Base.{
  ℕ, zero, suc, ◌+◌, ◌*◌, ◌/◌, ◌%◌, ◌-◌, ◌==◌, ltb, if◌then◌else◌, List, [], ◌∷◌, ◌++◌, Text, codes,
  decimal, text_key, nat_key, Map, lookup, Option, none, some,
}
use cs_stratum_bridge.Gguf.Header.{GgufTensorInfo}

-- Why a layer has no size.
pub data VramErr : Type 0 where
  no_experts : VramErr
  missing_tensor : Text → VramErr
  uneven_experts uneven_blocks unknown_type : Text → ℕ → VramErr

pub data Sized {ℓ} (A : Type ℓ) : Type ℓ where
  sized : A → Sized A
  refused : VramErr → Sized A

-- The elements of a block and its bytes, for each type.
unfoldable pub ggml_block_and_type_size : ℕ → Option (ℕ × ℕ)
ggml_block_and_type_size t = lookup t (
    (0, (1, 4))
    ∷ (1, (1, 2))
    ∷ (2, (32, 18))
    ∷ (3, (32, 20))
    ∷ (6, (32, 22))
    ∷ (7, (32, 24))
    ∷ (8, (32, 34))
    ∷ (9, (32, 36))
    ∷ (10, (256, 84))
    ∷ (11, (256, 110))
    ∷ (12, (256, 144))
    ∷ (13, (256, 176))
    ∷ (14, (256, 210))
    ∷ (15, (256, 292))
    ∷ (30, (1, 2))
    ∷ [])

abbrev pub u64 : ℕ → ℕ
u64 n = n % 18446744073709551616

unfoldable pub product : List ℕ → ℕ → ℕ
product [] n = n
product (d ∷ ds) n = product ds (u64 (n * d))

abbrev pub tensor_name : ℕ → Text → Text
tensor_name layer suffix =
    codes "blk." ++ (decimal layer ++ (codes "." ++ (suffix ++ codes ".weight")))

abbrev pub block_share : Text → ℕ → ℕ → Option (ℕ × ℕ) → Sized ℕ
block_share name ggml_type per_expert none = refused (unknown_type name ggml_type)
block_share name ggml_type per_expert (some (block, bytes)) =
    if per_expert % block == 0
    then sized (u64 (per_expert / block * bytes))
    else refused (uneven_blocks name per_expert)

-- The bytes of one expert in a tensor of so many elements.
unfoldable pub share : Text → ℕ → ℕ → ℕ → Sized ℕ
share name ggml_type elements n_expert =
    if elements % n_expert == 0
    then block_share name ggml_type (elements / n_expert) (ggml_block_and_type_size ggml_type)
    else refused (uneven_experts name elements)

abbrev pub share_of : Text → ℕ → Option GgufTensorInfo → Sized ℕ
share_of name n_expert none = refused (missing_tensor name)
share_of name n_expert (some info) = share name info.ggml_type (product info.dims 1) n_expert

abbrev pub add_share : ℕ → Sized ℕ → (ℕ → Sized ℕ) → Sized ℕ
add_share total (sized s) rest = rest (u64 (total + s))
add_share total (refused e) rest = refused e

abbrev pub add_shares : Map Text GgufTensorInfo → ℕ → ℕ → List Text → ℕ → Sized ℕ
add_shares infos layer n_expert [] total = sized total
add_shares infos layer n_expert (suffix ∷ suffixes) total =
    add_share total
      (share_of (tensor_name layer suffix) n_expert (lookup (tensor_name layer suffix) infos))
      (add_shares infos layer n_expert suffixes)

unfoldable pub expert_vram_bytes_for_layer : Map Text GgufTensorInfo → ℕ → ℕ → Sized ℕ
expert_vram_bytes_for_layer infos layer n_expert =
    if n_expert == 0
    then refused no_experts
    else add_shares infos layer n_expert
        (codes "ffn_gate_exps" ∷ codes "ffn_up_exps" ∷ codes "ffn_down_exps" ∷ []) 0

abbrev pub greater : Option ℕ → Option ℕ → Option ℕ
greater none b = b
greater (some a) none = some a
greater (some a) (some b) = some (if ltb a b then b else a)

-- The greatest size of the next `n` layers, if any of them has one.
unfoldable pub max_bytes : Map ℕ ℕ → ℕ → ℕ → Option ℕ
max_bytes per_layer layer zero = none
max_bytes per_layer layer (suc n) =
    greater (lookup layer per_layer) (max_bytes per_layer (suc layer) n)

abbrev pub div_ceil_mb : Option ℕ → Option ℕ
div_ceil_mb none = none
div_ceil_mb (some bytes) = some ((bytes + 1048575) / 1048576)

-- `none` is that no layer of the range has a size.
unfoldable pub min_vram_mb_for_range : Map ℕ ℕ → ℕ → ℕ → Option ℕ
min_vram_mb_for_range per_layer layer_start layer_end =
    div_ceil_mb (max_bytes per_layer layer_start (layer_end - layer_start))
