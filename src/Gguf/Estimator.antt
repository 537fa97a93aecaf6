-- ===== src/Gguf/Estimator.antt =====
-- src/opoi/expert_vram.rs: `ExpertVramEstimator`, which keeps the sizes of the layers of each model that
-- was fetched. The download and its reading are a function of the surroundings.
use cs_stratum_bridge.Base.{ℕ, Text, codes, text_key, Map, lookup, insert, Option, none, some, ◌++◌}
use cs_stratum_bridge.Gguf.Vram.{min_vram_mb_for_range}

-- The sizes by `{model_id}:{gguf_sha256}`.
abbrev pub VramCache : Type 0
VramCache = Map Text (Map ℕ ℕ)

abbrev pub cache_key : Text → Text → Text
cache_key model_id gguf_sha256 = model_id ++ (codes ":" ++ gguf_sha256)

module _ {W : Type 0} (fetch_and_parse : Text → ℕ → W → Option (Map ℕ ℕ) × W) where
  abbrev pub keep_sizes : Text → ℕ → ℕ → VramCache → Option (Map ℕ ℕ) × W → Option ℕ × VramCache × W
  keep_sizes key layer_start layer_end cache (none, w) = (none, cache, w)
  keep_sizes key layer_start layer_end cache (some per_layer, w) =
      (min_vram_mb_for_range per_layer layer_start layer_end, insert key per_layer cache, w)

  unfoldable pub min_vram_mb :
      Text → Text → Text → ℕ → ℕ → ℕ → VramCache → W → Option ℕ × VramCache × W
  min_vram_mb model_id gguf_url gguf_sha256 layer_start layer_end n_expert cache w =
      elim (lookup (cache_key model_id gguf_sha256) cache) [
        | some per_layer ↦ (min_vram_mb_for_range per_layer layer_start layer_end, cache, w)
        | none ↦
            keep_sizes (cache_key model_id gguf_sha256) layer_start layer_end cache
              (fetch_and_parse gguf_url n_expert w)
      ]
