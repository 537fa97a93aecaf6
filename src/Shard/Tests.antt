-- ===== src/Shard/Tests.antt =====
-- A graph of two dense shards and a group of two experts.
use mathlib.Core.List.{Perm}
use cs_stratum_bridge.Base.{
  ℕ, Text, Option, ◌≡◌, refl, inr, codes, text_key, Text-discrete, ℕ_discrete, lookup, insert, none,
  some, List, [], ◌∷◌, filter, map,
}
use cs_stratum_bridge.Registry.{new, register}
use cs_stratum_bridge.Wire.{prompt}
use cs_stratum_bridge.Db.{empty_db}
use cs_stratum_bridge.Experts
use cs_stratum_bridge.Speculative.Pipeline.{ModelSource}
use cs_stratum_bridge.Rpc.{ModelManifest, ShardDescriptor}
use cs_stratum_bridge.Shard.{
  LayerRange, PipelineState, ShardEngine, range_key, of_type, group_experts,
  split_model_execution_graph, LayerRange-discrete,
}
use cs_stratum_bridge.Shard.Dispatch.{retry_stalled_pipelines}
use cs_stratum_bridge.Shard.Pinned.{Pinned, Keeps, retry_stalled_pipelines-Keeps}
use cs_stratum_bridge.Shard.Split.{
  Sorted, grown, id_of, in_range, split_model_execution_graph-Splits,
}

abbrev dense : ℕ → ℕ → ℕ → ShardDescriptor
dense index first last = record {
  shard_index = index;
  shard_type = codes "DENSE";
  layer_start = some first;
  layer_end = some last;
  expert_id = none;
}

abbrev expert : ℕ → ℕ → ShardDescriptor
expert index id = record {
  shard_index = index;
  shard_type = codes "EXPERT";
  layer_start = some 0;
  layer_end = some 4;
  expert_id = some id;
}

abbrev nodes : List ShardDescriptor
nodes = dense 1 4 8 ∷ expert 2 7 ∷ dense 0 0 4 ∷ expert 3 9 ∷ []

abbrev first_range : LayerRange
first_range = record { layer_start = 0; layer_end = 4 }

two_experts : lookup first_range (split_model_execution_graph nodes).1 ≡ some (7 ∷ 9 ∷ [])
unfolding split_model_execution_graph group_experts lookup insert Text-discrete ℕ_discrete
    LayerRange-discrete
two_experts = refl

split_model_execution_graph-Splits_example :
    Sorted (split_model_execution_graph nodes).0
    × Perm (split_model_execution_graph nodes).0 (filter (of_type (codes "DENSE")) nodes)
    × (lookup first_range (split_model_execution_graph nodes).1
        ≡ grown none
            (map id_of (filter (in_range first_range) (filter (of_type (codes "EXPERT")) nodes))))
split_model_execution_graph-Splits_example = split_model_execution_graph-Splits nodes first_range

abbrev manifest : ModelManifest
manifest = record {
  model_id = codes "m";
  arch_type = codes "moe";
  num_layers = 8;
  backbone_pom_root = codes "s";
  status = codes "ACTIVE";
}

-- At layer 2 with `w`, and nothing is assigned.
abbrev walking : PipelineState
walking = record {
  shards = dense 0 0 4 ∷ dense 1 4 8 ∷ [];
  manifest = manifest;
  prompt_hash = [];
  max_tokens = 4;
  pos = 0;
  token_index = 0;
  current_input = prompt (codes "00");
  original_prompt_hex = codes "00";
  generated_token_ids = [];
  contributions = [];
  expert_groups = (first_range, 7 ∷ []) ∷ [];
  moe_layer_walk = some (2, codes "w");
  dispatch_log = [];
}

abbrev engine : ShardEngine
engine = record {
  registry = register (codes "w") 4 (register (codes "v") 3 new);
  pipelines = (codes "r", walking) ∷ [];
  assignments = [];
  last_assigned = none;
  prompt_cache = [];
  asked = [];
  db = empty_db;
  stake_pool = record { addresses = codes "a" ∷ []; next = 0 };
  experts = cs_stratum_bridge.Experts.new new;
  expert_vram = [];
  speculative = none;
  b3lite = none;
  spawned = [];
}

abbrev resolve : Text → Unit {0} → Option ModelSource × Unit {0}
resolve model w = (
  some (record { gguf_url = codes "u"; tokenizer_url = codes "t"; tokenizer_sha256 = codes "h" }),
  w,
)

engine-Pinned : Pinned (codes "r") 2 (codes "w") engine
unfolding lookup Text-discrete ℕ_discrete
engine-Pinned = inr (walking, refl, refl)

retry_stalled_pipelines-Keeps_example :
    Keeps (codes "r") 2 (codes "w") engine (retry_stalled_pipelines resolve engine tt).0
retry_stalled_pipelines-Keeps_example =
    retry_stalled_pipelines-Keeps (codes "r") 2 (codes "w") resolve engine tt engine-Pinned
