-- ===== src/Shard.antt =====
-- src/opoi/shard_engine.rs: the pipelines of the models that are split over several miners. The graph
-- of a model, the state, what is sent, and what comes back.
pub mod Dispatch
pub mod Split
pub mod Pinned
pub mod Host
pub mod Finish
pub mod FanOut
pub mod Results
pub mod Poll
pub mod Topology
pub mod Frame
pub mod Running
pub mod Accepted
pub mod Steps
pub mod Quiet
pub mod Silent
pub mod Commits
pub mod Answers
pub mod Spares
pub mod Sent
pub mod Work
pub mod Honest
pub mod Lifetime
pub mod Written
mod Tests
mod AnswerTests
use cs_stratum_bridge.Base.{
  ℕ, Text, codes, text_key, ◌=ₖ◌, Key, Map, lookup, insert, Bool, not, Option, none, some, List, [],
  ◌∷◌, ◌++◌, get_elem?, filter, ℕ_discrete,
}
use cs_stratum_bridge.Bytes.{encode_tokens}
use cs_stratum_bridge.Registry.{MinerRegistry}
use cs_stratum_bridge.Db.{Db}
use cs_stratum_bridge.StakePool.{StakePool}
use cs_stratum_bridge.Experts.{ExpertDispatcher}
use cs_stratum_bridge.Gguf.Estimator.{VramCache}
use cs_stratum_bridge.Speculative.Pipeline.{SpeculativeEngine}
use cs_stratum_bridge.Receipts.Sampling.{B3LiteConfig}
use cs_stratum_bridge.Engine.Submit.{SpawnedCommit}
use cs_stratum_bridge.Wire.{ShardInputWire, OpoiShardAssign}
use cs_stratum_bridge.Rpc.{ModelManifest, ShardDescriptor}
use cs_stratum_bridge.Speculative.Dispatch.{or_zero, sort_shards}

-- The first layer and the one behind the last.
pub record LayerRange : Type 0 where
  pub layer_start : ℕ
  pub layer_end : ℕ

unfoldable pub LayerRange-discrete : Discrete LayerRange
unfolding ℕ_discrete
LayerRange-discrete = hlevel ℕ_discrete

instance abbrev pub range_key : Key LayerRange
range_key = record { dec = LayerRange-discrete }

abbrev pub range_of : ShardDescriptor → LayerRange
range_of s = record { layer_start = or_zero s.layer_start; layer_end = or_zero s.layer_end }

abbrev pub ExpertGroups : Type 0
ExpertGroups = Map LayerRange (List ℕ)

abbrev pub of_type : Text → ShardDescriptor → Bool
of_type t s = s.shard_type =ₖ t

-- `or_default()`.
abbrev pub or_empty : Option (List ℕ) → List ℕ
or_empty none = []
or_empty (some ids) = ids

unfoldable pub group_experts : List ShardDescriptor → ExpertGroups → ExpertGroups
group_experts [] groups = groups
group_experts (s ∷ ss) groups =
    group_experts ss (
      insert (range_of s) (or_empty (lookup (range_of s) groups) ++ or_zero s.expert_id ∷ [])
        groups)

unfoldable pub split_model_execution_graph :
    List ShardDescriptor → List ShardDescriptor × ExpertGroups
split_model_execution_graph shards = (
  sort_shards (filter (of_type (codes "DENSE")) shards),
  group_experts (filter (of_type (codes "EXPERT")) shards) [],
)

-- The digest and the hexadecimal text.
unfoldable pub build_response : (List ℕ → Text) → (List ℕ → Text) → List ℕ → Text × Text
build_response sha256_hex hex_encode token_ids =
    (sha256_hex (encode_tokens token_ids), hex_encode (encode_tokens token_ids))

pub record PrimaryDispatchRecord : Type 0 where
  pub shard_index : ℕ
  pub layer_start : ℕ
  pub layer_end : ℕ
  pub moe_layer_step : Option ℕ
  pub wallet : Text
  pub token_index : ℕ

pub record PipelineState : Type 0 where
  pub shards : List ShardDescriptor
  pub manifest : ModelManifest
  pub prompt_hash : Text
  pub max_tokens : ℕ
  pub pos : ℕ
  pub token_index : ℕ
  pub current_input : ShardInputWire
  pub original_prompt_hex : Text
  pub generated_token_ids : List ℕ
  pub contributions : Map Text ℕ
  pub expert_groups : ExpertGroups
  pub moe_layer_walk : Option (ℕ × Text)
  pub dispatch_log : List PrimaryDispatchRecord

pub record ShardAssignment : Type 0 where
  pub wallet : Text
  pub shard_index : ℕ
  pub token_index : ℕ
  pub moe_layer_step : Option ℕ

-- The registry and the database, which are shared with the others, the engine's own fields, the lines
-- to miners, and the commits that were spawned. The copies of what is shared in `experts` and in
-- `speculative` are brought up to date when they are called.
pub record ShardEngine : Type 0 where
  pub registry : MinerRegistry
  pub pipelines : Map Text PipelineState
  pub assignments : Map Text ShardAssignment
  pub last_assigned : Option Text
  pub prompt_cache : Map Text Text
  pub asked : List (Text × OpoiShardAssign)
  pub db : Db
  pub stake_pool : StakePool
  pub experts : ExpertDispatcher
  pub expert_vram : VramCache
  pub speculative : Option SpeculativeEngine
  pub b3lite : Option B3LiteConfig
  pub spawned : List SpawnedCommit

abbrev pub some_experts : Option (List ℕ) → Option (List ℕ)
some_experts none = none
some_experts (some []) = none
some_experts (some (id ∷ ids)) = some (id ∷ ids)

abbrev pub group_of : ExpertGroups → Option ShardDescriptor → Option (List ℕ)
group_of groups none = none
group_of groups (some shard) = some_experts (lookup (range_of shard) groups)

unfoldable pub expert_group_for : PipelineState → ℕ → Option (List ℕ)
expert_group_for p pos = group_of p.expert_groups (get_elem? p.shards pos)
