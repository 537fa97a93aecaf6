-- ===== src/Rpc.antt =====
-- src/rpc/types.rs: what the daemon answers. An `f64` is its 64 bits.
use cs_stratum_bridge.Base.{ℕ, Text, Option, List}

pub record OpoiStake : Type 0 where
  pub miner_address : Text
  pub status : Text
  pub last_renewal_height : Option ℕ
  pub canary_strikes : ℕ

pub record StakeOpoiResult : Type 0 where
  pub txid : Text
  pub miner_address : Text
  pub amount : ℕ

pub record OpoiRequest : Type 0 where
  pub request_id : Text
  pub model : Text
  pub prompt_hash : Text
  pub max_tokens : ℕ
  pub payment : ℕ
  pub fee_per_token : ℕ
  pub task_type : Option Text
  pub task_class : Option Text

pub record CommitResult : Type 0 where
  pub txid : Text
  pub nonce_hex : Text
  pub commit_window_closes_at_height : ℕ

pub record ModelManifest : Type 0 where
  pub model_id : Text
  pub arch_type : Text
  pub num_layers : ℕ
  pub backbone_pom_root : Text
  pub status : Text

pub record ShardDescriptor : Type 0 where
  pub shard_index : ℕ
  pub shard_type : Text
  pub layer_start : Option ℕ
  pub layer_end : Option ℕ
  pub expert_id : Option ℕ

pub record ModelGraph : Type 0 where
  pub model_id : Text
  pub shard_topology_hash : Text
  pub shards : List ShardDescriptor

pub record ClaimResult : Type 0 where
  pub txid : Text
  pub request_id : Text
  pub miner_address : Text

pub record ShardResultTxRes : Type 0 where
  pub txid : Text
  pub request_id : Text
  pub shard_index : ℕ
  pub miner_address : Text
