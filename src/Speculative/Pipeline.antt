-- ===== src/Speculative/Pipeline.antt =====
-- The state of src/opoi/speculative_engine.rs: a pipeline for each request that is decoded
-- speculatively, and what is in flight.
use cs_stratum_bridge.Base.{ℕ, Text, text_key, Map, Set, Bool, Option, none, List, [], ◌∷◌, ◌++◌}
use cs_stratum_bridge.Registry.{MinerRegistry, Sender}
use cs_stratum_bridge.Wire.{ShardInputWire, OpoiShardAssign, OpoiDraftGenerate, OpoiKvRollback}
use cs_stratum_bridge.Rpc.{ModelManifest, ShardDescriptor}
use cs_stratum_bridge.Db.{Db}

pub record ModelSource : Type 0 where
  pub gguf_url : Text
  pub tokenizer_url : Text
  pub tokenizer_sha256 : Text

pub record DraftModelSource : Type 0 where
  pub draft_model_id : Text
  pub draft_gguf_url : Text
  pub draft_gguf_sha256 : Text
  pub draft_tokenizer_url : Text
  pub draft_tokenizer_sha256 : Text
  pub draft_total_layers : ℕ

pub record RollbackState : Type 0 where
  pub pending : Set ℕ
  pub accepted_count : ℕ
  pub k_this_round : ℕ
  pub settle_token : ℕ
  pub keep_len : ℕ
  pub is_finalizing_round : Bool

pub data Phase : Type 0 where
  prompt_processing : ℕ → ShardInputWire → Phase
  awaiting_draft : Phase
  verifying : ℕ → ShardInputWire → List ℕ → Phase
  awaiting_rollback : RollbackState → Phase

pub record SpecPipeline : Type 0 where
  pub shards : List ShardDescriptor
  pub manifest : ModelManifest
  pub source : ModelSource
  pub draft_source : DraftModelSource
  pub max_tokens : ℕ
  pub prompt_hash : Text
  pub prompt_hex : Text
  pub draft_wallet : Option Text
  pub base : ℕ
  pub carry : Option ℕ
  pub expected0 : ℕ
  pub k : ℕ
  pub round : ℕ
  pub phase : Phase
  pub generated_token_ids : List ℕ
  pub contributions : Map Text ℕ

pub record ShardStepAssignment : Type 0 where
  pub wallet : Text
  pub shard_index : ℕ

-- What leaves the engine: a line to a miner, and the tasks that it spawns, which submit a shard's
-- result or commit a response.
pub data Effect : Type 0 where
  sends_shard_assign : Sender → OpoiShardAssign → Effect
  sends_draft_generate : Sender → OpoiDraftGenerate → Effect
  sends_kv_rollback : Sender → OpoiKvRollback → Effect
  spawns_submit_shard_result : Text → ℕ → Text → Effect
  spawns_do_commit : ℕ → Text → Text → ℕ → Effect

-- The shared registry and the database, what has left the engine, and the engine's own fields.
pub record SpeculativeEngine : Type 0 where
  pub registry : MinerRegistry
  pub db : Db
  pub effects : List Effect
  pub draft_sources : Map Text DraftModelSource
  pub pipelines : Map Text SpecPipeline
  pub shard_assignments : Map Text ShardStepAssignment
  pub draft_assignments : Map Text Text
  pub last_shard_wallet : Option Text

unfoldable pub new : MinerRegistry → Db → Map Text DraftModelSource → SpeculativeEngine
new registry db draft_sources = record {
  registry = registry;
  db = db;
  effects = [];
  draft_sources = draft_sources;
  pipelines = [];
  shard_assignments = [];
  draft_assignments = [];
  last_shard_wallet = none;
}

abbrev pub emit : Effect → SpeculativeEngine → SpeculativeEngine
emit x e = record e { effects = e.effects ++ x ∷ [] }
