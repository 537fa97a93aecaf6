-- ===== src/Wire.antt =====
-- src/opoi/wire.rs: the messages between the bridge and a miner. A message is a value; that it is
-- written as a line of JSON is the work of a library. An `f32` is its 32 bits.
use cs_stratum_bridge.Base.{ℕ, ◌-◌, ◌^◌, Text, Bool, Option, List}

pub record OpoiAssign : Type 0 where
  pub request_id : Text
  pub model : Text
  pub prompt_hex : Text
  pub max_tokens : ℕ
  pub task_type : Option Text
  pub task_class : Option Text

pub record OpoiSubmitResultParams : Type 0 where
  pub request_id : Text
  pub response_hash : Text
  pub response_hex : Text
  pub token_count : ℕ

pub data ShardInputWire : Type 0 where
  prompt : Text → ShardInputWire
  next_token_id : ℕ → ShardInputWire
  token_ids : List ℕ → ShardInputWire
  tensor : List ℕ → Text → ShardInputWire

pub record OpoiShardAssign : Type 0 where
  pub request_id : Text
  pub model_id : Text
  pub shard_index : ℕ
  pub layer_start : ℕ
  pub layer_end : ℕ
  pub total_layers : ℕ
  pub token_index : ℕ
  pub max_tokens : ℕ
  pub input : ShardInputWire
  pub model_gguf_url : Text
  pub model_gguf_sha256 : Text
  pub model_tokenizer_url : Option Text
  pub model_tokenizer_sha256 : Option Text
  pub moe_layer_step : Option ℕ

pub record RouterExpertChoice : Type 0 where
  pub expert_id : ℕ
  pub weight : ℕ

-- Also `ExpertOutputWire`, which has the same fields.
pub record ShardOutputWire : Type 0 where
  pub shape : List ℕ
  pub data_hex : Text

pub record OpoiShardResult : Type 0 where
  pub request_id : Text
  pub shard_index : ℕ
  pub token_index : ℕ
  pub output_hash : Text
  pub output : ShardOutputWire
  pub next_token_id : Option ℕ
  pub next_token_ids : Option (List ℕ)
  pub router_selection : Option (List (List RouterExpertChoice))
  pub moe_layer_step : Option ℕ

pub data DraftInputWire : Type 0 where
  prompt : Text → DraftInputWire
  next_token_id : ℕ → DraftInputWire

pub record OpoiDraftGenerate : Type 0 where
  pub request_id : Text
  pub model_id : Text
  pub total_layers : ℕ
  pub k : ℕ
  pub input : DraftInputWire
  pub model_gguf_url : Text
  pub model_gguf_sha256 : Text
  pub model_tokenizer_url : Option Text
  pub model_tokenizer_sha256 : Option Text

pub record OpoiDraftResult : Type 0 where
  pub request_id : Text
  pub draft_token_ids : List ℕ

pub record OpoiKvRollback : Type 0 where
  pub request_id : Text
  pub shard_index : ℕ
  pub keep_until_pos : ℕ
  pub finalize : Bool

pub record OpoiKvRollbackAck : Type 0 where
  pub request_id : Text
  pub shard_index : ℕ
  pub ok : Bool
  pub finalized_hash : Option Text

-- `u32::MAX`, the shard index of a draft model's session.
abbrev pub draft_session_shard_index : ℕ
draft_session_shard_index = 2 ^ 32 - 1

pub record OpoiAuditAssign : Type 0 where
  pub request_id : Text
  pub model_id : Text
  pub gguf_url : Text
  pub gguf_sha256 : Text
  pub tokenizer_url : Text
  pub tokenizer_sha256 : Text
  pub prompt_hex : Text
  pub committed_token_ids : List ℕ
  pub total_layers : ℕ

pub record AuditPositionWire : Type 0 where
  pub step : ℕ
  pub committed_token_id : ℕ
  pub auditor_token_id : ℕ
  pub admissible : Bool

pub record OpoiAuditResult : Type 0 where
  pub request_id : Text
  pub positions : List AuditPositionWire

pub data ExpertInputWire : Type 0 where
  tensor : List ℕ → Text → ExpertInputWire

pub record OpoiExpertAssign : Type 0 where
  pub request_id : Text
  pub model_id : Text
  pub layer_start : ℕ
  pub layer_end : ℕ
  pub layer_idx : ℕ
  pub expert_id : ℕ
  pub token_index : ℕ
  pub input : ExpertInputWire
  pub input_hash : Text
  pub model_gguf_url : Text
  pub model_gguf_sha256 : Text

pub record OpoiExpertResult : Type 0 where
  pub request_id : Text
  pub layer_start : ℕ
  pub layer_end : ℕ
  pub layer_idx : ℕ
  pub expert_id : ℕ
  pub token_index : ℕ
  pub output_hash : Text
  pub output : ShardOutputWire
