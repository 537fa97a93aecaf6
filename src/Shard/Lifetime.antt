-- ===== src/Shard/Lifetime.antt =====
-- A request of src/opoi/shard_engine.rs from its first tick to its commit: `poll_and_start_tick` begins what
-- `handle_shard_result` ends.
use cs_stratum_bridge.Base.{◌*◌, ◌<◌, ◌^◌, ◌≡◌, Text, text_key, true, none, List, [], ◌∷◌, length}
use Prim.Native.Nat.{max}
use cs_stratum_bridge.Rpc.{OpoiRequest, ModelManifest, ShardDescriptor}
use cs_stratum_bridge.Shard.{PipelineState, ShardEngine}
use cs_stratum_bridge.Shard.Host.{ShardHost}
use cs_stratum_bridge.Shard.Poll.{new_pipeline}
use cs_stratum_bridge.Shard.Sent.{may_work}
use cs_stratum_bridge.Shard.Work.{steps_left, Work, Honest}

module _ {W : Type 0} (host : ShardHost W) (req : OpoiRequest) (bound : req.max_tokens < 2 ^ 32)
    (manifest : ModelManifest) (prompt_hex : Text) (s : ShardDescriptor) (ss : List ShardDescriptor)
    (miner : Text) where
  abbrev begun : PipelineState
  begun = new_pipeline req manifest prompt_hex (s ∷ ss) []

  -- The request has begun, and its first step is assigned.
  abbrev Begins : ShardEngine → ShardEngine → Type 0
  Begins e e' =
      (p : PipelineState) × Honest req.request_id miner p e'
      × (e'.spawned ≡ e.spawned)
      × (e'.db ≡ e.db)
      × (p.generated_token_ids ≡ [])
      × (p.max_tokens ≡ req.max_tokens)
      × (steps_left p ≡ max 1 req.max_tokens * length (s ∷ ss))

  -- Miners, addresses, and no speculative engine.
  abbrev pub CanBegin : ShardEngine → Type 0
  CanBegin e =
      (e.speculative ≡ none)
      × (may_work miner e.registry ≡ true)
      × (0 < length e.stake_pool.addresses)
