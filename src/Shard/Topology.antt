-- ===== src/Shard/Topology.antt =====
-- The live report on a pipeline in src/opoi/shard_engine.rs: `topology_snapshot`.
use cs_stratum_bridge.Base.{
  ℕ, suc, ◌==◌, ltb, if◌then◌else◌, Text, codes, text_key, nat_key, Key, Map, lookup, insert,
  is_some, Bool, Option, none, some, List, [], ◌∷◌, ◌++◌, map,
}
use cs_stratum_bridge.Registry.{MinerSnapshot, snapshot_all}
use cs_stratum_bridge.Experts.{recent_assignments_for_range}
use cs_stratum_bridge.Rpc.{ShardDescriptor}
use cs_stratum_bridge.Speculative.Dispatch.{or_zero}
use cs_stratum_bridge.Shard.{
  PrimaryDispatchRecord, PipelineState, ShardEngine, range_key, range_of, some_experts,
}

pub record TopologyExpert : Type 0 where
  pub expert_id : ℕ
  pub wallet : Option Text
  pub vram_mb : Option ℕ
  pub activated : Bool

pub record TopologyPart : Type 0 where
  pub kind : Text
  pub shard_index : ℕ
  pub layer_start : ℕ
  pub layer_end : ℕ
  pub status : Text
  pub primary_wallet : Option Text
  pub primary_vram_mb : Option ℕ
  pub experts : List TopologyExpert

pub record TopologySnapshot : Type 0 where
  pub request_id : Text
  pub model_id : Text
  pub arch_type : Text
  pub num_layers : ℕ
  pub current_pos : ℕ
  pub current_token_index : ℕ
  pub parts : List TopologyPart
  pub connected_miners : List MinerSnapshot

-- `collect` into a map: a later entry replaces an earlier one.
abbrev pub collect : {K V : Type 0} ⦃key : Key K⦄ → List (K × V) → Map K V → Map K V
collect [] m = m
collect ((k, v) ∷ kvs) m = collect kvs (insert k v m)

abbrev pub with_vram : Text → Option ℕ → List (Text × ℕ) → List (Text × ℕ)
with_vram wallet none rest = rest
with_vram wallet (some v) rest = (wallet, v) ∷ rest

abbrev pub vram_of : List MinerSnapshot → List (Text × ℕ)
vram_of [] = []
vram_of (m ∷ ms) = with_vram m.wallet m.expert_vram_mb (vram_of ms)

-- `wallet.as_ref().and_then(..)`.
abbrev pub vram_for : Map Text ℕ → Option Text → Option ℕ
vram_for vram_by_wallet none = none
vram_for vram_by_wallet (some wallet) = lookup wallet vram_by_wallet

abbrev pub status_at : ℕ → ℕ → Text
status_at idx pos =
    if ltb idx pos then codes "done" else (if idx == pos then codes "current" else codes "pending")

-- The last record of the shard in the log.
abbrev pub or_later : Option Text → Option Text → Option Text
or_later earlier none = earlier
or_later earlier (some later) = some later

unfoldable pub primary_of : ℕ → List PrimaryDispatchRecord → Option Text
primary_of shard_index [] = none
primary_of shard_index (r ∷ log) =
    or_later (if r.shard_index == shard_index then some r.wallet else none)
      (primary_of shard_index log)

abbrev pub dense_part :
    ℕ → ℕ → Map Text ℕ → List PrimaryDispatchRecord → ShardDescriptor → TopologyPart
dense_part idx pos vram_by_wallet log shard = record {
  kind = codes "dense";
  shard_index = shard.shard_index;
  layer_start = or_zero shard.layer_start;
  layer_end = or_zero shard.layer_end;
  status = status_at idx pos;
  primary_wallet = primary_of shard.shard_index log;
  primary_vram_mb = vram_for vram_by_wallet (primary_of shard.shard_index log);
  experts = [];
}

abbrev pub topology_expert : Map Text ℕ → Map ℕ Text → ℕ → TopologyExpert
topology_expert vram_by_wallet recent_by_id expert_id = record {
  expert_id = expert_id;
  wallet = lookup expert_id recent_by_id;
  vram_mb = vram_for vram_by_wallet (lookup expert_id recent_by_id);
  activated = is_some (lookup expert_id recent_by_id);
}

abbrev pub group_part : ℕ → ℕ → Map Text ℕ → Map ℕ Text → ShardDescriptor → List ℕ → TopologyPart
group_part idx pos vram_by_wallet recent_by_id shard registered = record {
  kind = codes "expert_group";
  shard_index = shard.shard_index;
  layer_start = or_zero shard.layer_start;
  layer_end = or_zero shard.layer_end;
  status = status_at idx pos;
  primary_wallet = none;
  primary_vram_mb = none;
  experts = map (topology_expert vram_by_wallet recent_by_id) registered;
}

module _ (request : Text) (e : ShardEngine) (vram_by_wallet : Map Text ℕ) (p : PipelineState) where
  abbrev pub recent_of : ShardDescriptor → Map ℕ Text
  recent_of shard =
      collect
        (recent_assignments_for_range request (or_zero shard.layer_start) (or_zero shard.layer_end)
          e.experts)
        []

  abbrev pub group_parts : ℕ → ShardDescriptor → Option (List ℕ) → List TopologyPart
  group_parts idx shard none = []
  group_parts idx shard (some registered) =
      group_part idx p.pos vram_by_wallet (recent_of shard) shard registered ∷ []

  -- The loop over the shards, from an index on.
  unfoldable pub parts_from : ℕ → List ShardDescriptor → List TopologyPart
  parts_from idx [] = []
  parts_from idx (shard ∷ shards) =
      dense_part idx p.pos vram_by_wallet p.dispatch_log shard
        ∷ group_parts idx shard (some_experts (lookup (range_of shard) p.expert_groups))
      ++ parts_from (suc idx) shards

abbrev pub snapshot_of : Text → ShardEngine → Option PipelineState → Option TopologySnapshot
snapshot_of request e none = none
snapshot_of request e (some p) =
    let connected_miners = snapshot_all e.registry in
    some (record {
      request_id = request;
      model_id = p.manifest.model_id;
      arch_type = p.manifest.arch_type;
      num_layers = p.manifest.num_layers;
      current_pos = p.pos;
      current_token_index = p.token_index;
      parts = parts_from request e (collect (vram_of connected_miners) []) p 0 p.shards;
      connected_miners = connected_miners;
    })

unfoldable pub topology_snapshot : Text → ShardEngine → Option TopologySnapshot
topology_snapshot request e = snapshot_of request e (lookup request e.pipelines)
