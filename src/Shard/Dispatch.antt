-- ===== src/Shard/Dispatch.antt =====
-- What src/opoi/shard_engine.rs sends to the miners: `dispatch_current` and `retry_stalled_pipelines`,
-- with `receive_prompt`, `active_request_ids` and `on_disconnect`. An index out of range ends the
-- handler with a panic, before it has changed anything: `is_in_range` says whether it is in range, and
-- who dispatches replies by it.
use cs_stratum_bridge.Base.{
  ℕ, ◌==◌, if◌then◌else◌, Text, codes, text_key, ◌=ₖ◌, Map, lookup, insert, remove, retain,
  contains_key, is_some, Bool, true, false, not, Option, none, some, List, [], ◌∷◌, ◌++◌, get_elem?,
}
use cs_stratum_bridge.AppError.{Result, ok, err}
use cs_stratum_bridge.Daemon.{CsdRpcClient}
use cs_stratum_bridge.Registry.{Sender, get, pick_next, keys}
use cs_stratum_bridge.Wire.{OpoiShardAssign}
use cs_stratum_bridge.Rpc.{ModelManifest, ShardDescriptor}
use cs_stratum_bridge.Speculative.Pipeline.{ModelSource}
use cs_stratum_bridge.Speculative.Dispatch.{or_zero, then_some}
use cs_stratum_bridge.Shard.{
  PrimaryDispatchRecord, PipelineState, ShardAssignment, ShardEngine, expert_group_for,
}

unfoldable pub receive_prompt : Text → Text → ShardEngine → ShardEngine
receive_prompt request prompt_hex e = record e {
  prompt_cache = insert request prompt_hex e.prompt_cache;
}

unfoldable pub active_request_ids : ShardEngine → List Text
active_request_ids e = keys e.pipelines

abbrev held_by_other : Text → ShardAssignment → Bool
held_by_other wallet a = not (a.wallet =ₖ wallet)

unfoldable pub on_disconnect : Text → ShardEngine → ShardEngine
on_disconnect wallet e = record e { assignments = retain (held_by_other wallet) e.assignments }

abbrev pub shard_assign :
    Text → ModelSource → PipelineState → ShardDescriptor → Option ℕ → OpoiShardAssign
shard_assign request source p shard moe_layer_step =
    let is_entry = p.pos == 0 in
    record {
      request_id = request;
      model_id = p.manifest.model_id;
      shard_index = shard.shard_index;
      layer_start = or_zero shard.layer_start;
      layer_end = or_zero shard.layer_end;
      total_layers = p.manifest.num_layers;
      token_index = p.token_index;
      max_tokens = p.max_tokens;
      input = p.current_input;
      model_gguf_url = source.gguf_url;
      model_gguf_sha256 = p.manifest.backbone_pom_root;
      model_tokenizer_url = then_some is_entry source.tokenizer_url;
      model_tokenizer_sha256 = then_some is_entry source.tokenizer_sha256;
      moe_layer_step = moe_layer_step;
    }

abbrev pub dispatch_record :
    PipelineState → ShardDescriptor → Option ℕ → Text → PrimaryDispatchRecord
dispatch_record p shard moe_layer_step wallet = record {
  shard_index = shard.shard_index;
  layer_start = or_zero shard.layer_start;
  layer_end = or_zero shard.layer_end;
  moe_layer_step = moe_layer_step;
  wallet = wallet;
  token_index = p.token_index;
}

-- The pipeline `p` as the map has it now; whether the channel is open is not asked.
abbrev pub send_shard :
    Text
    → ModelSource
    → PipelineState
    → ShardDescriptor
    → Option ℕ
    → Text
    → Option Sender
    → ShardEngine
    → ShardEngine
send_shard request source p shard moe_layer_step wallet none e = e
send_shard request source p shard moe_layer_step wallet (some tx) e = record e {
  assignments =
      insert request
        (record {
          wallet = wallet;
          shard_index = shard.shard_index;
          token_index = p.token_index;
          moe_layer_step = moe_layer_step;
        })
        e.assignments;
  pipelines =
      insert request
        (record p {
          dispatch_log = p.dispatch_log ++ dispatch_record p shard moe_layer_step wallet ∷ [];
        })
        e.pipelines;
  asked = e.asked ++ (wallet, shard_assign request source p shard moe_layer_step) ∷ [];
}

-- A new walk through the layers of the range is pinned to the wallet.
abbrev pub dispatch_fresh :
    Text → ModelSource → PipelineState → ShardDescriptor → Option Text → ShardEngine → ShardEngine
dispatch_fresh request source p shard none e = e
dispatch_fresh request source p shard (some wallet) e =
    let e' : ShardEngine = record e { last_assigned = some wallet } in
    let layer : ℕ = or_zero shard.layer_start in
    let pinned : PipelineState = record p { moe_layer_walk = some (layer, wallet) } in
    if is_some (expert_group_for p p.pos)
    then send_shard request source pinned shard (some layer) wallet (get wallet e.registry)
        (record e' { pipelines = insert request pinned e.pipelines })
    else send_shard request source p shard none wallet (get wallet e.registry) e'

abbrev pub dispatch_pinned :
    Text
    → ModelSource
    → PipelineState
    → ShardDescriptor
    → ℕ
    → Text
    → Option Sender
    → ShardEngine
    → ShardEngine
dispatch_pinned request source p shard layer wallet none e = record e {
  pipelines = remove request e.pipelines;
  assignments = remove request e.assignments;
}
dispatch_pinned request source p shard layer wallet (some tx) e =
    send_shard request source p shard (some layer) wallet (some tx) e

abbrev pub dispatch_shard :
    Text
    → ModelSource
    → PipelineState
    → ShardDescriptor
    → Option (ℕ × Text)
    → ShardEngine
    → ShardEngine
dispatch_shard request source p shard (some (layer, wallet)) e =
    dispatch_pinned request source p shard layer wallet (get wallet e.registry) e
dispatch_shard request source p shard none e =
    dispatch_fresh request source p shard (pick_next e.last_assigned e.registry) e

abbrev pub dispatch_at :
    Text → ModelSource → PipelineState → Option ShardDescriptor → ShardEngine → ShardEngine
dispatch_at request source p none e = e
dispatch_at request source p (some shard) e =
    dispatch_shard request source p shard p.moe_layer_walk e

-- `&pipeline.shards[pipeline.pos]`, which panics out of range.
abbrev pub current_shard : PipelineState → Option ShardDescriptor
current_shard p = get_elem? p.shards p.pos

-- Whether `dispatch_current` does not panic.
abbrev pub is_in_range : Option PipelineState → Bool
is_in_range none = true
is_in_range (some p) = is_some (current_shard p)

abbrev pub dispatch_pipeline : Text → ModelSource → Option PipelineState → ShardEngine → ShardEngine
dispatch_pipeline request source none e = e
dispatch_pipeline request source (some p) e = dispatch_at request source p (current_shard p) e

unfoldable pub dispatch_current : Text → ModelSource → ShardEngine → ShardEngine
dispatch_current request source e = dispatch_pipeline request source (lookup request e.pipelines) e

abbrev pub stalled : Map Text ShardAssignment → List Text → List Text
stalled assignments [] = []
stalled assignments (id ∷ ids) =
    let rest = stalled assignments ids in if contains_key id assignments then rest else id ∷ rest

module _ {W : Type 0} (resolve : Text → W → Option ModelSource × W) where
  abbrev pub retry_with : Text → ShardEngine → Option ModelSource × W → ShardEngine × W
  retry_with request e (none, w) = (e, w)
  retry_with request e (some source, w) = (dispatch_current request source e, w)

  abbrev pub retry_pipeline : Text → Option PipelineState → ShardEngine → W → ShardEngine × W
  retry_pipeline request none e w = (e, w)
  retry_pipeline request (some p) e w = retry_with request e (resolve p.manifest.model_id w)

  abbrev pub retry_all : List Text → ShardEngine → W → ShardEngine × W
  retry_all [] e w = (e, w)
  retry_all (id ∷ ids) e w =
      let (e', w') = retry_pipeline id (lookup id e.pipelines) e w in retry_all ids e' w'

  unfoldable pub retry_stalled_pipelines : ShardEngine → W → ShardEngine × W
  retry_stalled_pipelines e w = retry_all (stalled e.assignments (keys e.pipelines)) e w

module _ {W : Type 0} (csd : CsdRpcClient W) where
  abbrev is_active : Result ModelManifest → Bool
  is_active (ok m) = m.status =ₖ codes "ACTIVE"
  is_active (err _) = false

  unfoldable pub is_shard_routed : Text → W → Bool × W
  is_shard_routed model w = let (r, w') = csd.get_model_manifest model w in (is_active r, w')
