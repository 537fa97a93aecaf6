-- ===== src/Shard/Poll.antt =====
-- How pipelines begin, in src/opoi/shard_engine.rs: `poll_and_start_tick`.
use cs_stratum_bridge.Base.{
  if◌then◌else◌, Text, codes, text_key, ◌=ₖ◌, lookup, insert, remove, contains_key, Option, none,
  some, List, [], ◌∷◌,
}
use cs_stratum_bridge.AppError.{Result, ok, err}
use cs_stratum_bridge.Wire.{prompt}
use cs_stratum_bridge.Rpc.{OpoiRequest, ModelManifest, ModelGraph, ShardDescriptor, ClaimResult}
use cs_stratum_bridge.StakePool.{StakePool, Action, try_each}
use cs_stratum_bridge.Speculative.Pipeline.{ModelSource, SpeculativeEngine}
use cs_stratum_bridge.Speculative.Dispatch.{is_eligible, start_pipeline}
use cs_stratum_bridge.Shard.{ExpertGroups, PipelineState, ShardEngine, split_model_execution_graph}
use cs_stratum_bridge.Shard.Dispatch.{dispatch_current, retry_stalled_pipelines}
use cs_stratum_bridge.Shard.Host.{ShardHost, speculative_of}

abbrev pub new_pipeline :
    OpoiRequest → ModelManifest → Text → List ShardDescriptor → ExpertGroups → PipelineState
new_pipeline req manifest prompt_hex shards expert_groups = record {
  shards = shards;
  manifest = manifest;
  prompt_hash = req.prompt_hash;
  max_tokens = req.max_tokens;
  pos = 0;
  token_index = 0;
  current_input = prompt prompt_hex;
  original_prompt_hex = prompt_hex;
  generated_token_ids = [];
  contributions = [];
  expert_groups = expert_groups;
  moe_layer_walk = none;
  dispatch_log = [];
}

abbrev pub forget_prompt : Text → ShardEngine → ShardEngine
forget_prompt request e = record e { prompt_cache = remove request e.prompt_cache }

module _ (req : OpoiRequest) (manifest : ModelManifest) (prompt_hex : Text) where
  abbrev pub begin_pipeline :
      ModelSource → List ShardDescriptor → ExpertGroups → ShardEngine → ShardEngine
  begin_pipeline source shards expert_groups e = dispatch_current req.request_id source (record e {
    pipelines =
        insert req.request_id (new_pipeline req manifest prompt_hex shards expert_groups)
          e.pipelines;
    prompt_cache = remove req.request_id e.prompt_cache;
  })

  abbrev pub begin_speculative :
      ModelSource → List ShardDescriptor → SpeculativeEngine → ShardEngine → ShardEngine
  begin_speculative source shards spec e = forget_prompt req.request_id (record e {
    speculative = some (
        start_pipeline req.request_id manifest shards req.max_tokens prompt_hex req.prompt_hash
          source (speculative_of e spec));
  })

  abbrev pub begin_with :
      ModelSource
      → List ShardDescriptor
      → ExpertGroups
      → Option SpeculativeEngine
      → ShardEngine
      → ShardEngine
  begin_with source shards expert_groups none e = begin_pipeline source shards expert_groups e
  begin_with source shards expert_groups (some spec) e =
      if is_eligible manifest.model_id (speculative_of e spec)
      then begin_speculative source shards spec e
      else begin_pipeline source shards expert_groups e

module _ {W : Type 0} (host : ShardHost W) (req : OpoiRequest) where
  abbrev pub Begun : Type 0
  Begun = ShardEngine × W

  abbrev pub claim : Action ClaimResult W
  claim addr w = host.csd.claim_coordinator req.request_id addr w

  abbrev pub claimed :
      ModelManifest
      → Text
      → ModelSource
      → List ShardDescriptor
      → ExpertGroups
      → ShardEngine
      → Result (Text × ClaimResult) × W × StakePool
      → Begun
  claimed manifest prompt_hex source shards expert_groups e (err _, w, pool) =
      (record e { stake_pool = pool }, w)
  claimed manifest prompt_hex source shards expert_groups e (ok _, w, pool) = (
    begin_with req manifest prompt_hex source shards expert_groups e.speculative
        (record e { stake_pool = pool }),
    w,
  )

  abbrev pub claim_shards :
      ModelManifest
      → Text
      → ModelSource
      → List ShardDescriptor × ExpertGroups
      → ShardEngine
      → W
      → Begun
  claim_shards manifest prompt_hex source ([], expert_groups) e w = (e, w)
  claim_shards manifest prompt_hex source (s ∷ ss, expert_groups) e w =
      claimed manifest prompt_hex source (s ∷ ss) expert_groups e (try_each claim e.stake_pool w)

  abbrev pub from_source :
      ModelManifest → Text → ModelGraph → ShardEngine → Option ModelSource × W → Begun
  from_source manifest prompt_hex graph e (none, w) = (e, w)
  from_source manifest prompt_hex graph e (some source, w) =
      claim_shards manifest prompt_hex source (split_model_execution_graph graph.shards) e w

  abbrev pub from_graph : ModelManifest → Text → ShardEngine → Result ModelGraph × W → Begun
  from_graph manifest prompt_hex e (err _, w) = (e, w)
  from_graph manifest prompt_hex e (ok graph, w) =
      from_source manifest prompt_hex graph e (host.resolve req.model w)

  abbrev pub from_prompt : ModelManifest → Option Text → ShardEngine → W → Begun
  from_prompt manifest none e w = (e, w)
  from_prompt manifest (some prompt_hex) e w =
      from_graph manifest prompt_hex e (host.csd.get_model_graph req.model w)

  abbrev pub from_manifest : ShardEngine → Result ModelManifest × W → Begun
  from_manifest e (err _, w) = (e, w)
  from_manifest e (ok manifest, w) =
      if manifest.status =ₖ codes "ACTIVE"
      then from_prompt manifest (lookup req.request_id e.prompt_cache) e w
      else (e, w)

  unfoldable pub start_request : ShardEngine → W → Begun
  start_request e w =
      if contains_key req.request_id e.pipelines
      then (e, w)
      else from_manifest e (host.csd.get_model_manifest req.model w)

module _ {W : Type 0} (host : ShardHost W) where
  abbrev pub start_requests : List OpoiRequest → ShardEngine → W → ShardEngine × W
  start_requests [] e w = (e, w)
  start_requests (req ∷ reqs) e w =
      let (e', w') = start_request host req e w in start_requests reqs e' w'

  abbrev pub start_listed :
      Result (List OpoiRequest) × W → ShardEngine → Result (Unit {0}) × ShardEngine × W
  start_listed (err x, w) e = (err x, e, w)
  start_listed (ok reqs, w) e = let (e', w') = start_requests reqs e w in (ok tt, e', w')

  abbrev pub list_and_start : ShardEngine × W → Result (Unit {0}) × ShardEngine × W
  list_and_start (e, w) = start_listed (host.csd.list_pending_requests w) e

  unfoldable pub poll_and_start_tick : ShardEngine → W → Result (Unit {0}) × ShardEngine × W
  poll_and_start_tick e w = list_and_start (retry_stalled_pipelines host.resolve e w)
