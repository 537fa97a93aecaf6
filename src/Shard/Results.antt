-- ===== src/Shard/Results.antt =====
-- What the miners answer, in src/opoi/shard_engine.rs: `handle_shard_result`. What other handlers do is
-- not interleaved with it, but for the wait for experts.
use cs_stratum_bridge.Base.{
  ℕ, ◌+◌, ◌-◌, ◌%◌, ◌^◌, ◌==◌, leb, ltb, if◌then◌else◌, Text, text_key, nat_key, ◌=ₖ◌, lookup,
  insert, remove, Bool, true, false, ◌&&◌, ◌||◌, Option, none, some, List, [], ◌∷◌, ◌++◌, length,
  get_elem?,
}
use cs_stratum_bridge.AppError.{unknown_request, not_assigned_to_caller, Result, ok, err}
use cs_stratum_bridge.Wire.{tensor, next_token_id, OpoiShardResult}
use cs_stratum_bridge.Rpc.{ShardDescriptor, ShardResultTxRes}
use cs_stratum_bridge.StakePool.{StakePool, Action, try_each}
use cs_stratum_bridge.Contributions.{bump}
use cs_stratum_bridge.Speculative.Pipeline.{ModelSource, SpeculativeEngine}
use cs_stratum_bridge.Speculative.Dispatch.{or_zero, has_pipeline}
use cs_stratum_bridge.Speculative.Results.{Reply, replied, panicked}
use cs_stratum_bridge.Speculative.Results
use cs_stratum_bridge.Shard.{PipelineState, ShardAssignment, ShardEngine, expert_group_for}
use cs_stratum_bridge.Shard.Host.{ShardHost, Answer, speculative_of}
use cs_stratum_bridge.Shard.Finish.{finalize_pipeline}
use cs_stratum_bridge.Shard.FanOut.{
  replied_ok, dispatch_and_reply, drop_pipeline, handle_expert_group_result,
  handle_moe_interior_layer_result,
}

abbrev pub same_step : Option ℕ → Option ℕ → Bool
same_step none none = true
same_step none (some _) = false
same_step (some _) none = false
same_step (some a) (some b) = a == b

-- The result is of the step that is assigned, from the wallet that has it.
abbrev pub is_of : Text → OpoiShardResult → ShardAssignment → Bool
is_of wallet result a =
    (a.wallet =ₖ wallet)
    && ((a.shard_index == result.shard_index)
        && ((a.token_index == result.token_index)
            && same_step a.moe_layer_step result.moe_layer_step))

-- Whether the walk through the layers of the range goes on with the same miner.
abbrev pub stays_in_range : ℕ → ℕ → ℕ → Bool
stays_in_range layer_idx layer_end total_layers =
    let next : ℕ = (layer_idx + 1) % 2 ^ 32 in
    (layer_end == 0) || (ltb next layer_end || ((next == layer_end) && (layer_end == total_layers)))

abbrev pub or_else : Option ℕ → ℕ → ℕ
or_else none n = n
or_else (some m) n = m

abbrev pub put_pipeline : Text → PipelineState → ShardEngine → ShardEngine
put_pipeline request p e = record e { pipelines = insert request p e.pipelines }

-- The credit for a step.
abbrev pub credit_step : Text → PipelineState → PipelineState
credit_step wallet p = record p { contributions = bump wallet p.contributions }

abbrev pub push_token : ℕ → PipelineState → PipelineState
push_token token_id p = record p { generated_token_ids = p.generated_token_ids ++ token_id ∷ [] }

abbrev pub next_shard : OpoiShardResult → PipelineState → PipelineState
next_shard result p = record p {
  pos = p.pos + 1;
  current_input = tensor result.output.shape result.output.data_hex;
  moe_layer_walk = none;
}

abbrev pub next_token : ℕ → PipelineState → PipelineState
next_token token_id p = record p {
  pos = 0;
  token_index = (p.token_index + 1) % 2 ^ 32;
  current_input = next_token_id token_id;
  moe_layer_walk = none;
}

abbrev pub is_last_token : PipelineState → Bool
is_last_token p = leb p.max_tokens ((p.token_index + 1) % 2 ^ 32)

module _ {W : Type 0} (host : ShardHost W) where
  abbrev pub go_on : Text → ModelSource → PipelineState → ShardEngine → W → Answer W
  go_on request source p e w = dispatch_and_reply request source (put_pipeline request p e) w

  -- The last shard of a token.
  abbrev pub finish_token :
      Text → ModelSource → PipelineState → Option ℕ → ShardEngine → W → Answer W
  finish_token request source p none e w = drop_pipeline request e w
  finish_token request source p (some token_id) e w =
      let pushed : PipelineState = push_token token_id p in
      if is_last_token p
      then replied_ok (finalize_pipeline host request (put_pipeline request pushed e)) w
      else go_on request source (next_token token_id pushed) e w

  abbrev pub hand_to_experts :
      Text
      → Text
      → ModelSource
      → OpoiShardResult
      → List ℕ
      → PipelineState
      → Option ShardDescriptor
      → ShardEngine
      → W
      → Answer W
  hand_to_experts request wallet source result ids p none e w = (panicked, e, w)
  hand_to_experts request wallet source result ids p (some shard) e w =
      handle_expert_group_result host request wallet source ids
        (or_else result.moe_layer_step (or_zero shard.layer_end - 1)) result p e w

  abbrev pub hand_over :
      Text
      → Text
      → ModelSource
      → OpoiShardResult
      → PipelineState
      → Option (List ℕ)
      → ShardEngine
      → W
      → Answer W
  hand_over request wallet source result p (some ids) e w =
      hand_to_experts request wallet source result ids p (get_elem? p.shards p.pos) e w
  hand_over request wallet source result p none e w = go_on request source (next_shard result p) e w

  abbrev pub finish_shard :
      Text → Text → ModelSource → OpoiShardResult → PipelineState → ShardEngine → W → Answer W
  finish_shard request wallet source result p e w =
      if p.pos + 1 == length p.shards
      then finish_token request source p result.next_token_id e w
      else hand_over request wallet source result p (expert_group_for p p.pos) e w

  -- What is submitted for the shard, with an address of the pool.
  abbrev pub submission : Text → OpoiShardResult → Action ShardResultTxRes W
  submission request result addr w =
      host.csd.submit_shard_result request result.shard_index addr result.output_hash 0 w

  -- Without an address that may submit, the pipeline waits.
  abbrev pub submitted :
      Text
      → Text
      → ModelSource
      → OpoiShardResult
      → PipelineState
      → ShardEngine
      → Result (Text × ShardResultTxRes) × W × StakePool
      → Answer W
  submitted request wallet source result p e (err _, w, pool) =
      replied_ok (record e { stake_pool = pool }) w
  submitted request wallet source result p e (ok _, w, pool) =
      finish_shard request wallet source result p (record e { stake_pool = pool }) w

  abbrev pub settle_shard :
      Text → Text → ModelSource → OpoiShardResult → PipelineState → ShardEngine → W → Answer W
  settle_shard request wallet source result p e w =
      if is_last_token p
      then submitted request wallet source result p e
          (try_each (submission request result) e.stake_pool w)
      else finish_shard request wallet source result p e w

  abbrev pub walk_on :
      Text
      → Text
      → ModelSource
      → OpoiShardResult
      → ℕ
      → PipelineState
      → Option (List ℕ)
      → ShardEngine
      → W
      → Answer W
  walk_on request wallet source result layer_idx p none e w = drop_pipeline request e w
  walk_on request wallet source result layer_idx p (some ids) e w =
      handle_moe_interior_layer_result host request wallet source ids layer_idx result p e w

  abbrev pub settle_layer :
      Text
      → Text
      → ModelSource
      → OpoiShardResult
      → ℕ
      → PipelineState
      → Option ShardDescriptor
      → ShardEngine
      → W
      → Answer W
  settle_layer request wallet source result layer_idx p none e w = (panicked, e, w)
  settle_layer request wallet source result layer_idx p (some shard) e w =
      if stays_in_range layer_idx (or_zero shard.layer_end) p.manifest.num_layers
      then walk_on request wallet source result layer_idx p (expert_group_for p p.pos) e w
      else settle_shard request wallet source result p e w

  abbrev pub settle_step :
      Text
      → Text
      → ModelSource
      → OpoiShardResult
      → PipelineState
      → Option ℕ
      → ShardEngine
      → W
      → Answer W
  settle_step request wallet source result p none e w =
      settle_shard request wallet source result p e w
  settle_step request wallet source result p (some layer_idx) e w =
      settle_layer request wallet source result layer_idx p (get_elem? p.shards p.pos) e w

  abbrev pub take_with :
      Text
      → Text
      → OpoiShardResult
      → PipelineState
      → ShardEngine
      → Option ModelSource × W
      → Answer W
  take_with request wallet result p e (none, w) = (replied (err unknown_request), e, w)
  take_with request wallet result p e (some source, w) =
      settle_step request wallet source result (credit_step wallet p) result.moe_layer_step
        (put_pipeline request (credit_step wallet p) e) w

  abbrev pub take_for :
      Text → Text → OpoiShardResult → Option PipelineState → ShardEngine → W → Answer W
  take_for request wallet result none e w = (replied (err unknown_request), e, w)
  take_for request wallet result (some p) e w =
      take_with request wallet result p e (host.resolve p.manifest.model_id w)

  -- The assignment ends with its result.
  abbrev pub take_result : Text → Text → OpoiShardResult → ShardEngine → W → Answer W
  take_result request wallet result e w =
      take_for request wallet result (lookup request e.pipelines)
        (record e { assignments = remove request e.assignments }) w

  abbrev pub check_assignment :
      Text → Text → OpoiShardResult → Option ShardAssignment → ShardEngine → W → Answer W
  check_assignment request wallet result none e w = (replied (err unknown_request), e, w)
  check_assignment request wallet result (some a) e w =
      if is_of wallet result a
      then take_result request wallet result e w
      else (replied (err not_assigned_to_caller), e, w)

  abbrev pub with_speculative : Reply × SpeculativeEngine → ShardEngine → W → Answer W
  with_speculative (reply, spec) e w =
      (reply, record e { speculative = some spec; registry = spec.registry; db = spec.db }, w)

  abbrev pub delegate :
      Text → OpoiShardResult → Option SpeculativeEngine → ShardEngine → W → Answer W
  delegate wallet result none e w =
      check_assignment result.request_id wallet result (lookup result.request_id e.assignments) e w
  delegate wallet result (some spec) e w =
      if has_pipeline result.request_id spec
      then with_speculative
          (Results.handle_shard_result host.count_prompt_tokens wallet result
            (speculative_of e spec))
          e w
      else check_assignment result.request_id wallet result (lookup result.request_id e.assignments)
          e w

  unfoldable pub handle_shard_result : Text → OpoiShardResult → ShardEngine → W → Answer W
  handle_shard_result wallet result e w = delegate wallet result e.speculative e w
