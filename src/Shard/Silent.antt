-- ===== src/Shard/Silent.antt =====
-- Nothing is committed while a step goes to experts, in src/opoi/shard_engine.rs.
use cs_stratum_bridge.Base.{
  ℕ, ◌+◌, ◌%◌, ◌^◌, refl, Text, text_key, lookup, map, Option, none, some, List, [], ◌∷◌, length,
  get_elem?,
}
use cs_stratum_bridge.Wire.{ShardOutputWire, RouterExpertChoice, OpoiShardResult}
use cs_stratum_bridge.Rpc.{ShardDescriptor}
use cs_stratum_bridge.Experts.{SelectedExpert, ExpertDispatcher}
use cs_stratum_bridge.Experts.Combine.{Tried, done, failure, hex_to_f32}
use cs_stratum_bridge.Experts.Dispatch.{dispatch_and_join}
use cs_stratum_bridge.Gguf.Estimator.{VramCache, min_vram_mb}
use cs_stratum_bridge.Speculative.Pipeline.{ModelSource}
use cs_stratum_bridge.Speculative.Dispatch.{or_zero}
use cs_stratum_bridge.Shard.{PipelineState, ShardEngine}
use cs_stratum_bridge.Shard.Host.{ShardHost, handle_events}
use cs_stratum_bridge.Shard.Dispatch
use cs_stratum_bridge.Shard.FanOut.{
  Advance, Selection, stalls, drops, selects, selected, mark_busy, advance_found, settle_join,
  join_experts, run_experts, fan_out_at, fan_out_values, fan_out_selected, dispatcher_of,
  with_dispatcher, group_at,
}
use cs_stratum_bridge.Shard.Quiet.{Quiet, Quiet-trans, dispatch_current-Quiet, handle_events-Quiet}

module _ {W : Type 0} (host : ShardHost W) (advance : Advance) (request : Text)
    (source : ModelSource) (layer_idx : ℕ) where
  advance_found-Quiet :
      (f : PipelineState → PipelineState) (p : Option PipelineState) (e : ShardEngine)
      → Quiet e (advance_found request f p e)
  advance_found-Quiet f none e = (refl, refl)
  advance_found-Quiet f (some p) e = (refl, refl)

  settle_join-Quiet :
      (r : Tried ShardOutputWire) (e : ShardEngine) (w : W)
      → Quiet e (settle_join host advance request source layer_idx r (e, w)).1
  settle_join-Quiet (done output) e w =
      let e' : ShardEngine =
        advance_found request (advance layer_idx output) (lookup request e.pipelines) e in
      Quiet-trans e e' (Dispatch.dispatch_current request source e')
        (advance_found-Quiet (advance layer_idx output) (lookup request e.pipelines) e)
        (dispatch_current-Quiet request source e')
  settle_join-Quiet (failure x) e w = (refl, refl)

  join_experts-Quiet :
      (r : Tried ShardOutputWire) (d : ExpertDispatcher) (w : W) (e : ShardEngine)
      → Quiet e (join_experts host advance request source layer_idx (r, d, w) e).1
  join_experts-Quiet r d w e =
      let (events, w') = host.meanwhile request w in
      let (e', w'') = handle_events host.resolve events (with_dispatcher d e) w' in
      Quiet-trans e e' (settle_join host advance request source layer_idx r (e', w'')).1
        (handle_events-Quiet host.resolve events (with_dispatcher d e) w')
        (settle_join-Quiet r e' w'')

  mark_busy-Quiet :
      (shard_index token_index : ℕ) (walk : Option (ℕ × Text)) (e : ShardEngine)
      → Quiet e (mark_busy request shard_index token_index layer_idx walk e)
  unfolding mark_busy
  mark_busy-Quiet shard_index token_index none e = (refl, refl)
  mark_busy-Quiet shard_index token_index (some (l, w)) e = (refl, refl)

  run_experts-Quiet :
      (wallet : Text) (result : OpoiShardResult) (p : PipelineState) (shard : ShardDescriptor)
      (experts : List SelectedExpert) (e : ShardEngine) (floor : Option ℕ) (cache : VramCache)
      (w : W)
      → Quiet e
          (run_experts host advance request source layer_idx wallet result p shard experts e
            (floor, cache, w)).1
  run_experts-Quiet wallet result p shard experts e floor cache w =
      let e' : ShardEngine =
        mark_busy request result.shard_index p.token_index layer_idx p.moe_layer_walk
          (record e { expert_vram = cache }) in
      let (r, d, w') =
        dispatch_and_join host.experts host.join_all (group_at request source layer_idx p shard)
          experts (λ expert_id. or_zero floor) (wallet ∷ []) (dispatcher_of e') w in
      Quiet-trans e e' (join_experts host advance request source layer_idx (r, d, w') e').1
        (mark_busy-Quiet result.shard_index p.token_index p.moe_layer_walk
          (record e { expert_vram = cache }))
        (join_experts-Quiet r d w' e')

  fan_out_at-Quiet :
      (wallet : Text) (result : OpoiShardResult) (ids : List ℕ) (p : PipelineState)
      (experts : List SelectedExpert) (shard : Option ShardDescriptor) (e : ShardEngine) (w : W)
      → Quiet e
          (fan_out_at host advance request source layer_idx wallet result ids p experts shard e w).1
  fan_out_at-Quiet wallet result ids p experts none e w = (refl, refl)
  fan_out_at-Quiet wallet result ids p experts (some shard) e w =
      let (floor, cache, w') =
        min_vram_mb host.fetch_and_parse p.manifest.model_id source.gguf_url
          p.manifest.backbone_pom_root layer_idx ((layer_idx + 1) % 2 ^ 32) (length ids)
          e.expert_vram w in
      run_experts-Quiet wallet result p shard experts e floor cache w'

  fan_out_values-Quiet :
      (wallet : Text) (result : OpoiShardResult) (ids : List ℕ) (p : PipelineState)
      (choices : List RouterExpertChoice) (values : Tried (List ℕ)) (e : ShardEngine) (w : W)
      → Quiet e
          (fan_out_values host advance request source layer_idx wallet result ids p choices values e
            w).1
  fan_out_values-Quiet wallet result ids p choices (failure x) e w = (refl, refl)
  fan_out_values-Quiet wallet result ids p choices (done values) e w =
      fan_out_at-Quiet wallet result ids p (map (selected result values) choices)
        (get_elem? p.shards p.pos) e w

  pub fan_out_selected-Quiet :
      (wallet : Text) (result : OpoiShardResult) (ids : List ℕ) (p : PipelineState) (s : Selection)
      (e : ShardEngine) (w : W)
      → Quiet e (fan_out_selected host advance request source layer_idx wallet result ids p s e w).1
  fan_out_selected-Quiet wallet result ids p stalls e w = (refl, refl)
  fan_out_selected-Quiet wallet result ids p drops e w = (refl, refl)
  fan_out_selected-Quiet wallet result ids p (selects choices) e w =
      fan_out_values-Quiet wallet result ids p choices
        (hex_to_f32 host.experts.hex_decode result.output.data_hex) e w
