-- ===== src/Shard/Running.antt =====
-- Where a pipeline of src/opoi/shard_engine.rs stands, as an invariant that the engine keeps; here for
-- what comes back from experts.
use cs_stratum_bridge.Base.{
  ℕ, ◌+◌, ◌%◌, ◌<◌, ◌^◌, ◌≡◌, refl, ap, sym, subst, if◌then◌else◌, is_some, Entries-lookup, Text,
  text_key, Map, lookup, Entries, Entries-insert, Entries-remove, get_elem?-in_range, Bool, true,
  false, Option, none, some, List, [], ◌∷◌, length, get_elem?, map,
}
use Prim.Native.Nat.{max}
use cs_stratum_bridge.AppError.{ok}
use cs_stratum_bridge.Wire.{ShardOutputWire, RouterExpertChoice, OpoiShardResult}
use cs_stratum_bridge.Rpc.{ShardDescriptor}
use cs_stratum_bridge.Experts.{SelectedExpert, ExpertDispatcher}
use cs_stratum_bridge.Experts.Combine.{Tried, done, failure, hex_to_f32}
use cs_stratum_bridge.Experts.Dispatch.{dispatch_and_join}
use cs_stratum_bridge.Gguf.Estimator.{VramCache, min_vram_mb}
use cs_stratum_bridge.Speculative.Pipeline.{ModelSource}
use cs_stratum_bridge.Speculative.Dispatch.{or_zero}
use cs_stratum_bridge.Speculative.Results.{Reply, replied, panicked}
use cs_stratum_bridge.Shard.{PrimaryDispatchRecord, PipelineState, ShardEngine}
use cs_stratum_bridge.Shard.FanOut
use cs_stratum_bridge.Shard.Dispatch
use cs_stratum_bridge.Shard.Host.{ShardHost, Answer, handle_events}
use cs_stratum_bridge.Shard.Frame.{Found, lookup-Found, dispatch_current-Holds, handle_events-Holds}
use cs_stratum_bridge.Shard.FanOut.{
  Advance, Selection, dispatch_and_reply, stalls, drops, selects, selection, selected, mark_busy,
  to_next_shard, to_next_layer, advance_found, settle_join, join_experts, pass_events, run_experts,
  fan_out_at, fan_out_values, fan_out_selected, fan_out, dispatcher_of, with_dispatcher, group_at,
}

-- The position is that of a shard; there is one token for each step that has ended, and the step is
-- one of those that were asked for, at least one; `max_tokens` is a `u32`.
abbrev pub Fits : Text → PipelineState → Type 0
Fits request p =
    (p.pos < length p.shards)
    × (length p.generated_token_ids ≡ p.token_index)
    × (p.token_index < max 1 p.max_tokens)
    × (p.max_tokens < 2 ^ 32)

pub stable :
    (request : Text) (p : PipelineState) (walk : Option (ℕ × Text))
    (log : List PrimaryDispatchRecord)
    → Fits request p
    → Fits request (record p { moe_layer_walk = walk; dispatch_log = log })
stable request p walk log fits = fits

abbrev pub Running : ShardEngine → Type 0
Running e = Entries Fits e.pipelines

abbrev pub panics : Reply → Bool
panics (replied _) = false
panics panicked = true

-- An answer, and no panic.
abbrev pub Sound : {W : Type 0} → Answer W → Type 0
Sound a = (panics a.0 ≡ false) × Running a.1

pub dispatch_current-Running :
    (request : Text) (source : ModelSource) (e : ShardEngine)
    → Running e
    → Running (Dispatch.dispatch_current request source e)
dispatch_current-Running request source e run =
    dispatch_current-Holds Fits stable request source e run

in_range :
    (request : Text) (o : Option PipelineState) (e : ShardEngine)
    → lookup request e.pipelines ≡ o
    → Running e
    → Dispatch.is_in_range o ≡ true
in_range request none e found run = refl
in_range request (some p) e found run =
    let (shard, here) =
      get_elem?-in_range p.shards p.pos (Entries-lookup Fits request p e.pipelines run found).0 in
    ap (λ s. is_some s) here

pub dispatch_and_reply-Sound :
    {W : Type 0} (request : Text) (source : ModelSource) (e : ShardEngine) (w : W)
    → Running e
    → Sound (dispatch_and_reply request source e w)
dispatch_and_reply-Sound request source e w run = (
  ap (λ (b : Bool). panics (if b then replied (ok tt) else panicked))
      (in_range request (lookup request e.pipelines) e refl run),
  dispatch_current-Running request source e run,
)

-- A property that an advance needs of the pipeline, and that a send keeps.
module _ {W : Type 0} (host : ShardHost W) (advance : Advance) (request : Text)
    (source : ModelSource) (layer_idx : ℕ) (P : Text → PipelineState → Type 0)
    (stable_P : (id : Text) (p : PipelineState) (walk : Option (ℕ × Text))
        (log : List PrimaryDispatchRecord)
      → P id p
      → P id (record p { moe_layer_walk = walk; dispatch_log = log }))
    (weaker : (m : Map Text PipelineState) → Entries P m → Entries Fits m)
    (advances : (output : ShardOutputWire) (p : PipelineState)
      → P request p
      → Fits request (advance layer_idx output p)) where
  advance_found-Running :
      (output : ShardOutputWire) (p : Option PipelineState) (e : ShardEngine)
      → Found P stable_P request p
      → Entries P e.pipelines
      → Running (advance_found request (advance layer_idx output) p e)
  advance_found-Running output none e fits run = weaker e.pipelines run
  advance_found-Running output (some p) e fits run =
      Entries-insert Fits request _ e.pipelines (advances output p fits) (weaker e.pipelines run)

  settle_join-Sound :
      (r : Tried ShardOutputWire) (e : ShardEngine) (w : W)
      → Entries P e.pipelines
      → Sound (settle_join host advance request source layer_idx r (e, w))
  settle_join-Sound (done output) e w run = dispatch_and_reply-Sound request source _ w (
      advance_found-Running output (lookup request e.pipelines) e
        (lookup-Found P stable_P request e run) run)
  settle_join-Sound (failure x) e w run = (refl, weaker e.pipelines run)

  join_experts-Sound :
      (r : Tried ShardOutputWire) (d : ExpertDispatcher) (w : W) (e : ShardEngine)
      → Entries P e.pipelines
      → Sound (join_experts host advance request source layer_idx (r, d, w) e)
  join_experts-Sound r d w e run =
      let (events, w') = host.meanwhile request w in
      let (e', w'') = handle_events host.resolve events (with_dispatcher d e) w' in
      settle_join-Sound r e' w''
        (handle_events-Holds P stable_P host.resolve events (with_dispatcher d e) w' run)

  mark_busy-pipelines :
      (shard_index token_index : ℕ) (walk : Option (ℕ × Text)) (e : ShardEngine)
      → Entries P e.pipelines
      → Entries P (mark_busy request shard_index token_index layer_idx walk e).pipelines
  unfolding mark_busy
  mark_busy-pipelines shard_index token_index none e run = run
  mark_busy-pipelines shard_index token_index (some (l, w)) e run = run

  run_experts-Sound :
      (wallet : Text) (result : OpoiShardResult) (p : PipelineState) (shard : ShardDescriptor)
      (experts : List SelectedExpert) (e : ShardEngine) (floor : Option ℕ) (cache : VramCache)
      (w : W)
      → Entries P e.pipelines
      → Sound (
          run_experts host advance request source layer_idx wallet result p shard experts e
            (floor, cache, w))
  run_experts-Sound wallet result p shard experts e floor cache w run =
      let e' : ShardEngine =
        mark_busy request result.shard_index p.token_index layer_idx p.moe_layer_walk
          (record e { expert_vram = cache }) in
      let (r, d, w') =
        dispatch_and_join host.experts host.join_all (group_at request source layer_idx p shard)
          experts (λ expert_id. or_zero floor) (wallet ∷ []) (dispatcher_of e') w in
      join_experts-Sound r d w' e' (
        mark_busy-pipelines result.shard_index p.token_index p.moe_layer_walk
          (record e { expert_vram = cache }) run)

  fan_out_at-Sound :
      (wallet : Text) (result : OpoiShardResult) (ids : List ℕ) (p : PipelineState)
      (experts : List SelectedExpert) (e : ShardEngine) (w : W)
      → p.pos < length p.shards
      → Entries P e.pipelines
      → Sound (
          fan_out_at host advance request source layer_idx wallet result ids p experts
            (get_elem? p.shards p.pos)
            e
            w)
  fan_out_at-Sound wallet result ids p experts e w lt run =
      let (shard, found) = get_elem?-in_range p.shards p.pos lt in
      let (floor, cache, w') =
        min_vram_mb host.fetch_and_parse p.manifest.model_id source.gguf_url
          p.manifest.backbone_pom_root layer_idx ((layer_idx + 1) % 2 ^ 32) (length ids)
          e.expert_vram w in
      subst
        (λ s.
          Sound
            (fan_out_at host advance request source layer_idx wallet result ids p experts s e w))
        (sym found) (run_experts-Sound wallet result p shard experts e floor cache w' run)

  drop-Sound :
      (e : ShardEngine) (w : W) → Entries P e.pipelines → Sound (FanOut.drop_pipeline request e w)
  drop-Sound e w run = (refl, Entries-remove Fits request e.pipelines (weaker e.pipelines run))

  fan_out_values-Sound :
      (wallet : Text) (result : OpoiShardResult) (ids : List ℕ) (p : PipelineState)
      (choices : List RouterExpertChoice) (values : Tried (List ℕ)) (e : ShardEngine) (w : W)
      → p.pos < length p.shards
      → Entries P e.pipelines
      → Sound (
          fan_out_values host advance request source layer_idx wallet result ids p choices values e
            w)
  fan_out_values-Sound wallet result ids p choices (failure x) e w lt run = drop-Sound e w run
  fan_out_values-Sound wallet result ids p choices (done values) e w lt run =
      fan_out_at-Sound wallet result ids p (map (selected result values) choices) e w lt run

  pub fan_out_selected-Sound :
      (wallet : Text) (result : OpoiShardResult) (ids : List ℕ) (p : PipelineState) (s : Selection)
      (e : ShardEngine) (w : W)
      → p.pos < length p.shards
      → Entries P e.pipelines
      → Sound (fan_out_selected host advance request source layer_idx wallet result ids p s e w)
  fan_out_selected-Sound wallet result ids p stalls e w lt run = (refl, weaker e.pipelines run)
  fan_out_selected-Sound wallet result ids p drops e w lt run = drop-Sound e w run
  fan_out_selected-Sound wallet result ids p (selects choices) e w lt run =
      fan_out_values-Sound wallet result ids p choices
        (hex_to_f32 host.experts.hex_decode result.output.data_hex) e w lt run
