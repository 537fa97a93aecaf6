-- ===== src/Shard/FanOut.antt =====
-- The experts of a layer, in src/opoi/shard_engine.rs: `handle_expert_group_result` and
-- `handle_moe_interior_layer_result`, which differ in how the pipeline goes on. What the engine does
-- while the experts work are events of the surroundings.
use cs_stratum_bridge.Base.{
  ℕ, ◌+◌, ◌%◌, ◌^◌, ◌==◌, if◌then◌else◌, Text, text_key, lookup, insert, remove, Bool, true, false,
  not, ◌||◌, Option, none, some, List, [], ◌∷◌, length, get_elem?, any, map,
}
use cs_stratum_bridge.AppError.{ok}
use cs_stratum_bridge.Wire.{tensor, RouterExpertChoice, ShardOutputWire, OpoiShardResult}
use cs_stratum_bridge.Rpc.{ShardDescriptor}
use cs_stratum_bridge.Experts.{SelectedExpert, ExpertDispatcher}
use cs_stratum_bridge.Experts.Combine.{Tried, done, failure, hex_to_f32}
use cs_stratum_bridge.Experts.Dispatch.{Group, dispatch_and_join}
use cs_stratum_bridge.Gguf.Estimator.{VramCache, min_vram_mb}
use cs_stratum_bridge.Speculative.Pipeline.{ModelSource}
use cs_stratum_bridge.Speculative.Dispatch.{or_zero}
use cs_stratum_bridge.Speculative.Results.{replied, panicked}
use cs_stratum_bridge.Shard.{PipelineState, ShardEngine}
use cs_stratum_bridge.Shard.Dispatch.{dispatch_current, is_in_range}
use cs_stratum_bridge.Shard.Host.{ShardEvent, ShardHost, Answer, handle_events}

-- What the router's choice allows: the pipeline waits, it is dropped, or these run.
pub data Selection : Type 0 where
  stalls : Selection
  drops : Selection
  selects : List RouterExpertChoice → Selection

abbrev pub is_empty : {A : Type 0} → List A → Bool
is_empty [] = true
is_empty (_ ∷ _) = false

abbrev pub last_or : {A : Type 0} → A → List A → A
last_or a [] = a
last_or a (b ∷ bs) = last_or b bs

abbrev pub is_registered : List ℕ → RouterExpertChoice → Bool
is_registered ids choice = any (λ id. id == choice.expert_id) ids

abbrev pub names_unregistered : List ℕ → List RouterExpertChoice → Bool
names_unregistered ids layer = any (λ choice. not (is_registered ids choice)) layer

unfoldable pub selection : List ℕ → Option (List (List RouterExpertChoice)) → Selection
selection ids none = stalls
selection ids (some layers) =
    if is_empty layers || any is_empty layers || any (names_unregistered ids) layers
    then drops
    else selects (last_or [] layers)

abbrev pub selected : OpoiShardResult → List ℕ → RouterExpertChoice → SelectedExpert
selected result values choice = record {
  expert_id = choice.expert_id;
  weight = choice.weight;
  shape = result.output.shape;
  values = values;
}

-- How a pipeline goes on with the sum of the experts.
abbrev pub Advance : Type 0
Advance = ℕ → ShardOutputWire → PipelineState → PipelineState

abbrev pub to_next_shard : Advance
to_next_shard layer_idx output p = record p {
  pos = p.pos + 1;
  current_input = tensor output.shape output.data_hex;
  moe_layer_walk = none;
}

abbrev pub next_layer : ℕ → Option (ℕ × Text) → Option (ℕ × Text)
next_layer layer_idx none = none
next_layer layer_idx (some (_, pinned_wallet)) = some ((layer_idx + 1) % 2 ^ 32, pinned_wallet)

abbrev pub to_next_layer : Advance
to_next_layer layer_idx output p = record p {
  current_input = tensor output.shape output.data_hex;
  moe_layer_walk = next_layer layer_idx p.moe_layer_walk;
}

-- The marker that keeps a tick from sending the step again.
unfoldable pub mark_busy : Text → ℕ → ℕ → ℕ → Option (ℕ × Text) → ShardEngine → ShardEngine
mark_busy request shard_index token_index layer_idx none e = e
mark_busy request shard_index token_index layer_idx (some (_, pinned_wallet)) e = record e {
  assignments =
      insert request
        (record {
          wallet = pinned_wallet;
          shard_index = shard_index;
          token_index = token_index;
          moe_layer_step = some layer_idx;
        })
        e.assignments;
}

-- The dispatcher with the registry as it is, and back.
abbrev pub dispatcher_of : ShardEngine → ExpertDispatcher
dispatcher_of e = record e.experts { registry = e.registry }

abbrev pub with_dispatcher : ExpertDispatcher → ShardEngine → ShardEngine
with_dispatcher d e = record e { experts = d; registry = d.registry }

abbrev pub group_at : Text → ModelSource → ℕ → PipelineState → ShardDescriptor → Group
group_at request source layer_idx p shard = record {
  request_id = request;
  layer_start = or_zero shard.layer_start;
  layer_end = or_zero shard.layer_end;
  layer_idx = layer_idx;
  token_index = p.token_index;
  model_id = p.manifest.model_id;
  model_gguf_url = source.gguf_url;
  model_gguf_sha256 = p.manifest.backbone_pom_root;
}

abbrev pub advance_found :
    Text → (PipelineState → PipelineState) → Option PipelineState → ShardEngine → ShardEngine
advance_found request f none e = e
advance_found request f (some p) e = record e { pipelines = insert request (f p) e.pipelines }

abbrev pub replied_ok : {W : Type 0} → ShardEngine → W → Answer W
replied_ok e w = (replied (ok tt), e, w)

-- `dispatch_current` is the last that a handler does.
abbrev pub dispatch_and_reply : {W : Type 0} → Text → ModelSource → ShardEngine → W → Answer W
dispatch_and_reply request source e w = (
  if is_in_range (lookup request e.pipelines) then replied (ok tt) else panicked,
  dispatch_current request source e,
  w,
)

abbrev pub drop_pipeline : {W : Type 0} → Text → ShardEngine → W → Answer W
drop_pipeline request e w = replied_ok (record e { pipelines = remove request e.pipelines }) w

module _ {W : Type 0} (host : ShardHost W) (go_on : Advance) (request : Text) (source : ModelSource)
    (layer_idx : ℕ) where
  -- The experts are done, and so is what happened meanwhile.
  abbrev pub settle_join : Tried ShardOutputWire → ShardEngine × W → Answer W
  settle_join (done output) (e, w) =
      dispatch_and_reply request source
        (advance_found request (go_on layer_idx output) (lookup request e.pipelines) e) w
  settle_join (failure _) (e, w) =
      replied_ok (record e { assignments = remove request e.assignments }) w

  abbrev pub pass_events : ShardEngine → List ShardEvent × W → ShardEngine × W
  pass_events e (events, w) = handle_events host.resolve events e w

  abbrev pub join_experts : Tried ShardOutputWire × ExpertDispatcher × W → ShardEngine → Answer W
  join_experts (combined, d, w) e =
      settle_join combined (pass_events (with_dispatcher d e) (host.meanwhile request w))

  abbrev pub run_experts :
      Text
      → OpoiShardResult
      → PipelineState
      → ShardDescriptor
      → List SelectedExpert
      → ShardEngine
      → Option ℕ × VramCache × W
      → Answer W
  run_experts wallet result p shard experts e (floor, cache, w) =
      let e' : ShardEngine =
        mark_busy request result.shard_index p.token_index layer_idx p.moe_layer_walk
          (record e { expert_vram = cache }) in
      join_experts
        (dispatch_and_join host.experts host.join_all (group_at request source layer_idx p shard)
          experts (λ expert_id. or_zero floor) (wallet ∷ []) (dispatcher_of e') w)
        e'

  abbrev pub fan_out_at :
      Text
      → OpoiShardResult
      → List ℕ
      → PipelineState
      → List SelectedExpert
      → Option ShardDescriptor
      → ShardEngine
      → W
      → Answer W
  fan_out_at wallet result ids p experts none e w = (panicked, e, w)
  fan_out_at wallet result ids p experts (some shard) e w =
      run_experts wallet result p shard experts e (
        min_vram_mb host.fetch_and_parse p.manifest.model_id source.gguf_url
          p.manifest.backbone_pom_root layer_idx ((layer_idx + 1) % 2 ^ 32) (length ids)
          e.expert_vram w)

  abbrev pub fan_out_values :
      Text
      → OpoiShardResult
      → List ℕ
      → PipelineState
      → List RouterExpertChoice
      → Tried (List ℕ)
      → ShardEngine
      → W
      → Answer W
  fan_out_values wallet result ids p choices (failure _) e w = drop_pipeline request e w
  fan_out_values wallet result ids p choices (done values) e w =
      fan_out_at wallet result ids p (map (selected result values) choices)
        (get_elem? p.shards p.pos) e w

  abbrev pub fan_out_selected :
      Text → OpoiShardResult → List ℕ → PipelineState → Selection → ShardEngine → W → Answer W
  fan_out_selected wallet result ids p stalls e w = replied_ok e w
  fan_out_selected wallet result ids p drops e w = drop_pipeline request e w
  fan_out_selected wallet result ids p (selects choices) e w =
      fan_out_values wallet result ids p choices
        (hex_to_f32 host.experts.hex_decode result.output.data_hex) e w

  abbrev pub fan_out : Text → OpoiShardResult → List ℕ → PipelineState → ShardEngine → W → Answer W
  fan_out wallet result ids p e w =
      fan_out_selected wallet result ids p (selection ids result.router_selection) e w

module _ {W : Type 0} (host : ShardHost W) where
  unfoldable pub handle_expert_group_result :
      Text
      → Text
      → ModelSource
      → List ℕ
      → ℕ
      → OpoiShardResult
      → PipelineState
      → ShardEngine
      → W
      → Answer W
  handle_expert_group_result request wallet source ids layer_idx result p =
      fan_out host to_next_shard request source layer_idx wallet result ids p

  unfoldable pub handle_moe_interior_layer_result :
      Text
      → Text
      → ModelSource
      → List ℕ
      → ℕ
      → OpoiShardResult
      → PipelineState
      → ShardEngine
      → W
      → Answer W
  handle_moe_interior_layer_result request wallet source ids layer_idx result p =
      fan_out host to_next_layer request source layer_idx wallet result ids p
