-- ===== src/Shard/Quiet.antt =====
-- Sending steps, in src/opoi/shard_engine.rs, writes nothing to the database and commits nothing.
use cs_stratum_bridge.Base.{
  ℕ, ◌≡◌, refl, ◌∙◌, Text, text_key, lookup, is_some, Bool-cases, inl, inr, Option, none, some,
  List, [], ◌∷◌, get_elem?,
}
use cs_stratum_bridge.Registry.{Sender, get, pick_next, keys}
use cs_stratum_bridge.Rpc.{ShardDescriptor}
use cs_stratum_bridge.Speculative.Pipeline.{ModelSource}
use cs_stratum_bridge.Speculative.Dispatch.{or_zero}
use cs_stratum_bridge.Shard.{PipelineState, ShardEngine, expert_group_for}
use cs_stratum_bridge.Shard.Dispatch.{
  send_shard, dispatch_fresh, dispatch_pinned, dispatch_shard, dispatch_at, dispatch_pipeline,
  dispatch_current, retry_with, retry_pipeline, retry_all, stalled, retry_stalled_pipelines,
  on_disconnect, receive_prompt,
}
use cs_stratum_bridge.Shard.Host.{
  ShardEvent, ticks, disconnects, caches_prompt, handle_event, handle_events,
}

abbrev pub Quiet : ShardEngine → ShardEngine → Type 0
Quiet e e' = (e'.spawned ≡ e.spawned) × (e'.db ≡ e.db)

pub Quiet-trans : (e e' e'' : ShardEngine) → Quiet e e' → Quiet e' e'' → Quiet e e''
Quiet-trans e e' e'' (s, d) (s', d') = (s' ∙ s, d' ∙ d)

send_shard-Quiet :
    (request : Text) (source : ModelSource) (p : PipelineState) (shard : ShardDescriptor)
    (step : Option ℕ) (wallet : Text) (tx : Option Sender) (e : ShardEngine)
    → Quiet e (send_shard request source p shard step wallet tx e)
send_shard-Quiet request source p shard step wallet none e = (refl, refl)
send_shard-Quiet request source p shard step wallet (some tx) e = (refl, refl)

dispatch_fresh-Quiet :
    (request : Text) (source : ModelSource) (p : PipelineState) (shard : ShardDescriptor)
    (wallet : Option Text) (e : ShardEngine)
    → Quiet e (dispatch_fresh request source p shard wallet e)
dispatch_fresh-Quiet request source p shard none e = (refl, refl)
dispatch_fresh-Quiet request source p shard (some w) e =
    elim (Bool-cases (is_some (expert_group_for p p.pos))) [
      | inl walks ↦ rw walks (
          send_shard-Quiet request source _ shard (some (or_zero shard.layer_start)) w
            (get w e.registry) _)
      | inr plain ↦ rw plain (
          send_shard-Quiet request source p shard none w (get w e.registry)
            (record e { last_assigned = some w }))
    ]

dispatch_pinned-Quiet :
    (request : Text) (source : ModelSource) (p : PipelineState) (shard : ShardDescriptor)
    (layer : ℕ) (wallet : Text) (tx : Option Sender) (e : ShardEngine)
    → Quiet e (dispatch_pinned request source p shard layer wallet tx e)
dispatch_pinned-Quiet request source p shard layer wallet none e = (refl, refl)
dispatch_pinned-Quiet request source p shard layer wallet (some tx) e = (refl, refl)

dispatch_shard-Quiet :
    (request : Text) (source : ModelSource) (p : PipelineState) (shard : ShardDescriptor)
    (walk : Option (ℕ × Text)) (e : ShardEngine)
    → Quiet e (dispatch_shard request source p shard walk e)
dispatch_shard-Quiet request source p shard none e =
    dispatch_fresh-Quiet request source p shard (pick_next e.last_assigned e.registry) e
dispatch_shard-Quiet request source p shard (some (layer, w)) e =
    dispatch_pinned-Quiet request source p shard layer w (get w e.registry) e

dispatch_at-Quiet :
    (request : Text) (source : ModelSource) (p : PipelineState) (shard : Option ShardDescriptor)
    (e : ShardEngine)
    → Quiet e (dispatch_at request source p shard e)
dispatch_at-Quiet request source p none e = (refl, refl)
dispatch_at-Quiet request source p (some shard) e =
    dispatch_shard-Quiet request source p shard p.moe_layer_walk e

dispatch_pipeline-Quiet :
    (request : Text) (source : ModelSource) (p : Option PipelineState) (e : ShardEngine)
    → Quiet e (dispatch_pipeline request source p e)
dispatch_pipeline-Quiet request source none e = (refl, refl)
dispatch_pipeline-Quiet request source (some p) e =
    dispatch_at-Quiet request source p (get_elem? p.shards p.pos) e

pub dispatch_current-Quiet :
    (request : Text) (source : ModelSource) (e : ShardEngine)
    → Quiet e (dispatch_current request source e)
unfolding dispatch_current
dispatch_current-Quiet request source e =
    dispatch_pipeline-Quiet request source (lookup request e.pipelines) e

module _ {W : Type 0} (resolve : Text → W → Option ModelSource × W) where
  retry_with-Quiet :
      (request : Text) (e : ShardEngine) (source : Option ModelSource) (w : W)
      → Quiet e (retry_with resolve request e (source, w)).0
  retry_with-Quiet request e none w = (refl, refl)
  retry_with-Quiet request e (some source) w = dispatch_current-Quiet request source e

  retry_pipeline-Quiet :
      (request : Text) (p : Option PipelineState) (e : ShardEngine) (w : W)
      → Quiet e (retry_pipeline resolve request p e w).0
  retry_pipeline-Quiet request none e w = (refl, refl)
  retry_pipeline-Quiet request (some p) e w =
      let (found, w') = resolve p.manifest.model_id w in retry_with-Quiet request e found w'

  retry_all-Quiet :
      (ids : List Text) (e : ShardEngine) (w : W) → Quiet e (retry_all resolve ids e w).0
  retry_all-Quiet [] e w = (refl, refl)
  retry_all-Quiet (id ∷ ids) e w =
      let (e', w') = retry_pipeline resolve id (lookup id e.pipelines) e w in
      Quiet-trans e e' (retry_all resolve ids e' w').0
        (retry_pipeline-Quiet id (lookup id e.pipelines) e w) (retry_all-Quiet ids e' w')

  handle_event-Quiet :
      (x : ShardEvent) (e : ShardEngine) (w : W) → Quiet e (handle_event resolve x e w).0
  unfolding retry_stalled_pipelines on_disconnect receive_prompt
  handle_event-Quiet ticks e w = retry_all-Quiet (stalled e.assignments (keys e.pipelines)) e w
  handle_event-Quiet (disconnects wallet) e w = (refl, refl)
  handle_event-Quiet (caches_prompt request prompt_hex) e w = (refl, refl)

  pub handle_events-Quiet :
      (xs : List ShardEvent) (e : ShardEngine) (w : W) → Quiet e (handle_events resolve xs e w).0
  handle_events-Quiet [] e w = (refl, refl)
  handle_events-Quiet (x ∷ xs) e w =
      let (e', w') = handle_event resolve x e w in
      Quiet-trans e e' (handle_events resolve xs e' w').0 (handle_event-Quiet x e w)
        (handle_events-Quiet xs e' w')
