-- ===== src/Shard/Frame.antt =====
-- What a send changes of the pipelines in src/opoi/shard_engine.rs is the walk and the log: any property
-- of the rest is kept by `dispatch_current`, the ticks and what happens while experts work.
use cs_stratum_bridge.Base.{
  ℕ, sym, subst, Text, text_key, lookup, insert, remove, Option-cases, Entries, Entries-lookup,
  Entries-insert, Entries-remove, is_some, Bool-cases, inl, inr, Option, none, some, List, [], ◌∷◌,
  get_elem?,
}
use cs_stratum_bridge.Registry.{Sender, get, pick_next, keys}
use cs_stratum_bridge.Rpc.{ShardDescriptor}
use cs_stratum_bridge.Speculative.Pipeline.{ModelSource}
use cs_stratum_bridge.Speculative.Dispatch.{or_zero}
use cs_stratum_bridge.Shard.{PrimaryDispatchRecord, PipelineState, ShardEngine, expert_group_for}
use cs_stratum_bridge.Shard.Dispatch.{
  send_shard, dispatch_fresh, dispatch_pinned, dispatch_shard, dispatch_at, dispatch_pipeline,
  dispatch_current, retry_with, retry_pipeline, retry_all, stalled, retry_stalled_pipelines,
  on_disconnect, receive_prompt,
}
use cs_stratum_bridge.Shard.Host.{
  ShardEvent, ticks, disconnects, caches_prompt, handle_event, handle_events,
}

module _ (P : Text → PipelineState → Type 0)
    (stable : (request : Text) (p : PipelineState) (walk : Option (ℕ × Text))
        (log : List PrimaryDispatchRecord)
      → P request p
      → P request (record p { moe_layer_walk = walk; dispatch_log = log })) where
  abbrev pub Holds : ShardEngine → Type 0
  Holds e = Entries P e.pipelines

  abbrev pub Found : Text → Option PipelineState → Type 0
  Found request none = Unit
  Found request (some p) = P request p

  pub lookup-Found :
      (request : Text) (e : ShardEngine) → Holds e → Found request (lookup request e.pipelines)
  lookup-Found request e run = elim (Option-cases (lookup request e.pipelines)) [
    | inl gone ↦ rw gone tt
    | inr (p, found) ↦
        subst (λ x. Found request x) (sym found) (Entries-lookup P request p e.pipelines run found)
  ]

  insert-Holds :
      (request : Text) (p : PipelineState) (e : ShardEngine)
      → P request p
      → Holds e
      → Entries P (insert request p e.pipelines)
  insert-Holds request p e fits run = Entries-insert P request p e.pipelines fits run

  remove-Holds :
      (request : Text) (e : ShardEngine) → Holds e → Entries P (remove request e.pipelines)
  remove-Holds request e run = Entries-remove P request e.pipelines run

  send_shard-Holds :
      (request : Text) (source : ModelSource) (p : PipelineState) (shard : ShardDescriptor)
      (step : Option ℕ) (wallet : Text) (tx : Option Sender) (e : ShardEngine)
      → P request p
      → Holds e
      → Holds (send_shard request source p shard step wallet tx e)
  send_shard-Holds request source p shard step wallet none e fits run = run
  send_shard-Holds request source p shard step wallet (some tx) e fits run =
      insert-Holds request _ e (stable request p p.moe_layer_walk _ fits) run

  dispatch_fresh-Holds :
      (request : Text) (source : ModelSource) (p : PipelineState) (shard : ShardDescriptor)
      (wallet : Option Text) (e : ShardEngine)
      → P request p
      → Holds e
      → Holds (dispatch_fresh request source p shard wallet e)
  dispatch_fresh-Holds request source p shard none e fits run = run
  dispatch_fresh-Holds request source p shard (some w) e fits run =
      let pinned : PipelineState = record p {
        moe_layer_walk = some (or_zero shard.layer_start, w);
      } in
      let fitting : P request pinned = stable request p pinned.moe_layer_walk p.dispatch_log fits in
      elim (Bool-cases (is_some (expert_group_for p p.pos))) [
        | inl walks ↦ rw walks (
            send_shard-Holds request source pinned shard (some (or_zero shard.layer_start)) w
              (get w e.registry)
              (record e { last_assigned = some w; pipelines = insert request pinned e.pipelines })
              fitting (insert-Holds request pinned e fitting run))
        | inr plain ↦ rw plain (
            send_shard-Holds request source p shard none w (get w e.registry)
              (record e { last_assigned = some w }) fits run)
      ]

  dispatch_pinned-Holds :
      (request : Text) (source : ModelSource) (p : PipelineState) (shard : ShardDescriptor)
      (layer : ℕ) (wallet : Text) (tx : Option Sender) (e : ShardEngine)
      → P request p
      → Holds e
      → Holds (dispatch_pinned request source p shard layer wallet tx e)
  dispatch_pinned-Holds request source p shard layer wallet none e fits run =
      remove-Holds request e run
  dispatch_pinned-Holds request source p shard layer wallet (some tx) e fits run =
      send_shard-Holds request source p shard (some layer) wallet (some tx) e fits run

  dispatch_shard-Holds :
      (request : Text) (source : ModelSource) (p : PipelineState) (shard : ShardDescriptor)
      (walk : Option (ℕ × Text)) (e : ShardEngine)
      → P request p
      → Holds e
      → Holds (dispatch_shard request source p shard walk e)
  dispatch_shard-Holds request source p shard none e fits run =
      dispatch_fresh-Holds request source p shard (pick_next e.last_assigned e.registry) e fits run
  dispatch_shard-Holds request source p shard (some (layer, w)) e fits run =
      dispatch_pinned-Holds request source p shard layer w (get w e.registry) e fits run

  dispatch_at-Holds :
      (request : Text) (source : ModelSource) (p : PipelineState) (shard : Option ShardDescriptor)
      (e : ShardEngine)
      → P request p
      → Holds e
      → Holds (dispatch_at request source p shard e)
  dispatch_at-Holds request source p none e fits run = run
  dispatch_at-Holds request source p (some shard) e fits run =
      dispatch_shard-Holds request source p shard p.moe_layer_walk e fits run

  dispatch_pipeline-Holds :
      (request : Text) (source : ModelSource) (p : Option PipelineState) (e : ShardEngine)
      → Found request p
      → Holds e
      → Holds (dispatch_pipeline request source p e)
  dispatch_pipeline-Holds request source none e fits run = run
  dispatch_pipeline-Holds request source (some p) e fits run =
      dispatch_at-Holds request source p (get_elem? p.shards p.pos) e fits run

  pub dispatch_current-Holds :
      (request : Text) (source : ModelSource) (e : ShardEngine)
      → Holds e
      → Holds (dispatch_current request source e)
  unfolding dispatch_current
  dispatch_current-Holds request source e run =
      dispatch_pipeline-Holds request source (lookup request e.pipelines) e
        (lookup-Found request e run) run

  module _ {W : Type 0} (resolve : Text → W → Option ModelSource × W) where
    retry_with-Holds :
        (request : Text) (e : ShardEngine) (source : Option ModelSource) (w : W)
        → Holds e
        → Holds (retry_with resolve request e (source, w)).0
    retry_with-Holds request e none w run = run
    retry_with-Holds request e (some source) w run = dispatch_current-Holds request source e run

    retry_pipeline-Holds :
        (request : Text) (p : Option PipelineState) (e : ShardEngine) (w : W)
        → Holds e
        → Holds (retry_pipeline resolve request p e w).0
    retry_pipeline-Holds request none e w run = run
    retry_pipeline-Holds request (some p) e w run =
        let (found, w') = resolve p.manifest.model_id w in retry_with-Holds request e found w' run

    retry_all-Holds :
        (ids : List Text) (e : ShardEngine) (w : W) → Holds e → Holds (retry_all resolve ids e w).0
    retry_all-Holds [] e w run = run
    retry_all-Holds (id ∷ ids) e w run =
        let (e', w') = retry_pipeline resolve id (lookup id e.pipelines) e w in
        retry_all-Holds ids e' w' (retry_pipeline-Holds id (lookup id e.pipelines) e w run)

    pub retry_stalled_pipelines-Holds :
        (e : ShardEngine) (w : W) → Holds e → Holds (retry_stalled_pipelines resolve e w).0
    unfolding retry_stalled_pipelines
    retry_stalled_pipelines-Holds e w run =
        retry_all-Holds (stalled e.assignments (keys e.pipelines)) e w run

    handle_event-Holds :
        (x : ShardEvent) (e : ShardEngine) (w : W) → Holds e → Holds (handle_event resolve x e w).0
    unfolding on_disconnect receive_prompt
    handle_event-Holds ticks e w run = retry_stalled_pipelines-Holds e w run
    handle_event-Holds (disconnects wallet) e w run = run
    handle_event-Holds (caches_prompt request prompt_hex) e w run = run

    pub handle_events-Holds :
        (xs : List ShardEvent) (e : ShardEngine) (w : W)
        → Holds e
        → Holds (handle_events resolve xs e w).0
    handle_events-Holds [] e w run = run
    handle_events-Holds (x ∷ xs) e w run =
        let (e', w') = handle_event resolve x e w in
        handle_events-Holds xs e' w' (handle_event-Holds x e w run)
