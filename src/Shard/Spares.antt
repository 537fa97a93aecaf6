-- ===== src/Shard/Spares.antt =====
-- A request that is assigned, or marked as busy, is left alone by the ticks of src/opoi/shard_engine.rs:
-- `retry_stalled_pipelines`.
use cs_stratum_bridge.Base.{
  ℕ, ◌≡◌, refl, sym, ap, ◌∙◌, inl, inr, Text, text_key, ◌=ₖ◌, Map, lookup, insert, remove,
  lookup-insert, lookup-remove, contains_key, is_some, Bool, true, false, Bool-cases, Option, none,
  some, List, [], ◌∷◌, ◌++◌, append-nil, append_assoc, get_elem?, All, All-append, arith,
}
use cs_stratum_bridge.Registry.{Sender, get, pick_next, keys}
use cs_stratum_bridge.Rpc.{ShardDescriptor}
use cs_stratum_bridge.Speculative.Pipeline.{ModelSource}
use cs_stratum_bridge.Speculative.Dispatch.{or_zero}
use cs_stratum_bridge.Shard.{PipelineState, ShardAssignment, ShardEngine, expert_group_for}
use cs_stratum_bridge.Shard.Pinned.{Line}
use cs_stratum_bridge.Shard.Dispatch.{
  shard_assign, send_shard, dispatch_fresh, dispatch_pinned, dispatch_shard, dispatch_at,
  dispatch_pipeline, dispatch_current, retry_with, retry_pipeline, retry_all, stalled,
  retry_stalled_pipelines,
}

abbrev pub is_for : Text → Line → Bool
is_for request (wallet, assign) = assign.request_id =ₖ request

-- No line is for the request, and its pipeline and its assignment are the same.
abbrev pub Spares : Text → ShardEngine → ShardEngine → Type 0
Spares request e e' =
    (lines : List Line) × (e'.asked ≡ e.asked ++ lines)
    × All (λ l. is_for request l ≡ false) lines
    × (lookup request e'.pipelines ≡ lookup request e.pipelines)
    × (lookup request e'.assignments ≡ lookup request e.assignments)

Spares-refl : (request : Text) (e : ShardEngine) → Spares request e e
Spares-refl request e = ([], sym (append-nil e.asked), tt, refl, refl)

Spares-trans :
    (request : Text) (e e' e'' : ShardEngine)
    → Spares request e e'
    → Spares request e' e''
    → Spares request e e''
Spares-trans request e e' e'' (ls, asked, all, p, a) (ms, asked', all', p', a') = (
  ls ++ ms,
  asked' ∙ (ap (λ x. x ++ ms) asked ∙ append_assoc e.asked ls ms),
  All-append (λ l. is_for request l ≡ false) ls ms all all',
  p' ∙ p,
  a' ∙ a,
)

lookup-insert_other :
    {V : Type 0} (id request : Text) (v : V) (m : Map Text V)
    → (id =ₖ request) ≡ false
    → lookup request (insert id v m) ≡ lookup request m
lookup-insert_other id request v m other = ground (arith, lookup-insert id request v m)

lookup-remove_other :
    {V : Type 0} (id request : Text) (m : Map Text V)
    → (id =ₖ request) ≡ false
    → lookup request (remove id m) ≡ lookup request m
lookup-remove_other id request m other = ground (arith, lookup-remove id request m)

module _ (request id : Text) (other : (id =ₖ request) ≡ false) where
  -- The pipelines are those of `e`, or have another one for `id`.
  send_shard-Spares :
      (source : ModelSource) (p : PipelineState) (shard : ShardDescriptor) (step : Option ℕ)
      (wallet : Text) (tx : Option Sender) (e e' : ShardEngine)
      → e'.asked ≡ e.asked
      → lookup request e'.pipelines ≡ lookup request e.pipelines
      → e'.assignments ≡ e.assignments
      → Spares request e (send_shard id source p shard step wallet tx e')
  send_shard-Spares source p shard step wallet none e e' asked same held =
      ([], asked ∙ sym (append-nil e.asked), tt, same, ap (λ m. lookup request m) held)
  send_shard-Spares source p shard step wallet (some tx) e e' asked same held = (
    _,
    ap (λ ls. ls ++ (wallet, shard_assign id source p shard step) ∷ []) asked,
    (other, tt),
    lookup-insert_other id request _ e'.pipelines other ∙ same,
    lookup-insert_other id request _ e'.assignments other ∙ ap (λ m. lookup request m) held,
  )

  dispatch_fresh-Spares :
      (source : ModelSource) (p : PipelineState) (shard : ShardDescriptor) (wallet : Option Text)
      (e : ShardEngine)
      → Spares request e (dispatch_fresh id source p shard wallet e)
  dispatch_fresh-Spares source p shard none e = Spares-refl request e
  dispatch_fresh-Spares source p shard (some w) e =
      let pinned : PipelineState = record p {
        moe_layer_walk = some (or_zero shard.layer_start, w);
      } in
      elim (Bool-cases (is_some (expert_group_for p p.pos))) [
        | inl walks ↦ rw walks (
            send_shard-Spares source pinned shard (some (or_zero shard.layer_start)) w
              (get w e.registry) e
              (record e { last_assigned = some w; pipelines = insert id pinned e.pipelines }) refl
              (lookup-insert_other id request pinned e.pipelines other) refl)
        | inr plain ↦ rw plain (
            send_shard-Spares source p shard none w (get w e.registry) e
              (record e { last_assigned = some w }) refl refl refl)
      ]

  dispatch_pinned-Spares :
      (source : ModelSource) (p : PipelineState) (shard : ShardDescriptor) (layer : ℕ)
      (wallet : Text) (tx : Option Sender) (e : ShardEngine)
      → Spares request e (dispatch_pinned id source p shard layer wallet tx e)
  dispatch_pinned-Spares source p shard layer wallet none e = (
    [],
    sym (append-nil e.asked),
    tt,
    lookup-remove_other id request e.pipelines other,
    lookup-remove_other id request e.assignments other,
  )
  dispatch_pinned-Spares source p shard layer wallet (some tx) e =
      send_shard-Spares source p shard (some layer) wallet (some tx) e e refl refl refl

  dispatch_shard-Spares :
      (source : ModelSource) (p : PipelineState) (shard : ShardDescriptor)
      (walk : Option (ℕ × Text)) (e : ShardEngine)
      → Spares request e (dispatch_shard id source p shard walk e)
  dispatch_shard-Spares source p shard none e =
      dispatch_fresh-Spares source p shard (pick_next e.last_assigned e.registry) e
  dispatch_shard-Spares source p shard (some (layer, w)) e =
      dispatch_pinned-Spares source p shard layer w (get w e.registry) e

  dispatch_at-Spares :
      (source : ModelSource) (p : PipelineState) (shard : Option ShardDescriptor) (e : ShardEngine)
      → Spares request e (dispatch_at id source p shard e)
  dispatch_at-Spares source p none e = Spares-refl request e
  dispatch_at-Spares source p (some shard) e =
      dispatch_shard-Spares source p shard p.moe_layer_walk e

  dispatch_pipeline-Spares :
      (source : ModelSource) (p : Option PipelineState) (e : ShardEngine)
      → Spares request e (dispatch_pipeline id source p e)
  dispatch_pipeline-Spares source none e = Spares-refl request e
  dispatch_pipeline-Spares source (some p) e =
      dispatch_at-Spares source p (get_elem? p.shards p.pos) e

  module _ {W : Type 0} (resolve : Text → W → Option ModelSource × W) where
    retry_with-Spares :
        (e : ShardEngine) (source : Option ModelSource) (w : W)
        → Spares request e (retry_with resolve id e (source, w)).0
    unfolding dispatch_current
    retry_with-Spares e none w = Spares-refl request e
    retry_with-Spares e (some source) w = dispatch_pipeline-Spares source (lookup id e.pipelines) e

    retry_pipeline-Spares :
        (p : Option PipelineState) (e : ShardEngine) (w : W)
        → Spares request e (retry_pipeline resolve id p e w).0
    retry_pipeline-Spares none e w = Spares-refl request e
    retry_pipeline-Spares (some p) e w =
        let (found, w') = resolve p.manifest.model_id w in retry_with-Spares e found w'

-- A request that has an assignment is not stalled.
stalled-others :
    (request : Text) (assignments : Map Text ShardAssignment) (ids : List Text)
    → contains_key request assignments ≡ true
    → All (λ id. (id =ₖ request) ≡ false) (stalled assignments ids)
stalled-others request assignments [] held = tt
stalled-others request assignments (id ∷ ids) held =
    elim (Bool-cases (contains_key id assignments)) [
      | inl here ↦ rw here (stalled-others request assignments ids held)
      | inr gone ↦ rw gone (ground arith, stalled-others request assignments ids held)
    ]

module _ (request : Text) {W : Type 0} (resolve : Text → W → Option ModelSource × W) where
  retry_all-Spares :
      (ids : List Text) (e : ShardEngine) (w : W)
      → All (λ id. (id =ₖ request) ≡ false) ids
      → Spares request e (retry_all resolve ids e w).0
  retry_all-Spares [] e w others = Spares-refl request e
  retry_all-Spares (id ∷ ids) e w (other, others) =
      let (e', w') = retry_pipeline resolve id (lookup id e.pipelines) e w in
      Spares-trans request e e' (retry_all resolve ids e' w').0
        (retry_pipeline-Spares request id other resolve (lookup id e.pipelines) e w)
        (retry_all-Spares ids e' w' others)

  -- While a step of a request is assigned, or its experts work, which a marker among the assignments
  -- tells, a tick sends no line for it and changes neither its pipeline nor its assignment: no step is
  -- sent twice, and a marker that stays keeps the request from being retried.
  pub retry_stalled_pipelines-Spares :
      (e : ShardEngine) (w : W)
      → contains_key request e.assignments ≡ true
      → Spares request e (retry_stalled_pipelines resolve e w).0
  unfolding retry_stalled_pipelines
  retry_stalled_pipelines-Spares e w held =
      retry_all-Spares (stalled e.assignments (keys e.pipelines)) e w
        (stalled-others request e.assignments (keys e.pipelines) held)
