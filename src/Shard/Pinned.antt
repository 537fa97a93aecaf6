-- ===== src/Shard/Pinned.antt =====
-- A walk through the layers of a range stays with its miner: `retry_stalled_pipelines` and
-- `dispatch_current` of src/opoi/shard_engine.rs.
use cs_stratum_bridge.Base.{
  ℕ, ◌≡◌, refl, ap, sym, subst, ◌∙◌, ◌⊎◌, inl, inr, Text, text_key, ◌=ₖ◌, Text-discrete, lookup,
  insert, remove, lookup-insert, lookup-insert_same, lookup-remove, is_some, Bool, true, false, not,
  ◌||◌, Bool-cases, Option, none, some, List, [], ◌∷◌, ◌++◌, append-nil, append_assoc, get_elem?,
  All, All-append, arith,
}
use cs_stratum_bridge.Registry.{Sender, get, pick_next, keys}
use cs_stratum_bridge.Wire.{OpoiShardAssign}
use cs_stratum_bridge.Rpc.{ShardDescriptor}
use cs_stratum_bridge.Speculative.Pipeline.{ModelSource}
use cs_stratum_bridge.Speculative.Dispatch.{or_zero}
use cs_stratum_bridge.Shard.{PipelineState, ShardEngine, expert_group_for}
use cs_stratum_bridge.Shard.Dispatch.{
  send_shard, dispatch_fresh, dispatch_pinned, dispatch_shard, dispatch_at, dispatch_pipeline,
  dispatch_current, retry_with, retry_pipeline, retry_all, stalled, retry_stalled_pipelines,
}

-- The request has no pipeline any more, or its walk is at the layer, with the wallet.
abbrev pub Pinned : Text → ℕ → Text → ShardEngine → Type 0
Pinned request layer wallet e =
    (lookup request e.pipelines ≡ none)
    ⊎ ((p : PipelineState) × (lookup request e.pipelines ≡ some p)
        × (p.moe_layer_walk ≡ some (layer, wallet)))

abbrev pub Line : Type 0
Line = Text × OpoiShardAssign

-- A line for the request goes to the wallet.
abbrev pub to_it : Text → Text → Line → Bool
to_it request wallet (w, assign) = not (assign.request_id =ₖ request) || (w =ₖ wallet)

abbrev pub Keeps : Text → ℕ → Text → ShardEngine → ShardEngine → Type 0
Keeps request layer wallet e e' =
    (lines : List Line) × (e'.asked ≡ e.asked ++ lines)
    × All (λ l. to_it request wallet l ≡ true) lines
    × Pinned request layer wallet e'

Keeps-refl :
    (request : Text) (layer : ℕ) (wallet : Text) (e : ShardEngine)
    → Pinned request layer wallet e
    → Keeps request layer wallet e e
Keeps-refl request layer wallet e pin = ([], sym (append-nil e.asked), tt, pin)

Keeps-trans :
    (request : Text) (layer : ℕ) (wallet : Text) (e e' e'' : ShardEngine)
    → Keeps request layer wallet e e'
    → Keeps request layer wallet e' e''
    → Keeps request layer wallet e e''
Keeps-trans request layer wallet e e' e'' (ls, same, all, _) (ms, same', all', pin) = (
  ls ++ ms,
  same' ∙ (ap (λ x. x ++ ms) same ∙ append_assoc e.asked ls ms),
  All-append (λ l. to_it request wallet l ≡ true) ls ms all all',
  pin,
)

module _ (request : Text) (layer : ℕ) (wallet : Text) where
  moved :
      (e' e : ShardEngine)
      → lookup request e'.pipelines ≡ lookup request e.pipelines
      → Pinned request layer wallet e
      → Pinned request layer wallet e'
  moved e' e same (inl gone) = inl (same ∙ gone)
  moved e' e same (inr (p, found, walk)) = inr (p, same ∙ found, walk)

  -- What is sent for another request.
  insert-Pinned :
      (id : Text) (p : PipelineState) (e : ShardEngine)
      → (id =ₖ request) ≡ false
      → Pinned request layer wallet e
      → Pinned request layer wallet (record e { pipelines = insert id p e.pipelines })
  insert-Pinned id p e other pin =
      let same : lookup request (insert id p e.pipelines) ≡ lookup request e.pipelines =
        ground (arith, lookup-insert id request p e.pipelines) in
      moved (record e { pipelines = insert id p e.pipelines }) e same pin

  remove-Pinned :
      (id : Text) (e : ShardEngine)
      → (id =ₖ request) ≡ false
      → Pinned request layer wallet e
      → Pinned request layer wallet (record e { pipelines = remove id e.pipelines })
  remove-Pinned id e other pin =
      let same : lookup request (remove id e.pipelines) ≡ lookup request e.pipelines =
        ground (arith, lookup-remove id request e.pipelines) in
      moved (record e { pipelines = remove id e.pipelines }) e same pin

  send_shard-Keeps :
      (id : Text) (source : ModelSource) (p : PipelineState) (shard : ShardDescriptor)
      (step : Option ℕ) (w : Text) (tx : Option Sender) (e : ShardEngine)
      → (id =ₖ request) ≡ false
      → Pinned request layer wallet e
      → Keeps request layer wallet e (send_shard id source p shard step w tx e)
  send_shard-Keeps id source p shard step w none e other pin = Keeps-refl request layer wallet e pin
  send_shard-Keeps id source p shard step w (some tx) e other pin =
      (_, refl, (ground arith, tt), insert-Pinned id _ e other pin)

  dispatch_fresh-Keeps :
      (id : Text) (source : ModelSource) (p : PipelineState) (shard : ShardDescriptor)
      (w : Option Text) (e : ShardEngine)
      → (id =ₖ request) ≡ false
      → Pinned request layer wallet e
      → Keeps request layer wallet e (dispatch_fresh id source p shard w e)
  dispatch_fresh-Keeps id source p shard none e other pin = Keeps-refl request layer wallet e pin
  dispatch_fresh-Keeps id source p shard (some w) e other pin =
      let pinned : PipelineState = record p {
        moe_layer_walk = some (or_zero shard.layer_start, w);
      } in
      elim (Bool-cases (is_some (expert_group_for p p.pos))) [
        | inl walks ↦ rw walks (
            send_shard-Keeps id source pinned shard (some (or_zero shard.layer_start)) w
              (get w e.registry)
              (record e { last_assigned = some w; pipelines = insert id pinned e.pipelines }) other
              (insert-Pinned id pinned e other pin))
        | inr plain ↦ rw plain (
            send_shard-Keeps id source p shard none w (get w e.registry)
              (record e { last_assigned = some w }) other pin)
      ]

  dispatch_pinned-Keeps :
      (id : Text) (source : ModelSource) (p : PipelineState) (shard : ShardDescriptor) (l : ℕ)
      (w : Text) (tx : Option Sender) (e : ShardEngine)
      → (id =ₖ request) ≡ false
      → Pinned request layer wallet e
      → Keeps request layer wallet e (dispatch_pinned id source p shard l w tx e)
  dispatch_pinned-Keeps id source p shard l w none e other pin =
      ([], sym (append-nil e.asked), tt, remove-Pinned id e other pin)
  dispatch_pinned-Keeps id source p shard l w (some tx) e other pin =
      send_shard-Keeps id source p shard (some l) w (some tx) e other pin

  dispatch_shard-Keeps :
      (id : Text) (source : ModelSource) (p : PipelineState) (shard : ShardDescriptor)
      (walk : Option (ℕ × Text)) (e : ShardEngine)
      → (id =ₖ request) ≡ false
      → Pinned request layer wallet e
      → Keeps request layer wallet e (dispatch_shard id source p shard walk e)
  dispatch_shard-Keeps id source p shard none e other pin =
      dispatch_fresh-Keeps id source p shard (pick_next e.last_assigned e.registry) e other pin
  dispatch_shard-Keeps id source p shard (some (l, w)) e other pin =
      dispatch_pinned-Keeps id source p shard l w (get w e.registry) e other pin

  -- What is sent for the request itself.
  dispatch_pinned-Same :
      (source : ModelSource) (p : PipelineState) (shard : ShardDescriptor) (tx : Option Sender)
      (e : ShardEngine)
      → p.moe_layer_walk ≡ some (layer, wallet)
      → Keeps request layer wallet e (dispatch_pinned request source p shard layer wallet tx e)
  dispatch_pinned-Same source p shard none e walk = (
    [],
    sym (append-nil e.asked),
    tt,
    inl (ground (arith, lookup-remove request request e.pipelines)),
  )
  dispatch_pinned-Same source p shard (some tx) e walk =
      (_, refl, (ground arith, tt), inr (_, lookup-insert_same request _ e.pipelines, walk))

  dispatch_at-Same :
      (source : ModelSource) (p : PipelineState) (shard : Option ShardDescriptor) (e : ShardEngine)
      → lookup request e.pipelines ≡ some p
      → p.moe_layer_walk ≡ some (layer, wallet)
      → Keeps request layer wallet e (dispatch_at request source p shard e)
  dispatch_at-Same source p none e found walk =
      Keeps-refl request layer wallet e (inr (p, found, walk))
  dispatch_at-Same source p (some shard) e found walk =
      subst (λ to. Keeps request layer wallet e (dispatch_shard request source p shard to e))
        (sym walk) (dispatch_pinned-Same source p shard (get wallet e.registry) e walk)

  dispatch_at-Keeps :
      (id : Text) (source : ModelSource) (p : PipelineState) (shard : Option ShardDescriptor)
      (e : ShardEngine)
      → (id =ₖ request) ≡ false
      → Pinned request layer wallet e
      → Keeps request layer wallet e (dispatch_at id source p shard e)
  dispatch_at-Keeps id source p none e other pin = Keeps-refl request layer wallet e pin
  dispatch_at-Keeps id source p (some shard) e other pin =
      dispatch_shard-Keeps id source p shard p.moe_layer_walk e other pin

  dispatch_pipeline-Keeps :
      (id : Text) (source : ModelSource) (p : Option PipelineState) (e : ShardEngine)
      → (id =ₖ request) ≡ false
      → Pinned request layer wallet e
      → Keeps request layer wallet e (dispatch_pipeline id source p e)
  dispatch_pipeline-Keeps id source none e other pin = Keeps-refl request layer wallet e pin
  dispatch_pipeline-Keeps id source (some p) e other pin =
      dispatch_at-Keeps id source p (get_elem? p.shards p.pos) e other pin

  dispatch_pipeline-Same :
      (source : ModelSource) (e : ShardEngine)
      → Pinned request layer wallet e
      → Keeps request layer wallet e
          (dispatch_pipeline request source (lookup request e.pipelines) e)
  dispatch_pipeline-Same source e (inl gone) =
      rw gone (Keeps-refl request layer wallet e (inl gone))
  dispatch_pipeline-Same source e (inr (p, found, walk)) =
      rw found (dispatch_at-Same source p (get_elem? p.shards p.pos) e found walk)

  dispatch_current-Keeps :
      (id : Text) (source : ModelSource) (e : ShardEngine)
      → Pinned request layer wallet e
      → Keeps request layer wallet e (dispatch_current id source e)
  unfolding dispatch_current
  dispatch_current-Keeps id source e pin = elim (Text-discrete id request) [
    | yes same ↦
        subst
          (λ i. Keeps request layer wallet e (dispatch_pipeline i source (lookup i e.pipelines) e))
          (sym same) (dispatch_pipeline-Same source e pin)
    | no other ↦ dispatch_pipeline-Keeps id source (lookup id e.pipelines) e (ground arith) pin
  ]

  module _ {W : Type 0} (resolve : Text → W → Option ModelSource × W) where
    retry_with-Keeps :
        (id : Text) (e : ShardEngine) (source : Option ModelSource) (w : W)
        → Pinned request layer wallet e
        → Keeps request layer wallet e (retry_with resolve id e (source, w)).0
    retry_with-Keeps id e none w pin = Keeps-refl request layer wallet e pin
    retry_with-Keeps id e (some source) w pin = dispatch_current-Keeps id source e pin

    retry_pipeline-Keeps :
        (id : Text) (p : Option PipelineState) (e : ShardEngine) (w : W)
        → Pinned request layer wallet e
        → Keeps request layer wallet e (retry_pipeline resolve id p e w).0
    retry_pipeline-Keeps id none e w pin = Keeps-refl request layer wallet e pin
    retry_pipeline-Keeps id (some p) e w pin =
        let found = resolve p.manifest.model_id w in retry_with-Keeps id e found.0 found.1 pin

    retry_all-Keeps :
        (ids : List Text) (e : ShardEngine) (w : W)
        → Pinned request layer wallet e
        → Keeps request layer wallet e (retry_all resolve ids e w).0
    retry_all-Keeps [] e w pin = Keeps-refl request layer wallet e pin
    retry_all-Keeps (id ∷ ids) e w pin =
        let x = retry_pipeline resolve id (lookup id e.pipelines) e w in
        let one = retry_pipeline-Keeps id (lookup id e.pipelines) e w pin in
        Keeps-trans request layer wallet e x.0 (retry_all resolve ids x.0 x.1).0 one
          (retry_all-Keeps ids x.0 x.1 one.3)

    -- The walk of a request through the layers of a range stays with the miner that has its state: a
    -- retry sends lines for it to no other wallet, and afterwards it is at the same layer, with the
    -- same wallet, or its pipeline has been dropped.
    pub retry_stalled_pipelines-Keeps :
        (e : ShardEngine) (w : W)
        → Pinned request layer wallet e
        → Keeps request layer wallet e (retry_stalled_pipelines resolve e w).0
    unfolding retry_stalled_pipelines
    retry_stalled_pipelines-Keeps e w pin =
        retry_all-Keeps (stalled e.assignments (keys e.pipelines)) e w pin
