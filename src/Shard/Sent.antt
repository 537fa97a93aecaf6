-- ===== src/Shard/Sent.antt =====
-- With a connected miner that is not banned, `dispatch_current` of src/opoi/shard_engine.rs sends the step
-- of a pipeline of dense shards.
use cs_stratum_bridge.Base.{
  ℕ, ◌<◌, ◌≡◌, refl, sym, ap, subst, inl, inr, Text, text_key, lookup, lookup-insert_same,
  contains_key, is_some, Bool, true, false, not, ◌&&◌, Option-cases, Option, none, some, List, [],
  length, get_elem?, get_elem?-in_range, arith,
}
use cs_stratum_bridge.Registry.{MinerRegistry, Sender, get, pick_next, is_banned}
use cs_stratum_bridge.Registry.Eligible.{Selects, pick_next-Selects}
use cs_stratum_bridge.Rpc.{ShardDescriptor}
use cs_stratum_bridge.Speculative.Pipeline.{ModelSource}
use cs_stratum_bridge.Shard.{
  PrimaryDispatchRecord, PipelineState, ShardAssignment, ShardEngine, range_key, expert_group_for,
  group_of,
}
use cs_stratum_bridge.Shard.Dispatch.{
  send_shard, dispatch_fresh, dispatch_shard, dispatch_at, dispatch_pipeline, dispatch_current,
}

abbrev pub may_work : Text → MinerRegistry → Bool
may_work wallet r = contains_key wallet r.inner && not (is_banned wallet r)

available :
    (r : MinerRegistry) (miner : Text) (last : Option Text)
    → may_work miner r ≡ true
    → (wallet : Text) × (tx : Sender) × (pick_next last r ≡ some wallet) × (get wallet r ≡ some tx)
unfolding get
available r miner last free = elim (Option-cases (pick_next last r)) [
  | inl gone ↦
      let nobody : may_work miner r ≡ false =
        (subst (λ o. Selects (λ w. may_work w r) o) gone (pick_next-Selects last r)) miner in
      absurd (cc)
  | inr (wallet, picked) ↦
      let here : may_work wallet r ≡ true =
        subst (λ o. Selects (λ w. may_work w r) o) picked (pick_next-Selects last r) in
      elim (Option-cases (lookup wallet r.inner)) [
        | inl missing ↦ absurd (ground arith)
        | inr (tx, found) ↦ (wallet, tx, picked, found)
      ]
]

-- The assignment of the step that a pipeline is at.
abbrev pub step_of : Text → ShardDescriptor → PipelineState → ShardAssignment
step_of wallet shard p = record {
  wallet = wallet;
  shard_index = shard.shard_index;
  token_index = p.token_index;
  moe_layer_step = none;
}

-- The pipeline, but for its log, and its step is assigned; the rest is as it was.
abbrev pub Sent : Text → PipelineState → ShardEngine → ShardEngine → Type 0
Sent request p e e' =
    (shard : ShardDescriptor) × (wallet : Text) × (log : List PrimaryDispatchRecord) × (get_elem?
        p.shards p.pos
      ≡ some shard)
    × (lookup request e'.pipelines ≡ some (record p { dispatch_log = log }))
    × (lookup request e'.assignments ≡ some (step_of wallet shard p))
    × (e'.registry ≡ e.registry)
    × (e'.speculative ≡ e.speculative)
    × (e'.stake_pool ≡ e.stake_pool)

pub dense-alone :
    (p : PipelineState) (pos : ℕ) → p.expert_groups ≡ [] → expert_group_for p pos ≡ none
unfolding expert_group_for lookup
dense-alone p pos dense = elim (Option-cases (get_elem? p.shards pos)) [
  | inl gone ↦ rw gone refl
  | inr (shard, here) ↦
      rw here (subst (λ groups. group_of groups (some shard) ≡ none) (sym dense) refl)
]

pub dispatch_current-Sent :
    (request : Text) (source : ModelSource) (p : PipelineState) (e : ShardEngine) (miner : Text)
    → may_work miner e.registry ≡ true
    → lookup request e.pipelines ≡ some p
    → p.pos < length p.shards
    → p.expert_groups ≡ []
    → p.moe_layer_walk ≡ none
    → Sent request p e (dispatch_current request source e)
unfolding dispatch_current
dispatch_current-Sent request source p e miner free found lt dense walk =
    let (shard, here) = get_elem?-in_range p.shards p.pos lt in
    let (wallet, tx, picked, got) = available e.registry miner e.last_assigned free in
    let e1 : ShardEngine = record e { last_assigned = some wallet } in
    let alone : is_some (expert_group_for p p.pos) ≡ false =
      ap (λ o. is_some o) (dense-alone p p.pos dense) in
    let sent : Sent request p e (send_shard request source p shard none wallet (some tx) e1) = (
      shard,
      wallet,
      _,
      here,
      lookup-insert_same request _ e.pipelines,
      lookup-insert_same request _ e.assignments,
      refl,
      refl,
      refl,
    ) in
    let fresh : Sent request p e (dispatch_fresh request source p shard (some wallet) e) =
      rw alone (
        subst (λ o. Sent request p e (send_shard request source p shard none wallet o e1)) (sym got)
          sent) in
    subst (λ o. Sent request p e (dispatch_pipeline request source o e)) (sym found)
      (subst (λ o. Sent request p e (dispatch_at request source p o e)) (sym here)
        (subst (λ o. Sent request p e (dispatch_shard request source p shard o e)) (sym walk)
          (subst (λ o. Sent request p e (dispatch_fresh request source p shard o e)) (sym picked)
            fresh)))
