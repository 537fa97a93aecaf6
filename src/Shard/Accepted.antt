-- ===== src/Shard/Accepted.antt =====
-- An accepted result leaves each pipeline of src/opoi/shard_engine.rs where its tokens say it is, and
-- the handler does not panic.
use cs_stratum_bridge.Base.{
  ℕ, ◌+◌, ◌-◌, ◌<◌, ◌==◌, ◌≡◌, refl, sym, subst, inl, inr, Text, text_key, lookup, insert,
  lookup-insert_same, Entries, Entries-lookup, Entries-insert, Entries-remove, Entries-mono, At,
  Entries-At, remove-insert, remove, false, Bool-cases, Option-cases, Option, none, some, List, [],
  ◌∷◌, length, length-append, get_elem?, get_elem?-in_range, arith,
}
use cs_stratum_bridge.AppError.{Result, ok, err}
use cs_stratum_bridge.Wire.{ShardOutputWire, OpoiShardResult}
use cs_stratum_bridge.Rpc.{ShardDescriptor, ShardResultTxRes}
use cs_stratum_bridge.Db.{Db}
use cs_stratum_bridge.StakePool.{StakePool, try_each}
use cs_stratum_bridge.Contributions.{select_winning_wallet}
use cs_stratum_bridge.Speculative.Pipeline.{ModelSource}
use cs_stratum_bridge.Speculative.Dispatch.{or_zero}
use cs_stratum_bridge.Shard.{
  PrimaryDispatchRecord, PipelineState, ShardAssignment, ShardEngine, expert_group_for,
}
use cs_stratum_bridge.Shard.Host.{ShardHost}
use cs_stratum_bridge.Shard.Finish.{spawn_commit, respond, finalize_found, finalize_pipeline}
use cs_stratum_bridge.Shard.FanOut.{
  to_next_shard, to_next_layer, selection, handle_expert_group_result,
  handle_moe_interior_layer_result,
}
use cs_stratum_bridge.Shard.Results.{
  is_of, stays_in_range, or_else, put_pipeline, credit_step, push_token, next_shard, next_token,
  is_last_token, go_on, finish_token, hand_to_experts, hand_over, finish_shard, submission,
  submitted, settle_shard, walk_on, settle_layer, settle_step, take_with, take_for, take_result,
  check_assignment,
}
use cs_stratum_bridge.Shard.Running.{
  Fits, stable, Running, Sound, dispatch_and_reply-Sound, fan_out_selected-Sound,
}

-- There is a shard behind the position.
abbrev More : PipelineState → Type 0
More p = p.pos + 1 < length p.shards

stable-More :
    (request id : Text) (p : PipelineState) (walk : Option (ℕ × Text))
    (log : List PrimaryDispatchRecord)
    → At Fits request More id p
    → At Fits request More id (record p { moe_layer_walk = walk; dispatch_log = log })
stable-More request id p walk log at = at

to_next_shard-Fits :
    (request : Text) (layer_idx : ℕ) (output : ShardOutputWire) (p : PipelineState)
    → At Fits request More request p
    → Fits request (to_next_shard layer_idx output p)
to_next_shard-Fits request layer_idx output p ((lt, tokens, room, bound), inr more) =
    (more, tokens, room, bound)
to_next_shard-Fits request layer_idx output p (fits, inl other) = absurd (ground arith)

module _ {W : Type 0} (host : ShardHost W) (request : Text) where
  -- The pipeline, which stands in the map.
  abbrev Stands : PipelineState → ShardEngine → Type 0
  Stands p e = Fits request p × (lookup request e.pipelines ≡ some p) × Running e

  put-Stands :
      (p : PipelineState) (e : ShardEngine)
      → Fits request p
      → Running e
      → Stands p (put_pipeline request p e)
  put-Stands p e fits run = (
    fits,
    lookup-insert_same request p e.pipelines,
    Entries-insert Fits request p e.pipelines fits run,
  )

  handle_expert_group_result-Sound :
      (wallet : Text) (source : ModelSource) (ids : List ℕ) (layer_idx : ℕ)
      (result : OpoiShardResult) (p : PipelineState) (e : ShardEngine) (w : W)
      → Stands p e
      → More p
      → Sound (handle_expert_group_result host request wallet source ids layer_idx result p e w)
  unfolding handle_expert_group_result
  handle_expert_group_result-Sound wallet source ids layer_idx result p e w (fits, found, run)
        more =
      fan_out_selected-Sound host to_next_shard request source layer_idx (At Fits request More)
        (stable-More request) (λ m at. Entries-mono (λ id (q : PipelineState) both. both.0) m at)
        (to_next_shard-Fits request layer_idx) wallet result ids p
        (selection ids result.router_selection) e w fits.0
        (Entries-At Fits request More p e.pipelines found more run)

  handle_moe_interior_layer_result-Sound :
      (wallet : Text) (source : ModelSource) (ids : List ℕ) (layer_idx : ℕ)
      (result : OpoiShardResult) (p : PipelineState) (e : ShardEngine) (w : W)
      → Stands p e
      → Sound
          (handle_moe_interior_layer_result host request wallet source ids layer_idx result p e w)
  unfolding handle_moe_interior_layer_result
  handle_moe_interior_layer_result-Sound wallet source ids layer_idx result p e w
        (fits, found, run) =
      fan_out_selected-Sound host to_next_layer request source layer_idx Fits stable (λ m all. all)
        (λ output q at. at) wallet result ids p (selection ids result.router_selection) e w fits.0
        run

  go_on-Sound :
      (source : ModelSource) (p : PipelineState) (e : ShardEngine) (w : W)
      → Fits request p
      → Running e
      → Sound (go_on host request source p e w)
  go_on-Sound source p e w fits run =
      dispatch_and_reply-Sound request source (put_pipeline request p e) w
        (put-Stands p e fits run).2

  spawn_commit-Running :
      (hash : Text) (count : ℕ) (r : Result ℕ) (db : Db) (e : ShardEngine)
      → Running e
      → Running (spawn_commit request hash count (r, db) e)
  spawn_commit-Running hash count (ok id) db e run = run
  spawn_commit-Running hash count (err x) db e run = run

  respond-Running :
      (p : PipelineState) (winner : Option (Text × ℕ)) (e : ShardEngine)
      → Running e
      → Running (respond host request p winner e)
  respond-Running p none e run = run
  respond-Running p (some (wallet, n)) e run = spawn_commit-Running _ _ _ _ e run

  finalize_found-Running :
      (p : Option PipelineState) (e : ShardEngine)
      → Running e
      → Running (finalize_found host request p e)
  finalize_found-Running none e run = run
  finalize_found-Running (some p) e run =
      respond-Running p (select_winning_wallet p.contributions) _
        (Entries-remove Fits request e.pipelines run)

  finalize_pipeline-Running :
      (e : ShardEngine) → Running e → Running (finalize_pipeline host request e)
  unfolding finalize_pipeline
  finalize_pipeline-Running e run = finalize_found-Running (lookup request e.pipelines) e run

  -- The shard of the next token is the first, and its index is not past the number of tokens.
  pub next_token-Fits :
      (token_id : ℕ) (p : PipelineState)
      → Fits request p
      → is_last_token p ≡ false
      → Fits request (next_token token_id (push_token token_id p))
  next_token-Fits token_id p (lt, tokens, room, bound) last = (
    omega arith,
    ground (arith, length-append p.generated_token_ids (token_id ∷ [])),
    ground arith,
    bound,
  )

  finalize_put-Running :
      (p : PipelineState) (e : ShardEngine)
      → Running e
      → Running (finalize_pipeline host request (put_pipeline request p e))
  unfolding finalize_pipeline
  finalize_put-Running p e run =
      let gone : Entries Fits (remove request (insert request p e.pipelines)) =
        subst (λ m. Entries Fits m) (sym (remove-insert request p e.pipelines))
          (Entries-remove Fits request e.pipelines run) in
      subst (λ q. Running (finalize_found host request q (put_pipeline request p e)))
        (sym (lookup-insert_same request p e.pipelines))
        (respond-Running p (select_winning_wallet p.contributions) _ gone)

  finish_token-Sound :
      (source : ModelSource) (p : PipelineState) (token_id : Option ℕ) (e : ShardEngine) (w : W)
      → Stands p e
      → Sound (finish_token host request source p token_id e w)
  finish_token-Sound source p none e w (fits, found, run) =
      (refl, Entries-remove Fits request e.pipelines run)
  finish_token-Sound source p (some t) e w (fits, found, run) =
      elim (Bool-cases (is_last_token p)) [
        | inl last ↦ rw last (refl, finalize_put-Running (push_token t p) e run)
        | inr more ↦ rw more (
            go_on-Sound source (next_token t (push_token t p)) e w (next_token-Fits t p fits more)
              run)
      ]

  hand_to_experts-Sound :
      (wallet : Text) (source : ModelSource) (result : OpoiShardResult) (ids : List ℕ)
      (p : PipelineState) (e : ShardEngine) (w : W)
      → Stands p e
      → More p
      → Sound
          (hand_to_experts host request wallet source result ids p (get_elem? p.shards p.pos) e w)
  hand_to_experts-Sound wallet source result ids p e w (fits, found, run) more =
      let (shard, here) = get_elem?-in_range p.shards p.pos fits.0 in
      subst (λ s. Sound (hand_to_experts host request wallet source result ids p s e w)) (sym here)
        (handle_expert_group_result-Sound wallet source ids
          (or_else result.moe_layer_step (or_zero shard.layer_end - 1)) result p e w
          (fits, found, run) more)

  hand_over-Sound :
      (wallet : Text) (source : ModelSource) (result : OpoiShardResult) (p : PipelineState)
      (ids : Option (List ℕ)) (e : ShardEngine) (w : W)
      → Stands p e
      → More p
      → Sound (hand_over host request wallet source result p ids e w)
  hand_over-Sound wallet source result p (some ids) e w stands more =
      hand_to_experts-Sound wallet source result ids p e w stands more
  hand_over-Sound wallet source result p none e w ((lt, tokens, room, bound), found, run) more =
      go_on-Sound source (next_shard result p) e w (more, tokens, room, bound) run

  finish_shard-Sound :
      (wallet : Text) (source : ModelSource) (result : OpoiShardResult) (p : PipelineState)
      (e : ShardEngine) (w : W)
      → Stands p e
      → Sound (finish_shard host request wallet source result p e w)
  finish_shard-Sound wallet source result p e w stands =
      elim (Bool-cases (p.pos + 1 == length p.shards)) [
        | inl last ↦ rw last (finish_token-Sound source p result.next_token_id e w stands)
        | inr more ↦
            let lt : p.pos < length p.shards = stands.0.0 in
            rw more (
              hand_over-Sound wallet source result p (expert_group_for p p.pos) e w stands
                (ground arith))
      ]

  submitted-Sound :
      (wallet : Text) (source : ModelSource) (result : OpoiShardResult) (p : PipelineState)
      (e : ShardEngine) (r : Result (Text × ShardResultTxRes)) (w : W) (pool : StakePool)
      → Stands p e
      → Sound (submitted host request wallet source result p e (r, w, pool))
  submitted-Sound wallet source result p e (ok x) w pool stands =
      finish_shard-Sound wallet source result p (record e { stake_pool = pool }) w stands
  submitted-Sound wallet source result p e (err x) w pool (fits, found, run) = (refl, run)

  settle_shard-Sound :
      (wallet : Text) (source : ModelSource) (result : OpoiShardResult) (p : PipelineState)
      (e : ShardEngine) (w : W)
      → Stands p e
      → Sound (settle_shard host request wallet source result p e w)
  settle_shard-Sound wallet source result p e w stands =
      let (r, w', pool) = try_each (submission host request result) e.stake_pool w in
      elim (Bool-cases (is_last_token p)) [
        | inl last ↦ rw last (submitted-Sound wallet source result p e r w' pool stands)
        | inr more ↦ rw more (finish_shard-Sound wallet source result p e w stands)
      ]

  walk_on-Sound :
      (wallet : Text) (source : ModelSource) (result : OpoiShardResult) (layer_idx : ℕ)
      (p : PipelineState) (ids : Option (List ℕ)) (e : ShardEngine) (w : W)
      → Stands p e
      → Sound (walk_on host request wallet source result layer_idx p ids e w)
  walk_on-Sound wallet source result layer_idx p none e w (fits, found, run) =
      (refl, Entries-remove Fits request e.pipelines run)
  walk_on-Sound wallet source result layer_idx p (some ids) e w stands =
      handle_moe_interior_layer_result-Sound wallet source ids layer_idx result p e w stands

  settle_layer-Sound :
      (wallet : Text) (source : ModelSource) (result : OpoiShardResult) (layer_idx : ℕ)
      (p : PipelineState) (shard : ShardDescriptor) (e : ShardEngine) (w : W)
      → Stands p e
      → Sound (settle_layer host request wallet source result layer_idx p (some shard) e w)
  settle_layer-Sound wallet source result layer_idx p shard e w stands =
      elim (Bool-cases (stays_in_range layer_idx (or_zero shard.layer_end) p.manifest.num_layers)) [
        | inl stays ↦
            rw stays
              (walk_on-Sound wallet source result layer_idx p (expert_group_for p p.pos) e w stands)
        | inr leaves ↦ rw leaves (settle_shard-Sound wallet source result p e w stands)
      ]

  settle_step-Sound :
      (wallet : Text) (source : ModelSource) (result : OpoiShardResult) (p : PipelineState)
      (step : Option ℕ) (e : ShardEngine) (w : W)
      → Stands p e
      → Sound (settle_step host request wallet source result p step e w)
  settle_step-Sound wallet source result p none e w stands =
      settle_shard-Sound wallet source result p e w stands
  settle_step-Sound wallet source result p (some layer_idx) e w stands =
      let (shard, here) = get_elem?-in_range p.shards p.pos stands.0.0 in
      subst (λ s. Sound (settle_layer host request wallet source result layer_idx p s e w))
        (sym here) (settle_layer-Sound wallet source result layer_idx p shard e w stands)

  take_with-Sound :
      (wallet : Text) (result : OpoiShardResult) (p : PipelineState) (e : ShardEngine)
      (source : Option ModelSource) (w : W)
      → Fits request p
      → Running e
      → Sound (take_with host request wallet result p e (source, w))
  take_with-Sound wallet result p e none w fits run = (refl, run)
  take_with-Sound wallet result p e (some source) w fits run =
      settle_step-Sound wallet source result (credit_step wallet p) result.moe_layer_step
        (put_pipeline request (credit_step wallet p) e) w
        (put-Stands (credit_step wallet p) e fits run)

  take_result-Sound :
      (wallet : Text) (result : OpoiShardResult) (e : ShardEngine) (w : W)
      → Running e
      → Sound (take_result host request wallet result e w)
  take_result-Sound wallet result e w run =
      let freed : ShardEngine = record e { assignments = remove request e.assignments } in
      elim (Option-cases (lookup request e.pipelines)) [
        | inl gone ↦
            subst (λ p. Sound (take_for host request wallet result p freed w)) (sym gone)
              (refl, run)
        | inr (p, found) ↦
            let (source, w') = host.resolve p.manifest.model_id w in
            subst (λ p. Sound (take_for host request wallet result p freed w)) (sym found)
              (take_with-Sound wallet result p freed source w'
                (Entries-lookup Fits request p e.pipelines run found) run)
      ]

  pub check_assignment-Sound :
      (wallet : Text) (result : OpoiShardResult) (a : Option ShardAssignment) (e : ShardEngine)
      (w : W)
      → Running e
      → Sound (check_assignment host request wallet result a e w)
  check_assignment-Sound wallet result none e w run = (refl, run)
  check_assignment-Sound wallet result (some a) e w run =
      elim (Bool-cases (is_of wallet result a)) [
        | inl its ↦ rw its (take_result-Sound wallet result e w run)
        | inr other ↦ rw other (refl, run)
      ]
