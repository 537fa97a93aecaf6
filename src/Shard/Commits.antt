-- ===== src/Shard/Commits.antt =====
-- What src/opoi/shard_engine.rs commits: `finalize_pipeline` within `handle_shard_result`.
use cs_stratum_bridge.Base.{
  ℕ, ◌+◌, ◌-◌, ◌%◌, ◌^◌, ◌==◌, ◌≡◌, refl, ap, sym, subst, ◌∙◌, ◌⊎◌, inl, inr, Text, text_key,
  lookup, remove, lookup-insert_same, lookup-remove, true, Bool-cases, Option, none, some, List, [],
  ◌∷◌, ◌++◌, append-nil, length, length-append, get_elem?, arith,
}
use Prim.Native.Nat.{max}
use cs_stratum_bridge.AppError.{Result, ok, err}
use cs_stratum_bridge.Bytes.{encode_tokens}
use cs_stratum_bridge.Wire.{OpoiShardResult}
use cs_stratum_bridge.Rpc.{ShardDescriptor, ShardResultTxRes}
use cs_stratum_bridge.Db.{Db}
use cs_stratum_bridge.Db.Submissions.{create_submission}
use cs_stratum_bridge.StakePool.{StakePool, try_each}
use cs_stratum_bridge.Contributions.{select_winning_wallet}
use cs_stratum_bridge.Engine.Submit.{SpawnedCommit}
use cs_stratum_bridge.Speculative.Pipeline.{ModelSource}
use cs_stratum_bridge.Speculative.Dispatch.{or_zero}
use cs_stratum_bridge.Shard.{PipelineState, ShardEngine, expert_group_for, build_response}
use cs_stratum_bridge.Shard.Host.{ShardHost}
use cs_stratum_bridge.Shard.Finish.{
  spawn_commit, respond, finalize_found, finalize_pipeline, record_b3lite_receipt,
}
use cs_stratum_bridge.Shard.FanOut.{
  selection, to_next_shard, to_next_layer, handle_expert_group_result,
  handle_moe_interior_layer_result,
}
use cs_stratum_bridge.Shard.Results.{
  stays_in_range, or_else, put_pipeline, push_token, next_shard, next_token, is_last_token, go_on,
  finish_token, hand_to_experts, hand_over, finish_shard, submission, submitted, settle_shard,
  walk_on, settle_layer, settle_step,
}
use cs_stratum_bridge.Shard.Running.{Fits}
use cs_stratum_bridge.Shard.Quiet.{Quiet, dispatch_current-Quiet}
use cs_stratum_bridge.Shard.Silent.{fan_out_selected-Quiet}

abbrev pub tokens_with : PipelineState → ℕ → List ℕ
tokens_with p token_id = p.generated_token_ids ++ token_id ∷ []

-- The commit of a row, if it was written.
abbrev pub commits : Text → Text → ℕ → Result ℕ → List SpawnedCommit
commits request hash count (err _) = []
commits request hash count (ok id) =
    record { submission_id = id; request_id = request; response_hash = hash; token_count = count }
    ∷ []

module _ {W : Type 0} (host : ShardHost W) (request : Text) where
  abbrev pub hash_of : List ℕ → Text
  hash_of ids = host.experts.hex_encode (host.experts.sha256 (encode_tokens ids))

  -- The receipt, if receipts are kept, and the row of the answer.
  abbrev pub written : Text → PipelineState → ShardEngine → Result ℕ × Db
  written winner p e =
      create_submission winner request (some p.manifest.model_id) (some p.prompt_hash) none none
        (hash_of p.generated_token_ids)
        (host.experts.hex_encode (encode_tokens p.generated_token_ids))
        (length p.generated_token_ids)
        (record_b3lite_receipt host request winner p (hash_of p.generated_token_ids) e.b3lite e.db)

  -- `p` ends with the token `t`, and the row goes to `winner`.
  abbrev pub FinishesWith : ℕ → Text → ℕ → PipelineState → ShardEngine → ShardEngine → Type 0
  FinishesWith t winner n p e e' =
      (p.pos + 1 ≡ length p.shards)
      × (length (tokens_with p t) ≡ max 1 p.max_tokens)
      × (select_winning_wallet p.contributions ≡ some (winner, n))
      × (e'.db ≡ (written winner (push_token t p) e).1)
      × (e'.spawned
          ≡ e.spawned
            ++ commits request (hash_of (tokens_with p t)) (length (tokens_with p t))
                (written winner (push_token t p) e).0)
      × (lookup request e'.pipelines ≡ none)

  -- `p` ends with a last token: the tokens are as many as were asked for, at least one, who has
  -- delivered most steps gets the row, the row is committed once, and the pipeline is gone.
  abbrev pub Finishes : PipelineState → ShardEngine → ShardEngine → Type 0
  Finishes p e e' = (t : ℕ) × (winner : Text) × (n : ℕ) × FinishesWith t winner n p e e'

  abbrev pub Settles : PipelineState → ShardEngine → ShardEngine → Type 0
  Settles p e e' = Quiet e e' ⊎ Finishes p e e'

  spawn_commit-commits :
      (hash : Text) (count : ℕ) (r : Result ℕ) (db : Db) (e : ShardEngine)
      → ((spawn_commit request hash count (r, db) e).db ≡ db)
        × ((spawn_commit request hash count (r, db) e).spawned
            ≡ e.spawned ++ commits request hash count r)
        × ((spawn_commit request hash count (r, db) e).pipelines ≡ e.pipelines)
  spawn_commit-commits hash count (ok id) db e = (refl, refl, refl)
  spawn_commit-commits hash count (err x) db e = (refl, sym (append-nil e.spawned), refl)

  -- The tokens are counted without wrapping.
  tokens-count :
      (p : PipelineState) (t : ℕ)
      → Fits request p
      → is_last_token p ≡ true
      → (length (tokens_with p t) ≡ max 1 p.max_tokens)
        × (length (tokens_with p t) % 2 ^ 32 ≡ length (tokens_with p t))
  tokens-count p t (lt, tokens, room, bound) last =
      let count : length (tokens_with p t) ≡ p.token_index + 1 =
        ground (arith, length-append p.generated_token_ids (t ∷ [])) in
      (ground arith, ground arith)

  pub finalize_put-FinishesWith :
      (p : PipelineState) (t : ℕ) (winner : Text) (n : ℕ) (e : ShardEngine)
      → Fits request p
      → p.pos + 1 ≡ length p.shards
      → is_last_token p ≡ true
      → select_winning_wallet p.contributions ≡ some (winner, n)
      → FinishesWith t winner n p e
          (finalize_pipeline host request (put_pipeline request (push_token t p) e))
  unfolding finalize_pipeline build_response
  finalize_put-FinishesWith p t winner n e fits end last won =
      let p' : PipelineState = push_token t p in
      let put : ShardEngine = put_pipeline request p' e in
      let gone : ShardEngine = record put { pipelines = remove request put.pipelines } in
      let ids : List ℕ = p'.generated_token_ids in
      let (enough, count) = tokens-count p t fits last in
      let (db, spawned, same) =
        spawn_commit-commits (hash_of ids) (length ids) (written winner p' e).0
          (written winner p' e).1 gone in
      let missing : lookup request gone.pipelines ≡ none =
        ground (arith, lookup-remove request request put.pipelines) in
      subst (λ q. FinishesWith t winner n p e (finalize_found host request q put))
        (sym (lookup-insert_same request p' e.pipelines))
        (subst (λ s. FinishesWith t winner n p e (respond host request p' s gone)) (sym won)
          (subst
            (λ c. FinishesWith t winner n p e (
              spawn_commit request (hash_of ids) c
                (create_submission winner request (some p.manifest.model_id) (some p.prompt_hash)
                  none none (hash_of ids) (host.experts.hex_encode (encode_tokens ids)) c
                  (record_b3lite_receipt host request winner p' (hash_of ids) e.b3lite e.db))
                gone))
            (sym count) (end, enough, won, db, spawned, ap (λ m. lookup request m) same ∙ missing)))

  put-Settles :
      (p q : PipelineState) (source : ModelSource) (e : ShardEngine) (w : W)
      → Settles p e (go_on host request source q e w).1
  put-Settles p q source e w =
      inl (dispatch_current-Quiet request source (put_pipeline request q e))

  finish_token-Settles :
      (source : ModelSource) (p : PipelineState) (token_id : Option ℕ) (winner : Text) (n : ℕ)
      (e : ShardEngine) (w : W)
      → Fits request p
      → p.pos + 1 ≡ length p.shards
      → select_winning_wallet p.contributions ≡ some (winner, n)
      → Settles p e (finish_token host request source p token_id e w).1
  finish_token-Settles source p none winner n e w fits end won = inl (refl, refl)
  finish_token-Settles source p (some t) winner n e w fits end won =
      elim (Bool-cases (is_last_token p)) [
        | inl last ↦
            rw last (inr (t, winner, n, finalize_put-FinishesWith p t winner n e fits end last won))
        | inr more ↦ rw more (put-Settles p (next_token t (push_token t p)) source e w)
      ]

  hand_to_experts-Settles :
      (wallet : Text) (source : ModelSource) (result : OpoiShardResult) (ids : List ℕ)
      (p : PipelineState) (shard : Option ShardDescriptor) (e : ShardEngine) (w : W)
      → Settles p e (hand_to_experts host request wallet source result ids p shard e w).1
  unfolding handle_expert_group_result
  hand_to_experts-Settles wallet source result ids p none e w = inl (refl, refl)
  hand_to_experts-Settles wallet source result ids p (some shard) e w = inl (
      fan_out_selected-Quiet host to_next_shard request source
        (or_else result.moe_layer_step (or_zero shard.layer_end - 1)) wallet result ids p
        (selection ids result.router_selection) e w)

  hand_over-Settles :
      (wallet : Text) (source : ModelSource) (result : OpoiShardResult) (p : PipelineState)
      (ids : Option (List ℕ)) (e : ShardEngine) (w : W)
      → Settles p e (hand_over host request wallet source result p ids e w).1
  hand_over-Settles wallet source result p none e w = put-Settles p (next_shard result p) source e w
  hand_over-Settles wallet source result p (some ids) e w =
      hand_to_experts-Settles wallet source result ids p (get_elem? p.shards p.pos) e w

  module _ (wallet : Text) (source : ModelSource) (result : OpoiShardResult) (p : PipelineState)
      (fits : Fits request p) (winner : Text) (n : ℕ)
      (won : select_winning_wallet p.contributions ≡ some (winner, n)) where
    finish_shard-Settles :
        (e : ShardEngine) (w : W)
        → Settles p e (finish_shard host request wallet source result p e w).1
    finish_shard-Settles e w = elim (Bool-cases (p.pos + 1 == length p.shards)) [
      | inl last ↦
          rw last (
            finish_token-Settles source p result.next_token_id winner n e w fits (ground arith) won)
      | inr more ↦ rw more (hand_over-Settles wallet source result p (expert_group_for p p.pos) e w)
    ]

    submitted-Settles :
        (e : ShardEngine) (r : Result (Text × ShardResultTxRes)) (w : W) (pool : StakePool)
        → Settles p e (submitted host request wallet source result p e (r, w, pool)).1
    submitted-Settles e (ok x) w pool = finish_shard-Settles (record e { stake_pool = pool }) w
    submitted-Settles e (err x) w pool = inl (refl, refl)

    settle_shard-Settles :
        (e : ShardEngine) (w : W)
        → Settles p e (settle_shard host request wallet source result p e w).1
    settle_shard-Settles e w =
        let (r, w', pool) = try_each (submission host request result) e.stake_pool w in
        elim (Bool-cases (is_last_token p)) [
          | inl last ↦ rw last (submitted-Settles e r w' pool)
          | inr more ↦ rw more (finish_shard-Settles e w)
        ]

    walk_on-Settles :
        (layer_idx : ℕ) (ids : Option (List ℕ)) (e : ShardEngine) (w : W)
        → Settles p e (walk_on host request wallet source result layer_idx p ids e w).1
    unfolding handle_moe_interior_layer_result
    walk_on-Settles layer_idx none e w = inl (refl, refl)
    walk_on-Settles layer_idx (some ids) e w = inl (
        fan_out_selected-Quiet host to_next_layer request source layer_idx wallet result ids p
          (selection ids result.router_selection) e w)

    settle_layer-Settles :
        (layer_idx : ℕ) (shard : Option ShardDescriptor) (e : ShardEngine) (w : W)
        → Settles p e (settle_layer host request wallet source result layer_idx p shard e w).1
    settle_layer-Settles layer_idx none e w = inl (refl, refl)
    settle_layer-Settles layer_idx (some shard) e w =
        elim (Bool-cases
          (stays_in_range layer_idx (or_zero shard.layer_end) p.manifest.num_layers)) [
            | inl stays ↦ rw stays (walk_on-Settles layer_idx (expert_group_for p p.pos) e w)
            | inr leaves ↦ rw leaves (settle_shard-Settles e w)
          ]

    pub settle_step-Settles :
        (step : Option ℕ) (e : ShardEngine) (w : W)
        → Settles p e (settle_step host request wallet source result p step e w).1
    settle_step-Settles none e w = settle_shard-Settles e w
    settle_step-Settles (some layer_idx) e w =
        settle_layer-Settles layer_idx (get_elem? p.shards p.pos) e w
