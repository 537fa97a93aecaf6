-- ===== src/Speculative/Rollback.antt =====
-- The end of a round of src/opoi/speculative_engine.rs: `begin_rollback`, `handle_kv_rollback_ack`,
-- `finalize_pipeline` and `on_disconnect`. The digest and the hexadecimal text are a library's.
use cs_stratum_bridge.Base.{
  ℕ, ◌%◌, ◌^◌, ◌==◌, if◌then◌else◌, Text, text_key, nat_key, ◌=ₖ◌, Set, lookup, insert, remove,
  retain, Bool, true, false, not, ◌&&◌, Option, none, some, List, [], ◌∷◌, length,
}
use cs_stratum_bridge.Bytes.{encode_tokens}
use cs_stratum_bridge.AppError.{Result, ok, err}
use cs_stratum_bridge.Registry.{get, pick_next}
use cs_stratum_bridge.Wire.{OpoiKvRollback, OpoiKvRollbackAck, draft_session_shard_index}
use cs_stratum_bridge.Rpc.{ShardDescriptor}
use cs_stratum_bridge.Contributions.{select_winning_wallet}
use cs_stratum_bridge.Db.{Db}
use cs_stratum_bridge.Db.Submissions.{create_submission}
use cs_stratum_bridge.Speculative.Round.{RoundOutcome, next_k}
use cs_stratum_bridge.Speculative.Pipeline.{
  Phase, prompt_processing, awaiting_draft, verifying, awaiting_rollback, RollbackState,
  SpecPipeline, ShardStepAssignment, sends_kv_rollback, spawns_submit_shard_result,
  spawns_do_commit, SpeculativeEngine, emit,
}
use cs_stratum_bridge.Speculative.Dispatch.{dispatch_draft}

-- A line to a wallet, if there is one and it is connected.
abbrev pub send_rollback : Option Text → OpoiKvRollback → SpeculativeEngine → SpeculativeEngine
send_rollback none line e = e
send_rollback (some wallet) line e = elim (get wallet e.registry) [
  | none ↦ e
  | some tx ↦ emit (sends_kv_rollback tx line) e
]

abbrev pub rollback : Text → ℕ → ℕ → Bool → OpoiKvRollback
rollback request shard keep_len finalize = record {
  request_id = request;
  shard_index = shard;
  keep_until_pos = keep_len % 2 ^ 32;
  finalize = finalize;
}

-- The loop over the shards: `last_shard_wallet` stays, so each goes to the same wallet.
abbrev pub roll_shards :
    Text → List ShardDescriptor → ℕ → Bool → SpeculativeEngine → SpeculativeEngine
roll_shards request [] keep_len finalize e = e
roll_shards request (s ∷ ss) keep_len finalize e = roll_shards request ss keep_len finalize (
    send_rollback (pick_next e.last_shard_wallet e.registry)
      (rollback request s.shard_index keep_len finalize) e)

abbrev pub shard_indices : List ShardDescriptor → Set ℕ
shard_indices [] = insert draft_session_shard_index tt []
shard_indices (s ∷ ss) = insert s.shard_index tt (shard_indices ss)

abbrev pub await_rollback :
    Text → RoundOutcome → ℕ → ℕ → Bool → Option SpecPipeline → SpeculativeEngine → SpeculativeEngine
await_rollback request outcome keep_len k_this_round is_finalizing_round none e = e
await_rollback request outcome keep_len k_this_round is_finalizing_round (some p) e =
    let sent : SpeculativeEngine =
      send_rollback p.draft_wallet (rollback request draft_session_shard_index keep_len false)
        (roll_shards request p.shards keep_len is_finalizing_round e) in
    record sent {
      pipelines =
          insert request
            (record p {
              phase = awaiting_rollback (record {
                pending = shard_indices p.shards;
                accepted_count = outcome.accepted_count;
                k_this_round = k_this_round;
                settle_token = outcome.settle_token;
                keep_len = keep_len;
                is_finalizing_round = is_finalizing_round;
              });
            })
            sent.pipelines;
    }

unfoldable pub begin_rollback :
    Text → RoundOutcome → ℕ → ℕ → Bool → SpeculativeEngine → SpeculativeEngine
begin_rollback request outcome keep_len k_this_round is_finalizing_round e =
    await_rollback request outcome keep_len k_this_round is_finalizing_round
      (lookup request e.pipelines) e

abbrev pub settle_submission :
    Text → Text → ℕ → Result ℕ × Db → SpeculativeEngine → SpeculativeEngine
settle_submission request response_hash token_count (ok id, db) e =
    emit (spawns_do_commit id request response_hash token_count) (record e { db = db })
settle_submission request response_hash token_count (err _, db) e = record e { db = db }

-- The pipeline at the start of its next round.
abbrev pub resumed : RollbackState → SpecPipeline → SpecPipeline
resumed state p = record p {
  base = state.keep_len;
  carry = some state.settle_token;
  expected0 = state.settle_token;
  k = next_k p.k state.accepted_count state.k_this_round;
  phase = awaiting_draft;
}

abbrev pub has_none : Set ℕ → Bool
has_none [] = true
has_none (_ ∷ _) = false

module _ (hex_encode sha256 : List ℕ → Text) where
  abbrev pub respond :
      Text → SpecPipeline → Option (Text × ℕ) → SpeculativeEngine → SpeculativeEngine
  respond request p none e = e
  respond request p (some (winning_wallet, _)) e =
      let raw : List ℕ = encode_tokens p.generated_token_ids in
      let response_hash : Text = hex_encode (sha256 raw) in
      let token_count : ℕ = length p.generated_token_ids % 2 ^ 32 in
      settle_submission request response_hash token_count
        (create_submission winning_wallet request (some p.manifest.model_id) (some p.prompt_hash)
          none none response_hash (hex_encode raw) token_count e.db)
        e

  unfoldable pub finalize_pipeline : Text → SpeculativeEngine → SpeculativeEngine
  finalize_pipeline request e = elim (lookup request e.pipelines) [
    | none ↦ e
    | some p ↦
        respond request p (select_winning_wallet p.contributions)
          (record e { pipelines = remove request e.pipelines })
  ]

  abbrev pub submits :
      OpoiKvRollbackAck → Option Text → Bool → SpeculativeEngine → SpeculativeEngine
  submits ack none finalizing e = e
  submits ack (some hash) finalizing e =
      if not (ack.shard_index == draft_session_shard_index) && finalizing
      then emit (spawns_submit_shard_result ack.request_id ack.shard_index hash) e
      else e

  -- Every acknowledgement is in.
  abbrev pub end_round : Text → SpecPipeline → RollbackState → SpeculativeEngine → SpeculativeEngine
  end_round request p state e =
      if state.is_finalizing_round
      then finalize_pipeline request e
      else dispatch_draft request
          (record e { pipelines = insert request (resumed state p) e.pipelines })

  abbrev pub acknowledge :
      OpoiKvRollbackAck → SpecPipeline → Phase → SpeculativeEngine → SpeculativeEngine
  acknowledge ack p (prompt_processing _ _) e = e
  acknowledge ack p awaiting_draft e = e
  acknowledge ack p (verifying _ _ _) e = e
  acknowledge ack p (awaiting_rollback state) e =
      let pending : Set ℕ = remove ack.shard_index state.pending in
      let state' : RollbackState = record state { pending = pending } in
      let p' : SpecPipeline = record p { phase = awaiting_rollback state' } in
      let told : SpeculativeEngine =
        submits ack ack.finalized_hash state.is_finalizing_round
          (record e { pipelines = insert ack.request_id p' e.pipelines }) in
      if has_none pending then end_round ack.request_id p' state' told else told

  abbrev pub acknowledge_on :
      OpoiKvRollbackAck → Option SpecPipeline → SpeculativeEngine → SpeculativeEngine
  acknowledge_on ack none e = e
  acknowledge_on ack (some p) e = acknowledge ack p p.phase e

  -- The wallet of the caller is not looked at.
  unfoldable pub handle_kv_rollback_ack :
      Text → OpoiKvRollbackAck → SpeculativeEngine → SpeculativeEngine
  handle_kv_rollback_ack wallet ack e = acknowledge_on ack (lookup ack.request_id e.pipelines) e

-- `as_deref() == Some(wallet)`.
abbrev pub is_pinned_to : Text → SpecPipeline → Bool
is_pinned_to wallet p = elim p.draft_wallet [ none ↦ false | some w ↦ w =ₖ wallet ]

unfoldable pub on_disconnect : Text → SpeculativeEngine → SpeculativeEngine
on_disconnect wallet e = record e {
  shard_assignments =
      retain (λ (a : ShardStepAssignment). not (a.wallet =ₖ wallet)) e.shard_assignments;
  draft_assignments = retain (λ (w : Text). not (w =ₖ wallet)) e.draft_assignments;
  pipelines = retain (λ (p : SpecPipeline). not (is_pinned_to wallet p)) e.pipelines;
}
