-- ===== src/Speculative/Results.antt =====
-- What the miners answer, in src/opoi/speculative_engine.rs: `handle_shard_result` and
-- `handle_draft_result`. A handler is one step: what other handlers do while it awaits the tokenizer
-- is not modelled. The tokenizer, which is fetched and run, is a library's.
use cs_stratum_bridge.Base.{
  ℕ, ◌+◌, ◌%◌, ◌^◌, ◌==◌, leb, if◌then◌else◌, Text, text_key, ◌=ₖ◌, lookup, insert, remove, Bool,
  false, not, ◌||◌, Option, none, some, List, [], ◌∷◌, ◌++◌, length, take,
}
use cs_stratum_bridge.AppError.{unknown_request, not_assigned_to_caller, Result, ok, err}
use cs_stratum_bridge.Wire.{
  ShardInputWire, prompt, token_ids, tensor, next_token_id, ShardOutputWire, OpoiShardResult,
  OpoiDraftResult,
}
use cs_stratum_bridge.Contributions.{bump}
use cs_stratum_bridge.Speculative.Round.{RoundOutcome, greedy_verify_round, kv_keep_len}
use cs_stratum_bridge.Speculative.Pipeline.{
  Phase, prompt_processing, awaiting_draft, verifying, awaiting_rollback, SpecPipeline,
  SpeculativeEngine,
}
use cs_stratum_bridge.Speculative.Dispatch.{dispatch_shard_step, dispatch_draft}
use cs_stratum_bridge.Speculative.Rollback.{begin_rollback}

-- What the caller gets, or that the handler panicked.
pub data Reply : Type 0 where
  replied : Result (Unit {0}) → Reply
  panicked : Reply

abbrev pub done : SpeculativeEngine → Reply × SpeculativeEngine
done e = (replied (ok tt), e)

abbrev pub drop_pipeline : Text → SpeculativeEngine → Reply × SpeculativeEngine
drop_pipeline request e = done (record e { pipelines = remove request e.pipelines })

abbrev pub put_pipeline : Text → SpecPipeline → SpeculativeEngine → SpeculativeEngine
put_pipeline request p e = record e { pipelines = insert request p e.pipelines }

abbrev pub output_tensor : ShardOutputWire → ShardInputWire
output_tensor o = tensor o.shape o.data_hex

-- The text of the prompt, if it is still the input of the phase.
abbrev pub prompt_of : ShardInputWire → Text
prompt_of (prompt prompt_hex) = prompt_hex
prompt_of (next_token_id _) = []
prompt_of (token_ids _) = []
prompt_of (tensor _ _) = []

abbrev pub is_finalizing : ℕ → ℕ → ℕ → Bool
is_finalizing base accepted_count max_tokens = leb max_tokens ((base + accepted_count + 1) % 2 ^ 32)

abbrev pub carried : Option ℕ → List ℕ → List ℕ
carried none ids = ids
carried (some c) ids = c ∷ ids

-- The end of a verify pass: the tokens that the round commits, and its rollback.
abbrev pub settle_round :
    Text
    → SpecPipeline
    → List ℕ
    → Option RoundOutcome
    → SpeculativeEngine
    → Reply × SpeculativeEngine
settle_round request p draft_token_ids none e = (panicked, e)
settle_round request p draft_token_ids (some outcome) e = done (
    begin_rollback request outcome (kv_keep_len p.base p.carry outcome.accepted_count)
      (length draft_token_ids) (is_finalizing p.base outcome.accepted_count p.max_tokens)
      (put_pipeline request
        (record p {
          generated_token_ids =
              (p.generated_token_ids ++ take outcome.accepted_count draft_token_ids)
              ++ outcome.settle_token ∷ [];
        })
        e))

abbrev pub finish_verify :
    Text → SpecPipeline → List ℕ → Option (List ℕ) → SpeculativeEngine → Reply × SpeculativeEngine
finish_verify request p draft_token_ids none e = drop_pipeline request e
finish_verify request p draft_token_ids (some target_logits) e =
    settle_round request p draft_token_ids
      (greedy_verify_round p.carry p.expected0 draft_token_ids target_logits) e

module _ (count_prompt_tokens : Text → Text → Text → Option ℕ) where
  abbrev pub seed_base :
      Text → SpecPipeline → ℕ → Option ℕ → SpeculativeEngine → Reply × SpeculativeEngine
  seed_base request p t0 none e = drop_pipeline request e
  seed_base request p t0 (some base) e = done (
      dispatch_draft request
        (put_pipeline request (record p { base = base; expected0 = t0; phase = awaiting_draft }) e))

  abbrev pub finish_prompt :
      Text
      → SpecPipeline
      → ShardInputWire
      → Option ℕ
      → SpeculativeEngine
      → Reply × SpeculativeEngine
  finish_prompt request p input none e = drop_pipeline request e
  finish_prompt request p input (some t0) e =
      seed_base request p t0
        (count_prompt_tokens p.source.tokenizer_url p.source.tokenizer_sha256 (prompt_of input)) e

  -- The phase decides; a result for a phase that does not relay is stale.
  abbrev pub advance :
      Text → OpoiShardResult → SpecPipeline → Phase → SpeculativeEngine → Reply × SpeculativeEngine
  advance request result p awaiting_draft e = done e
  advance request result p (awaiting_rollback _) e = done e
  advance request result p (prompt_processing pos input) e =
      if pos + 1 == length p.shards
      then finish_prompt request p input result.next_token_id e
      else done (
          dispatch_shard_step request (
            put_pipeline request
              (record p { phase = prompt_processing (pos + 1) (output_tensor result.output) }) e))
  advance request result p (verifying pos input ids) e =
      if pos + 1 == length p.shards
      then finish_verify request p ids result.next_token_ids e
      else done (
          dispatch_shard_step request (
            put_pipeline request
              (record p { phase = verifying (pos + 1) (output_tensor result.output) ids }) e))

  -- The result is taken: its assignment ends, and the wallet is credited with the step.
  abbrev pub accept_result : Text → OpoiShardResult → SpeculativeEngine → Reply × SpeculativeEngine
  accept_result wallet result e =
      let request = result.request_id in
      let freed : SpeculativeEngine = record e {
        shard_assignments = remove request e.shard_assignments;
      } in
      elim (lookup request e.pipelines) [
        | none ↦ (replied (err unknown_request), freed)
        | some p ↦
            let p' : SpecPipeline = record p { contributions = bump wallet p.contributions } in
            advance request result p' p'.phase (put_pipeline request p' freed)
      ]

  unfoldable pub handle_shard_result :
      Text → OpoiShardResult → SpeculativeEngine → Reply × SpeculativeEngine
  handle_shard_result wallet result e = elim (lookup result.request_id e.shard_assignments) [
    | none ↦ (replied (err unknown_request), e)
    | some a ↦
        if not (a.wallet =ₖ wallet) || not (a.shard_index == result.shard_index)
        then (replied (err not_assigned_to_caller), e)
        else accept_result wallet result e
  ]

abbrev pub is_held_by : Text → Option Text → Bool
is_held_by wallet none = false
is_held_by wallet (some w) = w =ₖ wallet

abbrev pub verify_drafts : Text → List ℕ → SpeculativeEngine → SpeculativeEngine
verify_drafts request ids e = elim (lookup request e.pipelines) [
  | none ↦ e
  | some p ↦ dispatch_shard_step request (
      put_pipeline request
        (record p {
          round = (p.round + 1) % 2 ^ 32;
          phase = verifying 0 (token_ids (carried p.carry ids)) ids;
        })
        e)
]

-- An empty draft leaves the pipeline waiting; the next tick asks again.
abbrev pub take_drafts : Text → List ℕ → SpeculativeEngine → SpeculativeEngine
take_drafts request [] e = e
take_drafts request (t ∷ ts) e = verify_drafts request (t ∷ ts) e

unfoldable pub handle_draft_result : Text → OpoiDraftResult → SpeculativeEngine → SpeculativeEngine
handle_draft_result wallet result e =
    if is_held_by wallet (lookup result.request_id e.draft_assignments)
    then take_drafts result.request_id result.draft_token_ids
        (record e { draft_assignments = remove result.request_id e.draft_assignments })
    else e
