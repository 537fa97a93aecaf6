-- ===== src/Shard/Honest.antt =====
-- A run of a pipeline of dense shards whose miners answer, to its end: `handle_shard_result` of
-- src/opoi/shard_engine.rs with what it dispatches.
use cs_stratum_bridge.Base.{
  ℕ, zero, suc, ◌+◌, ◌-◌, ◌*◌, ◌%◌, ◌^◌, ◌<◌, ◌==◌, ◌≡◌, refl, ap, sym, subst, ◌∙◌, ◌⊎◌, ◌≢◌,
  if◌then◌else◌, inl, inr, Text, text_key, lookup, remove, lookup-insert_same, true, Bool-cases,
  none, some, [], length, arith,
}
use Prim.Native.Nat.{max}
use cs_stratum_bridge.AppError.{not_assigned_to_caller, ok, err}
use cs_stratum_bridge.Wire.{OpoiShardResult}
use cs_stratum_bridge.Rpc.{ShardResultTxRes}
use cs_stratum_bridge.StakePool.{try_each}
use cs_stratum_bridge.StakePool.Rotation.{try_each-ok}
use cs_stratum_bridge.Contributions.{select_winning_wallet}
use cs_stratum_bridge.Speculative.Pipeline.{ModelSource}
use cs_stratum_bridge.Speculative.Results.{replied}
use cs_stratum_bridge.Shard.{PipelineState, ShardAssignment, ShardEngine, expert_group_for}
use cs_stratum_bridge.Shard.Dispatch.{dispatch_current}
use cs_stratum_bridge.Shard.Host.{ShardHost}
use cs_stratum_bridge.Shard.Results.{
  is_of, put_pipeline, credit_step, push_token, next_shard, next_token, is_last_token, finish_token,
  hand_over, finish_shard, submission, submitted, settle_shard, settle_step, take_result, take_with,
  take_for, check_assignment, delegate, handle_shard_result,
}
use cs_stratum_bridge.Shard.Running.{Fits}
use cs_stratum_bridge.Shard.Accepted.{next_token-Fits}
use cs_stratum_bridge.Shard.Quiet.{dispatch_current-Quiet}
use cs_stratum_bridge.Shard.Commits.{tokens_with, finalize_put-FinishesWith}
use cs_stratum_bridge.Shard.Answers.{bump-winner}
use cs_stratum_bridge.Shard.Sent.{may_work, step_of, dense-alone, dispatch_current-Sent}
use cs_stratum_bridge.Shard.Work.{
  steps_left, Work, result_of, answer, answer_all, Ready, Honest, Given, Given-append, Onward,
  Finished, Finished-trans, Ended,
}

steps-token : (l k n pos : ℕ) → l ≡ suc k → pos + 1 ≡ n → l * n + (n - pos) ≡ suc (k * n + (n - 0))
steps-token l k n pos here end =
    let product : suc k * n ≡ n + k * n = omega arith in
    ap (λ m. m * n + (n - pos)) here ∙ omega (arith, product)

-- A pipeline has a step left.
steps-some : (request : Text) (p : PipelineState) → Fits request p → steps_left p ≢ 0
steps-some request p (lt, tokens, room, bound) left = omega arith

module _ {W : Type 0} (host : ShardHost W) (request miner : Text) (work : Work)
    (source : ModelSource) where
  go_on-Onward :
      (p q : PipelineState) (e : ShardEngine)
      → Ready request miner p e
      → Fits request q
      → q.expert_groups ≡ []
      → q.moe_layer_walk ≡ none
      → q.max_tokens ≡ p.max_tokens
      → steps_left p ≡ suc (steps_left q)
      → Given work 0 q.generated_token_ids
      → Onward request miner work p e (dispatch_current request source (put_pipeline request q e))
  go_on-Onward p q e (_, _, _, _, alone, free, addresses) fits dense walk same fewer given =
      let put : ShardEngine = put_pipeline request q e in
      let (shard, wallet, log, here, found, held, registry, speculative, pool) =
        dispatch_current-Sent request source q put miner free
          (lookup-insert_same request q e.pipelines) fits.0 dense walk in
      (
        record q { dispatch_log = log },
        (
          (
            fits,
            dense,
            walk,
            found,
            speculative ∙ alone,
            ap (λ r. may_work miner r) registry ∙ free,
            subst (λ s. 0 < length s.addresses) (sym pool) addresses,
          ),
          shard,
          wallet,
          here,
          held,
        ),
        (dispatch_current-Quiet request source put).0,
        (dispatch_current-Quiet request source put).1,
        same,
        fewer,
        given,
      )

  finish_token-Next :
      (p : PipelineState) (t : ℕ) (winner : Text) (n : ℕ) (e : ShardEngine) (w : W)
      → Ready request miner p e
      → p.pos + 1 ≡ length p.shards
      → select_winning_wallet p.contributions ≡ some (winner, n)
      → Given work 0 (tokens_with p t)
      → let e' = (finish_token host request source p (some t) e w).1 in
        Ended host request work p e e' ⊎ Onward request miner work p e e'
  finish_token-Next p t winner n e w ready end won told =
      let (fits, dense, walk, found, alone, free, addresses) = ready in
      let (lt, tokens, room, bound) = fits in
      elim (Bool-cases (is_last_token p)) [
        | inl last ↦
            let (_, enough, _, db, spawned, gone) =
              finalize_put-FinishesWith host request p t winner n e fits end last won in
            let left : max 1 p.max_tokens - 1 - p.token_index ≡ 0 = ground arith in
            rw last (
              inl (
                ap (λ l. l * length p.shards + (length p.shards - p.pos)) left ∙ omega arith,
                (push_token t p, winner, e, enough, told, refl, db, spawned, gone),
              ))
        | inr more ↦
            let next : (p.token_index + 1) % 2 ^ 32 ≡ p.token_index + 1 = ground arith in
            let left : max 1 p.max_tokens - 1 - p.token_index
                ≡ suc (max 1 p.max_tokens - 1 - (p.token_index + 1) % 2 ^ 32) =
              ground arith in
            rw more (
              inr (
                go_on-Onward p (next_token t (push_token t p)) e ready
                  (next_token-Fits host request t p fits more) dense refl refl
                  (steps-token _ _ (length p.shards) p.pos left end) told))
      ]

  -- What follows from the credit is that somebody wins.
  module _ (wallet : Text) (result : OpoiShardResult) (t : ℕ)
      (reports : result.next_token_id ≡ some t) (p : PipelineState) (winner : Text) (n : ℕ)
      (won : select_winning_wallet p.contributions ≡ some (winner, n))
      (given : Given work 0 p.generated_token_ids) (told : Given work 0 (tokens_with p t)) where
    hand_over-Onward :
        (e : ShardEngine) (w : W)
        → Ready request miner p e
        → p.pos + 1 < length p.shards
        → Onward request miner work p e
            (hand_over host request wallet source result p (expert_group_for p p.pos) e w).1
    hand_over-Onward e w ready more =
        let ((lt, tokens, room, bound), dense, walk, found, alone, free, addresses) = ready in
        let fits : Fits request (next_shard result p) = (more, tokens, room, bound) in
        subst
          (λ ids.
            Onward request miner work p e (hand_over host request wallet source result p ids e w).1)
          (sym (dense-alone p p.pos dense))
          (go_on-Onward p (next_shard result p) e ready fits dense refl refl (omega arith) given)

    finish_shard-Next :
        (e : ShardEngine) (w : W)
        → Ready request miner p e
        → let e' = (finish_shard host request wallet source result p e w).1 in
          Ended host request work p e e' ⊎ Onward request miner work p e e'
    finish_shard-Next e w ready = elim (Bool-cases (p.pos + 1 == length p.shards)) [
      | inl last ↦
          let end : p.pos + 1 ≡ length p.shards = ground arith in
          rw last (
            subst
              (λ o.
                let e' = (finish_token host request source p o e w).1 in
                Ended host request work p e e' ⊎ Onward request miner work p e e')
              (sym reports) (finish_token-Next p t winner n e w ready end won told))
      | inr more ↦
          let lt : p.pos < length p.shards = ready.0.0 in
          rw more (inr (hand_over-Onward e w ready (ground arith)))
    ]

    settle_shard-Next :
        (takes : (addr : Text) (w : W)
          → (x : ShardResultTxRes) × ((submission host request result addr w).0 ≡ ok x))
        (e : ShardEngine) (w : W)
        → Ready request miner p e
        → let e' = (settle_shard host request wallet source result p e w).1 in
          Ended host request work p e e' ⊎ Onward request miner work p e e'
    settle_shard-Next takes e w ready =
        let (fits, dense, walk, found, alone, free, addresses) = ready in
        let (r, w', pool) = try_each (submission host request result) e.stake_pool w in
        let (x, taken, kept) =
          try_each-ok (submission host request result) takes e.stake_pool w addresses in
        let e1 : ShardEngine = record e { stake_pool = pool } in
        let ready1 : Ready request miner p e1 = (
          fits,
          dense,
          walk,
          found,
          alone,
          free,
          subst (λ addrs. 0 < length addrs) (sym kept) addresses,
        ) in
        elim (Bool-cases (is_last_token p)) [
          | inl last ↦ rw last (
              subst
                (λ r.
                  let e' = (submitted host request wallet source result p e (r, w', pool)).1 in
                  Ended host request work p e e' ⊎ Onward request miner work p e e')
                (sym taken) (finish_shard-Next e1 w' ready1))
          | inr more ↦ rw more (finish_shard-Next e w ready)
        ]

module _ {W : Type 0} (host : ShardHost W) (request miner : Text) (work : Work)
    (resolves : (model : Text) (w : W)
      → (source : ModelSource) × ((host.resolve model w).0 ≡ some source))
    (takes : (shard : ℕ) (addr hash : Text) (w : W)
      → (x : ShardResultTxRes) × ((host.csd.submit_shard_result request shard addr hash 0 w).0
          ≡ ok x)) where
  take_with-Next :
      (result : OpoiShardResult) (wallet : Text) (t : ℕ) (p : PipelineState) (e : ShardEngine)
      (w : W)
      → result.next_token_id ≡ some t
      → result.moe_layer_step ≡ none
      → Ready request miner p e
      → Given work 0 p.generated_token_ids
      → Given work 0 (tokens_with p t)
      → let e' =
          (take_with host request wallet result p e (host.resolve p.manifest.model_id w)).1 in
        Ended host request work p e e' ⊎ Onward request miner work p e e'
  take_with-Next result wallet t p e w reports plain ready given told =
      let (fits, dense, walk, found, alone, free, addresses) = ready in
      let q : PipelineState = credit_step wallet p in
      let (source, resolved) = resolves p.manifest.model_id w in
      let w' : W = (host.resolve p.manifest.model_id w).1 in
      let (winner, n, won) = bump-winner wallet p.contributions in
      let e1 : ShardEngine = put_pipeline request q e in
      let ready1 : Ready request miner q e1 =
        (fits, dense, walk, lookup-insert_same request q e.pipelines, alone, free, addresses) in
      subst
        (λ s.
          let e' = (take_with host request wallet result p e (s, w')).1 in
          Ended host request work p e e' ⊎ Onward request miner work p e e')
        (sym resolved)
        (subst
          (λ step.
            let e' = (settle_step host request wallet source result q step e1 w').1 in
            Ended host request work p e e' ⊎ Onward request miner work p e e')
          (sym plain)
          (settle_shard-Next host request miner work source wallet result t reports q winner n won
            given told (λ addr w. takes result.shard_index addr result.output_hash w) e1 w' ready1))

  answer-Next :
      (p : PipelineState) (e : ShardEngine) (w : W)
      → Honest request miner p e
      → Given work 0 p.generated_token_ids
      → let e' = (answer host request work (lookup request e.assignments) e w).0 in
        Ended host request work p e e' ⊎ Onward request miner work p e e'
  unfolding handle_shard_result
  answer-Next p e w (ready, shard, wallet, here, held) given =
      let (fits, dense, walk, found, alone, free, addresses) = ready in
      let a : ShardAssignment = step_of wallet shard p in
      let result : OpoiShardResult = result_of request work a in
      let freed : ShardEngine = record e { assignments = remove request e.assignments } in
      let its : is_of wallet result a ≡ true = ground arith in
      let told : Given work 0 (tokens_with p (work a).2) =
        Given-append work 0 p.generated_token_ids a given (omega (arith, fits.1)) in
      let taken = take_with-Next result wallet (work a).2 p freed w refl refl ready given told in
      let accepted =
        subst
          (λ o.
            let e' = (take_for host request wallet result o freed w).1 in
            Ended host request work p e e' ⊎ Onward request miner work p e e')
          (sym found) taken in
      let checked =
        subst
          (λ o.
            let e' = (check_assignment host request wallet result o e w).1 in
            Ended host request work p e e' ⊎ Onward request miner work p e e')
          (sym held)
          (subst
            (λ b.
              let e' =
                (if b
                  then take_result host request wallet result e w
                  else (replied (err not_assigned_to_caller), e, w)).1 in
              Ended host request work p e e' ⊎ Onward request miner work p e e')
            (sym its) accepted) in
      subst
        (λ o.
          let e' = (answer host request work o e w).0 in
          Ended host request work p e e' ⊎ Onward request miner work p e e')
        (sym held)
        (subst
          (λ spec.
            let e' = (delegate host wallet result spec e w).1 in
            Ended host request work p e e' ⊎ Onward request miner work p e e')
          (sym alone) checked)

  answer_all-n :
      (n : ℕ) (p : PipelineState) (e : ShardEngine) (w : W)
      → Honest request miner p e
      → Given work 0 p.generated_token_ids
      → steps_left p ≡ n
      → Finished host request work p.max_tokens e (answer_all host request work n e w).0
  answer_all-n zero p e w honest given left = absurd (steps-some request p honest.0.0 left)
  answer_all-n (suc n) p e w honest given left =
      let (e', w') = answer host request work (lookup request e.assignments) e w in
      elim (answer-Next p e w honest given) [
        | inl (one, committed) ↦
            let none_left : n ≡ 0 = omega arith in
            subst
              (λ n.
                Finished host request work p.max_tokens e (answer_all host request work n e' w').0)
              (sym none_left) committed
        | inr (q, honest', same, db, tokens, fewer, given') ↦
            Finished-trans host request work p.max_tokens e e'
              (answer_all host request work n e' w').0 same db
              (subst (λ m. Finished host request work m e' (answer_all host request work n e' w').0)
                tokens (answer_all-n n q e' w' honest' given' (omega arith)))
      ]

  -- A pipeline of dense shards whose step is assigned ends after exactly as many answers as it has steps
  -- left, one for each shard and token.
  pub answer_all-Finished :
      (p : PipelineState) (e : ShardEngine) (w : W)
      → Honest request miner p e
      → Given work 0 p.generated_token_ids
      → Finished host request work p.max_tokens e
          (answer_all host request work (steps_left p) e w).0
  answer_all-Finished p e w honest given = answer_all-n (steps_left p) p e w honest given refl
