-- ===== src/Speculative/Committed.antt =====
-- Over the rounds of src/opoi/speculative_engine.rs a pipeline holds what plain greedy decoding by the
-- target model would have generated, and the position in the caches that belongs to it.
use cs_stratum_bridge.Base.{
  ℕ, zero, suc, ◌+◌, ◌%◌, ◌^◌, ◌≡◌, refl, ap, ◌∙◌, sym, Text, text_key, nat_key, lookup,
  lookup-insert_same, Bool, true, false, Option, none, some, List, [], ◌∷◌, ◌++◌, length,
  append_assoc, append-nil, take, arith,
}
use cs_stratum_bridge.AppError.{ok}
use cs_stratum_bridge.Wire
use cs_stratum_bridge.Wire.{OpoiDraftGenerate}
use cs_stratum_bridge.Speculative.Round.{RoundOutcome, carry_len, kv_keep_len}
use cs_stratum_bridge.Speculative.Greedy.{
  greedy, predictions, with_carry, batch, IsExpected, CommitsGreedy,
  greedy_verify_round-CommitsGreedy,
}
use cs_stratum_bridge.Speculative.Pipeline.{
  awaiting_draft, awaiting_rollback, RollbackState, SpecPipeline, SpeculativeEngine,
}
use cs_stratum_bridge.Speculative.Dispatch.{pick_drafter}
use cs_stratum_bridge.Speculative.Results.{Reply, replied, finish_verify, settle_round}
use cs_stratum_bridge.Speculative.Lines.{channel, cut_all, begin_rollback-effects, ask}
use cs_stratum_bridge.Speculative.Steps.{begin_rollback-phase}

module _ (next : List ℕ → ℕ) where
  length-greedy : (n : ℕ) (context : List ℕ) → length (greedy next context n) ≡ n
  length-greedy zero context = refl
  length-greedy (suc n) context = ap suc (length-greedy n (context ++ next context ∷ []))

  greedy-append :
      (n m : ℕ) (context : List ℕ)
      → greedy next context n ++ greedy next (context ++ greedy next context n) m
        ≡ greedy next context (n + m)
  greedy-append zero m context =
      let count : m ≡ zero + m = omega arith in
      ap (λ (c : List ℕ). greedy next c m) (append-nil context) ∙ ap (greedy next context) count
  greedy-append (suc n) m context =
      let t : ℕ = next context in
      let rest : List ℕ = greedy next (context ++ t ∷ []) n in
      let count : suc (n + m) ≡ suc n + m = omega arith in
      ap (λ (c : List ℕ). t ∷ (rest ++ greedy next c m)) (sym (append_assoc context (t ∷ []) rest))
      ∙ ap (◌∷◌ t) (greedy-append n m (context ++ t ∷ []))
      ∙ ap (greedy next context) count

  -- A pipeline behind the tokens of its prompt, whose caches hold those in `sofar` and the carry not
  -- yet: what it has generated is the target's greedy continuation, its next expectation is right, and
  -- `base` is the length of what the caches hold.
  abbrev pub IsGreedy : List ℕ → List ℕ → SpecPipeline → Type 0
  IsGreedy context sofar p =
      (p.generated_token_ids ≡ with_carry next p.carry sofar)
      × IsExpected next (context ++ sofar) p.carry p.expected0
      × (p.generated_token_ids ≡ greedy next context (length p.generated_token_ids))
      × (p.base + carry_len p.carry ≡ length context + length p.generated_token_ids)

  with_carry-append :
      (context sofar : List ℕ) (carry : Option ℕ)
      → with_carry next carry (context ++ sofar) ≡ context ++ with_carry next carry sofar
  with_carry-append context sofar none = refl
  with_carry-append context sofar (some c) = append_assoc context sofar (c ∷ [])

  -- The tokens after a round, with what was there before.
  extends-greedy :
      (context generated ds : List ℕ) (n a t : ℕ)
      → generated ≡ greedy next context n
      → take a ds ++ t ∷ [] ≡ greedy next (context ++ generated) (a + 1)
      → (generated ++ take a ds) ++ t ∷ [] ≡ greedy next context (n + (a + 1))
  extends-greedy context generated ds n a t before round =
      append_assoc generated (take a ds) (t ∷ [])
      ∙ ap (◌++◌ generated) round
      ∙ ap (λ (g : List ℕ). g ++ greedy next (context ++ g) (a + 1)) before
      ∙ greedy-append n (a + 1) context

  -- A pipeline whose caches are being rolled back: behind the tokens in `sofar` it has generated the one
  -- that settled its round, these are the target's greedy continuation, and the position at which the
  -- caches are cut is the length of the prompt and of all that is generated, less that one token.
  abbrev pub AwaitsGreedy : List ℕ → List ℕ → RollbackState → SpecPipeline → Type 0
  AwaitsGreedy context sofar state p =
      (p.generated_token_ids ≡ sofar ++ state.settle_token ∷ [])
      × (p.generated_token_ids ≡ greedy next context (length p.generated_token_ids))
      × (state.keep_len + 1 ≡ length context + length p.generated_token_ids)

  -- What the end of a verify pass leaves: the pipeline waits for the acknowledgements of a rollback, the
  -- lines of which are the last that the engine has sent, and holds the target's own tokens.
  abbrev pub Settles :
      List ℕ → Text → SpecPipeline → SpeculativeEngine → Reply × SpeculativeEngine → Type 0
  Settles context request p e (reply, e') =
      (q : SpecPipeline) × (state : RollbackState) × (sofar : List ℕ) × (lookup request e'.pipelines
        ≡ some q)
      × (q.phase ≡ awaiting_rollback state)
      × AwaitsGreedy context sofar state q
      × (e'.effects
          ≡ e.effects ++ cut_all request p (state.keep_len % 2 ^ 32) state.is_finalizing_round e)
      × (reply ≡ replied (ok tt))

  settle_round-Settles :
      (context sofar : List ℕ) (request : Text) (p : SpecPipeline) (ds : List ℕ) (o : RoundOutcome)
      (e : SpeculativeEngine)
      → IsGreedy context sofar p
      → CommitsGreedy next (with_carry next p.carry (context ++ sofar)) ds (some o)
      → Settles context request p e (settle_round request p ds (some o) e)
  unfolding kv_keep_len
  settle_round-Settles context sofar request p ds o e (held, expects, tokens, cached)
        (commits, within, full) =
      let n : ℕ = length p.generated_token_ids in
      let ids : List ℕ = p.generated_token_ids ++ take o.accepted_count ds in
      let behind : with_carry next p.carry (context ++ sofar) ≡ context ++ p.generated_token_ids =
        with_carry-append context sofar p.carry ∙ ap (◌++◌ context) (sym held) in
      let now : ids ++ o.settle_token ∷ [] ≡ greedy next context (n + (o.accepted_count + 1)) =
        extends-greedy context p.generated_token_ids ds n o.accepted_count o.settle_token tokens
          (commits ∙ ap (λ (c : List ℕ). greedy next c (o.accepted_count + 1)) behind) in
      let count : length (ids ++ o.settle_token ∷ []) ≡ n + (o.accepted_count + 1) =
        ap length now ∙ length-greedy (n + (o.accepted_count + 1)) context in
      (
        _,
        _,
        ids,
        begin_rollback-phase request o _ _ _ _ _ (lookup-insert_same request _ _),
        refl,
        (refl, now ∙ ap (greedy next context) (sym count), omega (arith, count, cached)),
        begin_rollback-effects request o _ _ _ _ _ (lookup-insert_same request _ _),
        refl,
      )

  settle-Settles :
      (context sofar : List ℕ) (request : Text) (p : SpecPipeline) (ds : List ℕ)
      (q : Option RoundOutcome) (e : SpeculativeEngine)
      → IsGreedy context sofar p
      → CommitsGreedy next (with_carry next p.carry (context ++ sofar)) ds q
      → Settles context request p e (settle_round request p ds q e)
  settle-Settles context sofar request p ds none e g c = absurd c
  settle-Settles context sofar request p ds (some o) e g c =
      settle_round-Settles context sofar request p ds o e g c

  -- A pipeline that holds what greedy decoding by the target would have generated behind the prompt
  -- still does so after a verify pass on the target's own logits, whatever tokens were drafted: the
  -- pass never panics, and the pipeline waits for the rollback. For each shard the miner that is next in
  -- turn is told to cut its cache, and so is the drafter, each if it is connected; the position, a `u32`,
  -- is the length of the prompt and of all that is generated, less the one carried token.
  pub finish_verify-Settles :
      (context sofar : List ℕ) (request : Text) (p : SpecPipeline) (draft_token_ids : List ℕ)
      (e : SpeculativeEngine)
      → IsGreedy context sofar p
      → Settles context request p e (
          finish_verify request p draft_token_ids
            (some (predictions next (context ++ sofar) (batch next p.carry draft_token_ids)))
            e)
  finish_verify-Settles context sofar request p draft_token_ids e g =
      settle-Settles context sofar request p draft_token_ids _ e g (
        greedy_verify_round-CommitsGreedy next (context ++ sofar) p.carry p.expected0
          draft_token_ids g.1)

  -- What an acknowledgement leaves: the pipeline waits for the others, and nothing is sent; or it drafts
  -- again, and a drafter that is connected is asked to go on from the token that settled the round.
  abbrev pub GoesOn :
      List ℕ
      → List ℕ
      → Text
      → RollbackState
      → SpecPipeline
      → SpeculativeEngine
      → Bool
      → SpeculativeEngine
      → Type 0
  GoesOn context sofar request state p e true e' =
      (q : SpecPipeline) × (message : OpoiDraftGenerate) × (lookup request e'.pipelines ≡ some q)
      × (q.phase ≡ awaiting_draft)
      × IsGreedy context sofar q
      × (q.generated_token_ids ≡ p.generated_token_ids)
      × (q.carry ≡ some state.settle_token)
      × (message.request_id ≡ request)
      × (message.input ≡ Wire.DraftInputWire.next_token_id state.settle_token)
      × (e'.effects
          ≡ e.effects ++ ask (channel (pick_drafter p.draft_wallet e.registry) e.registry) message)
  GoesOn context sofar request state p e false e' =
      (q : SpecPipeline) × (lookup request e'.pipelines ≡ some q)
      × (q.phase ≡ awaiting_rollback state)
      × AwaitsGreedy context sofar state q
      × (e'.effects ≡ e.effects)
