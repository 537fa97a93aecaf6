-- ===== src/Shard/Answers.antt =====
-- Whose result src/opoi/shard_engine.rs takes, and what it commits: `handle_shard_result`.
use cs_stratum_bridge.Base.{
  ℕ, ◌≡◌, refl, sym, subst, ◌⊎◌, inl, inr, Text, text_key, ◌=ₖ◌, Map, lookup, remove,
  Entries-lookup, true, false, Bool-cases, Option-cases, Option, none, some, [], ◌∷◌,
}
use cs_stratum_bridge.Base.{text_ltb}
use cs_stratum_bridge.AppError.{AppError, err}
use cs_stratum_bridge.Wire.{OpoiShardResult}
use cs_stratum_bridge.Contributions.{bump, select_winning_wallet}
use cs_stratum_bridge.Speculative.Pipeline.{ModelSource, SpeculativeEngine}
use cs_stratum_bridge.Speculative.Dispatch.{has_pipeline}
use cs_stratum_bridge.Speculative.Results.{replied}
use cs_stratum_bridge.Shard.{PipelineState, ShardAssignment, ShardEngine}
use cs_stratum_bridge.Shard.Host.{ShardHost, Answer}
use cs_stratum_bridge.Shard.Results.{
  is_of, put_pipeline, credit_step, take_with, take_for, take_result, check_assignment, delegate,
  handle_shard_result,
}
use cs_stratum_bridge.Shard.Running.{Fits, Running, panics}
use cs_stratum_bridge.Shard.Quiet.{Quiet}
use cs_stratum_bridge.Shard.Commits.{Settles, Finishes, settle_step-Settles}

-- The request is the speculative engine's.
abbrev pub Delegated : OpoiShardResult → ShardEngine → Type 0
Delegated result e =
    (spec : SpeculativeEngine) × (e.speculative ≡ some spec)
    × (has_pipeline result.request_id spec ≡ true)

-- The step of the result is the one that is assigned for its request, to the wallet.
abbrev pub Assigned : Text → OpoiShardResult → ShardEngine → Type 0
Assigned wallet result e =
    (a : ShardAssignment) × (lookup result.request_id e.assignments ≡ some a)
    × (a.wallet ≡ wallet)
    × (a.shard_index ≡ result.shard_index)
    × (a.token_index ≡ result.token_index)
    × (a.moe_layer_step ≡ result.moe_layer_step)

pub bump-winner :
    (wallet : Text) (m : Map Text ℕ)
    → (winner : Text) × (n : ℕ) × (select_winning_wallet (bump wallet m) ≡ some (winner, n))
unfolding bump select_winning_wallet
bump-winner wallet [] = (_, _, refl)
bump-winner wallet ((v, n) ∷ m) = elim (Bool-cases (v =ₖ wallet)) [
  | inl same ↦ rw same (_, _, refl)
  | inr other ↦ rw other (elim (Bool-cases (text_ltb wallet v)) [
    | inl less ↦ rw less (_, _, refl)
    | inr more ↦ rw more (_, _, refl)
  ])
]

-- What the handler did: it passed the result on, it took it and answered, or it refused it with an
-- error and changed nothing.
abbrev pub Guards : {W : Type 0} → Text → OpoiShardResult → ShardEngine → W → Answer W → Type 0
Guards wallet result e w a =
    Delegated result e
    ⊎ (Assigned wallet result e × (panics a.0 ≡ false))
    ⊎ ((x : AppError) × (a ≡ (replied (err x), e, w)))

-- What was committed: nothing, or the answer of the request's pipeline.
abbrev pub Commits :
    {W : Type 0} → ShardHost W → Text → OpoiShardResult → ShardEngine → ShardEngine → Type 0
Commits host wallet result e e' =
    Delegated result e
    ⊎ Quiet e e'
    ⊎ ((p : PipelineState) × (lookup result.request_id e.pipelines ≡ some p)
        × Finishes host result.request_id (credit_step wallet p) e e')

module _ {W : Type 0} (host : ShardHost W) (wallet : Text) (result : OpoiShardResult) where
  take_with-Commits :
      (p : PipelineState) (e : ShardEngine) (source : Option ModelSource) (w : W)
      → Fits result.request_id p
      → Settles host result.request_id
          (credit_step wallet p)
          e
          (take_with host result.request_id wallet result p e (source, w)).1
  take_with-Commits p e none w fits = inl (refl, refl)
  take_with-Commits p e (some source) w fits =
      let (winner, n, won) = bump-winner wallet p.contributions in
      settle_step-Settles host result.request_id wallet source result (credit_step wallet p) fits
        winner n won result.moe_layer_step (put_pipeline result.request_id (credit_step wallet p) e)
        w

  settled :
      (p : PipelineState) (e e' : ShardEngine)
      → lookup result.request_id e.pipelines ≡ some p
      → Settles host result.request_id (credit_step wallet p) e e'
      → Commits host wallet result e e'
  settled p e e' found (inl quiet) = inr (inl quiet)
  settled p e e' found (inr finishes) = inr (inr (p, found, finishes))

  take_result-Commits :
      (e : ShardEngine) (w : W)
      → Running e
      → Commits host wallet result e (take_result host result.request_id wallet result e w).1
  take_result-Commits e w run =
      let freed : ShardEngine = record e { assignments = remove result.request_id e.assignments } in
      elim (Option-cases (lookup result.request_id e.pipelines)) [
        | inl gone ↦
            subst
              (λ p.
                Commits host wallet result e
                  (take_for host result.request_id wallet result p freed w).1)
              (sym gone) (inr (inl (refl, refl)))
        | inr (p, found) ↦
            let (source, w') = host.resolve p.manifest.model_id w in
            subst
              (λ p.
                Commits host wallet result e
                  (take_for host result.request_id wallet result p freed w).1)
              (sym found)
              (settled p e (take_with host result.request_id wallet result p freed (source, w')).1
                found
                (take_with-Commits p freed source w'
                  (Entries-lookup Fits result.request_id p e.pipelines run found)))
      ]

  check_assignment-Commits :
      (a : Option ShardAssignment) (e : ShardEngine) (w : W)
      → Running e
      → Commits host wallet result e (check_assignment host result.request_id wallet result a e w).1
  check_assignment-Commits none e w run = inr (inl (refl, refl))
  check_assignment-Commits (some a) e w run = elim (Bool-cases (is_of wallet result a)) [
    | inl its ↦ rw its (take_result-Commits e w run)
    | inr other ↦ rw other (inr (inl (refl, refl)))
  ]

  delegate-Commits :
      (spec : Option SpeculativeEngine) (e : ShardEngine) (w : W)
      → e.speculative ≡ spec
      → Running e
      → Commits host wallet result e (delegate host wallet result spec e w).1
  delegate-Commits none e w same run =
      check_assignment-Commits (lookup result.request_id e.assignments) e w run
  delegate-Commits (some spec) e w same run =
      elim (Bool-cases (has_pipeline result.request_id spec)) [
        | inl its ↦ inl (spec, same, its)
        | inr ours ↦
            rw ours (check_assignment-Commits (lookup result.request_id e.assignments) e w run)
      ]

  -- If each pipeline stands where its tokens say, a result that is not passed on to the speculative
  -- engine leaves the database and the commits as they are; or it is the last of its pipeline, which
  -- then has as many tokens as were asked for, at least one: the row of exactly these tokens goes to
  -- the wallet that has delivered most steps, this one counted, with the receipt if receipts are kept,
  -- the row is committed once, if it could be written, and the pipeline is gone.
  pub handle_shard_result-Commits :
      (e : ShardEngine) (w : W)
      → Running e
      → Commits host wallet result e (handle_shard_result host wallet result e w).1
  unfolding handle_shard_result
  handle_shard_result-Commits e w run = delegate-Commits e.speculative e w refl run
