-- ===== src/Shard/Work.antt =====
-- What it means that a request of src/opoi/shard_engine.rs runs to its end: the miners answer what they are
-- assigned, the pipeline goes on by a step, and its row is written.
use cs_stratum_bridge.Base.{
  ℕ, zero, suc, ◌+◌, ◌-◌, ◌*◌, ◌<◌, ◌≡◌, refl, ap, ◌∙◌, Text, text_key, lookup, true, Option, none,
  some, List, [], ◌∷◌, ◌++◌, length, get_elem?, arith,
}
use Prim.Native.Nat.{max}
use cs_stratum_bridge.Wire.{ShardOutputWire, OpoiShardResult}
use cs_stratum_bridge.Rpc.{ShardDescriptor}
use cs_stratum_bridge.Shard.{PipelineState, ShardAssignment, ShardEngine}
use cs_stratum_bridge.Shard.Host.{ShardHost}
use cs_stratum_bridge.Shard.Results.{handle_shard_result}
use cs_stratum_bridge.Shard.Running.{Fits}
use cs_stratum_bridge.Shard.Commits.{commits, hash_of, written}
use cs_stratum_bridge.Shard.Sent.{may_work, step_of}

-- The steps that are left.
abbrev pub steps_left : PipelineState → ℕ
steps_left p =
    (max 1 p.max_tokens - 1 - p.token_index) * length p.shards + (length p.shards - p.pos)

-- What a miner computes: the hash, the output and the token.
abbrev pub Work : Type 0
Work = ShardAssignment → Text × ShardOutputWire × ℕ

abbrev pub result_of : Text → Work → ShardAssignment → OpoiShardResult
result_of request work a =
    let (output_hash, output, token_id) = work a in
    record {
      request_id = request;
      shard_index = a.shard_index;
      token_index = a.token_index;
      output_hash = output_hash;
      output = output;
      next_token_id = some token_id;
      next_token_ids = none;
      router_selection = none;
      moe_layer_step = a.moe_layer_step;
    }

module _ {W : Type 0} (host : ShardHost W) (request : Text) (work : Work) where
  -- The miner that has the step answers.
  abbrev pub answer : Option ShardAssignment → ShardEngine → W → ShardEngine × W
  answer none e w = (e, w)
  answer (some a) e w =
      let (reply, e', w') = handle_shard_result host a.wallet (result_of request work a) e w in
      (e', w')

  abbrev pub answer_all : ℕ → ShardEngine → W → ShardEngine × W
  answer_all zero e w = (e, w)
  answer_all (suc n) e w =
      let (e', w') = answer (lookup request e.assignments) e w in answer_all n e' w'

module _ (request miner : Text) where
  -- A pipeline of dense shards, in an engine that can go on with it.
  abbrev pub Ready : PipelineState → ShardEngine → Type 0
  Ready p e =
      Fits request p
      × (p.expert_groups ≡ [])
      × (p.moe_layer_walk ≡ none)
      × (lookup request e.pipelines ≡ some p)
      × (e.speculative ≡ none)
      × (may_work miner e.registry ≡ true)
      × (0 < length e.stake_pool.addresses)

  -- And its step is assigned.
  abbrev pub Honest : PipelineState → ShardEngine → Type 0
  Honest p e =
      Ready p e
      × (shard : ShardDescriptor) × (wallet : Text) × (get_elem? p.shards p.pos ≡ some shard)
      × (lookup request e.assignments ≡ some (step_of wallet shard p))

-- The tokens are what the miners computed, in their order: each for the step of its place.
abbrev pub Given : Work → ℕ → List ℕ → Type 0
Given work i [] = Unit
Given work i (t ∷ ts) =
    ((a : ShardAssignment) × (a.token_index ≡ i) × ((work a).2 ≡ t)) × Given work (suc i) ts

pub Given-append :
    (work : Work) (i : ℕ) (ts : List ℕ) (a : ShardAssignment)
    → Given work i ts
    → a.token_index ≡ i + length ts
    → Given work i (ts ++ (work a).2 ∷ [])
Given-append work i [] a given here = ((a, omega (arith, here), refl), tt)
Given-append work i (t ∷ ts) a (first, rest) here =
    (first, Given-append work (suc i) ts a rest (omega (arith, here)))

module _ (request miner : Text) (work : Work) where
  -- One step is done: the pipeline is at the next.
  abbrev pub Onward : PipelineState → ShardEngine → ShardEngine → Type 0
  Onward p e e' =
      (q : PipelineState) × Honest request miner q e'
      × (e'.spawned ≡ e.spawned)
      × (e'.db ≡ e.db)
      × (q.max_tokens ≡ p.max_tokens)
      × (steps_left p ≡ suc (steps_left q))
      × Given work 0 q.generated_token_ids

module _ {W : Type 0} (host : ShardHost W) (request : Text) (work : Work) where
  -- The pipeline `q` has ended with the tokens that the miners gave: its row is written, and committed if
  -- it could be; `last` is the engine that wrote it.
  abbrev pub Finished : ℕ → ShardEngine → ShardEngine → Type 0
  Finished max_tokens e e' =
      (q : PipelineState) × (winner : Text) × (last : ShardEngine) × (length q.generated_token_ids
        ≡ max 1 max_tokens)
      × Given work 0 q.generated_token_ids
      × (last.db ≡ e.db)
      × (e'.db ≡ (written host request winner q last).1)
      × (e'.spawned
          ≡ e.spawned
            ++ commits request (hash_of host request q.generated_token_ids)
                (length q.generated_token_ids) (written host request winner q last).0)
      × (lookup request e'.pipelines ≡ none)

  pub Finished-trans :
      (m : ℕ) (e e' e'' : ShardEngine)
      → e'.spawned ≡ e.spawned
      → e'.db ≡ e.db
      → Finished m e' e''
      → Finished m e e''
  Finished-trans m e e' e'' same db (q, winner, last, enough, given, before, wrote, spawned, gone) =
      (
        q,
        winner,
        last,
        enough,
        given,
        before ∙ db,
        wrote,
        spawned
            ∙ ap
                (λ s.
                  s
                  ++ commits request (hash_of host request q.generated_token_ids)
                      (length q.generated_token_ids) (written host request winner q last).0)
                same,
        gone,
      )

  abbrev pub Ended : PipelineState → ShardEngine → ShardEngine → Type 0
  Ended p e e' = (steps_left p ≡ 1) × Finished p.max_tokens e e'
