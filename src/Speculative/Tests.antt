-- ===== src/Speculative/Tests.antt =====
-- The tests of src/opoi/speculative_engine.rs, and the theorems at concrete inputs.
use cs_stratum_bridge.Base.{
  ℕ, ◌≡◌, refl, true, false, Text, codes, text_key, nat_key, some, none, List, [], ◌∷◌, ◌++◌,
  length,
}
use cs_stratum_bridge.Wire.{OpoiKvRollbackAck, draft_session_shard_index}
use cs_stratum_bridge.Registry
use cs_stratum_bridge.Db.{empty_db}
use cs_stratum_bridge.Speculative.Round.{greedy_verify_round, verify_from, kv_keep_len, next_k}
use cs_stratum_bridge.Speculative.Greedy.{
  predictions, batch, with_carry, CommitsGreedy, greedy_verify_round-CommitsGreedy,
}
use cs_stratum_bridge.Speculative.Pipeline.{
  awaiting_draft, awaiting_rollback, RollbackState, SpecPipeline, SpeculativeEngine, new,
}
use cs_stratum_bridge.Speculative.Results.{finish_verify}
use cs_stratum_bridge.Speculative.Committed.{IsGreedy, Settles, finish_verify-Settles}

-- `round0_full_accept`, `round0_reject_at_first_position` and
-- `round_ge1_carry_trivially_accepted_then_full_accept`.
round0_full_accept :
    greedy_verify_round none 11 (11 ∷ 12 ∷ 13 ∷ []) (12 ∷ 13 ∷ 14 ∷ [])
    ≡ some (record { accepted_count = 3; settle_token = 14; full_accept = true })
unfolding greedy_verify_round verify_from
round0_full_accept = refl

round0_reject_at_first_position :
    greedy_verify_round none 999 (10 ∷ 11 ∷ []) (5 ∷ 6 ∷ [])
    ≡ some (record { accepted_count = 0; settle_token = 999; full_accept = false })
unfolding greedy_verify_round verify_from
round0_reject_at_first_position = refl

round_ge1_carry_trivially_accepted_then_full_accept :
    greedy_verify_round (some 7) 0 (100 ∷ 101 ∷ 102 ∷ []) (100 ∷ 101 ∷ 102 ∷ 999 ∷ [])
    ≡ some (record { accepted_count = 3; settle_token = 999; full_accept = true })
unfolding greedy_verify_round verify_from
round_ge1_carry_trivially_accepted_then_full_accept = refl

kv_keep_len_round_ge1_includes_carry : kv_keep_len 50 (some 42) 3 ≡ 54
unfolding kv_keep_len
kv_keep_len_round_ge1_includes_carry = refl

next_k_matches_cs_miner :
    next_k 4 4 4 ∷ next_k 4 1 4 ∷ next_k 8 8 8 ∷ next_k 2 0 4 ∷ [] ≡ 5 ∷ 3 ∷ 8 ∷ 2 ∷ []
unfolding next_k
next_k_matches_cs_miner = refl

-- A target that counts what stands before it.
abbrev counting : List ℕ → ℕ
counting = length

abbrev two_tokens : List ℕ
two_tokens = 5 ∷ 6 ∷ []

greedy_verify_round-CommitsGreedy_example :
    CommitsGreedy counting (with_carry counting (some 2) two_tokens) (3 ∷ 9 ∷ []) (
      greedy_verify_round
        (some 2)
        0
        (3 ∷ 9 ∷ [])
        (predictions counting two_tokens (batch counting (some 2) (3 ∷ 9 ∷ []))))
greedy_verify_round-CommitsGreedy_example =
    greedy_verify_round-CommitsGreedy counting two_tokens (some 2) 0 (3 ∷ 9 ∷ []) tt

-- A pipeline after the round that generated the token 2, which is carried.
abbrev carrying : SpecPipeline
carrying = record {
  shards = [];
  manifest = record {
    model_id = [];
    arch_type = [];
    num_layers = 1;
    backbone_pom_root = [];
    status = [];
  };
  source = record { gguf_url = []; tokenizer_url = []; tokenizer_sha256 = [] };
  draft_source = record {
    draft_model_id = [];
    draft_gguf_url = [];
    draft_gguf_sha256 = [];
    draft_tokenizer_url = [];
    draft_tokenizer_sha256 = [];
    draft_total_layers = 1;
  };
  max_tokens = 100;
  prompt_hash = [];
  prompt_hex = [];
  draft_wallet = none;
  base = 2;
  carry = some 2;
  expected0 = 2;
  k = 4;
  round = 1;
  phase = awaiting_draft;
  generated_token_ids = 2 ∷ [];
  contributions = [];
}

carrying-IsGreedy : IsGreedy counting two_tokens [] carrying
carrying-IsGreedy = (refl, tt, refl, refl)

abbrev idle : SpeculativeEngine
idle = new (Registry.register (codes "m") 4 Registry.new) empty_db []

finish_verify-Settles_example : Settles counting two_tokens (codes "r") carrying idle (
    finish_verify
      (codes "r")
      carrying
      (3 ∷ 9 ∷ [])
      (some (predictions counting (two_tokens ++ []) (batch counting carrying.carry (3 ∷ 9 ∷ []))))
      idle)
finish_verify-Settles_example =
    finish_verify-Settles counting two_tokens [] (codes "r") carrying (3 ∷ 9 ∷ []) idle
      carrying-IsGreedy

abbrev last_state : RollbackState
last_state = record {
  pending = (draft_session_shard_index, tt) ∷ [];
  accepted_count = 0;
  k_this_round = 1;
  settle_token = 2;
  keep_len = 2;
  is_finalizing_round = false;
}

abbrev last_ack : OpoiKvRollbackAck
last_ack = record {
  request_id = codes "r";
  shard_index = draft_session_shard_index;
  ok = true;
  finalized_hash = none;
}

abbrev rolling : SpecPipeline
rolling = record carrying { phase = awaiting_rollback last_state }

abbrev waiting : SpeculativeEngine
waiting = record idle { pipelines = (codes "r", rolling) ∷ [] }

abbrev same_text : List ℕ → Text
same_text t = t
