-- ===== src/Http/Tests.antt =====
-- A prompt for a request that no engine knows, with the right key.
use cs_stratum_bridge.Base.{ℕ, suc, ◌≡◌, ◌⊎◌, refl, codes, true, none, some, [], ◌∷◌, arith}
use cs_stratum_bridge.AppError.{ok, err, rpc}
use cs_stratum_bridge.Daemon.{CsdRpcClient}
use cs_stratum_bridge.Registry.{new}
use cs_stratum_bridge.Db.{empty_db}
use cs_stratum_bridge.Experts
use cs_stratum_bridge.Assignment
use cs_stratum_bridge.RateLimit
use cs_stratum_bridge.Http.{PromptRequest, AppState, constant_time_eq, fold_pairs, submit_prompt}
use cs_stratum_bridge.Http.Guarded.{Accepts, Refuses, submit_prompt-Guarded}

abbrev silent_daemon : CsdRpcClient ℕ
silent_daemon = record {
  get_chain_height = λ w. (ok 100, suc w);
  get_opoi_stake = λ address w. (ok none, suc w);
  stake_opoi = λ address txid vout endpoint model w. (err (rpc []), suc w);
  renew_opoi_stake = λ address w. (err (rpc []), suc w);
  get_request = λ request w. (err (rpc []), suc w);
  list_pending_requests = λ w. (ok [], suc w);
  get_model_manifest = λ model w. (err (rpc []), suc w);
  get_model_graph = λ model w. (err (rpc []), suc w);
  claim_coordinator = λ request address w. (err (rpc []), suc w);
  submit_shard_result = λ request shard address hash tokens w. (err (rpc []), suc w);
  submit_response_commit = λ request hash address tokens w. (err (rpc []), suc w);
  submit_response_reveal = λ request hash address tokens nonce w. (err (rpc []), suc w);
  submit_content = λ request kind hex w. (ok tt, suc w);
  send_many = λ address amounts w. (ok (codes "t"), suc w);
}

abbrev state : AppState
state = record {
  prompt_rate_limiter = RateLimit.new 10 60;
  opoi_requester_api_key = codes "key";
  engine = record {
    db = empty_db;
    registry = new;
    assignments = Assignment.new;
    pending = [];
    last_assigned = none;
    spawned = [];
    asked = [];
  };
  shard_engine = record {
    registry = new;
    pipelines = [];
    assignments = [];
    last_assigned = none;
    prompt_cache = [];
    asked = [];
    db = empty_db;
    stake_pool = record { addresses = codes "a" ∷ []; next = 0 };
    experts = Experts.new new;
    expert_vram = [];
    speculative = none;
    b3lite = none;
    spawned = [];
  };
}

abbrev asked_prompt : PromptRequest
asked_prompt = record {
  request_id = codes "r";
  prompt = codes "p";
  model = some (codes "m");
  max_tokens = some 4;
}

right_key : constant_time_eq (codes "key") (codes "key") ≡ true
unfolding constant_time_eq fold_pairs
right_key = refl

submit_prompt-Guarded_example :
    let allowed = (RateLimit.check (127 ∷ 0 ∷ 0 ∷ 1 ∷ []) 5 state.prompt_rate_limiter).0 in
    let answer =
      submit_prompt silent_daemon
        (λ t. t)
        (127 ∷ 0 ∷ 0 ∷ 1 ∷ [])
        5
        (some (codes "key"))
        asked_prompt
        state
        0 in
    Accepts silent_daemon (λ t. t) allowed (some (codes "key")) asked_prompt state 0 answer
    ⊎ Refuses allowed (some (codes "key")) state 0 answer
submit_prompt-Guarded_example =
    submit_prompt-Guarded silent_daemon (λ t. t) (127 ∷ 0 ∷ 0 ∷ 1 ∷ []) 5 (some (codes "key"))
      asked_prompt state 0 (omega arith, (omega arith, (omega arith, tt)))
      (omega arith, (omega arith, (omega arith, tt)))
