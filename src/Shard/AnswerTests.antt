-- ===== src/Shard/AnswerTests.antt =====
-- A model of one dense shard and one token: its miner answers.
use cs_stratum_bridge.Base.{
  ℕ, suc, leb, ◌≡◌, refl, codes, text_key, nat_key, Text-discrete, ℕ_discrete, lookup, insert,
  remove, length, text_ltb, contains_key, true, none, some, [], ◌∷◌, arith, Text, List,
}
use cs_stratum_bridge.AppError.{ok, err, rpc}
use cs_stratum_bridge.Daemon.{CsdRpcClient}
use cs_stratum_bridge.Registry.{new, register}
use cs_stratum_bridge.Wire.{prompt, OpoiShardResult}
use cs_stratum_bridge.Db.{empty_db}
use cs_stratum_bridge.Experts.Dispatch.{Host}
use cs_stratum_bridge.Rpc.{OpoiRequest, ModelManifest, ShardDescriptor}
use cs_stratum_bridge.Contributions.{bump, select_winning_wallet}
use cs_stratum_bridge.StakePool.{try_each, try_from}
use cs_stratum_bridge.Receipts.{sign_receipt, canonical_bytes}
use cs_stratum_bridge.Receipts.Sampling.{should_sample}
use cs_stratum_bridge.Db.Submissions.{create_submission, index_holds}
use cs_stratum_bridge.Db.Audits.{create_b3lite_receipt}
use cs_stratum_bridge.Shard.Finish.{finalize_pipeline, record_b3lite_receipt}
use cs_stratum_bridge.Shard.{PipelineState, ShardEngine, build_response, LayerRange-discrete}
use cs_stratum_bridge.Shard.Host.{ShardHost, ticks}
use cs_stratum_bridge.Shard.Results.{handle_shard_result}
use cs_stratum_bridge.Shard.Dispatch.{retry_stalled_pipelines}
use cs_stratum_bridge.Shard.Running.{Running}
use cs_stratum_bridge.Shard.Answers.{Commits, handle_shard_result-Commits}
use cs_stratum_bridge.Experts.{recent_assignments_for_range}
use cs_stratum_bridge.Shard.Topology.{TopologyPart, parts_from, primary_of}
use cs_stratum_bridge.Shard.Work.{Work}
use cs_stratum_bridge.Db.Submissions.{index_holds}
use cs_stratum_bridge.Shard.Spares.{Spares, retry_stalled_pipelines-Spares}
use cs_stratum_bridge.Experts

-- A daemon that counts its calls, lists one request and takes every submission.
abbrev listed : OpoiRequest
listed = record {
  request_id = codes "q";
  model = codes "m";
  prompt_hash = codes "ph";
  max_tokens = 3;
  payment = 1;
  fee_per_token = 1;
  task_type = none;
  task_class = none;
}

abbrev only_shard : ShardDescriptor
only_shard = record {
  shard_index = 0;
  shard_type = codes "DENSE";
  layer_start = some 0;
  layer_end = some 4;
  expert_id = none;
}

abbrev small_manifest : ModelManifest
small_manifest = record {
  model_id = codes "m";
  arch_type = codes "dense";
  num_layers = 4;
  backbone_pom_root = codes "s";
  status = codes "ACTIVE";
}

abbrev counting_daemon : CsdRpcClient ℕ
counting_daemon = record {
  get_chain_height = λ w. (ok 100, suc w);
  get_opoi_stake = λ address w. (ok none, suc w);
  stake_opoi = λ address txid vout endpoint model w. (err (rpc []), suc w);
  renew_opoi_stake = λ address w. (err (rpc []), suc w);
  get_request = λ request w. (err (rpc []), suc w);
  list_pending_requests = λ w. (ok (listed ∷ []), suc w);
  get_model_manifest = λ model w. (ok small_manifest, suc w);
  get_model_graph = λ model w. (
    ok (record { model_id = model; shard_topology_hash = codes "t"; shards = only_shard ∷ [] }),
    suc w,
  );
  claim_coordinator = λ request address w.
      (ok (record { txid = codes "t"; request_id = request; miner_address = address }), suc w);
  submit_shard_result = λ request shard address hash tokens w. (
    ok (record {
      txid = codes "t";
      request_id = request;
      shard_index = shard;
      miner_address = address;
    }),
    suc w,
  );
  submit_response_commit = λ request hash address tokens w. (err (rpc []), suc w);
  submit_response_reveal = λ request hash address tokens nonce w. (err (rpc []), suc w);
  submit_content = λ request kind hex w. (ok tt, suc w);
  send_many = λ address amounts w. (ok (codes "t"), suc w);
}

abbrev expert_hosts : Host ℕ
expert_hosts = record {
  f32 = record { add = λ a b. a; mul = λ a b. a };
  hex_encode = λ bytes. bytes;
  hex_decode = λ hex. some hex;
  sha256 = λ bytes. bytes;
  send = λ tx assign w. (true, w);
  meanwhile = λ key w. ([], w);
}

abbrev shard_host : ShardHost ℕ
shard_host = record {
  csd = counting_daemon;
  resolve = λ model w. (
    some (record { gguf_url = codes "u"; tokenizer_url = codes "t"; tokenizer_sha256 = codes "h" }),
    w,
  );
  fetch_and_parse = λ url n w. (none, w);
  experts = expert_hosts;
  join_all = λ tasks d w. ([], d, w);
  meanwhile = λ request w. (ticks ∷ [], w);
  count_prompt_tokens = λ url hash text. some 1;
  hmac_sha256 = λ key text. text;
  rate = record { le = leb; mul = λ a b. a; from_u64 = λ n. n; to_u64 = λ n. n };
}

abbrev one_step : PipelineState
one_step = record {
  shards = only_shard ∷ [];
  manifest = small_manifest;
  prompt_hash = codes "ph";
  max_tokens = 1;
  pos = 0;
  token_index = 0;
  current_input = prompt (codes "00");
  original_prompt_hex = codes "00";
  generated_token_ids = [];
  contributions = [];
  expert_groups = [];
  moe_layer_walk = none;
  dispatch_log = [];
}

-- The step is assigned to `w`.
abbrev busy_engine : ShardEngine
busy_engine = record {
  registry = register (codes "w") 4 (register (codes "v") 3 new);
  pipelines = (codes "r", one_step) ∷ [];
  assignments =
      (
        codes "r",
        record { wallet = codes "w"; shard_index = 0; token_index = 0; moe_layer_step = none },
      )
      ∷ [];
  last_assigned = none;
  prompt_cache = (codes "q", codes "01") ∷ [];
  asked = [];
  db = empty_db;
  stake_pool = record { addresses = codes "a" ∷ []; next = 0 };
  experts = Experts.new new;
  expert_vram = [];
  speculative = none;
  b3lite = some (record { secret = 1 ∷ []; sample_rate = 1 });
  spawned = [];
}

abbrev last_result : OpoiShardResult
last_result = record {
  request_id = codes "r";
  shard_index = 0;
  token_index = 0;
  output_hash = codes "oh";
  output = record { shape = 1 ∷ []; data_hex = codes "00" };
  next_token_id = some 7;
  next_token_ids = none;
  router_selection = none;
  moe_layer_step = none;
}

busy_engine-Running : Running busy_engine
unfolding lookup
busy_engine-Running = ((refl, tt), ((omega arith, refl, omega arith, omega arith), tt))

-- The result ends the pipeline, and one row is committed.
one_commit :
    length (handle_shard_result shard_host (codes "w") last_result busy_engine 0).1.spawned ≡ 1
unfolding handle_shard_result lookup insert remove Text-discrete ℕ_discrete try_each try_from
    finalize_pipeline bump select_winning_wallet build_response record_b3lite_receipt
    create_submission index_holds create_b3lite_receipt sign_receipt canonical_bytes should_sample
    text_ltb
one_commit = refl

handle_shard_result-Commits_example :
    Commits shard_host
      (codes "w")
      last_result
      busy_engine
      (handle_shard_result shard_host (codes "w") last_result busy_engine 0).1
handle_shard_result-Commits_example =
    handle_shard_result-Commits shard_host (codes "w") last_result busy_engine 0 busy_engine-Running

assigned : contains_key (codes "r") busy_engine.assignments ≡ true
unfolding lookup Text-discrete ℕ_discrete
assigned = refl

retry_stalled_pipelines-Spares_example :
    Spares (codes "r") busy_engine (retry_stalled_pipelines shard_host.resolve busy_engine 0).0
retry_stalled_pipelines-Spares_example =
    retry_stalled_pipelines-Spares (codes "r") shard_host.resolve busy_engine 0 assigned

-- Two shards and two tokens: four answers.
abbrev two_by_two : PipelineState
two_by_two = record one_step {
  shards = only_shard ∷ record only_shard { shard_index = 1 } ∷ [];
  max_tokens = 2;
}

abbrev two_engine : ShardEngine
two_engine = record busy_engine { pipelines = (codes "r", two_by_two) ∷ [] }

abbrev work : Work
work a = (codes "h", record { shape = 1 ∷ []; data_hex = codes "00" }, 7)

-- A dense part, the experts of its range, and another dense part.
abbrev statuses : List TopologyPart → List (Text × Text)
statuses [] = []
statuses (p ∷ ps) = (p.kind, p.status) ∷ statuses ps

two_parts :
    statuses (
      parts_from
        (codes "r")
        two_engine
        []
        (record two_by_two {
          pos = 1;
          expert_groups = (record { layer_start = 0; layer_end = 4 }, 7 ∷ []) ∷ [];
        })
        0
        (only_shard ∷ record only_shard { shard_index = 1; layer_start = some 4 } ∷ []))
    ≡ (codes "dense", codes "done")
      ∷ (codes "expert_group", codes "done")
      ∷ (codes "dense", codes "current")
      ∷ []
unfolding parts_from lookup primary_of recent_assignments_for_range LayerRange-discrete
    Text-discrete ℕ_discrete
two_parts = refl
