-- ===== src/Engine/Tests.antt =====
-- The engine at concrete requests.
use cs_stratum_bridge.Base.{
  ℕ, suc, ltb, if◌then◌else◌, ◌≡◌, refl, Text, codes, text_key, some, none, Option, true, List, [],
  ◌∷◌, ◌=ₖ◌, lookup, insert, Text-discrete, ℕ_discrete,
}
use cs_stratum_bridge.AppError.{ok, err, rpc, display}
use cs_stratum_bridge.Wire.{OpoiSubmitResultParams}
use cs_stratum_bridge.Registry.{new, register, pick_next, get, keys, round_robin, scan, start_index}
use cs_stratum_bridge.Daemon.{CsdRpcClient}
use cs_stratum_bridge.Db.{Db, RevealCandidate, empty_db}
use cs_stratum_bridge.Db.Submissions.{index_holds, create_submission}
use cs_stratum_bridge.Engine.Submit.{OpoiEngine, handle_submit_result}
use cs_stratum_bridge.Engine.Reveal.{try_reveal_any}
use cs_stratum_bridge.Engine.Assign.{
  Outside, poll_and_assign_tick, cache_requests, candidates_of, assign_all, hand_out,
}
use cs_stratum_bridge.Engine.Held.{Moves, poll_and_assign_tick-Moves}
use cs_stratum_bridge.Assignment.{assignee, try_assign}
use cs_stratum_bridge.Rpc.{OpoiRequest}
use cs_stratum_bridge.Engine.Answered.{
  Answers, handle_submit_result-Answers, RevealsOne, try_reveal_any-RevealsOne,
}

-- A daemon that counts its calls, commits for the address `b` only and reveals on the second call.
abbrev small_daemon : CsdRpcClient ℕ
small_daemon = record {
  get_chain_height = λ w. (ok 100, suc w);
  get_opoi_stake = λ address w. (ok none, suc w);
  stake_opoi = λ address txid vout endpoint model w. (err (rpc []), suc w);
  renew_opoi_stake = λ address w. (err (rpc []), suc w);
  get_request = λ request w. (err (rpc []), suc w);
  list_pending_requests = λ w. (ok [], suc w);
  get_model_manifest = λ model w. (err (rpc []), suc w);
  get_model_graph = λ model w. (err (rpc []), suc w);
  claim_coordinator = λ request address w. (err (rpc []), suc w);
  submit_shard_result = λ request shard address hash tokens w. (err (rpc []), suc w);
  submit_response_commit = λ request hash address tokens w. (
    if address =ₖ codes "b"
        then ok (record {
          txid = codes "t";
          nonce_hex = codes "n";
          commit_window_closes_at_height = 20;
        })
        else err (rpc (codes "no")),
    suc w,
  );
  submit_response_reveal = λ request hash address tokens nonce w.
      (if ltb 0 w then ok (codes "t") else err (rpc []), suc w);
  submit_content = λ request kind hex w. (ok tt, suc w);
  send_many = λ address amounts w. (ok (codes "t"), suc w);
}

abbrev one_row : Db
one_row =
    (create_submission (codes "w") (codes "r1") none none none none (codes "h") (codes "00") 1
      empty_db).1

abbrev pool : List Text
pool = codes "a" ∷ codes "b" ∷ []

abbrev assigned_engine : OpoiEngine
assigned_engine = record {
  db = empty_db;
  assignments = (codes "r1", record { miner_wallet = codes "w"; assigned_at = 0 }) ∷ [];
  pending = [];
  registry = register (codes "m") 4 new;
  last_assigned = none;
  spawned = [];
  asked = [];
}

abbrev params : OpoiSubmitResultParams
params = record {
  request_id = codes "r1";
  response_hash = codes "ab";
  response_hex = codes "AB";
  token_count = 1;
}

abbrev decode : Text → Option (List ℕ)
decode t = some t

abbrev same_text : List ℕ → Text
same_text t = t

empty_db-index_holds : index_holds empty_db.submissions.rows ≡ true
unfolding index_holds
empty_db-index_holds = refl

handle_submit_result-Answers_example :
    Answers
      (codes "w")
      params
      assigned_engine
      (handle_submit_result decode same_text same_text (codes "w") params assigned_engine)
handle_submit_result-Answers_example =
    handle_submit_result-Answers decode same_text same_text (codes "w") params assigned_engine
      empty_db-index_holds

abbrev candidate : ℕ → RevealCandidate
candidate id = record {
  attempt_id = id;
  submission_id = 1;
  opoi_address = codes "a";
  nonce_hex = codes "n";
  request_id = codes "r1";
  response_hash = codes "h";
  token_count = 1;
}

try_reveal_any-RevealsOne_example :
    RevealsOne small_daemon one_row
      (candidate 1 ∷ candidate 2 ∷ [])
      0
      (try_reveal_any small_daemon (candidate 1 ∷ candidate 2 ∷ []) one_row 0)
try_reveal_any-RevealsOne_example =
    try_reveal_any-RevealsOne small_daemon (candidate 1 ∷ candidate 2 ∷ []) one_row 0

-- A request with a prompt, a daemon that knows no manifest of its model, and one connected miner.
abbrev outside : Outside ℕ
outside = record {
  now = λ w. (w, suc w);
  send = λ tx assign w. (true, suc w);
  to_lowercase = λ t. t;
}

abbrev free_request : OpoiRequest
free_request = record {
  request_id = codes "r2";
  model = codes "m";
  prompt_hash = [];
  max_tokens = 8;
  payment = 0;
  fee_per_token = 0;
  task_type = none;
  task_class = none;
}

abbrev waiting_engine : OpoiEngine
waiting_engine = record assigned_engine {
  pending = (codes "r2", record { request = free_request; prompt_hex = some (codes "00") }) ∷ [];
}

abbrev plain_daemon : CsdRpcClient ℕ
plain_daemon = record small_daemon {
  get_model_manifest = λ model w. (err (rpc (codes "manifest not found")), suc w);
}

told_miner :
    assignee (codes "r2") (poll_and_assign_tick plain_daemon outside waiting_engine 0).1.assignments
    ≡ some (codes "m")
unfolding poll_and_assign_tick cache_requests candidates_of assign_all hand_out assignee try_assign
    lookup insert Text-discrete ℕ_discrete pick_next round_robin scan start_index keys register new
    get display
told_miner = refl

poll_and_assign_tick-Moves_example :
    Moves (codes "r2") waiting_engine (poll_and_assign_tick plain_daemon outside waiting_engine 0).1
poll_and_assign_tick-Moves_example =
    poll_and_assign_tick-Moves plain_daemon outside (codes "r2") waiting_engine 0
