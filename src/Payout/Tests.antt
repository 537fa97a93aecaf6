-- ===== src/Payout/Tests.antt =====
-- A payout at a concrete table, with amounts that are added as numbers.
use cs_stratum_bridge.Base.{ℕ, ◌+◌, ◌-◌, ltb, leb, codes, none, []}
use cs_stratum_bridge.AppError.{ok, err, rpc}
use cs_stratum_bridge.Daemon.{CsdRpcClient}
use cs_stratum_bridge.Db.{Db, empty_db}
use cs_stratum_bridge.Db.Submissions.{create_submission, mark_published}
use cs_stratum_bridge.Payout.{F64}

abbrev whole_numbers : F64
whole_numbers = record {
  add = λ a b. a + b;
  sub = λ a b. a - b;
  mul = λ a b. a;
  div = λ a b. a;
  lt = ltb;
  le = leb;
  sum = λ amounts. 0;
}

abbrev paying_daemon : CsdRpcClient ℕ
paying_daemon = record {
  get_chain_height = λ w. (ok 100, w);
  get_opoi_stake = λ address w. (ok none, w);
  stake_opoi = λ address txid vout endpoint model w. (err (rpc []), w);
  renew_opoi_stake = λ address w. (err (rpc []), w);
  get_request = λ request w. (err (rpc []), w);
  list_pending_requests = λ w. (ok [], w);
  get_model_manifest = λ model w. (err (rpc []), w);
  get_model_graph = λ model w. (err (rpc []), w);
  claim_coordinator = λ request address w. (err (rpc []), w);
  submit_shard_result = λ request shard address hash tokens w. (err (rpc []), w);
  submit_response_commit = λ request hash address tokens w. (err (rpc []), w);
  submit_response_reveal = λ request hash address tokens nonce w. (err (rpc []), w);
  submit_content = λ request kind hex w. (ok tt, w);
  send_many = λ address amounts w. (ok (codes "t"), w);
}

abbrev published_row : Db
published_row =
    (mark_published 1 5
      (create_submission (codes "w") (codes "r1") none none none none (codes "h") (codes "00") 1
        empty_db).1).1
