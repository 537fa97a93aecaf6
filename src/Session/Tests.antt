-- ===== src/Session/Tests.antt =====
-- Lines that are their own method, and engines that count what they are asked.
use cs_stratum_bridge.Base.{
  ℕ, suc, ◌≡◌, refl, Text, codes, Text-discrete, ℕ_discrete, true, none, some, List, [], ◌∷◌,
}
use cs_stratum_bridge.AppError.{ok}
use cs_stratum_bridge.Session.{
  Json, Handlers, Session, Line, from_miner, from_pool, method_kind, run_session,
}
use cs_stratum_bridge.Session.Untouched.{run_session-Untouched}
use cs_stratum_bridge.Session.Relay.{Relays, to_pool, to_miner, run_session-Relays}

abbrev plain_lines : Json Text
plain_lines = record {
  parse = λ line. some line;
  null = [];
  member = λ key v. some v;
  first_item = λ v. some v;
  as_text = λ v. some v;
  as_u64 = λ v. none;
  is_i64 = λ n v. true;
  as_bool = λ v. none;
  as_array = λ v. none;
  to_submit_result =
      λ v. some (record { request_id = v; response_hash = []; response_hex = []; token_count = 1 });
  to_shard_result = λ v. none;
  to_audit_result = λ v. none;
  to_expert_result = λ v. none;
  to_draft_result = λ v. some (record { request_id = v; draft_token_ids = [] });
  to_kv_rollback_ack = λ v. none;
}

abbrev counting : Handlers ℕ
counting = record {
  on_registry = λ f n. suc n;
  on_submit_result = λ wallet params n. (ok 1, suc n);
  on_shard_result = λ wallet result n. (ok tt, suc n);
  on_audit_result = λ wallet result n. (ok tt, suc n);
  on_expert_result = λ wallet result n. (ok tt, suc n);
  on_draft_result = λ wallet result n. suc n;
  on_kv_rollback_ack = λ wallet ack n. suc n;
  opoi_on_disconnect = λ wallet n. suc n;
  shard_on_disconnect = λ wallet n. suc n;
  speculative_on_disconnect = λ wallet n. suc n;
  audit_on_disconnect = λ wallet n. suc n;
  expert_on_disconnect = λ wallet n. suc n;
}

abbrev connection : Session Text ℕ
connection = record {
  down_tx = 3;
  pending = none;
  confirmed = none;
  down = [];
  up = [];
  engines = 0;
}

abbrev some_lines : List Line
some_lines =
    from_miner (codes "mining.authorize")
    ∷ from_miner (codes "opoi.submit_result")
    ∷ from_miner (codes "mining.submit")
    ∷ from_pool (codes "opoi.assign")
    ∷ from_pool (codes "mining.notify")
    ∷ []

two_lines : to_pool plain_lines some_lines ≡ codes "mining.authorize" ∷ codes "mining.submit" ∷ []
unfolding method_kind Text-discrete ℕ_discrete
two_lines = refl

run_session-Untouched_example : (run_session plain_lines counting some_lines connection).engines ≡ 0
run_session-Untouched_example =
    run_session-Untouched plain_lines counting some_lines connection refl
      (refl, (refl, (refl, (refl, (refl, tt)))))

run_session-Relays_example :
    Relays
      (to_pool plain_lines some_lines)
      (to_miner plain_lines some_lines)
      connection
      (run_session plain_lines counting some_lines connection)
run_session-Relays_example = run_session-Relays plain_lines counting some_lines connection
