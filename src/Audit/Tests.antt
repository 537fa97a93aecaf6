-- ===== src/Audit/Tests.antt =====
-- An auditor with one trusted wallet that answers, and one receipt.
use cs_stratum_bridge.Base.{
  ℕ, ◌≡◌, ◌≤◌, ◌<◌, ◌==◌, All, any, refl, Text, codes, text_key, nat_key, Text-discrete, ℕ_discrete,
  lookup, insert, remove, true, false, not, ◌&&◌, ◌||◌, Option, none, some, List, [], ◌∷◌, filter,
  arith,
}
use cs_stratum_bridge.AppError.{unknown_request, err}
use cs_stratum_bridge.Wire.{AuditPositionWire, OpoiAuditResult}
use cs_stratum_bridge.Registry.{new, register, mark_auditor_capable, get, is_banned}
use cs_stratum_bridge.Db.{empty_db, B3LiteReceipt, pending}
use cs_stratum_bridge.Db.Submissions.{list_unpaid_published}
use cs_stratum_bridge.Db.Audits.{list_pending_b3lite_audits, list_ejected_wallets}
use cs_stratum_bridge.Db.Queue.{names}
use cs_stratum_bridge.Speculative.Pipeline.{ModelSource}
use cs_stratum_bridge.Audit.{
  B3LiteAuditor, all_admissible, handle_audit_result, decode_token_ids_hex,
}
use cs_stratum_bridge.Audit.Host.{done, failure, Output, audit_result, Host}
use cs_stratum_bridge.Audit.Run.{dispatch_via_stratum, settle_audit, audit_tick}
use cs_stratum_bridge.Audit.Settled.{list_pending_b3lite_audits-audit_tick}
use cs_stratum_bridge.Audit.Verdict.{settle_audit-Judges, ejects_wallet, stays}
use cs_stratum_bridge.Audit.Caller.{
  Answers, dispatch_via_stratum-Answers, handle_audit_result-dispatch_via_stratum,
}
use cs_stratum_bridge.Audit.Tokens.{decode_token_ids_hex-build_response}
use cs_stratum_bridge.Shard.{build_response}

abbrev auditor_wallet : Text
auditor_wallet = codes "trusted"

abbrev verdict : List AuditPositionWire
verdict = record { step = 0; committed_token_id = 7; auditor_token_id = 8; admissible = false } ∷ []

abbrev answer : OpoiAuditResult
answer = record { request_id = codes "req"; positions = verdict }

abbrev source : ModelSource
source = record { gguf_url = codes "u"; tokenizer_url = codes "t"; tokenizer_sha256 = codes "h" }

abbrev no_output : Output
no_output = record { success = false; status = codes "1"; stdout = []; stderr = [] }

-- A stranger answers first, then the trusted wallet.
abbrev host : Host Unit
host = record {
  hex_encode = λ bytes. bytes;
  hex_decode = λ hex. some hex;
  from_utf8 = λ bytes. some bytes;
  resolve = λ model w. (some source, w);
  send = λ tx assign w. (true, w);
  meanwhile =
      λ id w. (audit_result (codes "stranger") answer ∷ audit_result auditor_wallet answer ∷ [], w);
  create_dir_all = λ dir w. (done tt, w);
  join = λ dir file. file;
  to_vec = λ request. done [];
  write = λ path bytes w. (done tt, w);
  output = λ bin args w. (done no_output, w);
  remove_file = λ path w. w;
  from_slice = λ bytes. failure [];
  positions_json = λ positions. [];
}

abbrev receipt : B3LiteReceipt
receipt = record {
  id = 1;
  request_id = codes "req";
  miner_wallet = codes "miner";
  model_id = codes "m";
  gguf_sha256 = codes "s";
  prompt_hash = none;
  prompt_hex = codes "hi";
  response_hash = codes "r";
  generated_token_ids_hex = 7 ∷ 0 ∷ 0 ∷ 0 ∷ [];
  total_layers = 2;
  signature_hex = [];
  sampled = true;
  audit_status = pending;
  audit_detail = none;
}

abbrev auditor : B3LiteAuditor
auditor = record {
  db = record empty_db { receipts = record { rows = receipt ∷ []; next_id = 2 } };
  registry = mark_auditor_capable auditor_wallet (register auditor_wallet 3 new);
  cs_miner_bin = codes "cs-miner";
  cache_dir = codes "cache";
  trusted_wallets = auditor_wallet ∷ [];
  audit_assignments = [];
  pending = [];
  answers = [];
}

one_waits : list_pending_b3lite_audits auditor.db ≡ receipt ∷ []
unfolding list_pending_b3lite_audits
one_waits = refl

old_numbers :
    All
      (λ (r : B3LiteReceipt). r.id < auditor.db.receipts.next_id)
      (list_pending_b3lite_audits auditor.db)
unfolding list_pending_b3lite_audits
old_numbers = (omega arith, tt)

list_pending_b3lite_audits-audit_tick_example :
    let before = list_pending_b3lite_audits auditor.db in
    let after = list_pending_b3lite_audits (audit_tick host auditor tt).0.db in
    All (λ (x : B3LiteReceipt). auditor.db.receipts.next_id ≤ x.id) after
    × All (λ (r : B3LiteReceipt). any (λ (x : B3LiteReceipt). x.id == r.id) after ≡ false) before
list_pending_b3lite_audits-audit_tick_example =
    list_pending_b3lite_audits-audit_tick host auditor tt old_numbers

settle_audit-Judges_example :
    (list_unpaid_published (settle_audit host receipt (done verdict, auditor, tt)).0.db
      ≡ filter (stays (all_admissible verdict) receipt) (list_unpaid_published auditor.db))
    × (is_banned (codes "miner") (settle_audit host receipt (done verdict, auditor, tt)).0.registry
        ≡ (is_banned (codes "miner") auditor.registry
            || (not (all_admissible verdict) && ejects_wallet receipt auditor.db (codes "miner"))))
    × (names
          (list_ejected_wallets (settle_audit host receipt (done verdict, auditor, tt)).0.db)
          (codes "miner")
        ≡ (names (list_ejected_wallets auditor.db) (codes "miner")
            || (not (all_admissible verdict) && ejects_wallet receipt auditor.db (codes "miner"))))
settle_audit-Judges_example = settle_audit-Judges host receipt verdict auditor tt (codes "miner")

connected : get auditor_wallet auditor.registry ≡ some 3
unfolding get mark_auditor_capable register new lookup insert Text-discrete ℕ_discrete
connected = refl

answered :
    (dispatch_via_stratum host auditor_wallet receipt source (codes "hi") (7 ∷ []) auditor tt).0
    ≡ done verdict
unfolding dispatch_via_stratum handle_audit_result get mark_auditor_capable register new lookup
    insert remove Text-discrete ℕ_discrete
answered = refl

dispatch_via_stratum-Answers_example :
    Answers auditor_wallet
      (codes "req")
      verdict
      (audit_result (codes "stranger") answer ∷ audit_result auditor_wallet answer ∷ [])
dispatch_via_stratum-Answers_example =
    dispatch_via_stratum-Answers host auditor_wallet receipt source (codes "hi") (7 ∷ []) auditor tt
      3 verdict connected answered

handle_audit_result-dispatch_via_stratum_example :
    handle_audit_result auditor_wallet answer
      (dispatch_via_stratum host auditor_wallet receipt source (codes "hi") (7 ∷ []) auditor tt).1
    ≡ (
      err unknown_request,
      (dispatch_via_stratum host auditor_wallet receipt source (codes "hi") (7 ∷ []) auditor tt).1,
    )
handle_audit_result-dispatch_via_stratum_example =
    handle_audit_result-dispatch_via_stratum host auditor_wallet receipt source (codes "hi")
      (7 ∷ []) auditor tt 3 auditor_wallet answer connected refl

abbrev read_back : List ℕ → Option (List ℕ)
read_back hex = some hex

abbrev same_bytes : List ℕ → Text
same_bytes bytes = bytes

decode_token_ids_hex-build_response_example :
    decode_token_ids_hex read_back (build_response same_bytes same_bytes (300 ∷ 7 ∷ [])).1
    ≡ some (300 ∷ 7 ∷ [])
decode_token_ids_hex-build_response_example =
    decode_token_ids_hex-build_response same_bytes same_bytes read_back (λ bytes. refl)
      (300 ∷ 7 ∷ []) (omega arith, (omega arith, tt))
