-- ===== src/Audit/Run.antt =====
-- src/opoi/b3lite_audit.rs: one audit and the tick over all that wait, `run_one` and `audit_tick`.
use cs_stratum_bridge.Base.{
  ℕ, ◌%◌, if◌then◌else◌, Text, codes, text_key, lookup, insert, remove, Bool, true, false, Option,
  none, some, List, [], ◌∷◌, ◌++◌,
}
use cs_stratum_bridge.Wire.{AuditPositionWire, OpoiAuditAssign}
use cs_stratum_bridge.Registry.{Sender, get, pick_auditor_capable}
use cs_stratum_bridge.Db.{B3LiteReceipt, admissible, divergent}
use cs_stratum_bridge.Db.Audits.{
  create_b3lite_receipt, list_pending_b3lite_audits, mark_b3lite_audit_result,
}
use cs_stratum_bridge.Speculative.Pipeline.{ModelSource}
use cs_stratum_bridge.Audit.{
  B3LiteAuditor, all_admissible, mark_inconclusive, apply_consequence, handle_audit_result,
  on_disconnect, decode_token_ids_hex, decode_prompt_hex,
}
use cs_stratum_bridge.Audit.Host.{
  Attempt, done, failure, Meanwhile, audit_result, disconnect, creates_receipt, Host,
  dispatch_via_subprocess,
}

abbrev pub handle_meanwhile : Meanwhile → B3LiteAuditor → B3LiteAuditor
handle_meanwhile (audit_result wallet result) a = (handle_audit_result wallet result a).1
handle_meanwhile (disconnect wallet) a = on_disconnect wallet a
handle_meanwhile (creates_receipt r) a = record a {
  db =
      (create_b3lite_receipt r.request_id r.miner_wallet r.model_id r.gguf_sha256 r.prompt_hash
        r.prompt_hex r.response_hash r.generated_token_ids_hex r.total_layers r.signature_hex
        r.sampled a.db).1;
}

abbrev pub handle_all : List Meanwhile → B3LiteAuditor → B3LiteAuditor
handle_all [] a = a
handle_all (e ∷ es) a = handle_all es (handle_meanwhile e a)

-- Both maps forget a request.
abbrev pub forget : Text → B3LiteAuditor → B3LiteAuditor
forget id a = record a {
  audit_assignments = remove id a.audit_assignments;
  pending = remove id a.pending;
}

-- A new channel for a request.
abbrev pub expect : Text → Text → B3LiteAuditor → B3LiteAuditor
expect id wallet a = record a {
  audit_assignments = insert id wallet a.audit_assignments;
  pending = insert id tt a.pending;
  answers = remove id a.answers;
}

abbrev pub outcome :
    Text → Option (Option (List AuditPositionWire)) → Attempt (List AuditPositionWire)
outcome wallet (some (some positions)) = done positions
outcome wallet (some none) = failure (codes "audit oneshot dropped for wallet " ++ wallet)
outcome wallet none =
    failure (codes "audit via wallet " ++ (wallet ++ codes " timed out after 180s"))

module _ {W : Type 0} (host : Host W) where
  abbrev pub audit_assign : B3LiteReceipt → ModelSource → Text → List ℕ → OpoiAuditAssign
  audit_assign r source prompt_text ids = record {
    request_id = r.request_id;
    model_id = r.model_id;
    gguf_url = source.gguf_url;
    gguf_sha256 = r.gguf_sha256;
    tokenizer_url = source.tokenizer_url;
    tokenizer_sha256 = source.tokenizer_sha256;
    prompt_hex = host.hex_encode prompt_text;
    committed_token_ids = ids;
    total_layers = r.total_layers % 4294967296;
  }

  abbrev pub Dispatched : Type 0
  Dispatched = Attempt (List AuditPositionWire) × B3LiteAuditor × W

  abbrev pub await : Text → Text → B3LiteAuditor → List Meanwhile × W → Dispatched
  await wallet id a (events, w) =
      let a' : B3LiteAuditor = handle_all events a in
      (outcome wallet (lookup id a'.answers), forget id a', w)

  abbrev pub sent : Text → Text → B3LiteAuditor → Bool × W → Dispatched
  sent wallet id a (true, w) = await wallet id a (host.meanwhile id w)
  sent wallet id a (false, w) = (
    failure (codes "wallet " ++ (wallet ++ codes "'s downstream channel is closed")),
    forget id a,
    w,
  )

  abbrev pub send_to :
      Text → B3LiteReceipt → OpoiAuditAssign → Option Sender → B3LiteAuditor → W → Dispatched
  send_to wallet r assign none a w =
      (failure (codes "wallet " ++ (wallet ++ codes " not connected")), a, w)
  send_to wallet r assign (some tx) a w =
      sent wallet r.request_id (expect r.request_id wallet a) (host.send tx assign w)

  unfoldable pub dispatch_via_stratum :
      Text → B3LiteReceipt → ModelSource → Text → List ℕ → B3LiteAuditor → W → Dispatched
  dispatch_via_stratum wallet r source prompt_text ids a w =
      send_to wallet r (audit_assign r source prompt_text ids) (get wallet a.registry) a w

  abbrev pub by_subprocess :
      B3LiteReceipt → ModelSource → Text → List ℕ → B3LiteAuditor → W → Dispatched
  by_subprocess r source prompt_text ids a w =
      let (verdict, w') = dispatch_via_subprocess host r source prompt_text ids a w in
      (verdict, a, w')

  abbrev pub or_subprocess : B3LiteReceipt → ModelSource → Text → List ℕ → Dispatched → Dispatched
  or_subprocess r source prompt_text ids (done positions, a, w) = (done positions, a, w)
  or_subprocess r source prompt_text ids (failure _, a, w) =
      by_subprocess r source prompt_text ids a w

  -- A trusted wallet first, if there is one.
  abbrev pub dispatch :
      Option Text → B3LiteReceipt → ModelSource → Text → List ℕ → B3LiteAuditor → W → Dispatched
  dispatch (some wallet) r source prompt_text ids a w =
      or_subprocess r source prompt_text ids
        (dispatch_via_stratum wallet r source prompt_text ids a w)
  dispatch none r source prompt_text ids a w = by_subprocess r source prompt_text ids a w

  unfoldable pub settle_audit : B3LiteReceipt → Dispatched → B3LiteAuditor × W
  settle_audit r (failure e, a, w) = (mark_inconclusive r.id e a, w)
  settle_audit r (done positions, a, w) =
      if all_admissible positions
      then (
        record a {
          db = mark_b3lite_audit_result r.id admissible (host.positions_json positions) a.db;
        },
        w,
      )
      else (
        apply_consequence r (record a {
          db = mark_b3lite_audit_result r.id divergent (host.positions_json positions) a.db;
        }),
        w,
      )

  abbrev pub with_tokens :
      B3LiteReceipt → ModelSource → Text → Option (List ℕ) → B3LiteAuditor → W → B3LiteAuditor × W
  with_tokens r source prompt_text none a w =
      (mark_inconclusive r.id (codes "generated_token_ids_hex was not a multiple of 4 bytes") a, w)
  with_tokens r source prompt_text (some ids) a w = settle_audit r (
      dispatch (pick_auditor_capable a.trusted_wallets r.miner_wallet a.registry) r source
        prompt_text ids a w)

  abbrev pub with_prompt :
      B3LiteReceipt → ModelSource → Option Text → B3LiteAuditor → W → B3LiteAuditor × W
  with_prompt r source none a w =
      (mark_inconclusive r.id (codes "prompt_hex did not decode to valid UTF-8") a, w)
  with_prompt r source (some prompt_text) a w =
      with_tokens r source prompt_text
        (decode_token_ids_hex host.hex_decode r.generated_token_ids_hex) a w

  abbrev pub with_source :
      B3LiteReceipt → B3LiteAuditor → Option ModelSource × W → B3LiteAuditor × W
  with_source r a (none, w) =
      (mark_inconclusive r.id (codes "no ModelSource entry for this model_id") a, w)
  with_source r a (some source, w) =
      with_prompt r source (decode_prompt_hex host.hex_decode host.from_utf8 r.prompt_hex) a w

  unfoldable pub run_one : B3LiteReceipt → B3LiteAuditor → W → B3LiteAuditor × W
  run_one r a w = with_source r a (host.resolve r.model_id w)

  unfoldable pub run_all : List B3LiteReceipt → B3LiteAuditor → W → B3LiteAuditor × W
  run_all [] a w = (a, w)
  run_all (r ∷ rs) a w = let (a', w') = run_one r a w in run_all rs a' w'

  unfoldable pub audit_tick : B3LiteAuditor → W → B3LiteAuditor × W
  audit_tick a w = run_all (list_pending_b3lite_audits a.db) a w
