-- ===== src/Db/Audits.antt =====
-- src/db/repo.rs: the queries on `b3lite_receipts`, `b3lite_consequences` and `opoi_stake_events`.
use cs_stratum_bridge.Base.{
  ℕ, ◌+◌, ◌==◌, if◌then◌else◌, Text, text_key, ◌=ₖ◌, Bool, true, false, ◌&&◌, Option, none, some,
  List, [], ◌∷◌, ◌++◌, length, any, filter, update,
}
use cs_stratum_bridge.Db.{
  AuditStatus, not_sampled, pending, admissible, divergent, inconclusive, B3LiteReceipt, Action,
  withhold_pay, ejected, Consequence, Table, Db,
}
use cs_stratum_bridge.Db.Submissions.{has_action}

-- `RETURNING id`, and the row at the end of its table.
abbrev pub append : {R : Type 0} → R → Table R → Table R
append row t = record { rows = t.rows ++ row ∷ []; next_id = t.next_id + 1 }

unfoldable pub create_b3lite_receipt :
    Text → Text → Text → Text → Option Text → Text → Text → Text → ℕ → Text → Bool → Db → ℕ × Db
create_b3lite_receipt request_id miner_wallet model_id gguf_sha256 prompt_hash prompt_hex
      response_hash generated_token_ids_hex total_layers signature_hex sampled d =
    (
      d.receipts.next_id,
      record d {
        receipts =
            append
              (record {
                id = d.receipts.next_id;
                request_id = request_id;
                miner_wallet = miner_wallet;
                model_id = model_id;
                gguf_sha256 = gguf_sha256;
                prompt_hash = prompt_hash;
                prompt_hex = prompt_hex;
                response_hash = response_hash;
                generated_token_ids_hex = generated_token_ids_hex;
                total_layers = total_layers;
                signature_hex = signature_hex;
                sampled = sampled;
                audit_status = if sampled then pending else not_sampled;
                audit_detail = none;
              })
              d.receipts;
      },
    )

abbrev pub is_pending : AuditStatus → Bool
is_pending pending = true
is_pending not_sampled = false
is_pending admissible = false
is_pending divergent = false
is_pending inconclusive = false

abbrev pub awaits_audit : B3LiteReceipt → Bool
awaits_audit r = r.sampled && is_pending r.audit_status

unfoldable pub list_pending_b3lite_audits : Db → List B3LiteReceipt
list_pending_b3lite_audits d = filter awaits_audit d.receipts.rows

unfoldable pub mark_b3lite_audit_result : ℕ → AuditStatus → Text → Db → Db
mark_b3lite_audit_result receipt status detail d = record d {
  receipts = record {
    rows =
        update (λ (r : B3LiteReceipt). r.id == receipt)
          (λ r. record r { audit_status = status; audit_detail = some detail }) d.receipts.rows;
    next_id = d.receipts.next_id;
  };
}

abbrev pub consequence : ℕ → ℕ → Text → Text → Action → Text → Consequence
consequence id receipt wallet request action reason = record {
  id = id;
  receipt_id = receipt;
  miner_wallet = wallet;
  request_id = request;
  action = action;
  reason = reason;
}

unfoldable pub insert_b3lite_consequence : ℕ → Text → Text → Action → Text → Db → Db
insert_b3lite_consequence receipt wallet request action reason d = record d {
  consequences =
      append (consequence d.consequences.next_id receipt wallet request action reason)
        d.consequences;
}

abbrev pub withheld_from : Text → Consequence → Bool
withheld_from wallet c = (c.miner_wallet =ₖ wallet) && has_action withhold_pay c.action

unfoldable pub count_withhold_consequences : Text → Db → ℕ
count_withhold_consequences wallet d = length (filter (withheld_from wallet) d.consequences.rows)

-- `DISTINCT`: a wallet that a later row names again is passed over.
abbrev pub distinct_wallets : List Consequence → List Text
distinct_wallets [] = []
distinct_wallets (c ∷ rows) =
    let rest = distinct_wallets rows in
    if any (λ (w : Text). w =ₖ c.miner_wallet) rest then rest else c.miner_wallet ∷ rest

unfoldable pub list_ejected_wallets : Db → List Text
list_ejected_wallets d =
    distinct_wallets (filter (λ (c : Consequence). has_action ejected c.action) d.consequences.rows)

unfoldable pub log_stake_event : Text → Option Text → Text → Db → Db
log_stake_event event_type txid detail d = record d {
  stake_events =
      append
        (record {
          id = d.stake_events.next_id;
          event_type = event_type;
          txid = txid;
          detail = detail;
        })
        d.stake_events;
}
