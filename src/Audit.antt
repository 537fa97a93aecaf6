-- ===== src/Audit.antt =====
-- src/opoi/b3lite_audit.rs: the audits of receipts. The waiting task of a dispatch and the handlers
-- that run meanwhile share the auditor; files, the process and the texts of JSON are a library's.
pub mod Host
pub mod Run
pub mod Settled
pub mod Verdict
pub mod Caller
pub mod Tokens
mod Tests
use cs_stratum_bridge.Base.{
  ℕ, ◌+◌, ◌==◌, ◌%◌, leb, if◌then◌else◌, Text, codes, decimal, text_key, ◌=ₖ◌, Map, Set, lookup,
  insert, remove, contains_key, Bool, true, false, not, ◌&&◌, Option, none, some, List, [], ◌∷◌,
  ◌++◌, length,
}
use cs_stratum_bridge.Bytes.{from_le_bytes}
use cs_stratum_bridge.AppError.{AppError, unknown_request, not_assigned_to_caller, Result, ok, err}
use cs_stratum_bridge.Wire.{AuditPositionWire, OpoiAuditResult}
use cs_stratum_bridge.Registry.{MinerRegistry, ban}
use cs_stratum_bridge.Db.{
  Db, B3LiteReceipt, AuditStatus, inconclusive, Action, withhold_pay, reputation_flag, ejected,
}
use cs_stratum_bridge.Db.Audits.{
  mark_b3lite_audit_result, insert_b3lite_consequence, count_withhold_consequences,
}

-- `pending` has the requests whose sender is kept; `answers` has what the receiver of a request got:
-- the positions, or `none` from a sender that was dropped.
pub record B3LiteAuditor : Type 0 where
  pub db : Db
  pub registry : MinerRegistry
  pub cs_miner_bin : Text
  pub cache_dir : Text
  pub trusted_wallets : List Text
  pub audit_assignments : Map Text Text
  pub pending : Set Text
  pub answers : Map Text (Option (List AuditPositionWire))

unfoldable pub new : Db → MinerRegistry → Text → Text → List Text → B3LiteAuditor
new db registry cs_miner_bin cache_dir trusted_wallets = record {
  db = db;
  registry = registry;
  cs_miner_bin = cs_miner_bin;
  cache_dir = cache_dir;
  trusted_wallets = trusted_wallets;
  audit_assignments = [];
  pending = [];
  answers = [];
}

abbrev pub every_admissible : List AuditPositionWire → Bool
every_admissible [] = true
every_admissible (p ∷ ps) = p.admissible && every_admissible ps

unfoldable pub all_admissible : List AuditPositionWire → Bool
all_admissible [] = false
all_admissible (p ∷ ps) = every_admissible (p ∷ ps)

abbrev pub eject_after_divergences : ℕ
eject_after_divergences = 3

unfoldable pub mark_inconclusive : ℕ → Text → B3LiteAuditor → B3LiteAuditor
mark_inconclusive receipt detail a = record a {
  db = mark_b3lite_audit_result receipt inconclusive detail a.db;
}

-- A consequence for the request of a receipt.
abbrev pub punish : B3LiteReceipt → Action → Text → Db → Db
punish r action reason d =
    insert_b3lite_consequence r.id r.miner_wallet r.request_id action reason d

abbrev pub divergence_reason : B3LiteReceipt → Text
divergence_reason r = codes "B3-lite audit found a real divergence for request_id=" ++ r.request_id

abbrev pub eject_reason : ℕ → Text
eject_reason n =
    decimal n
    ++ (codes " confirmed B3-lite divergences (threshold "
        ++ (decimal eject_after_divergences ++ codes ")"))

-- With the number of the divergences so far.
abbrev pub eject : B3LiteReceipt → ℕ → B3LiteAuditor → B3LiteAuditor
eject r n a =
    if leb eject_after_divergences n
    then record a {
      registry = ban r.miner_wallet a.registry;
      db = punish r ejected (eject_reason n) a.db;
    }
    else a

unfoldable pub apply_consequence : B3LiteReceipt → B3LiteAuditor → B3LiteAuditor
apply_consequence r a =
    let reason : Text = divergence_reason r in
    let d : Db = punish r reputation_flag reason (punish r withhold_pay reason a.db) in
    eject r (count_withhold_consequences r.miner_wallet d) (record a { db = d })

abbrev pub deliver : OpoiAuditResult → Bool → B3LiteAuditor → B3LiteAuditor
deliver result true a = record a {
  pending = remove result.request_id a.pending;
  answers = insert result.request_id (some result.positions) a.answers;
}
deliver result false a = a

abbrev pub check_caller :
    Text → OpoiAuditResult → Option Text → B3LiteAuditor → Result (Unit {0}) × B3LiteAuditor
check_caller wallet result none a = (err unknown_request, a)
check_caller wallet result (some expected) a =
    if expected =ₖ wallet
    then (ok tt, deliver result (contains_key result.request_id a.pending) a)
    else (err not_assigned_to_caller, a)

-- An answer that comes after the sender is gone is no error.
unfoldable pub handle_audit_result :
    Text → OpoiAuditResult → B3LiteAuditor → Result (Unit {0}) × B3LiteAuditor
handle_audit_result wallet result a =
    check_caller wallet result (lookup result.request_id a.audit_assignments) a

abbrev pub keys_of : Text → Map Text Text → List Text
keys_of wallet [] = []
keys_of wallet ((id, w) ∷ m) =
    let rest = keys_of wallet m in if w =ₖ wallet then id ∷ rest else rest

-- The sender of a request that waits is dropped.
abbrev pub drop_sender : Text → B3LiteAuditor → B3LiteAuditor
drop_sender id a = record a {
  audit_assignments = remove id a.audit_assignments;
  pending = remove id a.pending;
  answers = if contains_key id a.pending then insert id none a.answers else a.answers;
}

abbrev pub drop_senders : List Text → B3LiteAuditor → B3LiteAuditor
drop_senders [] a = a
drop_senders (id ∷ ids) a = drop_senders ids (drop_sender id a)

unfoldable pub on_disconnect : Text → B3LiteAuditor → B3LiteAuditor
on_disconnect wallet a = drop_senders (keys_of wallet a.audit_assignments) a

-- `chunks_exact(4)`.
abbrev pub ids_of : List ℕ → List ℕ
ids_of (b ∷ c ∷ d ∷ e ∷ bytes) = from_le_bytes (b ∷ c ∷ d ∷ e ∷ []) ∷ ids_of bytes
ids_of _ = []

abbrev pub whole_ids : Option (List ℕ) → Option (List ℕ)
whole_ids none = none
whole_ids (some bytes) = if length bytes % 4 == 0 then some (ids_of bytes) else none

unfoldable pub decode_token_ids_hex : (Text → Option (List ℕ)) → Text → Option (List ℕ)
decode_token_ids_hex hex_decode hex = whole_ids (hex_decode hex)

abbrev pub read_text : (List ℕ → Option Text) → Option (List ℕ) → Option Text
read_text from_utf8 none = none
read_text from_utf8 (some bytes) = from_utf8 bytes

unfoldable pub decode_prompt_hex :
    (Text → Option (List ℕ)) → (List ℕ → Option Text) → Text → Option Text
decode_prompt_hex hex_decode from_utf8 hex = read_text from_utf8 (hex_decode hex)
