-- ===== src/Audit/Caller.antt =====
-- Whose answers an audit of src/opoi/b3lite_audit.rs takes: `handle_audit_result` while
-- `dispatch_via_stratum` waits, and after it.
use cs_stratum_bridge.Base.{
  ℕ, ◌≡◌, refl, ap, sym, subst, lookup-insert_same, ◌∙◌, ◌⊎◌, inl, inr, Text, text_key, ◌=ₖ◌,
  lookup, lookup-insert, lookup-remove, contains_key, Bool, true, false, Bool-cases, Option, none,
  some, List, [], ◌∷◌, arith,
}
use cs_stratum_bridge.AppError.{unknown_request, err}
use cs_stratum_bridge.Wire.{AuditPositionWire, OpoiAuditResult}
use cs_stratum_bridge.Registry.{Sender, get}
use cs_stratum_bridge.Db.{B3LiteReceipt}
use cs_stratum_bridge.Speculative.Pipeline.{ModelSource}
use cs_stratum_bridge.Audit.{
  B3LiteAuditor, handle_audit_result, check_caller, deliver, drop_sender, drop_senders,
  on_disconnect, keys_of,
}
use cs_stratum_bridge.Audit.Host.{done, Meanwhile, audit_result, disconnect, creates_receipt, Host}
use cs_stratum_bridge.Audit.Run.{
  handle_all, handle_meanwhile, dispatch_via_stratum, sent, send_to, expect, forget, outcome,
  audit_assign,
}

-- Among what happens, the wallet answers the request with these positions.
pub data Answers (wallet id : Text) (positions : List AuditPositionWire)
    : List Meanwhile → Type 0 where
  here :
      (result : OpoiAuditResult) (es : List Meanwhile)
      → result.request_id ≡ id
      → result.positions ≡ positions
      → Answers wallet id positions (audit_result wallet result ∷ es)
  later :
      (e : Meanwhile) (es : List Meanwhile)
      → Answers wallet id positions es
      → Answers wallet id positions (e ∷ es)

-- Nobody but the wallet may answer the request.
abbrev Reserved : Text → Text → B3LiteAuditor → Type 0
Reserved wallet id a =
    (lookup id a.audit_assignments ≡ some wallet) ⊎ (lookup id a.audit_assignments ≡ none)

abbrev Answered : Text → List AuditPositionWire → B3LiteAuditor → Type 0
Answered id positions a = lookup id a.answers ≡ some (some positions)

drop_sender-Reserved :
    (wallet id other : Text) (a : B3LiteAuditor)
    → Reserved wallet id a
    → Reserved wallet id (drop_sender other a)
drop_sender-Reserved wallet id other a r =
    ground (arith, lookup-remove other id a.audit_assignments)

drop_senders-Reserved :
    (wallet id : Text) (ids : List Text) (a : B3LiteAuditor)
    → Reserved wallet id a
    → Reserved wallet id (drop_senders ids a)
drop_senders-Reserved wallet id [] a r = r
drop_senders-Reserved wallet id (other ∷ ids) a r =
    drop_senders-Reserved wallet id ids _ (drop_sender-Reserved wallet id other a r)

-- A sender that is dropped answers nothing.
drop_sender-Answered :
    (id other : Text) (positions : List AuditPositionWire) (a : B3LiteAuditor)
    → Answered id positions (drop_sender other a)
    → Answered id positions a
drop_sender-Answered id other positions a h = ground (arith, lookup-insert other id none a.answers)

drop_senders-Answered :
    (id : Text) (ids : List Text) (positions : List AuditPositionWire) (a : B3LiteAuditor)
    → Answered id positions (drop_senders ids a)
    → Answered id positions a
drop_senders-Answered id [] positions a h = h
drop_senders-Answered id (other ∷ ids) positions a h =
    drop_sender-Answered id other positions a (drop_senders-Answered id ids positions _ h)

deliver-Reserved :
    (wallet id : Text) (result : OpoiAuditResult) (waits : Bool) (a : B3LiteAuditor)
    → Reserved wallet id a
    → Reserved wallet id (deliver result waits a)
deliver-Reserved wallet id result true a r = r
deliver-Reserved wallet id result false a r = r

check_caller-Reserved :
    (wallet id caller : Text) (result : OpoiAuditResult) (expected : Option Text)
    (a : B3LiteAuditor)
    → Reserved wallet id a
    → Reserved wallet id (check_caller caller result expected a).1
check_caller-Reserved wallet id caller result none a r = r
check_caller-Reserved wallet id caller result (some expected) a r =
    elim (Bool-cases (expected =ₖ caller)) [
      | inl same ↦
          let kept =
            deliver-Reserved wallet id result (contains_key result.request_id a.pending) a r in
          ground arith
      | inr other ↦ ground arith
    ]

-- The answer of this result to this request.
abbrev IsThat : Text → List AuditPositionWire → OpoiAuditResult → Type 0
IsThat id positions result = (result.request_id ≡ id) × (result.positions ≡ positions)

deliver-Answered :
    (id : Text) (positions : List AuditPositionWire) (result : OpoiAuditResult) (waits : Bool)
    (a : B3LiteAuditor)
    → Answered id positions (deliver result waits a)
    → Answered id positions a ⊎ IsThat id positions result
deliver-Answered id positions result true a h =
    ground (arith, lookup-insert result.request_id id (some result.positions) a.answers)
deliver-Answered id positions result false a h = inl h

check_caller-Answered :
    (wallet id caller : Text) (positions : List AuditPositionWire) (result : OpoiAuditResult)
    (expected : Option Text) (a : B3LiteAuditor)
    → lookup result.request_id a.audit_assignments ≡ expected
    → Reserved wallet id a
    → Answered id positions (check_caller caller result expected a).1
    → Answered id positions a ⊎ ((caller ≡ wallet) × IsThat id positions result)
check_caller-Answered wallet id caller positions result none a e r h = inl h
check_caller-Answered wallet id caller positions result (some expected) a e r h =
    ground
      (arith, deliver-Answered id positions result (contains_key result.request_id a.pending) a)

handle_meanwhile-Reserved :
    (wallet id : Text) (e : Meanwhile) (a : B3LiteAuditor)
    → Reserved wallet id a
    → Reserved wallet id (handle_meanwhile e a)
unfolding handle_audit_result on_disconnect
handle_meanwhile-Reserved wallet id (audit_result caller result) a r =
    check_caller-Reserved wallet id caller result (lookup result.request_id a.audit_assignments) a r
handle_meanwhile-Reserved wallet id (disconnect caller) a r =
    drop_senders-Reserved wallet id (keys_of caller a.audit_assignments) a r
handle_meanwhile-Reserved wallet id (creates_receipt row) a r = r

answered_here :
    (wallet id caller : Text) (positions : List AuditPositionWire) (result : OpoiAuditResult)
    (es : List Meanwhile)
    → caller ≡ wallet
    → IsThat id positions result
    → Answers wallet id positions (audit_result caller result ∷ es)
answered_here wallet id caller positions result es same (asked, told) =
    subst (λ c. Answers wallet id positions (audit_result c result ∷ es)) (sym same)
      (here result es asked told)

handle_meanwhile-Answered :
    (wallet id : Text) (positions : List AuditPositionWire) (e : Meanwhile) (es : List Meanwhile)
    (a : B3LiteAuditor)
    → Reserved wallet id a
    → Answered id positions (handle_meanwhile e a)
    → Answered id positions a ⊎ Answers wallet id positions (e ∷ es)
unfolding handle_audit_result on_disconnect
handle_meanwhile-Answered wallet id positions (audit_result caller result) es a r h =
    elim (check_caller-Answered wallet id caller positions result
      (lookup result.request_id a.audit_assignments) a refl r h) [
        | inl before ↦ inl before
        | inr (same, that) ↦ inr (answered_here wallet id caller positions result es same that)
      ]
handle_meanwhile-Answered wallet id positions (disconnect caller) es a r h =
    inl (drop_senders-Answered id (keys_of caller a.audit_assignments) positions a h)
handle_meanwhile-Answered wallet id positions (creates_receipt row) es a r h = inl h

handle_all-Answered :
    (wallet id : Text) (positions : List AuditPositionWire) (es : List Meanwhile)
    (a : B3LiteAuditor)
    → Reserved wallet id a
    → Answered id positions (handle_all es a)
    → Answered id positions a ⊎ Answers wallet id positions es
handle_all-Answered wallet id positions [] a r h = inl h
handle_all-Answered wallet id positions (e ∷ es) a r h =
    elim (handle_all-Answered wallet id positions es (handle_meanwhile e a)
      (handle_meanwhile-Reserved wallet id e a r) h) [
        | inl before ↦ handle_meanwhile-Answered wallet id positions e es a r before
        | inr answers ↦ inr (later e es answers)
      ]

outcome-done :
    (wallet : Text) (positions : List AuditPositionWire)
    (answer : Option (Option (List AuditPositionWire)))
    → outcome wallet answer ≡ done positions
    → answer ≡ some (some positions)
outcome-done wallet positions (some (some told)) e = cc
outcome-done wallet positions (some none) e = absurd (cc)
outcome-done wallet positions none e = absurd (cc)

handle_all-expect :
    (wallet id : Text) (positions : List AuditPositionWire) (es : List Meanwhile)
    (a : B3LiteAuditor)
    → outcome wallet (lookup id (handle_all es (expect id wallet a)).answers) ≡ done positions
    → Answers wallet id positions es
handle_all-expect wallet id positions es a e =
    elim (handle_all-Answered wallet id positions es (expect id wallet a)
      (inl (lookup-insert_same id wallet a.audit_assignments))
      (outcome-done wallet positions _ e)) [
        | inl before ↦ absurd (ground (arith, lookup-remove id id a.answers))
        | inr answers ↦ answers
      ]

module _ {W : Type 0} (host : Host W) where
  sent-Answers :
      (wallet id : Text) (positions : List AuditPositionWire) (a : B3LiteAuditor) (sending : Bool)
      (w : W)
      → (sent host wallet id (expect id wallet a) (sending, w)).0 ≡ done positions
      → Answers wallet id positions (host.meanwhile id w).0
  sent-Answers wallet id positions a true w e =
      handle_all-expect wallet id positions (host.meanwhile id w).0 a e
  sent-Answers wallet id positions a false w e = absurd (cc)

  -- Positions that an audit gets over stratum are those that the wallet that it was sent to, and no
  -- other, answered for this very request while it waited.
  pub dispatch_via_stratum-Answers :
      (wallet : Text) (r : B3LiteReceipt) (source : ModelSource) (prompt_text : Text) (ids : List ℕ)
      (a : B3LiteAuditor) (w : W) (tx : Sender) (positions : List AuditPositionWire)
      → get wallet a.registry ≡ some tx
      → (dispatch_via_stratum host wallet r source prompt_text ids a w).0 ≡ done positions
      → Answers wallet r.request_id positions
          (host.meanwhile r.request_id
            (host.send tx (audit_assign host r source prompt_text ids) w).1).0
  unfolding dispatch_via_stratum
  dispatch_via_stratum-Answers wallet r source prompt_text ids a w tx positions connected e =
      let assign = audit_assign host r source prompt_text ids in
      let reply = host.send tx assign w in
      sent-Answers wallet r.request_id positions a reply.0 reply.1
        (ap (λ o. (send_to host wallet r assign o a w).0) (sym connected) ∙ e)

  handle_audit_result-forget :
      (caller id : Text) (result : OpoiAuditResult) (a : B3LiteAuditor)
      → result.request_id ≡ id
      → handle_audit_result caller result (forget id a) ≡ (err unknown_request, forget id a)
  unfolding handle_audit_result
  handle_audit_result-forget caller id result a same =
      ground (arith, lookup-remove id result.request_id a.audit_assignments)

  sent-Refuses :
      (wallet id caller : Text) (result : OpoiAuditResult) (a : B3LiteAuditor) (sending : Bool)
      (w : W)
      → result.request_id ≡ id
      → handle_audit_result caller result (sent host wallet id a (sending, w)).1
        ≡ (err unknown_request, (sent host wallet id a (sending, w)).1)
  sent-Refuses wallet id caller result a true w same =
      handle_audit_result-forget caller id result (handle_all (host.meanwhile id w).0 a) same
  sent-Refuses wallet id caller result a false w same =
      handle_audit_result-forget caller id result a same

  -- After an audit over stratum has ended, answered, overdue, dropped or never sent, an answer to its
  -- request is refused as unknown, from any wallet, and changes nothing.
  pub handle_audit_result-dispatch_via_stratum :
      (wallet : Text) (r : B3LiteReceipt) (source : ModelSource) (prompt_text : Text) (ids : List ℕ)
      (a : B3LiteAuditor) (w : W) (tx : Sender) (caller : Text) (result : OpoiAuditResult)
      → get wallet a.registry ≡ some tx
      → result.request_id ≡ r.request_id
      → handle_audit_result caller result
          (dispatch_via_stratum host wallet r source prompt_text ids a w).1
        ≡ (err unknown_request, (dispatch_via_stratum host wallet r source prompt_text ids a w).1)
  unfolding dispatch_via_stratum
  handle_audit_result-dispatch_via_stratum wallet r source prompt_text ids a w tx caller result
        connected same =
      let assign = audit_assign host r source prompt_text ids in
      let reply = host.send tx assign w in
      let refused =
        sent-Refuses wallet r.request_id caller result (expect r.request_id wallet a) reply.0
          reply.1 same in
      subst
        (λ o.
          handle_audit_result caller result (send_to host wallet r assign o a w).1
          ≡ (err unknown_request, (send_to host wallet r assign o a w).1))
        (sym connected) refused
