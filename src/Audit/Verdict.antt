-- ===== src/Audit/Verdict.antt =====
-- What a verdict of src/opoi/b3lite_audit.rs costs the miner: `apply_consequence` behind `run_one`.
use cs_stratum_bridge.Base.{
  ℕ, suc, ◌≡◌, refl, ap, ◌∙◌, leb, if◌then◌else◌, Text, text_key, ◌=ₖ◌, lookup-insert, Bool, true,
  false, Bool-cases, not, ◌&&◌, ◌||◌, List, [], ◌∷◌, filter, length-filter-append, arith, inl, inr,
}
use cs_stratum_bridge.Wire.{AuditPositionWire}
use cs_stratum_bridge.Registry.{MinerRegistry, is_banned, ban}
use cs_stratum_bridge.Db.{
  Db, AuditStatus, B3LiteReceipt, Submission, Action, withhold_pay, reputation_flag, ejected,
  admissible, divergent,
}
use cs_stratum_bridge.Db.Submissions.{list_unpaid_published, has_action}
use cs_stratum_bridge.Db.Audits.{
  insert_b3lite_consequence, count_withhold_consequences, withheld_from, consequence,
  list_ejected_wallets, mark_b3lite_audit_result,
}
use cs_stratum_bridge.Db.Payable.{spared, list_unpaid_published-insert_b3lite_consequence}
use cs_stratum_bridge.Db.Queue.{names, list_ejected_wallets-insert_b3lite_consequence}
use cs_stratum_bridge.Audit.{
  B3LiteAuditor, all_admissible, apply_consequence, punish, eject, divergence_reason, eject_reason,
}
use cs_stratum_bridge.Audit.Host.{done, Host}
use cs_stratum_bridge.Audit.Run.{settle_audit}

-- The divergence of a receipt is one too many for its wallet, which is `v`.
abbrev pub ejects_wallet : B3LiteReceipt → Db → Text → Bool
ejects_wallet r d v =
    leb 3 (suc (count_withhold_consequences r.miner_wallet d)) && (r.miner_wallet =ₖ v)

count_withhold_consequences-punish :
    (r : B3LiteReceipt) (action : Action) (reason : Text) (d : Db)
    → count_withhold_consequences r.miner_wallet (punish r action reason d) ≡ (
        if has_action withhold_pay action
        then suc (count_withhold_consequences r.miner_wallet d)
        else count_withhold_consequences r.miner_wallet d)
unfolding count_withhold_consequences insert_b3lite_consequence
count_withhold_consequences-punish r action reason d =
    let row = consequence d.consequences.next_id r.id r.miner_wallet r.request_id action reason in
    ground
      (arith, length-filter-append (withheld_from r.miner_wallet) d.consequences.rows (row ∷ []))

filter-spared :
    (action : Action) (request : Text) (rows : List Submission)
    → has_action withhold_pay action ≡ false
    → filter (spared action request) rows ≡ rows
filter-spared action request [] h = refl
filter-spared action request (s ∷ rows) h = ground (arith, filter-spared action request rows h)

list_unpaid_published-punish :
    (r : B3LiteReceipt) (action : Action) (reason : Text) (d : Db)
    → has_action withhold_pay action ≡ false
    → list_unpaid_published (punish r action reason d) ≡ list_unpaid_published d
list_unpaid_published-punish r action reason d h =
    list_unpaid_published-insert_b3lite_consequence r.id r.miner_wallet r.request_id action reason d
    ∙ filter-spared action r.request_id (list_unpaid_published d) h

is_banned-ban :
    (w v : Text) (registry : MinerRegistry)
    → is_banned v (ban w registry) ≡ (is_banned v registry || (w =ₖ v))
unfolding is_banned ban
is_banned-ban w v registry = ground (arith, lookup-insert w v tt registry.banned)

-- The rows that every divergence adds.
abbrev flagged : B3LiteReceipt → Db → Db
flagged r d =
    punish r reputation_flag (divergence_reason r) (punish r withhold_pay (divergence_reason r) d)

count_withhold_consequences-flagged :
    (r : B3LiteReceipt) (d : Db)
    → count_withhold_consequences r.miner_wallet (flagged r d)
      ≡ suc (count_withhold_consequences r.miner_wallet d)
count_withhold_consequences-flagged r d =
    count_withhold_consequences-punish r reputation_flag (divergence_reason r)
      (punish r withhold_pay (divergence_reason r) d)
    ∙ count_withhold_consequences-punish r withhold_pay (divergence_reason r) d

names-flagged :
    (r : B3LiteReceipt) (d : Db) (v : Text)
    → names (list_ejected_wallets (flagged r d)) v ≡ names (list_ejected_wallets d) v
names-flagged r d v = ground (
  arith,
  list_ejected_wallets-insert_b3lite_consequence r.id r.miner_wallet r.request_id reputation_flag
      (divergence_reason r) (punish r withhold_pay (divergence_reason r) d) v,
  list_ejected_wallets-insert_b3lite_consequence r.id r.miner_wallet r.request_id withhold_pay
      (divergence_reason r) d v,
)

-- What a divergence does, with the number of the divergences so far.
eject-Bans :
    (r : B3LiteReceipt) (n : ℕ) (a : B3LiteAuditor) (v : Text)
    → (is_banned v (eject r n a).registry
        ≡ (is_banned v a.registry || (leb 3 n && (r.miner_wallet =ₖ v))))
      × (names (list_ejected_wallets (eject r n a).db) v
          ≡ (names (list_ejected_wallets a.db) v || (leb 3 n && (r.miner_wallet =ₖ v))))
      × (list_unpaid_published (eject r n a).db ≡ list_unpaid_published a.db)
eject-Bans r n a v = elim (Bool-cases (leb 3 n)) [
  | inl enough ↦ (
    ground (arith, is_banned-ban r.miner_wallet v a.registry),
    ground (
      arith,
      list_ejected_wallets-insert_b3lite_consequence r.id r.miner_wallet r.request_id ejected
          (eject_reason n) a.db v,
    ),
    ground (arith, list_unpaid_published-punish r ejected (eject_reason n) a.db refl),
  )
  | inr few ↦ (ground arith, ground arith, ground arith)
]

apply_consequence-Bans :
    (r : B3LiteReceipt) (a : B3LiteAuditor) (v : Text)
    → (is_banned v (apply_consequence r a).registry
        ≡ (is_banned v a.registry || ejects_wallet r a.db v))
      × (names (list_ejected_wallets (apply_consequence r a).db) v
          ≡ (names (list_ejected_wallets a.db) v || ejects_wallet r a.db v))
      × (list_unpaid_published (apply_consequence r a).db
          ≡ filter (spared withhold_pay r.request_id) (list_unpaid_published a.db))
unfolding apply_consequence
apply_consequence-Bans r a v =
    let n : ℕ = count_withhold_consequences r.miner_wallet (flagged r a.db) in
    let (bans, names_more, unpaid) = eject-Bans r n (record a { db = flagged r a.db }) v in
    let enough : leb 3 n ≡ leb 3 (suc (count_withhold_consequences r.miner_wallet a.db)) =
      ap (leb 3) (count_withhold_consequences-flagged r a.db) in
    (
      bans ∙ ap (λ b. is_banned v a.registry || (b && (r.miner_wallet =ₖ v))) enough,
      names_more ∙ ground (arith, enough, names-flagged r a.db v),
      unpaid
          ∙ (list_unpaid_published-punish r reputation_flag (divergence_reason r)
                (punish r withhold_pay (divergence_reason r) a.db) refl
              ∙ list_unpaid_published-insert_b3lite_consequence r.id r.miner_wallet r.request_id
                  withhold_pay (divergence_reason r) a.db),
    )

-- A submission stays payable by the verdict.
abbrev pub stays : Bool → B3LiteReceipt → Submission → Bool
stays admits r s = admits || spared withhold_pay r.request_id s

filter-stays : (r : B3LiteReceipt) (rows : List Submission) → filter (stays true r) rows ≡ rows
filter-stays r [] = refl
filter-stays r (s ∷ rows) = ap (◌∷◌ s) (filter-stays r rows)

-- That a verdict is stored changes neither the consequences nor what is to be paid.
mark_b3lite_audit_result-Keeps :
    (r : B3LiteReceipt) (status : AuditStatus) (detail : Text) (d : Db) (v : Text)
    → (list_unpaid_published (mark_b3lite_audit_result r.id status detail d)
        ≡ list_unpaid_published d)
      × (names (list_ejected_wallets (mark_b3lite_audit_result r.id status detail d)) v
          ≡ names (list_ejected_wallets d) v)
      × (ejects_wallet r (mark_b3lite_audit_result r.id status detail d) v ≡ ejects_wallet r d v)
unfolding mark_b3lite_audit_result list_unpaid_published list_ejected_wallets
    count_withhold_consequences
mark_b3lite_audit_result-Keeps r status detail d v = (refl, refl, refl)

-- A verdict of an audit: its request is withheld from payment exactly if a position is not admissible
-- or there is none; nothing else is. Then the wallet is banned if that makes three divergences or
-- more, and exactly the wallets that this bans are also among those that a restart bans again.
pub settle_audit-Judges :
    {W : Type 0} (host : Host W) (r : B3LiteReceipt) (positions : List AuditPositionWire)
    (a : B3LiteAuditor) (w : W) (v : Text)
    → (list_unpaid_published (settle_audit host r (done positions, a, w)).0.db
        ≡ filter (stays (all_admissible positions) r) (list_unpaid_published a.db))
      × (is_banned v (settle_audit host r (done positions, a, w)).0.registry
          ≡ (is_banned v a.registry || (not (all_admissible positions) && ejects_wallet r a.db v)))
      × (names (list_ejected_wallets (settle_audit host r (done positions, a, w)).0.db) v ≡ (
          names (list_ejected_wallets a.db) v
          || (not (all_admissible positions) && ejects_wallet r a.db v)))
unfolding settle_audit
settle_audit-Judges host r positions a w v =
    let detail : Text = host.positions_json positions in
    elim (Bool-cases (all_admissible positions)) [
      | inl all ↦
          let (same, same', _) = mark_b3lite_audit_result-Keeps r admissible detail a.db v in
          (ground (arith, filter-stays r (list_unpaid_published a.db)), ground arith, ground arith)
      | inr not_all ↦
          let marked : B3LiteAuditor = record a {
            db = mark_b3lite_audit_result r.id divergent detail a.db;
          } in
          let (same, same', count) = mark_b3lite_audit_result-Keeps r divergent detail a.db v in
          let (bans, names_more, unpaid) = apply_consequence-Bans r marked v in
          (ground arith, ground arith, ground arith)
    ]
