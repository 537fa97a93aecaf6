-- ===== src/Audit/Settled.antt =====
-- What audits leave to audit: `run_one` and `audit_tick` of src/opoi/b3lite_audit.rs.
use cs_stratum_bridge.Base.{
  ℕ, ◌==◌, ◌≡◌, ◌≤◌, ◌<◌, ◌||◌, leb, if◌then◌else◌, All, All-mono, All-append, filter-append, refl,
  sym, subst, ◌∙◌, Text, text_key, lookup, contains_key, Bool, true, false, Bool-cases, not, Option,
  none, some, List, [], ◌∷◌, filter, any, arith, inl, inr,
}
use cs_stratum_bridge.Wire.{AuditPositionWire, OpoiAuditResult, OpoiAuditAssign}
use cs_stratum_bridge.Registry.{Sender, pick_auditor_capable, get}
use cs_stratum_bridge.Db.{
  B3LiteReceipt, AuditStatus, admissible, divergent, inconclusive, pending, not_sampled, Db,
}
use cs_stratum_bridge.Db.Audits.{
  is_pending, awaits_audit, create_b3lite_receipt, list_pending_b3lite_audits,
  mark_b3lite_audit_result, insert_b3lite_consequence,
}
use cs_stratum_bridge.Db.Queue.{list_pending_b3lite_audits-mark_b3lite_audit_result}
use cs_stratum_bridge.Speculative.Pipeline.{ModelSource}
use cs_stratum_bridge.Audit.{
  B3LiteAuditor, all_admissible, mark_inconclusive, apply_consequence, handle_audit_result,
  check_caller, deliver, drop_senders, on_disconnect, decode_token_ids_hex, decode_prompt_hex,
  keys_of,
}
use cs_stratum_bridge.Audit.Host.{
  Attempt, done, failure, Meanwhile, audit_result, disconnect, creates_receipt, Host,
}
use cs_stratum_bridge.Audit.Run.{
  handle_all, handle_meanwhile, dispatch, await, sent, send_to, or_subprocess, audit_assign, expect,
  dispatch_via_stratum, settle_audit, with_source, with_prompt, with_tokens, run_one, run_all,
  audit_tick,
}

-- What a handler that writes nothing keeps.
abbrev Same : B3LiteAuditor → B3LiteAuditor → Type 0
Same a b = (b.db ≡ a.db) × (b.registry ≡ a.registry)

deliver-Same :
    (result : OpoiAuditResult) (waits : Bool) (a : B3LiteAuditor) → Same a (deliver result waits a)
deliver-Same result true a = (refl, refl)
deliver-Same result false a = (refl, refl)

check_caller-Same :
    (wallet : Text) (result : OpoiAuditResult) (expected : Option Text) (a : B3LiteAuditor)
    → Same a (check_caller wallet result expected a).1
check_caller-Same wallet result none a = (refl, refl)
check_caller-Same wallet result (some expected) a =
    let (same, same') = deliver-Same result (contains_key result.request_id a.pending) a in
    (ground arith, ground arith)

drop_senders-Same : (ids : List Text) (a : B3LiteAuditor) → Same a (drop_senders ids a)
drop_senders-Same [] a = (refl, refl)
drop_senders-Same (id ∷ ids) a = drop_senders-Same ids _

-- The other receipts.
abbrev pub of_another : ℕ → B3LiteReceipt → Bool
of_another receipt r = not (r.id == receipt)

-- A receipt is one of a list, or not older than `n`.
abbrev pub is_left : ℕ → List B3LiteReceipt → B3LiteReceipt → Bool
is_left n rs x = leb n x.id || any (λ (r : B3LiteReceipt). x.id == r.id) rs

-- What waits for an audit is one of a list, or not older than `n`.
abbrev pub Leaves : ℕ → List B3LiteReceipt → Db → Type 0
Leaves n rs d =
    All (λ (x : B3LiteReceipt). is_left n rs x ≡ true) (list_pending_b3lite_audits d)
    × (n ≤ d.receipts.next_id)

is_left_cons :
    (n : ℕ) (r : B3LiteReceipt) (rs xs : List B3LiteReceipt)
    → All (λ (x : B3LiteReceipt). is_left n rs x ≡ true) xs
    → All (λ (x : B3LiteReceipt). is_left n (r ∷ rs) x ≡ true) xs
is_left_cons n r rs xs h =
    All-mono (λ (x : B3LiteReceipt) (l : is_left n rs x ≡ true). ground arith) xs h

every_is_left :
    (n : ℕ) (rs : List B3LiteReceipt) → All (λ (x : B3LiteReceipt). is_left n rs x ≡ true) rs
every_is_left n [] = tt
every_is_left n (r ∷ rs) = (ground arith, is_left_cons n r rs rs (every_is_left n rs))

filter-is_left :
    (n : ℕ) (r : B3LiteReceipt) (rs xs : List B3LiteReceipt)
    → All (λ (x : B3LiteReceipt). is_left n (r ∷ rs) x ≡ true) xs
    → All (λ (x : B3LiteReceipt). is_left n rs x ≡ true) (filter (of_another r.id) xs)
filter-is_left n r rs [] h = tt
filter-is_left n r rs (x ∷ xs) (one, all) =
    let rest = filter-is_left n r rs xs all in
    elim (Bool-cases (x.id == r.id)) [
      | inl same ↦ rw same rest
      | inr other ↦ rw other (ground arith, rest)
    ]

-- A new receipt has the next number.
create_b3lite_receipt-Leaves :
    (n : ℕ) (rs : List B3LiteReceipt) (request wallet model gguf : Text) (hash : Option Text)
    (prompt_hex response tokens : Text) (layers : ℕ) (signature : Text) (sampled : Bool) (d : Db)
    → Leaves n rs d
    → Leaves n rs
        (create_b3lite_receipt request wallet model gguf hash prompt_hex response tokens layers
          signature sampled d).1
unfolding create_b3lite_receipt list_pending_b3lite_audits
create_b3lite_receipt-Leaves n rs request wallet model gguf hash prompt_hex response tokens layers
      signature sampled d (left, new) =
    let row : B3LiteReceipt = record {
      id = d.receipts.next_id;
      request_id = request;
      miner_wallet = wallet;
      model_id = model;
      gguf_sha256 = gguf;
      prompt_hash = hash;
      prompt_hex = prompt_hex;
      response_hash = response;
      generated_token_ids_hex = tokens;
      total_layers = layers;
      signature_hex = signature;
      sampled = sampled;
      audit_status = if sampled then pending else not_sampled;
      audit_detail = none;
    } in
    let its : is_left n rs row ≡ true = ground arith in
    let is_new : All (λ (x : B3LiteReceipt). is_left n rs x ≡ true)
        (filter awaits_audit (row ∷ [])) =
      elim (Bool-cases (awaits_audit row)) [
        | inl waits ↦ rw waits (its, tt)
        | inr not_waiting ↦ rw not_waiting tt
      ] in
    (
      subst (All (λ (x : B3LiteReceipt). is_left n rs x ≡ true))
          (sym (filter-append awaits_audit d.receipts.rows (row ∷ [])))
          (All-append (λ (x : B3LiteReceipt). is_left n rs x ≡ true) _ _ left is_new),
      omega arith,
    )

list_pending_b3lite_audits-apply_consequence :
    (r : B3LiteReceipt) (a : B3LiteAuditor)
    → (list_pending_b3lite_audits (apply_consequence r a).db ≡ list_pending_b3lite_audits a.db)
      × ((apply_consequence r a).db.receipts.next_id ≡ a.db.receipts.next_id)
unfolding apply_consequence list_pending_b3lite_audits insert_b3lite_consequence
list_pending_b3lite_audits-apply_consequence r a = (ground arith, ground arith)

-- The receipt waits no more, and the others as before.
abbrev Strikes : B3LiteReceipt → Db → Db → Type 0
Strikes r d d' =
    (list_pending_b3lite_audits d' ≡ filter (of_another r.id) (list_pending_b3lite_audits d))
    × (d'.receipts.next_id ≡ d.receipts.next_id)

Strikes-Leaves :
    (n : ℕ) (r : B3LiteReceipt) (rs : List B3LiteReceipt) (d d' : Db)
    → Strikes r d d'
    → Leaves n (r ∷ rs) d
    → Leaves n rs d'
Strikes-Leaves n r rs d d' (struck, same) (left, new) = (
  subst (All (λ (x : B3LiteReceipt). is_left n rs x ≡ true)) (sym struck)
      (filter-is_left n r rs (list_pending_b3lite_audits d) left),
  omega (arith, same),
)

mark_b3lite_audit_result-Strikes :
    (r : B3LiteReceipt) (status : AuditStatus) (detail : Text) (d : Db)
    → is_pending status ≡ false
    → Strikes r d (mark_b3lite_audit_result r.id status detail d)
unfolding mark_b3lite_audit_result
mark_b3lite_audit_result-Strikes r status detail d ends =
    (list_pending_b3lite_audits-mark_b3lite_audit_result r.id status detail d ends, refl)

settle_audit-Strikes :
    {W : Type 0} (host : Host W) (r : B3LiteReceipt) (verdict : Attempt (List AuditPositionWire))
    (a : B3LiteAuditor) (w : W)
    → Strikes r a.db (settle_audit host r (verdict, a, w)).0.db
unfolding settle_audit mark_inconclusive
settle_audit-Strikes host r (failure e) a w =
    mark_b3lite_audit_result-Strikes r inconclusive e a.db refl
settle_audit-Strikes host r (done positions) a w =
    let detail : Text = host.positions_json positions in
    elim (Bool-cases (all_admissible positions)) [
      | inl all ↦ rw all (mark_b3lite_audit_result-Strikes r admissible detail a.db refl)
      | inr some_not ↦
          let marked : B3LiteAuditor = record a {
            db = mark_b3lite_audit_result r.id divergent detail a.db;
          } in
          let (struck, same) = mark_b3lite_audit_result-Strikes r divergent detail a.db refl in
          let (struck', same') = list_pending_b3lite_audits-apply_consequence r marked in
          rw some_not (struck' ∙ struck, same' ∙ same)
    ]

module _ (n : ℕ) (rs : List B3LiteReceipt) where
  abbrev Keeps : B3LiteAuditor → B3LiteAuditor → Type 0
  Keeps a b = Leaves n rs a.db → Leaves n rs b.db

  handle_meanwhile-Keeps : (e : Meanwhile) (a : B3LiteAuditor) → Keeps a (handle_meanwhile e a)
  unfolding handle_audit_result on_disconnect
  handle_meanwhile-Keeps (audit_result wallet result) a =
      let (same, _) =
        check_caller-Same wallet result (lookup result.request_id a.audit_assignments) a in
      subst (Leaves n rs) (sym same)
  handle_meanwhile-Keeps (disconnect wallet) a =
      let (same, _) = drop_senders-Same (keys_of wallet a.audit_assignments) a in
      subst (Leaves n rs) (sym same)
  handle_meanwhile-Keeps (creates_receipt r) a =
      create_b3lite_receipt-Leaves n rs r.request_id r.miner_wallet r.model_id r.gguf_sha256
        r.prompt_hash r.prompt_hex r.response_hash r.generated_token_ids_hex r.total_layers
        r.signature_hex r.sampled a.db

  handle_all-Keeps : (es : List Meanwhile) (a : B3LiteAuditor) → Keeps a (handle_all es a)
  handle_all-Keeps [] a = λ k. k
  handle_all-Keeps (e ∷ es) a =
      λ k. handle_all-Keeps es (handle_meanwhile e a) (handle_meanwhile-Keeps e a k)

  module _ {W : Type 0} (host : Host W) where
    await-Keeps :
        (wallet id : Text) (a : B3LiteAuditor) (es : List Meanwhile) (w : W)
        → Keeps a (await host wallet id a (es, w)).1
    await-Keeps wallet id a es w = handle_all-Keeps es a

    sent-Keeps :
        (wallet id : Text) (a : B3LiteAuditor) (sending : Bool) (w : W)
        → Keeps a (sent host wallet id a (sending, w)).1
    sent-Keeps wallet id a true w =
        await-Keeps wallet id a (host.meanwhile id w).0 (host.meanwhile id w).1
    sent-Keeps wallet id a false w = λ k. k

    send_to-Keeps :
        (wallet : Text) (r : B3LiteReceipt) (assign : OpoiAuditAssign) (tx : Option Sender)
        (a : B3LiteAuditor) (w : W)
        → Keeps a (send_to host wallet r assign tx a w).1
    send_to-Keeps wallet r assign none a w = λ k. k
    send_to-Keeps wallet r assign (some tx) a w =
        let reply = host.send tx assign w in
        sent-Keeps wallet r.request_id (expect r.request_id wallet a) reply.0 reply.1

    or_subprocess-Keeps :
        (r : B3LiteReceipt) (source : ModelSource) (prompt_text : Text) (ids : List ℕ)
        (a b : B3LiteAuditor) (verdict : Attempt (List AuditPositionWire)) (w : W)
        → Keeps a b
        → Keeps a (or_subprocess host r source prompt_text ids (verdict, b, w)).1
    or_subprocess-Keeps r source prompt_text ids a b (done positions) w k = k
    or_subprocess-Keeps r source prompt_text ids a b (failure e) w k = k

    pub dispatch-Keeps :
        (wallet : Option Text) (r : B3LiteReceipt) (source : ModelSource) (prompt_text : Text)
        (ids : List ℕ) (a : B3LiteAuditor) (w : W)
        → Keeps a (dispatch host wallet r source prompt_text ids a w).1
    unfolding dispatch_via_stratum
    dispatch-Keeps none r source prompt_text ids a w = λ k. k
    dispatch-Keeps (some wallet) r source prompt_text ids a w =
        let assign = audit_assign host r source prompt_text ids in
        let answer = send_to host wallet r assign (get wallet a.registry) a w in
        or_subprocess-Keeps r source prompt_text ids a answer.1 answer.0 answer.2
          (send_to-Keeps wallet r assign (get wallet a.registry) a w)

module _ {W : Type 0} (host : Host W) (n : ℕ) where
  with_tokens-Settles :
      (rs : List B3LiteReceipt) (r : B3LiteReceipt) (source : ModelSource) (prompt_text : Text)
      (ids : Option (List ℕ)) (a : B3LiteAuditor) (w : W)
      → Leaves n (r ∷ rs) a.db
      → Leaves n rs (with_tokens host r source prompt_text ids a w).0.db
  unfolding mark_inconclusive
  with_tokens-Settles rs r source prompt_text none a w =
      Strikes-Leaves n r rs a.db _ (mark_b3lite_audit_result-Strikes r inconclusive _ a.db refl)
  with_tokens-Settles rs r source prompt_text (some ids) a w =
      let wallet : Option Text = pick_auditor_capable a.trusted_wallets r.miner_wallet a.registry in
      let x = dispatch host wallet r source prompt_text ids a w in
      λ k.
        Strikes-Leaves n r rs x.1.db _ (settle_audit-Strikes host r x.0 x.1 x.2)
          (dispatch-Keeps n (r ∷ rs) host wallet r source prompt_text ids a w k)

  with_prompt-Settles :
      (rs : List B3LiteReceipt) (r : B3LiteReceipt) (source : ModelSource)
      (prompt_text : Option Text) (a : B3LiteAuditor) (w : W)
      → Leaves n (r ∷ rs) a.db
      → Leaves n rs (with_prompt host r source prompt_text a w).0.db
  unfolding mark_inconclusive
  with_prompt-Settles rs r source none a w =
      Strikes-Leaves n r rs a.db _ (mark_b3lite_audit_result-Strikes r inconclusive _ a.db refl)
  with_prompt-Settles rs r source (some prompt_text) a w =
      with_tokens-Settles rs r source prompt_text
        (decode_token_ids_hex host.hex_decode r.generated_token_ids_hex) a w

  with_source-Settles :
      (rs : List B3LiteReceipt) (r : B3LiteReceipt) (a : B3LiteAuditor)
      (source : Option ModelSource) (w : W)
      → Leaves n (r ∷ rs) a.db
      → Leaves n rs (with_source host r a (source, w)).0.db
  unfolding mark_inconclusive
  with_source-Settles rs r a none w =
      Strikes-Leaves n r rs a.db _ (mark_b3lite_audit_result-Strikes r inconclusive _ a.db refl)
  with_source-Settles rs r a (some source) w =
      with_prompt-Settles rs r source
        (decode_prompt_hex host.hex_decode host.from_utf8 r.prompt_hex) a w

  run_one-Settles :
      (rs : List B3LiteReceipt) (r : B3LiteReceipt) (a : B3LiteAuditor) (w : W)
      → Leaves n (r ∷ rs) a.db
      → Leaves n rs (run_one host r a w).0.db
  unfolding run_one
  run_one-Settles rs r a w = let x = host.resolve r.model_id w in with_source-Settles rs r a x.0 x.1

  run_all-Settles :
      (rs : List B3LiteReceipt) (a : B3LiteAuditor) (w : W)
      → Leaves n rs a.db
      → Leaves n [] (run_all host rs a w).0.db
  unfolding run_all
  run_all-Settles [] a w left = left
  run_all-Settles (r ∷ rs) a w left =
      let x = run_one host r a w in run_all-Settles rs x.0 x.1 (run_one-Settles rs r a w left)

  -- What is left is new.
  new_of_left :
      (xs : List B3LiteReceipt)
      → All (λ (x : B3LiteReceipt). is_left n [] x ≡ true) xs
      → All (λ (x : B3LiteReceipt). n ≤ x.id) xs
  new_of_left xs left =
      All-mono (λ (x : B3LiteReceipt) (l : is_left n [] x ≡ true). ground arith) xs left

  older :
      (r : B3LiteReceipt) (xs : List B3LiteReceipt)
      → r.id < n
      → All (λ (x : B3LiteReceipt). n ≤ x.id) xs
      → any (λ (x : B3LiteReceipt). x.id == r.id) xs ≡ false
  older r [] old new = refl
  older r (x ∷ xs) old (one, all) = ground (arith, older r xs old all)

module _ {W : Type 0} (host : Host W) where
  -- After a tick none of the receipts that waited for an audit before it waits any more, whatever the
  -- sources, the auditors, the process and the handlers that run meanwhile do: each has a verdict or is
  -- inconclusive. What waits then was created meanwhile, and has a number that was not given before.
  -- Provided that the receipts that wait have numbers that were given before; every statement of the
  -- database is taken to be carried out.
  pub list_pending_b3lite_audits-audit_tick :
      (a : B3LiteAuditor) (w : W)
      → let before = list_pending_b3lite_audits a.db in
        let after = list_pending_b3lite_audits (audit_tick host a w).0.db in
        All (λ (r : B3LiteReceipt). r.id < a.db.receipts.next_id) before
        → All (λ (x : B3LiteReceipt). a.db.receipts.next_id ≤ x.id) after
          × All
              (λ (r : B3LiteReceipt). any (λ (x : B3LiteReceipt). x.id == r.id) after ≡ false)
              before
  unfolding audit_tick
  list_pending_b3lite_audits-audit_tick a w old =
      let n : ℕ = a.db.receipts.next_id in
      let rs : List B3LiteReceipt = list_pending_b3lite_audits a.db in
      let after : List B3LiteReceipt = list_pending_b3lite_audits (run_all host rs a w).0.db in
      let new : All (λ (x : B3LiteReceipt). n ≤ x.id) after =
        new_of_left host n after
          (run_all-Settles host n rs a w (every_is_left n rs, omega arith)).0 in
      (new, All-mono (λ (r : B3LiteReceipt) (o : r.id < n). older host n r after o new) rs old)
