-- ===== src/Db/Queue.antt =====
-- The work that src/db/repo.rs hands out: receipts to audit and attempts to reveal.
use cs_stratum_bridge.Base.{
  ℕ, ◌≡◌, refl, ◌==◌, if◌then◌else◌, Text, text_key, ◌=ₖ◌, Bool, false, not, ◌&&◌, ◌||◌, List, [],
  ◌∷◌, ◌++◌, arith, any, filter, update, filter-append, some, any-append, Text-discrete, ℕ_discrete,
}
use cs_stratum_bridge.Db.{
  SubmissionStatus, received, committed, published, failed, as_str, from_str, AuditStatus,
  B3LiteReceipt, Submission, revealed, CommitAttempt, RevealCandidate, Db, Action, ejected,
  Consequence,
}
use cs_stratum_bridge.Db.Submissions.{has_action}
use cs_stratum_bridge.Db.Attempts.{
  join, join_all, list_reveal_ready_candidates, mark_attempt_revealed,
}
use cs_stratum_bridge.Db.Audits.{
  is_pending, awaits_audit, list_pending_b3lite_audits, mark_b3lite_audit_result, distinct_wallets,
  list_ejected_wallets, insert_b3lite_consequence, consequence,
}

filter-audited :
    (receipt : ℕ) (status : AuditStatus) (detail : Text) (rows : List B3LiteReceipt)
    → is_pending status ≡ false
    → filter awaits_audit (
        update
          (λ (r : B3LiteReceipt). r.id == receipt)
          (λ r. record r { audit_status = status; audit_detail = some detail })
          rows)
      ≡ filter (λ (r : B3LiteReceipt). not (r.id == receipt)) (filter awaits_audit rows)
filter-audited receipt status detail [] h = refl
filter-audited receipt status detail (r ∷ rows) h =
    ground (arith, filter-audited receipt status detail rows h)

-- A result of an audit, which is not PENDING again, takes exactly its receipt off the list of the
-- audits that are to run.
pub list_pending_b3lite_audits-mark_b3lite_audit_result :
    (receipt : ℕ) (status : AuditStatus) (detail : Text) (d : Db)
    → is_pending status ≡ false
    → list_pending_b3lite_audits (mark_b3lite_audit_result receipt status detail d)
      ≡ filter (λ (r : B3LiteReceipt). not (r.id == receipt)) (list_pending_b3lite_audits d)
unfolding list_pending_b3lite_audits mark_b3lite_audit_result
list_pending_b3lite_audits-mark_b3lite_audit_result receipt status detail d h =
    filter-audited receipt status detail d.receipts.rows h

-- The candidates of another attempt.
abbrev pub of_another : ℕ → RevealCandidate → Bool
of_another attempt c = not (c.attempt_id == attempt)

filter-join :
    (attempt height : ℕ) (a : CommitAttempt) (rows : List Submission)
    → filter (of_another attempt) (join height a rows)
      ≡ (if a.id == attempt then [] else join height a rows)
filter-join attempt height a [] = ground arith
filter-join attempt height a (s ∷ rows) = ground (arith, filter-join attempt height a rows)

join-revealed :
    (height : ℕ) (txid : Text) (a : CommitAttempt) (rows : List Submission)
    → join height (record a { status = revealed; reveal_txid = some txid }) rows ≡ []
join-revealed height txid a [] = refl
join-revealed height txid a (s ∷ rows) = ground (arith, join-revealed height txid a rows)

filter-join_all :
    (attempt height : ℕ) (txid : Text) (attempts : List CommitAttempt) (rows : List Submission)
    → join_all height
        (update
          (λ (a : CommitAttempt). a.id == attempt)
          (λ a. record a { status = revealed; reveal_txid = some txid })
          attempts)
        rows
      ≡ filter (of_another attempt) (join_all height attempts rows)
filter-join_all attempt height txid [] rows = refl
filter-join_all attempt height txid (a ∷ attempts) rows = ground (
  arith,
  filter-join_all attempt height txid attempts rows,
  filter-join attempt height a rows,
  join-revealed height txid a rows,
  filter-append (of_another attempt) (join height a rows) (join_all height attempts rows),
)

-- An attempt that has been revealed is never offered for revealing again, at any height, and every
-- other candidate is offered as before.
pub list_reveal_ready_candidates-mark_attempt_revealed :
    (attempt height : ℕ) (txid : Text) (d : Db)
    → list_reveal_ready_candidates height (mark_attempt_revealed attempt txid d)
      ≡ filter (of_another attempt) (list_reveal_ready_candidates height d)
unfolding list_reveal_ready_candidates mark_attempt_revealed
list_reveal_ready_candidates-mark_attempt_revealed attempt height txid d =
    filter-join_all attempt height txid d.attempts.rows d.submissions.rows

abbrev pub names : List Text → Text → Bool
names wallets w = any (λ (v : Text). v =ₖ w) wallets

-- A wallet has an EJECTED row.
abbrev pub ejects : Text → Consequence → Bool
ejects w c = has_action ejected c.action && (c.miner_wallet =ₖ w)

distinct_wallets-names :
    (w : Text) (rows : List Consequence)
    → names (distinct_wallets (filter (λ (c : Consequence). has_action ejected c.action) rows)) w
      ≡ any (ejects w) rows
distinct_wallets-names w [] = refl
distinct_wallets-names w (c ∷ rows) = ground (arith, distinct_wallets-names w rows)

-- The wallets that a restart of the bridge bans again are those with an EJECTED row: after a
-- consequence has been recorded, its wallet if the consequence ejects it, and all from before.
pub list_ejected_wallets-insert_b3lite_consequence :
    (receipt : ℕ) (wallet request : Text) (action : Action) (reason : Text) (d : Db) (w : Text)
    → names
        (list_ejected_wallets (insert_b3lite_consequence receipt wallet request action reason d))
        w
      ≡ (names (list_ejected_wallets d) w || (has_action ejected action && (wallet =ₖ w)))
unfolding list_ejected_wallets insert_b3lite_consequence
list_ejected_wallets-insert_b3lite_consequence receipt wallet request action reason d w =
    let row : Consequence =
      consequence d.consequences.next_id receipt wallet request action reason in
    ground (
      arith,
      distinct_wallets-names w d.consequences.rows,
      distinct_wallets-names w (d.consequences.rows ++ row ∷ []),
      any-append (ejects w) d.consequences.rows (row ∷ []),
    )

-- The text of a status column is read back as the status that was written.
pub from_str-as_str : (s : SubmissionStatus) → from_str (as_str s) ≡ some s
unfolding from_str as_str Text-discrete ℕ_discrete
from_str-as_str received = refl
from_str-as_str committed = refl
from_str-as_str revealed = refl
from_str-as_str published = refl
from_str-as_str failed = refl
