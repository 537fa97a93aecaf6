-- ===== src/Engine/Decided.antt =====
-- A submission that `do_commit` of src/opoi/engine.rs has run for is COMMITTED as the daemon answered, or
-- FAILED once every call has been refused.
use cs_stratum_bridge.Base.{
  ℕ, zero, suc, ◌≡◌, Text, text_key, true, Option, none, some, List, [], ◌∷◌, ◌&&◌, ◌%◌, ◌^◌,
  update,
}
use cs_stratum_bridge.AppError.{AppError, Result, ok, err}
use cs_stratum_bridge.Rpc.{CommitResult}
use cs_stratum_bridge.Daemon.{CsdRpcClient}
use cs_stratum_bridge.Db.{committed, failed, Submission, Table, Db}
use cs_stratum_bridge.Db.Submissions.{fits_varchar, take_chars, has_id}
use cs_stratum_bridge.Engine.Commit.{commit_all, all_failed, renew_suspended}
use cs_stratum_bridge.Engine.Rows.{Ready}

-- The first success of a round.
abbrev pub Succeeds : CommitResult → List (Text × Result CommitResult) → Type 0
Succeeds r [] = ⊥
Succeeds r ((addr, ok x) ∷ results) = x ≡ r
Succeeds r ((addr, err e) ∷ results) = Succeeds r results

abbrev pub AllRefused : List (Text × Result CommitResult) → Type 0
AllRefused [] = Unit
AllRefused ((addr, ok x) ∷ results) = ⊥
AllRefused ((addr, err e) ∷ results) = AllRefused results

abbrev Reads : List (Text × Result CommitResult) → Option CommitResult → Type 0
Reads results none = AllRefused results
Reads results (some r) = Succeeds r results

-- An answer that the columns of a submission take.
abbrev pub Short : Result CommitResult → Type 0
Short (ok r) = (fits_varchar r.txid && fits_varchar r.nonce_hex) ≡ true
Short (err e) = Unit

module _ {W : Type 0} (csd : CsdRpcClient W) where
  module _ (addresses : List Text) (completes : ℕ → List Text) (id : ℕ) (request hash : Text)
      (tokens : ℕ) where
    -- The state of the daemon after a round in which every address was refused; if a round is left, the
    -- stakes that are suspended are renewed first.
    abbrev pub after_round : ℕ → Db → W → W
    after_round zero d w = w
    after_round (suc n) d w = (renew_suspended csd addresses d w).1

    -- Up to so many rounds: the first success of the first round that has one, or none.
    pub data Rounds : ℕ → W → Option CommitResult → Type 0 where
      exhausted : {w : W} → Rounds 0 w none
      succeeded :
          {n : ℕ} {w : W} {r : CommitResult}
          → Succeeds r (commit_all csd request hash tokens (completes n) w).0
          → Rounds (suc n) w (some r)
      refused :
          {n : ℕ} {w : W} {q : Option CommitResult} (d : Db)
          → AllRefused (commit_all csd request hash tokens (completes n) w).0
          → Rounds n (after_round n d (commit_all csd request hash tokens (completes n) w).1) q
          → Rounds (suc n) w q

    -- What becomes of the row.
    abbrev pub decided : Option CommitResult → Submission → Submission
    decided none s = record s { status = failed; fail_reason = some (take_chars 2000 all_failed) }
    decided (some r) s = record s {
      status = committed;
      commit_txid = some r.txid;
      commit_nonce_hex = some r.nonce_hex;
      commit_window_closes_at_height = some (r.commit_window_closes_at_height % 2 ^ 32);
    }

    -- The rows before and after `n` rounds from `w`.
    abbrev pub Decides : ℕ → W → List Submission → List Submission → Type 0
    Decides n w before after =
        (q : Option CommitResult) × Rounds n w q × (after ≡ update (has_id id) (decided q) before)

    module _
        (short : (addr : Text) (w : W)
          → Short (csd.submit_response_commit request hash addr tokens w).0)
        (base : Table Submission) (ready : Ready id base.rows) where
      abbrev Ends : ℕ → W → Db × W → Type 0
      Ends n w r = Decides n w base.rows r.0.submissions.rows
