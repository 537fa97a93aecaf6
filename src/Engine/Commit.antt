-- ===== src/Engine/Commit.antt =====
-- `do_commit` of src/opoi/engine.rs: a response is committed with every stake address at once, in up
-- to five rounds. The calls of a round run side by side: `completes` says for each round, counted by
-- the rounds left, in which order they end. The pauses between the rounds have no effect here.
use cs_stratum_bridge.Base.{
  ℕ, zero, suc, ◌%◌, ◌^◌, Text, codes, text_key, ◌=ₖ◌, Bool, true, false, Option, none, some, List,
  [], ◌∷◌, ◌++◌,
}
use cs_stratum_bridge.AppError.{display, Result, ok, err}
use cs_stratum_bridge.Rpc.{OpoiStake, CommitResult}
use cs_stratum_bridge.Daemon.{CsdRpcClient}
use cs_stratum_bridge.Db.{Db}
use cs_stratum_bridge.Db.Submissions.{mark_committed, mark_failed}
use cs_stratum_bridge.Db.Attempts.{upsert_commit_attempt_success, upsert_commit_attempt_failure}
use cs_stratum_bridge.Db.Audits.{log_stake_event}

abbrev pub max_rounds : ℕ
max_rounds = 5

abbrev pub all_failed : Text
all_failed = codes "all stake-pool addresses failed to commit"

-- The loop over the results of a round: each is written down, and the first success is kept.
unfoldable pub record_results :
    ℕ → List (Text × Result CommitResult) → Option CommitResult → Db → Option CommitResult × Db
record_results submission [] first d = (first, d)
record_results submission ((addr, ok r) ∷ results) first d =
    record_results submission results (elim first [ none ↦ some r | some r' ↦ some r' ])
      (upsert_commit_attempt_success submission addr r.txid r.nonce_hex
        (r.commit_window_closes_at_height % 2 ^ 32) d)
record_results submission ((addr, err e) ∷ results) first d =
    record_results submission results first
      (upsert_commit_attempt_failure submission addr (display e) d)

abbrev pub is_suspended : Result (Option OpoiStake) → Bool
is_suspended (ok (some stake)) = stake.status =ₖ codes "SUSPENDED"
is_suspended (ok none) = false
is_suspended (err _) = false

module _ {W : Type 0} (csd : CsdRpcClient W) where
  -- The calls of a round.
  unfoldable pub commit_all :
      Text → Text → ℕ → List Text → W → List (Text × Result CommitResult) × W
  commit_all request hash tokens [] w = ([], w)
  commit_all request hash tokens (addr ∷ addrs) w =
      let (r, w') = csd.submit_response_commit request hash addr tokens w in
      let (rs, w'') = commit_all request hash tokens addrs w' in ((addr, r) ∷ rs, w'')

  abbrev pub log_renewal : Text → Result Text → Db → Db
  log_renewal addr (ok txid) d =
      log_stake_event (codes "RENEW") (some txid) (codes "commit retry for " ++ addr) d
  log_renewal addr (err _) d = d

  abbrev pub renew_one_suspended : Bool → Text → Db → W → Db × W
  renew_one_suspended false addr d w = (d, w)
  renew_one_suspended true addr d w =
      let (r, w') = csd.renew_opoi_stake addr w in (log_renewal addr r d, w')

  unfoldable pub renew_suspended : List Text → Db → W → Db × W
  renew_suspended [] d w = (d, w)
  renew_suspended (addr ∷ addrs) d w =
      let (stake, w') = csd.get_opoi_stake addr w in
      let (d', w'') = renew_one_suspended (is_suspended stake) addr d w' in
      renew_suspended addrs d' w''

  module _ (addresses : List Text) (completes : ℕ → List Text) where
    -- A round in which every address failed: stakes are renewed if a round is left.
    abbrev pub retry : ℕ → (Db → W → Db × W) → Db → W → Db × W
    retry zero rounds d w = rounds d w
    retry (suc n) rounds d w = let (d', w') = renew_suspended addresses d w in rounds d' w'

    abbrev pub finish_round : ℕ → ℕ → (Db → W → Db × W) → Option CommitResult × Db → W → Db × W
    finish_round submission n rounds (some r, d) w = (
      (mark_committed submission r.txid r.nonce_hex (r.commit_window_closes_at_height % 2 ^ 32)
          d).1,
      w,
    )
    finish_round submission n rounds (none, d) w = retry n rounds d w

    -- With `n` rounds left.
    unfoldable pub commit_rounds : ℕ → Text → Text → ℕ → ℕ → Db → W → Db × W
    commit_rounds submission request hash tokens zero d w =
        ((mark_failed submission all_failed d).1, w)
    commit_rounds submission request hash tokens (suc n) d w =
        let (results, w') = commit_all request hash tokens (completes n) w in
        finish_round submission n (commit_rounds submission request hash tokens n)
          (record_results submission results none d) w'

    unfoldable pub do_commit : ℕ → Text → Text → ℕ → Db → W → Db × W
    do_commit submission request hash tokens =
        commit_rounds submission request hash tokens max_rounds
