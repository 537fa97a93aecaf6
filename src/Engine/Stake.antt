-- ===== src/Engine/Stake.antt =====
-- The stakes and the start of src/opoi/engine.rs: `ensure_stake`, `renew_tick`, `renew_one` and
-- `recover_on_startup`. How an `f64` is printed is a library's.
use cs_stratum_bridge.Base.{
  ℕ, ◌-◌, ◌%◌, leb, if◌then◌else◌, Text, codes, text_key, ◌=ₖ◌, Bool, true, Option, none, some,
  List, [], ◌∷◌, ◌++◌,
}
use cs_stratum_bridge.AppError.{other, display, Result, ok, err}
use cs_stratum_bridge.Rpc.{OpoiStake, StakeOpoiResult}
use cs_stratum_bridge.Daemon.{CsdRpcClient}
use cs_stratum_bridge.Db.{Db, Submission}
use cs_stratum_bridge.Db.Audits.{log_stake_event}
use cs_stratum_bridge.Db.Submissions.{list_received}
use cs_stratum_bridge.StakePool.{StakePool, primary}
use cs_stratum_bridge.Engine.Commit.{do_commit}

abbrev pub Done : Type 0 → Type 0
Done W = Result (Unit {0}) × Db × W

abbrev pub suspended : OpoiStake → Bool
suspended stake = stake.status =ₖ codes "SUSPENDED"

abbrev pub no_stake : Text → Text
no_stake address =
    codes "no OPoI stake found for primary address "
    ++ (address ++ codes " and no OPOI_COLLATERAL_TXID configured to create one")

abbrev pub rest_of : List Text → List Text
rest_of [] = []
rest_of (_ ∷ addresses) = addresses

module _ {W : Type 0} (csd : CsdRpcClient W) where
  abbrev pub log_renewed : Text → Db → Result Text × W → Db × W
  log_renewed address d (ok txid, w) =
      (log_stake_event (codes "RENEW") (some txid) (codes "periodic renewal for " ++ address) d, w)
  log_renewed address d (err e, w) =
      (log_stake_event (codes "RENEW_ERROR") none (address ++ (codes ": " ++ display e)) d, w)

  unfoldable pub renew_one : Text → Db → W → Db × W
  renew_one address d w = log_renewed address d (csd.renew_opoi_stake address w)

  -- Whether a stake is renewed now, at this height.
  abbrev pub is_due : ℕ → ℕ → OpoiStake → Bool
  is_due stake_renew_blocks height stake =
      if suspended stake
      then true
      else leb stake_renew_blocks
          (height - (elim stake.last_renewal_height [ none ↦ 0 | some last ↦ last ]))

  abbrev pub renew_if_due : ℕ → ℕ → Text → Db → Result (Option OpoiStake) × W → Db × W
  renew_if_due blocks height address d (ok (some stake), w) =
      if is_due blocks height stake then renew_one address d w else (d, w)
  renew_if_due blocks height address d (ok none, w) = (d, w)
  renew_if_due blocks height address d (err _, w) = (d, w)

  unfoldable pub renew_due : ℕ → ℕ → List Text → Db → W → Db × W
  renew_due blocks height [] d w = (d, w)
  renew_due blocks height (address ∷ addresses) d w =
      let (d', w') = renew_if_due blocks height address d (csd.get_opoi_stake address w) in
      renew_due blocks height addresses d' w'

  abbrev pub renew_at : ℕ → List Text → Db → Result ℕ × W → Db × W
  renew_at blocks addresses d (ok height, w) = renew_due blocks height addresses d w
  renew_at blocks addresses d (err _, w) = (d, w)

  unfoldable pub renew_tick : ℕ → StakePool → Db → W → Db × W
  renew_tick stake_renew_blocks pool d w =
      renew_at stake_renew_blocks pool.addresses d (csd.get_chain_height w)

  abbrev pub renew_if_suspended : OpoiStake → Text → Db → W → Db × W
  renew_if_suspended stake address d w = if suspended stake then renew_one address d w else (d, w)

  -- The other addresses of the pool; an error of the daemon ends the loop.
  abbrev pub ensured : Text → Db → Result (Option OpoiStake) × W → (Db → W → Done W) → Done W
  ensured address d (err e, w) rest = (err e, d, w)
  ensured address d (ok none, w) rest = rest d w
  ensured address d (ok (some stake), w) rest =
      let (d', w') = renew_if_suspended stake address d w in rest d' w'

  unfoldable pub ensure_others : List Text → Db → W → Done W
  ensure_others [] d w = (ok tt, d, w)
  ensure_others (address ∷ addresses) d w =
      ensured address d (csd.get_opoi_stake address w) (ensure_others addresses)

  module _ (f64_text : ℕ → Text) where
    abbrev pub log_staked : Text → Db → Result StakeOpoiResult × W → (Db → W → Done W) → Done W
    log_staked address d (err e, w) rest = (err e, d, w)
    log_staked address d (ok res, w) rest =
        rest
          (log_stake_event (codes "STAKE") (some res.txid)
            (codes "initial stake for " ++ (address ++ (codes ", amount=" ++ f64_text res.amount)))
            d)
          w

    abbrev pub create_stake : Text → Text → ℕ → Text → Text → Db → W → (Db → W → Done W) → Done W
    create_stake address collateral_txid vout endpoint model d w rest =
        if collateral_txid =ₖ []
        then (err (other (no_stake address)), d, w)
        else log_staked address d (csd.stake_opoi address collateral_txid vout endpoint model w)
            rest

    abbrev pub ensure_primary :
        Text
        → Text
        → ℕ
        → Text
        → Text
        → Db
        → Result (Option OpoiStake) × W
        → (Db → W → Done W)
        → Done W
    ensure_primary address txid vout endpoint model d (err e, w) rest = (err e, d, w)
    ensure_primary address txid vout endpoint model d (ok none, w) rest =
        create_stake address txid vout endpoint model d w rest
    ensure_primary address txid vout endpoint model d (ok (some stake), w) rest =
        let (d', w') = renew_if_suspended stake address d w in rest d' w'

    unfoldable pub ensure_stake : Text → ℕ → Text → Text → StakePool → Db → W → Done W
    ensure_stake collateral_txid vout endpoint model pool d w =
        ensure_primary (primary pool) collateral_txid vout endpoint model d
          (csd.get_opoi_stake (primary pool) w) (ensure_others (rest_of pool.addresses))

  module _ (addresses : List Text) (completes : ℕ → List Text) where
    -- One after the other; the code commits four at a time.
    unfoldable pub commit_received : List Submission → Db → W → Db × W
    commit_received [] d w = (d, w)
    commit_received (sub ∷ subs) d w =
        let (d', w') =
          do_commit csd addresses completes sub.id sub.request_id sub.response_hash
            (sub.token_count % 4294967296) d w in
        commit_received subs d' w'

    unfoldable pub recover_on_startup : Db → W → Db × W
    recover_on_startup d w = commit_received (list_received d) d w
