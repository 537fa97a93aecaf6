-- ===== src/Payout.antt =====
-- src/payout/mod.rs: one payment to all miners at a time. The arithmetic on `f64` is the machine's.
pub mod Listed
mod Tests
use cs_stratum_bridge.Base.{
  ℕ, if◌then◌else◌, Text, text_key, ◌=ₖ◌, text_ltb, Map, Bool, Option, none, some, List, [], ◌∷◌,
  ◌++◌, length, map,
}
use cs_stratum_bridge.AppError.{AppError, Result, ok, err}
use cs_stratum_bridge.Daemon.{CsdRpcClient}
use cs_stratum_bridge.Db.{Submission, Db}
use cs_stratum_bridge.Db.Submissions.{list_unpaid_published, mark_paid}

pub record F64 : Type 0 where
  pub add : ℕ → ℕ → ℕ
  pub sub : ℕ → ℕ → ℕ
  pub mul : ℕ → ℕ → ℕ
  pub div : ℕ → ℕ → ℕ
  pub lt : ℕ → ℕ → Bool
  pub le : ℕ → ℕ → Bool
  pub sum : List ℕ → ℕ

-- The bits of 1.0 and of 100.0; those of 0.0 are 0.
abbrev pub f64_one : ℕ
f64_one = 4607182418800017408

abbrev pub f64_hundred : ℕ
f64_hundred = 4636737291354636288

-- What is due to each wallet, and for which requests, in the order of the wallets.
abbrev pub Balances : Type 0
Balances = Map Text (ℕ × List Text)

module _ (f64 : F64) where
  unfoldable pub add_reward : Text → ℕ → Text → Balances → Balances
  add_reward w reward request [] = (w, (f64.add 0 reward, request ∷ [])) ∷ []
  add_reward w reward request ((v, (total, ids)) ∷ m) =
      let rest = add_reward w reward request m in
      if v =ₖ w
      then (v, (f64.add total reward, ids ++ request ∷ [])) ∷ m
      else (if text_ltb w v
          then (w, (f64.add 0 reward, request ∷ [])) ∷ (v, (total, ids)) ∷ m
          else (v, (total, ids)) ∷ rest)

  -- A submission without a reward is passed over.
  abbrev pub credit : Submission → Option ℕ → Balances → Balances
  credit s none m = m
  credit s (some reward) m = add_reward s.miner_wallet reward s.request_id m

  unfoldable pub group_by_wallet : List Submission → Balances → Balances
  group_by_wallet [] m = m
  group_by_wallet (s ∷ rows) m = group_by_wallet rows (credit s s.reward_amount m)

  -- The wallets whose balance is large enough, what is sent to each, and the requests that it is for.
  unfoldable pub select_payable : ℕ → ℕ → Balances → Map Text ℕ × List Text
  select_payable min_payout fee_factor [] = ([], [])
  select_payable min_payout fee_factor ((w, (total, ids)) ∷ m) =
      let (amounts, requests) = select_payable min_payout fee_factor m in
      let payable : ℕ = f64.mul total fee_factor in
      if f64.lt total min_payout
      then (amounts, requests)
      else (if f64.le payable 0
          then (amounts, requests)
          else ((w, payable) ∷ amounts, ids ++ requests))

  abbrev pub amount_of : Text × ℕ → ℕ
  amount_of (_, payable) = payable

  -- The transaction, how many wallets it pays and how much, unless there is nothing to pay.
  abbrev pub Outcome : Type 0
  Outcome = Result (Option (Text × ℕ × ℕ))

  abbrev pub settle_payment :
      {W : Type 0} → Map Text ℕ → List Text → Db → Result Text × W → Outcome × Db × W
  settle_payment amounts requests d (err x, w) = (err x, d, w)
  settle_payment amounts requests d (ok txid, w) = (
    ok (some (txid, length amounts, f64.sum (map amount_of amounts))),
    mark_paid requests txid d,
    w,
  )

  abbrev pub pay :
      {W : Type 0} → CsdRpcClient W → Text → Map Text ℕ × List Text → Db → W → Outcome × Db × W
  pay csd payout_address ([], requests) d w = (ok none, d, w)
  pay csd payout_address (a ∷ amounts, requests) d w =
      settle_payment (a ∷ amounts) requests d (csd.send_many payout_address (a ∷ amounts) w)

  unfoldable pub run : {W : Type 0} → CsdRpcClient W → Text → ℕ → ℕ → Db → W → Outcome × Db × W
  run csd payout_address min_payout fee_percent d w =
      pay csd payout_address
        (select_payable min_payout (f64.sub f64_one (f64.div fee_percent f64_hundred))
          (group_by_wallet (list_unpaid_published d) []))
        d w
