-- ===== src/Payout/Listed.antt =====
-- Which requests a payout of src/payout/mod.rs marks as paid.
use cs_stratum_bridge.Base.{
  ℕ, ◌≡◌, Text, text_key, ◌=ₖ◌, Map, true, none, some, List, All, length, map, any,
}
use cs_stratum_bridge.AppError.{AppError, ok, err}
use cs_stratum_bridge.Daemon.{CsdRpcClient}
use cs_stratum_bridge.Db.{Submission, Db}
use cs_stratum_bridge.Db.Submissions.{list_unpaid_published, mark_paid}
use cs_stratum_bridge.Payout.{F64, Outcome, amount_of}

-- A row of the list is about the request.
abbrev pub IsListed : List Submission → Text → Type 0
IsListed rows request = any (λ (s : Submission). s.request_id =ₖ request) rows ≡ true

abbrev HasListed : List Submission → Text × (ℕ × List Text) → Type 0
HasListed rows (w, (total, ids)) = All (IsListed rows) ids

-- The transaction, how many wallets it pays and how much.
abbrev paid_with : (f64 : F64) → Text → Map Text ℕ → Outcome f64
paid_with f64 txid amounts = ok (some (txid, length amounts, f64.sum (map (amount_of f64) amounts)))

-- What a payout does. Nothing is due; or the daemon refuses the payment, which is reported and changes
-- nothing; or it sends a transaction, under which the requests that were due are marked.
pub data Pays {W : Type 0} (f64 : F64) (csd : CsdRpcClient W) (payout_address : Text) (d : Db)
    (w : W) : Outcome f64 × Db × W → Type 0 where
  pays_none : Pays f64 csd payout_address d w (ok none, d, w)
  pays_refused :
      {amounts : Map Text ℕ} {x : AppError} {w' : W}
      → csd.send_many payout_address amounts w ≡ (err x, w')
      → Pays f64 csd payout_address d w (err x, d, w')
  pays_listed :
      {amounts : Map Text ℕ} (requests : List Text) {txid : Text} {w' : W}
      → csd.send_many payout_address amounts w ≡ (ok txid, w')
      → All (IsListed (list_unpaid_published d)) requests
      → Pays f64 csd payout_address d w (paid_with f64 txid amounts, mark_paid requests txid d, w')
