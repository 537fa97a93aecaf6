-- ===== src/Db.antt =====
-- src/db/models.rs and the tables of migrations/: the rows that src/db/repo.rs reads and writes. An
-- `f64` is its 64 bits and an `i32` its 32. The columns of times (`created_at`, `updated_at`,
-- `audited_at`), which the database fills with NOW() and nothing here reads, are left out.
pub mod Submissions
pub mod Attempts
pub mod Audits
pub mod Payable
pub mod Active
pub mod Queue
mod Tests
use cs_stratum_bridge.Base.{
  ℕ, Text, codes, text_key, ◌=ₖ◌, if◌then◌else◌, Bool, Option, none, some, List, [],
}

pub data SubmissionStatus : Type 0 where
  received committed revealed published failed : SubmissionStatus

unfoldable pub as_str : SubmissionStatus → Text
as_str received = codes "RECEIVED"
as_str committed = codes "COMMITTED"
as_str revealed = codes "REVEALED"
as_str published = codes "PUBLISHED"
as_str failed = codes "FAILED"

-- `none` is the panic on a text that the service never wrote.
unfoldable pub from_str : Text → Option SubmissionStatus
from_str s =
    if s =ₖ codes "RECEIVED"
    then some received
    else (if s =ₖ codes "COMMITTED"
        then some committed
        else (if s =ₖ codes "REVEALED"
            then some revealed
            else (if s =ₖ codes "PUBLISHED"
                then some published
                else (if s =ₖ codes "FAILED" then some failed else none))))

-- The column `status` holds a text that `as_str` gives: the queries write no other.
pub record Submission : Type 0 where
  pub id : ℕ
  pub miner_wallet : Text
  pub request_id : Text
  pub model : Option Text
  pub prompt_hash : Option Text
  pub payment_base : Option ℕ
  pub fee_per_token : Option ℕ
  pub response_hash : Text
  pub response_hex : Option Text
  pub token_count : ℕ
  pub status : SubmissionStatus
  pub fail_reason : Option Text
  pub commit_txid : Option Text
  pub commit_nonce_hex : Option Text
  pub commit_window_closes_at_height : Option ℕ
  pub reveal_txid : Option Text
  pub content_published : Bool
  pub reward_amount : Option ℕ
  pub paid : Bool
  pub payout_txid : Option Text

pub data AuditStatus : Type 0 where
  not_sampled pending admissible divergent inconclusive : AuditStatus

-- The column `audit_status` is the text NONE, PENDING, ADMISSIBLE, DIVERGENT or INCONCLUSIVE.
pub record B3LiteReceipt : Type 0 where
  pub id : ℕ
  pub request_id : Text
  pub miner_wallet : Text
  pub model_id : Text
  pub gguf_sha256 : Text
  pub prompt_hash : Option Text
  pub prompt_hex : Text
  pub response_hash : Text
  pub generated_token_ids_hex : Text
  pub total_layers : ℕ
  pub signature_hex : Text
  pub sampled : Bool
  pub audit_status : AuditStatus
  pub audit_detail : Option Text

pub record RevealCandidate : Type 0 where
  pub attempt_id : ℕ
  pub submission_id : ℕ
  pub opoi_address : Text
  pub nonce_hex : Text
  pub request_id : Text
  pub response_hash : Text
  pub token_count : ℕ

-- A row of `opoi_commit_attempts`, whose `status` is COMMITTED, REVEALED or FAILED.
pub record CommitAttempt : Type 0 where
  pub id : ℕ
  pub submission_id : ℕ
  pub opoi_address : Text
  pub status : SubmissionStatus
  pub commit_txid : Option Text
  pub commit_nonce_hex : Option Text
  pub commit_window_closes_at_height : Option ℕ
  pub reveal_txid : Option Text
  pub fail_reason : Option Text

pub data Action : Type 0 where
  withhold_pay reputation_flag ejected : Action

pub record Consequence : Type 0 where
  pub id : ℕ
  pub receipt_id : ℕ
  pub miner_wallet : Text
  pub request_id : Text
  pub action : Action
  pub reason : Text

pub record StakeEvent : Type 0 where
  pub id : ℕ
  pub event_type : Text
  pub txid : Option Text
  pub detail : Text

-- A table and the next value of its `BIGSERIAL`.
pub record Table (R : Type 0) : Type 0 where
  pub rows : List R
  pub next_id : ℕ

pub record Db : Type 0 where
  pub submissions : Table Submission
  pub attempts : Table CommitAttempt
  pub receipts : Table B3LiteReceipt
  pub consequences : Table Consequence
  pub stake_events : Table StakeEvent

abbrev pub empty_table : {R : Type 0} → Table R
empty_table = record { rows = []; next_id = 1 }

abbrev pub empty_db : Db
empty_db = record {
  submissions = empty_table;
  attempts = empty_table;
  receipts = empty_table;
  consequences = empty_table;
  stake_events = empty_table;
}
