-- ===== src/Db/Submissions.antt =====
-- src/db/repo.rs: the queries on `opoi_submissions`. The database answers; what the columns refuse
-- (a text that is too long) is modelled for the commit of a submission only, and a lost connection is not.
use cs_stratum_bridge.Base.{
  ℕ, zero, suc, ◌+◌, ◌/◌, ◌==◌, if◌then◌else◌, Text, codes, text_key, ◌=ₖ◌, Bool, true, false, not,
  ◌&&◌, ◌||◌, Option, none, some, List, [], ◌∷◌, ◌++◌, filter, any, update,
}
use cs_stratum_bridge.AppError.{AppError, db, Result, ok, err}
use cs_stratum_bridge.Db.{
  SubmissionStatus, received, committed, revealed, published, failed, Submission, Consequence,
  Action, withhold_pay, reputation_flag, ejected, Db,
}

-- `status = '...'` in a query.
abbrev pub has_status : SubmissionStatus → SubmissionStatus → Bool
has_status received received = true
has_status committed committed = true
has_status revealed revealed = true
has_status published published = true
has_status failed failed = true
has_status received _ = false
has_status committed _ = false
has_status revealed _ = false
has_status published _ = false
has_status failed _ = false

abbrev pub is_active : Text → Submission → Bool
is_active request s = (s.request_id =ₖ request) && not (has_status failed s.status)

-- The partial unique index `uq_opoi_submissions_active_request`.
unfoldable pub index_holds : List Submission → Bool
index_holds [] = true
index_holds (s ∷ rows) =
    (has_status failed s.status || not (any (is_active s.request_id) rows)) && index_holds rows

abbrev pub unique_violation : AppError
unique_violation = db (codes "uq_opoi_submissions_active_request")

-- A statement that would break the index fails and changes no row.
abbrev pub write_if : {A : Type 0} → A → ℕ → List Submission → Db → Bool → Result A × Db
write_if a next rows d true =
    (ok a, record d { submissions = record { rows = rows; next_id = next } })
write_if a next rows d false = (
  err unique_violation,
  record d { submissions = record { rows = d.submissions.rows; next_id = next } },
)

abbrev pub write : {A : Type 0} → A → ℕ → List Submission → Db → Result A × Db
write a next rows d = write_if a next rows d (index_holds rows)

abbrev pub new_submission :
    ℕ → Text → Text → Option Text → Option Text → Option ℕ → Option ℕ → Text → Text → ℕ → Submission
new_submission id miner_wallet request_id model prompt_hash payment_base fee_per_token response_hash
      response_hex token_count =
    record {
      id = id;
      miner_wallet = miner_wallet;
      request_id = request_id;
      model = model;
      prompt_hash = prompt_hash;
      payment_base = payment_base;
      fee_per_token = fee_per_token;
      response_hash = response_hash;
      response_hex = some response_hex;
      token_count = token_count;
      status = received;
      fail_reason = none;
      commit_txid = none;
      commit_nonce_hex = none;
      commit_window_closes_at_height = none;
      reveal_txid = none;
      content_published = false;
      reward_amount = none;
      paid = false;
      payout_txid = none;
    }

-- A value of the sequence is used up even if the statement fails.
unfoldable pub create_submission :
    Text
    → Text
    → Option Text
    → Option Text
    → Option ℕ
    → Option ℕ
    → Text
    → Text
    → ℕ
    → Db
    → Result ℕ × Db
create_submission miner_wallet request_id model prompt_hash payment_base fee_per_token response_hash
      response_hex token_count d =
    let id : ℕ = d.submissions.next_id in
    write id (id + 1)
      (d.submissions.rows
        ++ new_submission id miner_wallet request_id model prompt_hash payment_base fee_per_token
            response_hash response_hex token_count
          ∷ [])
      d

abbrev pub first : {A : Type 0} → List A → Option A
first [] = none
first (a ∷ _) = some a

unfoldable pub find_active_by_request_id : Text → Db → Option Submission
find_active_by_request_id request d = first (filter (is_active request) d.submissions.rows)

abbrev pub has_id : ℕ → Submission → Bool
has_id id s = s.id == id

abbrev pub update_submission : ℕ → (Submission → Submission) → Db → Result (Unit {0}) × Db
update_submission id f d =
    write tt d.submissions.next_id (update (has_id id) f d.submissions.rows) d

unfoldable pub mark_revealed : ℕ → Text → Db → Result (Unit {0}) × Db
mark_revealed id txid =
    update_submission id (λ s. record s { status = revealed; reveal_txid = some txid })

unfoldable pub mark_published : ℕ → ℕ → Db → Result (Unit {0}) × Db
mark_published id reward =
    update_submission id
      (λ s. record s { status = published; content_published = true; reward_amount = some reward })

-- The first `n` characters of a text in UTF-8: a byte 10xxxxxx continues a character.
unfoldable pub take_chars : ℕ → Text → Text
take_chars n [] = []
take_chars zero (b ∷ t) = let rest = take_chars zero t in if b / 64 == 2 then b ∷ rest else []
take_chars (suc n) (b ∷ t) =
    let rest = take_chars n t in
    let same = take_chars (suc n) t in if b / 64 == 2 then b ∷ same else b ∷ rest

-- What a column `VARCHAR(128)` takes; a longer text makes the statement fail, and changes nothing.
abbrev pub fits_varchar : Text → Bool
fits_varchar t = take_chars 128 t =ₖ t

abbrev pub too_long : AppError
too_long = db (codes "value too long for type character varying(128)")

abbrev pub commit_row : Text → Text → ℕ → Submission → Submission
commit_row txid nonce_hex closes_at_height s = record s {
  status = committed;
  commit_txid = some txid;
  commit_nonce_hex = some nonce_hex;
  commit_window_closes_at_height = some closes_at_height;
}

unfoldable pub mark_committed : ℕ → Text → Text → ℕ → Db → Result (Unit {0}) × Db
mark_committed id txid nonce_hex closes_at_height d =
    if fits_varchar txid && fits_varchar nonce_hex
    then update_submission id (commit_row txid nonce_hex closes_at_height) d
    else (err too_long, d)

unfoldable pub mark_failed : ℕ → Text → Db → Result (Unit {0}) × Db
mark_failed id reason =
    update_submission id
      (λ s. record s { status = failed; fail_reason = some (take_chars 2000 reason) })

abbrev pub with_status : SubmissionStatus → Db → List Submission
with_status st d = filter (λ (s : Submission). has_status st s.status) d.submissions.rows

unfoldable pub list_received : Db → List Submission
list_received = with_status received

unfoldable pub list_committed : Db → List Submission
list_committed = with_status committed

unfoldable pub list_revealed_unpublished : Db → List Submission
list_revealed_unpublished d =
    filter (λ (s : Submission). has_status revealed s.status && not s.content_published)
      d.submissions.rows

-- `action = '...'` in a query.
abbrev pub has_action : Action → Action → Bool
has_action withhold_pay withhold_pay = true
has_action reputation_flag reputation_flag = true
has_action ejected ejected = true
has_action withhold_pay _ = false
has_action reputation_flag _ = false
has_action ejected _ = false

abbrev pub withholds : Text → Consequence → Bool
withholds request c = (c.request_id =ₖ request) && has_action withhold_pay c.action

abbrev pub is_payable : Db → Submission → Bool
is_payable d s =
    has_status published s.status
    && not s.paid
    && not (any (withholds s.request_id) d.consequences.rows)

unfoldable pub list_unpaid_published : Db → List Submission
list_unpaid_published d = filter (is_payable d) d.submissions.rows

abbrev pub is_member : List Text → Text → Bool
is_member ids t = any (λ (i : Text). i =ₖ t) ids

-- No status is written, so the index holds as before.
unfoldable pub mark_paid : List Text → Text → Db → Db
mark_paid request_ids txid d = record d {
  submissions = record {
    rows =
        update (λ (s : Submission). is_member request_ids s.request_id)
          (λ s. record s { paid = true; payout_txid = some txid }) d.submissions.rows;
    next_id = d.submissions.next_id;
  };
}
