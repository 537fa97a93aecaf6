-- ===== src/Db/Attempts.antt =====
-- src/db/repo.rs: the queries on `opoi_commit_attempts`, and their join with the submissions. The
-- index on the pair of submission and address is what `ON CONFLICT` reads.
use cs_stratum_bridge.Base.{
  ℕ, ◌+◌, ◌%◌, ◌^◌, ◌==◌, leb, if◌then◌else◌, Text, text_key, ◌=ₖ◌, Bool, false, ◌&&◌, Option, none,
  some, List, [], ◌∷◌, ◌++◌, any, update,
}
use cs_stratum_bridge.Db.{
  committed, revealed, failed, Submission, CommitAttempt, RevealCandidate, Table, Db,
}
use cs_stratum_bridge.Db.Submissions.{has_status, take_chars}

abbrev pub is_attempt : ℕ → Text → CommitAttempt → Bool
is_attempt submission address a = (a.submission_id == submission) && (a.opoi_address =ₖ address)

-- `INSERT ... ON CONFLICT (submission_id, opoi_address) DO UPDATE`: the sequence moves on either way.
abbrev pub upsert :
    ℕ
    → Text
    → CommitAttempt
    → (CommitAttempt → CommitAttempt)
    → Table CommitAttempt
    → Table CommitAttempt
upsert submission address row change t = record {
  rows =
      if any (is_attempt submission address) t.rows
      then update (is_attempt submission address) change t.rows
      else t.rows ++ row ∷ [];
  next_id = t.next_id + 1;
}

unfoldable pub upsert_commit_attempt_success : ℕ → Text → Text → Text → ℕ → Db → Db
upsert_commit_attempt_success submission address txid nonce_hex closes_at_height d = record d {
  attempts =
      upsert submission address
        (record {
          id = d.attempts.next_id;
          submission_id = submission;
          opoi_address = address;
          status = committed;
          commit_txid = some txid;
          commit_nonce_hex = some nonce_hex;
          commit_window_closes_at_height = some closes_at_height;
          reveal_txid = none;
          fail_reason = none;
        })
        (λ a. record a {
          status = committed;
          commit_txid = some txid;
          commit_nonce_hex = some nonce_hex;
          commit_window_closes_at_height = some closes_at_height;
          fail_reason = none;
        })
        d.attempts;
}

unfoldable pub upsert_commit_attempt_failure : ℕ → Text → Text → Db → Db
upsert_commit_attempt_failure submission address reason d = record d {
  attempts =
      upsert submission address
        (record {
          id = d.attempts.next_id;
          submission_id = submission;
          opoi_address = address;
          status = failed;
          commit_txid = none;
          commit_nonce_hex = none;
          commit_window_closes_at_height = none;
          reveal_txid = none;
          fail_reason = some (take_chars 2000 reason);
        })
        (λ a. record a { status = failed; fail_reason = some (take_chars 2000 reason) }) d.attempts;
}

-- `a <= b` of a 32-bit and a 64-bit signed integer, each given by its bits.
abbrev pub signed_leb : ℕ → ℕ → Bool
signed_leb a b = leb ((a + 2 ^ 31) % 2 ^ 32 + 2 ^ 63) ((b + 2 ^ 63) % 2 ^ 64 + 2 ^ 31)

-- A column that is NULL passes no test.
abbrev pub closes_by : ℕ → Option ℕ → Bool
closes_by height none = false
closes_by height (some h) = signed_leb h height

abbrev pub is_ready : ℕ → CommitAttempt → Submission → Bool
is_ready height a s =
    (s.id == a.submission_id)
    && has_status committed a.status
    && closes_by height a.commit_window_closes_at_height
    && has_status committed s.status

-- An attempt that is committed has its nonce.
abbrev pub nonce_of : Option Text → Text
nonce_of none = []
nonce_of (some nonce) = nonce

abbrev pub candidate : CommitAttempt → Submission → RevealCandidate
candidate a s = record {
  attempt_id = a.id;
  submission_id = a.submission_id;
  opoi_address = a.opoi_address;
  nonce_hex = nonce_of a.commit_nonce_hex;
  request_id = s.request_id;
  response_hash = s.response_hash;
  token_count = s.token_count;
}

abbrev pub join : ℕ → CommitAttempt → List Submission → List RevealCandidate
join height a [] = []
join height a (s ∷ rows) =
    let rest = join height a rows in if is_ready height a s then candidate a s ∷ rest else rest

abbrev pub join_all : ℕ → List CommitAttempt → List Submission → List RevealCandidate
join_all height [] rows = []
join_all height (a ∷ as_) rows = join height a rows ++ join_all height as_ rows

unfoldable pub list_reveal_ready_candidates : ℕ → Db → List RevealCandidate
list_reveal_ready_candidates height d = join_all height d.attempts.rows d.submissions.rows

unfoldable pub mark_attempt_revealed : ℕ → Text → Db → Db
mark_attempt_revealed id txid d = record d {
  attempts = record {
    rows =
        update (λ (a : CommitAttempt). a.id == id)
          (λ a. record a { status = revealed; reveal_txid = some txid }) d.attempts.rows;
    next_id = d.attempts.next_id;
  };
}
