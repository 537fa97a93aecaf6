-- ===== src/Engine/Rows.antt =====
-- What the last write of `do_commit` makes of the rows of `opoi_submissions`.
use cs_stratum_bridge.Base.{
  ℕ, ◌≡◌, refl, sym, subst, ap, ◌∙◌, ◌implies◌, Text, text_key, Bool, true, not, List, [], ◌∷◌,
  ◌&&◌, some, All, All-mono, any, update, arith,
}
use cs_stratum_bridge.Db.{failed, Submission, Table, Db}
use cs_stratum_bridge.Db.Submissions.{
  has_status, is_active, index_holds, has_id, fits_varchar, commit_row, take_chars, mark_committed,
  mark_failed, update_submission, write_if,
}

-- The change of a row keeps its request, and what it makes active was so.
abbrev pub Keeps : ℕ → (Submission → Submission) → Submission → Type 0
Keeps id f s =
    ((f s).request_id ≡ s.request_id)
    × ((has_id id s implies (has_status failed s.status implies has_status failed (f s).status))
        ≡ true)

any-update :
    (request : Text) (id : ℕ) (f : Submission → Submission) (rows : List Submission)
    → All (Keeps id f) rows
    → (any (is_active request) (update (has_id id) f rows) implies any (is_active request) rows)
      ≡ true
any-update request id f [] k = refl
any-update request id f (s ∷ rows) ((same, kept), ks) =
    let rest = any-update request id f rows ks in ground arith

index_holds-update :
    (id : ℕ) (f : Submission → Submission) (rows : List Submission)
    → All (Keeps id f) rows
    → (index_holds rows implies index_holds (update (has_id id) f rows)) ≡ true
unfolding index_holds
index_holds-update id f [] k = refl
index_holds-update id f (s ∷ rows) ((same, kept), ks) =
    ground (arith, index_holds-update id f rows ks, any-update s.request_id id f rows ks)

-- A row that a submission's number names and that is not FAILED.
abbrev pub IsOpen : ℕ → Submission → Type 0
IsOpen id s = (has_id id s implies not (has_status failed s.status)) ≡ true

-- The state in which `do_commit` is called for a submission.
abbrev pub Ready : ℕ → List Submission → Type 0
Ready id rows = (index_holds rows ≡ true) × All (IsOpen id) rows

update_submission-rows :
    (id : ℕ) (f : Submission → Submission) (d : Db)
    → index_holds d.submissions.rows ≡ true
    → All (Keeps id f) d.submissions.rows
    → (update_submission id f d).1.submissions.rows ≡ update (has_id id) f d.submissions.rows
update_submission-rows id f d held k =
    let holds : index_holds (update (has_id id) f d.submissions.rows) ≡ true =
      ground (arith, index_holds-update id f d.submissions.rows k) in
    ap
      (λ (b : Bool).
        (write_if tt d.submissions.next_id (update (has_id id) f d.submissions.rows) d
          b).1.submissions.rows)
      holds

-- The last write of `do_commit`, on the rows that it started from.
writes-rows :
    (id : ℕ) (f : Submission → Submission) (base : Table Submission) (d : Db)
    → d.submissions ≡ base
    → index_holds base.rows ≡ true
    → All (Keeps id f) base.rows
    → (update_submission id f d).1.submissions.rows ≡ update (has_id id) f base.rows
writes-rows id f base d same held k =
    let start : d.submissions.rows ≡ base.rows = ap (λ (t : Table Submission). t.rows) same in
    update_submission-rows id f d (subst (λ r. index_holds r ≡ true) (sym start) held)
      (subst (λ r. All (Keeps id f) r) (sym start) k)
    ∙ ap (update (has_id id) f) start

pub mark_committed-rows :
    (id : ℕ) (txid nonce : Text) (height : ℕ) (base : Table Submission) (d : Db)
    → d.submissions ≡ base
    → Ready id base.rows
    → (fits_varchar txid && fits_varchar nonce) ≡ true
    → (mark_committed id txid nonce height d).1.submissions.rows
      ≡ update (has_id id) (commit_row txid nonce height) base.rows
unfolding mark_committed
mark_committed-rows id txid nonce height base d same (held, open_) short = rw short (
    writes-rows id (commit_row txid nonce height) base d same held
      (All-mono (λ (s : Submission) (o : IsOpen id s). (refl, ground arith)) base.rows open_))

-- The row of a submission that could not be committed.
abbrev pub fail_row : Text → Submission → Submission
fail_row reason s = record s { status = failed; fail_reason = some (take_chars 2000 reason) }

pub mark_failed-rows :
    (id : ℕ) (reason : Text) (base : Table Submission) (d : Db)
    → d.submissions ≡ base
    → Ready id base.rows
    → (mark_failed id reason d).1.submissions.rows ≡ update (has_id id) (fail_row reason) base.rows
unfolding mark_failed
mark_failed-rows id reason base d same (held, open_) =
    writes-rows id (fail_row reason) base d same held
      (All-mono (λ (s : Submission) (o : IsOpen id s). (refl, ground arith)) base.rows open_)
