-- ===== src/Db/Active.antt =====
-- The one submission of a request that is not FAILED: src/db/repo.rs, `create_submission`.
use cs_stratum_bridge.Base.{
  ℕ, ◌≡◌, refl, Text, text_key, Bool, true, false, not, ◌&&◌, List, [], ◌∷◌, ◌++◌, arith, any,
  filter, any-append, Option, none, some, Bool-cases, Option-cases, inl, inr,
}
use cs_stratum_bridge.AppError.{Result, ok, err}
use cs_stratum_bridge.Db.{Submission, failed, Db}
use cs_stratum_bridge.Db.Submissions.{
  has_status, is_active, index_holds, new_submission, create_submission, find_active_by_request_id,
  unique_violation, first,
}

index_holds-append :
    (rows : List Submission) (s : Submission)
    → has_status failed s.status ≡ false
    → index_holds (rows ++ s ∷ []) ≡ (index_holds rows && not (any (is_active s.request_id) rows))
unfolding index_holds
index_holds-append [] s h = ground arith
index_holds-append (x ∷ rows) s h =
    ground (arith, index_holds-append rows s h, any-append (is_active x.request_id) rows (s ∷ []))

-- What `create_submission` does about the submission that is active for the request already.
abbrev pub Creates : Db → Text → Submission → Option Submission → Result ℕ × Db → Type 0
Creates d request row (some active) (r, d') =
    (r ≡ err unique_violation) × (d'.submissions.rows ≡ d.submissions.rows)
Creates d request row none (r, d') =
    (r ≡ ok row.id)
    × (d'.submissions.rows ≡ d.submissions.rows ++ row ∷ [])
    × (find_active_by_request_id request d' ≡ some row)
    × (index_holds d'.submissions.rows ≡ true)

any-first :
    (p : Submission → Bool) (rows : List Submission)
    → any p rows ≡ elim (first (filter p rows)) [ none ↦ false | some _ ↦ true ]
any-first p [] = refl
any-first p (x ∷ rows) = ground (arith, any-first p rows)

create-append :
    (request : Text) (rows : List Submission) (row : Submission) (o : Option Submission)
    → first (filter (is_active request) rows) ≡ o
    → row.request_id ≡ request
    → has_status failed row.status ≡ false
    → index_holds rows ≡ true
    → index_holds (rows ++ row ∷ []) ≡ elim o [ none ↦ true | some _ ↦ false ]
create-append request rows row o found same ok_ held =
    ground (arith, index_holds-append rows row ok_, any-first (is_active request) rows)

first-append :
    (request : Text) (rows : List Submission) (row : Submission)
    → first (filter (is_active request) rows) ≡ none
    → row.request_id ≡ request
    → has_status failed row.status ≡ false
    → first (filter (is_active request) (rows ++ row ∷ [])) ≡ some row
first-append request [] row none_yet same ok_ = ground arith
first-append request (x ∷ rows) row none_yet same ok_ = elim (Bool-cases (is_active request x)) [
  | inl hit ↦ ground arith
  | inr miss ↦ rw miss (first-append request rows row (ground arith) same ok_)
]

-- If no submission that is not FAILED has the request yet, `create_submission` adds the RECEIVED
-- submission, under the next id, as the active one of its request; otherwise it fails and changes no
-- row. At most one submission of a request stays active. Provided that the index held before.
pub create_submission-Creates :
    (wallet request : Text) (model hash : Option Text) (base fee : Option ℕ)
    (response_hash response_hex : Text) (tokens : ℕ) (d : Db)
    → index_holds d.submissions.rows ≡ true
    → Creates d request
        (new_submission d.submissions.next_id wallet request model hash base fee response_hash
          response_hex tokens)
        (find_active_by_request_id request d)
        (create_submission wallet request model hash base fee response_hash response_hex tokens d)
unfolding create_submission find_active_by_request_id
create_submission-Creates wallet request model hash base fee response_hash response_hex tokens d
      held =
    let row : Submission =
      new_submission d.submissions.next_id wallet request model hash base fee response_hash
        response_hex tokens in
    elim (Option-cases (first (filter (is_active request) d.submissions.rows))) [
      | inl free ↦
          let holds : index_holds (d.submissions.rows ++ row ∷ []) ≡ true =
            create-append request d.submissions.rows row none free refl refl held in
          rw (free, holds)
            (refl, refl, first-append request d.submissions.rows row free refl refl, holds)
      | inr (active, taken) ↦
          let broken : index_holds (d.submissions.rows ++ row ∷ []) ≡ false =
            create-append request d.submissions.rows row (some active) taken refl refl held in
          rw (taken, broken) (refl, refl)
    ]
