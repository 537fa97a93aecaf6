-- ===== src/Shard/Written.antt =====
-- The row that `finalize_pipeline` of src/opoi/shard_engine.rs writes for a request that has no active
-- submission, and its commit.
use cs_stratum_bridge.Base.{
  ℕ, ◌≡◌, refl, ap, sym, subst, ◌∙◌, Text, text_key, lookup, true, Option, none, some, List, [],
  ◌∷◌, ◌++◌, length, filter,
}
use Prim.Native.Nat.{max}
use cs_stratum_bridge.AppError.{Result, ok}
use cs_stratum_bridge.Bytes.{encode_tokens}
use cs_stratum_bridge.Receipts.Sampling.{B3LiteConfig}
use cs_stratum_bridge.Db.{Submission, Table, Db}
use cs_stratum_bridge.Db.Submissions.{
  is_active, index_holds, first, new_submission, find_active_by_request_id,
}
use cs_stratum_bridge.Db.Audits.{create_b3lite_receipt}
use cs_stratum_bridge.Db.Active.{Creates, create_submission-Creates}
use cs_stratum_bridge.Engine.Submit.{SpawnedCommit}
use cs_stratum_bridge.Shard.{PipelineState, ShardEngine}
use cs_stratum_bridge.Shard.Host.{ShardHost}
use cs_stratum_bridge.Shard.Finish.{record_b3lite_receipt}
use cs_stratum_bridge.Shard.Commits.{commits, hash_of, written}
use cs_stratum_bridge.Shard.Work.{Work, Given, Finished}

module _ {W : Type 0} (host : ShardHost W) (request : Text) where
  -- The RECEIVED row of an answer.
  abbrev pub row_of : ℕ → Text → PipelineState → Submission
  row_of id winner q =
      new_submission id winner request (some q.manifest.model_id) (some q.prompt_hash) none none
        (hash_of host request q.generated_token_ids)
        (host.experts.hex_encode (encode_tokens q.generated_token_ids))
        (length q.generated_token_ids)

  abbrev pub commit_of : ℕ → List ℕ → SpawnedCommit
  commit_of id ids = record {
    submission_id = id;
    request_id = request;
    response_hash = hash_of host request ids;
    token_count = length ids;
  }

  record_b3lite_receipt-submissions :
      (winner hash : Text) (q : PipelineState) (cfg : Option B3LiteConfig) (d : Db)
      → (record_b3lite_receipt host request winner q hash cfg d).submissions ≡ d.submissions
  unfolding record_b3lite_receipt create_b3lite_receipt
  record_b3lite_receipt-submissions winner hash q none d = refl
  record_b3lite_receipt-submissions winner hash q (some cfg) d = refl

  written-row :
      (winner : Text) (q : PipelineState) (e : ShardEngine)
      → index_holds e.db.submissions.rows ≡ true
      → find_active_by_request_id request e.db ≡ none
      → ((written host request winner q e).0 ≡ ok e.db.submissions.next_id)
        × (find_active_by_request_id request (written host request winner q e).1
            ≡ some (row_of e.db.submissions.next_id winner q))
  unfolding find_active_by_request_id
  written-row winner q e held free =
      let receipts : Db =
        record_b3lite_receipt host request winner q (hash_of host request q.generated_token_ids)
          e.b3lite e.db in
      let same : receipts.submissions ≡ e.db.submissions =
        record_b3lite_receipt-submissions winner (hash_of host request q.generated_token_ids) q
          e.b3lite e.db in
      let held' : index_holds receipts.submissions.rows ≡ true =
        subst (λ (t : Table Submission). index_holds t.rows ≡ true) (sym same) held in
      let free' : find_active_by_request_id request receipts ≡ none =
        subst (λ (t : Table Submission). first (filter (is_active request) t.rows) ≡ none)
          (sym same) free in
      let created : Creates receipts request (row_of receipts.submissions.next_id winner q) none
          (written host request winner q e) =
        subst
          (λ (o : Option Submission).
            Creates receipts request (row_of receipts.submissions.next_id winner q) o
              (written host request winner q e))
          free'
          (create_submission-Creates winner request (some q.manifest.model_id) (some q.prompt_hash)
            none none (hash_of host request q.generated_token_ids)
            (host.experts.hex_encode (encode_tokens q.generated_token_ids))
            (length q.generated_token_ids) receipts held') in
      (
        created.0 ∙ ap (λ (t : Table Submission). ok t.next_id) same,
        created.2 ∙ ap (λ (t : Table Submission). some (row_of t.next_id winner q)) same,
      )

  -- The request has ended with the tokens that the miners gave, at least one and as many as were asked
  -- for: the submission of exactly these is the active one of the request, under the next number, one
  -- commit of it is begun, and the pipeline is gone.
  abbrev pub Committed : Work → ℕ → ShardEngine → ShardEngine → Type 0
  Committed work max_tokens e e' =
      (q : PipelineState) × (winner : Text) × (length q.generated_token_ids ≡ max 1 max_tokens)
      × Given work 0 q.generated_token_ids
      × (find_active_by_request_id request e'.db ≡ some (row_of e.db.submissions.next_id winner q))
      × (e'.spawned ≡ e.spawned ++ commit_of e.db.submissions.next_id q.generated_token_ids ∷ [])
      × (lookup request e'.pipelines ≡ none)

  pub Finished-Committed :
      (work : Work) (max_tokens : ℕ) (e e' : ShardEngine)
      → index_holds e.db.submissions.rows ≡ true
      → find_active_by_request_id request e.db ≡ none
      → Finished host request work max_tokens e e'
      → Committed work max_tokens e e'
  Finished-Committed work max_tokens e e' held free
        (q, winner, last, enough, given, before, db, spawned, gone) =
      let (wrote, active) =
        written-row winner q last
          (subst (λ (d : Db). index_holds d.submissions.rows ≡ true) (sym before) held)
          (subst (λ (d : Db). find_active_by_request_id request d ≡ none) (sym before) free) in
      let id : last.db.submissions.next_id ≡ e.db.submissions.next_id =
        ap (λ (d : Db). d.submissions.next_id) before in
      (
        q,
        winner,
        enough,
        given,
        ap (find_active_by_request_id request) db
            ∙ (active ∙ ap (λ n. some (row_of n winner q)) id),
        spawned
            ∙ ap
                (λ (r : Result ℕ).
                  e.spawned
                  ++ commits request (hash_of host request q.generated_token_ids)
                      (length q.generated_token_ids) r)
                (wrote ∙ ap (λ (n : ℕ). ok n) id),
        gone,
      )
