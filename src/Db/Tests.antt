-- ===== src/Db/Tests.antt =====
-- The queries at concrete rows.
use cs_stratum_bridge.Base.{◌≡◌, refl, true, codes, text_key, none, filter}
use cs_stratum_bridge.Db.{Db, empty_db, withhold_pay}
use cs_stratum_bridge.Db.Submissions.{
  index_holds, new_submission, create_submission, find_active_by_request_id, mark_committed,
  mark_published, list_unpaid_published,
}
use cs_stratum_bridge.Db.Attempts.{upsert_commit_attempt_success}
use cs_stratum_bridge.Db.Audits.{create_b3lite_receipt, insert_b3lite_consequence}
use cs_stratum_bridge.Db.Active.{Creates, create_submission-Creates}
use cs_stratum_bridge.Db.Payable.{list_unpaid_published-insert_b3lite_consequence, spared}

-- A request that has been served, committed and published, and whose receipt is to be audited.
abbrev one_row : Db
one_row =
    (create_submission (codes "w") (codes "r1") none none none none (codes "h") (codes "00") 1
      empty_db).1

abbrev committed_row : Db
committed_row =
    upsert_commit_attempt_success 1 (codes "a") (codes "t") (codes "n") 10
      (mark_committed 1 (codes "t") (codes "n") 10 one_row).1

abbrev published_row : Db
published_row = (mark_published 1 5 committed_row).1

abbrev sampled_row : Db
sampled_row =
    (create_b3lite_receipt (codes "r1") (codes "w") (codes "m") (codes "g") none (codes "p")
      (codes "h") (codes "00") 24 (codes "s") true published_row).1

one_row-index_holds : index_holds one_row.submissions.rows ≡ true
unfolding index_holds create_submission
one_row-index_holds = refl

create_submission-Creates_example :
    Creates one_row
      (codes "r1")
      (new_submission one_row.submissions.next_id
        (codes "v")
        (codes "r1")
        none
        none
        none
        none
        (codes "h")
        (codes "00")
        1)
      (find_active_by_request_id (codes "r1") one_row)
      (create_submission
        (codes "v")
        (codes "r1")
        none
        none
        none
        none
        (codes "h")
        (codes "00")
        1
        one_row)
create_submission-Creates_example =
    create_submission-Creates (codes "v") (codes "r1") none none none none (codes "h") (codes "00")
      1 one_row one_row-index_holds

list_unpaid_published-insert_b3lite_consequence_example :
    list_unpaid_published
      (insert_b3lite_consequence 1 (codes "w") (codes "r1") withhold_pay (codes "d") published_row)
    ≡ filter (spared withhold_pay (codes "r1")) (list_unpaid_published published_row)
list_unpaid_published-insert_b3lite_consequence_example =
    list_unpaid_published-insert_b3lite_consequence 1 (codes "w") (codes "r1") withhold_pay
      (codes "d") published_row
