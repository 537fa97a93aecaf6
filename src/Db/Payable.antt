-- ===== src/Db/Payable.antt =====
-- What the payout loop is given: src/db/repo.rs, `list_unpaid_published`.
use cs_stratum_bridge.Base.{
  ℕ, ◌≡◌, refl, Text, text_key, ◌=ₖ◌, Bool, true, not, ◌&&◌, List, [], ◌∷◌, arith, filter, update,
  any-append, some,
}
use cs_stratum_bridge.Db.{Submission, Action, withhold_pay, Db}
use cs_stratum_bridge.Db.Submissions.{
  has_action, withholds, is_payable, is_member, mark_paid, list_unpaid_published,
}
use cs_stratum_bridge.Db.Audits.{insert_b3lite_consequence, consequence}

abbrev pub not_among : List Text → Submission → Bool
not_among request_ids s = not (is_member request_ids s.request_id)

filter-paid :
    (ids : List Text) (txid : Text) (d : Db) (rows : List Submission)
    → filter (is_payable d) (
        update
          (λ (s : Submission). is_member ids s.request_id)
          (λ s. record s { paid = true; payout_txid = some txid })
          rows)
      ≡ filter (not_among ids) (filter (is_payable d) rows)
filter-paid ids txid d [] = refl
filter-paid ids txid d (s ∷ rows) = ground (arith, filter-paid ids txid d rows)

-- Marking requests as paid takes exactly their submissions off the list that is to be paid: no other
-- is lost, and none of them is paid twice.
pub list_unpaid_published-mark_paid :
    (request_ids : List Text) (txid : Text) (d : Db)
    → list_unpaid_published (mark_paid request_ids txid d)
      ≡ filter (not_among request_ids) (list_unpaid_published d)
unfolding list_unpaid_published mark_paid
list_unpaid_published-mark_paid request_ids txid d =
    filter-paid request_ids txid d d.submissions.rows

-- What a consequence for a request leaves on the list that is to be paid.
abbrev pub spared : Action → Text → Submission → Bool
spared action request s = not (has_action withhold_pay action && (request =ₖ s.request_id))

filter-withheld :
    (request : Text) (action : Action) (d d' : Db) (rows : List Submission)
    → ((s : Submission) → is_payable d' s ≡ (is_payable d s && spared action request s))
    → filter (is_payable d') rows ≡ filter (spared action request) (filter (is_payable d) rows)
filter-withheld request action d d' [] h = refl
filter-withheld request action d d' (s ∷ rows) h =
    ground (arith, h s, filter-withheld request action d d' rows h)

-- A WITHHOLD_PAY consequence takes exactly the submissions of its request off the list that is to be
-- paid, for good; a consequence of another kind takes off none.
pub list_unpaid_published-insert_b3lite_consequence :
    (receipt : ℕ) (wallet request : Text) (action : Action) (reason : Text) (d : Db)
    → list_unpaid_published (insert_b3lite_consequence receipt wallet request action reason d)
      ≡ filter (spared action request) (list_unpaid_published d)
unfolding list_unpaid_published insert_b3lite_consequence
list_unpaid_published-insert_b3lite_consequence receipt wallet request action reason d =
    filter-withheld request action d
      (insert_b3lite_consequence receipt wallet request action reason d) d.submissions.rows
      (λ s. ground (
        arith,
        any-append (withholds s.request_id) d.consequences.rows
            (consequence d.consequences.next_id receipt wallet request action reason ∷ []),
      ))
