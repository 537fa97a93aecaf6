-- ===== src/Engine/Answered.antt =====
-- Whose answer src/opoi/engine.rs takes, and that one reveal is enough.
use cs_stratum_bridge.Base.{
  ℕ, ◌≡◌, refl, ap, subst, ◌∙◌, Text, text_key, ◌=ₖ◌, lookup, lookup-remove, true, Option, none,
  some, List, [], ◌∷◌, arith, Bool-cases, inl, inr,
}
use cs_stratum_bridge.Bytes.{same_ignoring_case}
use cs_stratum_bridge.AppError.{AppError, Result, ok, err}
use cs_stratum_bridge.Assignment.{AssignmentTracker, assignee, remove_assignment}
use cs_stratum_bridge.Wire.{OpoiSubmitResultParams}
use cs_stratum_bridge.Daemon.{CsdRpcClient}
use cs_stratum_bridge.Db.{Submission, RevealCandidate, Db}
use cs_stratum_bridge.Db.Submissions.{
  index_holds, new_submission, create_submission, find_active_by_request_id,
}
use cs_stratum_bridge.Db.Active.{Creates, create_submission-Creates}
use cs_stratum_bridge.Engine.Submit.{
  OpoiEngine, handle_submit_result, settle_answer, persist_answer, check_hash, check_active,
  check_assignee, model_of, prompt_hash_of,
}
use cs_stratum_bridge.Db.Submissions.{mark_revealed}
use cs_stratum_bridge.Db.Attempts.{mark_attempt_revealed}
use cs_stratum_bridge.Engine.Reveal.{try_reveal_any, settle_reveal}

assignee-remove :
    (request : Text) (t : AssignmentTracker) → assignee request (remove_assignment request t) ≡ none
unfolding assignee remove_assignment
assignee-remove request t = ground (arith, lookup-remove request request t)

text_equal : (a b : Text) → (a =ₖ b) ≡ true → a ≡ b
text_equal a b h = ground arith

-- The submission that an accepted answer becomes.
abbrev pub answer : Text → OpoiSubmitResultParams → OpoiEngine → Submission
answer wallet params e =
    let entry = lookup params.request_id e.pending in
    new_submission e.db.submissions.next_id wallet params.request_id (model_of entry)
      (prompt_hash_of entry) none none params.response_hash params.response_hex params.token_count

-- What `handle_submit_result` promises about its reply.
abbrev pub Answers : Text → OpoiSubmitResultParams → OpoiEngine → Result ℕ × OpoiEngine → Type 0
Answers wallet params e (ok id, e') =
    (assignee params.request_id e.assignments ≡ some wallet)
    × (find_active_by_request_id params.request_id e.db ≡ none)
    × (find_active_by_request_id params.request_id e'.db ≡ some (answer wallet params e))
    × (assignee params.request_id e'.assignments ≡ none)
Answers wallet params e (err x, e') =
    (e'.db.submissions.rows ≡ e.db.submissions.rows)
    × (e'.assignments ≡ e.assignments)
    × (e'.pending ≡ e.pending)
    × (e'.spawned ≡ e.spawned)

settle_answer-Answers :
    (wallet : Text) (params : OpoiSubmitResultParams) (e : OpoiEngine) (q : Result ℕ × Db)
    → assignee params.request_id e.assignments ≡ some wallet
    → find_active_by_request_id params.request_id e.db ≡ none
    → Creates e.db params.request_id (answer wallet params e) none q
    → Answers wallet params e (settle_answer params q e)
settle_answer-Answers wallet params e (err x, db) mine free (r, rows, active, held) = absurd (cc)
settle_answer-Answers wallet params e (ok id, db) mine free (r, rows, active, held) =
    (mine, free, active, assignee-remove params.request_id e.assignments)

persist_answer-Answers :
    (wallet : Text) (params : OpoiSubmitResultParams) (e : OpoiEngine)
    → index_holds e.db.submissions.rows ≡ true
    → assignee params.request_id e.assignments ≡ some wallet
    → find_active_by_request_id params.request_id e.db ≡ none
    → Answers wallet params e (persist_answer wallet params e)
persist_answer-Answers wallet params e held mine free =
    settle_answer-Answers wallet params e _ mine free (
      subst
        (λ (o : Option Submission). Creates e.db params.request_id (answer wallet params e) o (
          create_submission wallet params.request_id (model_of (lookup params.request_id e.pending))
            (prompt_hash_of (lookup params.request_id e.pending)) none none params.response_hash
            params.response_hex params.token_count e.db))
        free
        (create_submission-Creates wallet params.request_id _ _ none none params.response_hash
          params.response_hex params.token_count e.db held))

module _ (hex_decode : Text → Option (List ℕ)) (hex_encode sha256 : List ℕ → Text) where
  check_hash-Answers :
      (wallet : Text) (params : OpoiSubmitResultParams) (raw : Option (List ℕ)) (e : OpoiEngine)
      → index_holds e.db.submissions.rows ≡ true
      → assignee params.request_id e.assignments ≡ some wallet
      → find_active_by_request_id params.request_id e.db ≡ none
      → Answers wallet params e (check_hash hex_decode hex_encode sha256 wallet params raw e)
  check_hash-Answers wallet params none e held mine free = (refl, refl, refl, refl)
  check_hash-Answers wallet params (some raw) e held mine free =
      elim (Bool-cases (same_ignoring_case (hex_encode (sha256 raw)) params.response_hash)) [
        | inl same ↦ rw same (persist_answer-Answers wallet params e held mine free)
        | inr wrong ↦ rw wrong (refl, refl, refl, refl)
      ]

  check_active-Answers :
      (wallet : Text) (params : OpoiSubmitResultParams) (o : Option Submission) (e : OpoiEngine)
      → index_holds e.db.submissions.rows ≡ true
      → assignee params.request_id e.assignments ≡ some wallet
      → find_active_by_request_id params.request_id e.db ≡ o
      → Answers wallet params e (check_active hex_decode hex_encode sha256 wallet params o e)
  check_active-Answers wallet params (some s) e held mine taken = (refl, refl, refl, refl)
  check_active-Answers wallet params none e held mine free =
      check_hash-Answers wallet params (hex_decode params.response_hex) e held mine free

  check_assignee-Answers :
      (wallet : Text) (params : OpoiSubmitResultParams) (o : Option Text) (e : OpoiEngine)
      → index_holds e.db.submissions.rows ≡ true
      → assignee params.request_id e.assignments ≡ o
      → Answers wallet params e (check_assignee hex_decode hex_encode sha256 wallet params o e)
  check_assignee-Answers wallet params none e held nobody = (refl, refl, refl, refl)
  check_assignee-Answers wallet params (some assigned) e held theirs =
      elim (Bool-cases (assigned =ₖ wallet)) [
        | inl same ↦ rw same (
            check_active-Answers wallet params _ e held
              (theirs ∙ ap some (text_equal assigned wallet same)) refl)
        | inr other ↦ rw other (refl, refl, refl, refl)
      ]

  -- `handle_submit_result` takes an answer only from the wallet that the request is assigned to and
  -- only if no submission is active for it; then the answer is the active submission, under that
  -- wallet, and the request is assigned to nobody. A refused answer changes no submission, no
  -- assignment and no cached request, and commits nothing. Provided that the index on the active
  -- submissions held before.
  pub handle_submit_result-Answers :
      (wallet : Text) (params : OpoiSubmitResultParams) (e : OpoiEngine)
      → index_holds e.db.submissions.rows ≡ true
      → Answers wallet params e (handle_submit_result hex_decode hex_encode sha256 wallet params e)
  unfolding handle_submit_result
  handle_submit_result-Answers wallet params e held =
      check_assignee-Answers wallet params _ e held refl

module _ {W : Type 0} (csd : CsdRpcClient W) where
  -- The daemon's answer to the reveal of a candidate.
  abbrev reveal : RevealCandidate → W → Result Text × W
  reveal c w =
      csd.submit_response_reveal c.request_id c.response_hash c.opoi_address c.token_count
        c.nonce_hex w

  -- What asking the daemon for the candidates in order comes to: those that it refuses leave nothing, the
  -- first that it accepts is written with its transaction, and the others are not asked for.
  pub data RevealsOne (d : Db) : List RevealCandidate → W → Db × W → Type 0 where
    reveals_none : {w : W} → RevealsOne d [] w (d, w)
    refused :
        {c : RevealCandidate} {cs : List RevealCandidate} {w w' : W} {x : AppError} {r : Db × W}
        → reveal c w ≡ (err x, w')
        → RevealsOne d cs w' r
        → RevealsOne d (c ∷ cs) w r
    accepted :
        {c : RevealCandidate} {cs : List RevealCandidate} {w w' : W} {txid : Text}
        → reveal c w ≡ (ok txid, w')
        → RevealsOne d
            (c ∷ cs)
            w
            ((mark_revealed c.submission_id txid (mark_attempt_revealed c.attempt_id txid d)).1, w')

  settle_reveal-RevealsOne :
      (c : RevealCandidate) (cs : List RevealCandidate) (d : Db) (w : W) (q : Result Text × W)
      → reveal c w ≡ q
      → ((w' : W) → RevealsOne d cs w' (try_reveal_any csd cs d w'))
      → RevealsOne d (c ∷ cs) w (settle_reveal csd c q (try_reveal_any csd cs) d)
  settle_reveal-RevealsOne c cs d w (ok txid, w') asked rest = accepted asked
  settle_reveal-RevealsOne c cs d w (err x, w') asked rest = refused asked (rest w')

  -- `try_reveal_any` asks the daemon for the candidates in order until it accepts one. That one is
  -- written with the transaction that the daemon answered, in its attempt and in its submission. A
  -- refusal writes nothing, and after a success no other candidate is asked for.
  pub try_reveal_any-RevealsOne :
      (candidates : List RevealCandidate) (d : Db) (w : W)
      → RevealsOne d candidates w (try_reveal_any csd candidates d w)
  unfolding try_reveal_any
  try_reveal_any-RevealsOne [] d w = reveals_none
  try_reveal_any-RevealsOne (c ∷ cs) d w =
      settle_reveal-RevealsOne c cs d w (reveal c w) refl (try_reveal_any-RevealsOne cs d)
