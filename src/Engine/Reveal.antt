-- ===== src/Engine/Reveal.antt =====
-- The reveals and the publishing of src/opoi/engine.rs: `try_reveal_any`, `do_publish` and
-- `poll_reveal_tick`. The product and the sum in `f64` are the machine's.
use cs_stratum_bridge.Base.{
  ℕ, nat_key, Text, codes, Map, lookup, insert, Option, none, some, List, [], ◌∷◌, ◌++◌,
}
use cs_stratum_bridge.AppError.{Result, ok, err}
use cs_stratum_bridge.Rpc.{OpoiRequest}
use cs_stratum_bridge.Daemon.{CsdRpcClient}
use cs_stratum_bridge.Db.{Submission, RevealCandidate, Db}
use cs_stratum_bridge.Db.Submissions.{mark_revealed, mark_published, list_revealed_unpublished}
use cs_stratum_bridge.Db.Attempts.{list_reveal_ready_candidates, mark_attempt_revealed}

-- The attempts of each submission, in the order of the candidates.
abbrev pub group :
    List RevealCandidate → Map ℕ (List RevealCandidate) → Map ℕ (List RevealCandidate)
group [] by = by
group (c ∷ cs) by = group cs (
    insert c.submission_id
      (elim (lookup c.submission_id by) [ none ↦ c ∷ [] | some attempts ↦ attempts ++ c ∷ [] ]) by)

-- The daemon has accepted a reveal.
abbrev pub accept_reveal : RevealCandidate → Text → Db → Db
accept_reveal c txid d =
    (mark_revealed c.submission_id txid (mark_attempt_revealed c.attempt_id txid d)).1

module _ {W : Type 0} (csd : CsdRpcClient W) where
  -- The daemon's answer: stop at the first success, and go on otherwise.
  abbrev pub settle_reveal : RevealCandidate → Result Text × W → (Db → W → Db × W) → Db → Db × W
  settle_reveal c (ok txid, w) rest d = (accept_reveal c txid d, w)
  settle_reveal c (err _, w) rest d = rest d w

  unfoldable pub try_reveal_any : List RevealCandidate → Db → W → Db × W
  try_reveal_any [] d w = (d, w)
  try_reveal_any (c ∷ cs) d w =
      settle_reveal c
        (csd.submit_response_reveal c.request_id c.response_hash c.opoi_address c.token_count
          c.nonce_hex w)
        (try_reveal_any cs) d

  abbrev pub reveal_all : Map ℕ (List RevealCandidate) → Db → W → Db × W
  reveal_all [] d w = (d, w)
  reveal_all ((_, attempts) ∷ by) d w =
      let (d', w') = try_reveal_any attempts d w in reveal_all by d' w'

  module _ (f64_add f64_mul : ℕ → ℕ → ℕ) (f64_of_i32 : ℕ → ℕ) where
    -- 0.0 if the request cannot be read.
    abbrev pub reward_of : Submission → Result OpoiRequest → ℕ
    reward_of sub (ok req) =
        f64_add req.payment (f64_mul (f64_of_i32 sub.token_count) req.fee_per_token)
    reward_of sub (err _) = 0

    abbrev pub publish_reward : Submission → Db → Result OpoiRequest × W → Db × W
    publish_reward sub d (req, w) = ((mark_published sub.id (reward_of sub req) d).1, w)

    abbrev pub settle_publish : Submission → Db → Result (Unit {0}) × W → Db × W
    settle_publish sub d (ok _, w) = publish_reward sub d (csd.get_request sub.request_id w)
    settle_publish sub d (err _, w) = (d, w)

    abbrev pub publish_hex : Submission → Option Text → Db → W → Db × W
    publish_hex sub none d w = (d, w)
    publish_hex sub (some response_hex) d w =
        settle_publish sub d (csd.submit_content sub.request_id (codes "RESPONSE") response_hex w)

    unfoldable pub do_publish : Submission → Db → W → Db × W
    do_publish sub = publish_hex sub sub.response_hex

    abbrev pub publish_all : List Submission → Db → W → Db × W
    publish_all [] d w = (d, w)
    publish_all (sub ∷ subs) d w = let (d', w') = do_publish sub d w in publish_all subs d' w'

    abbrev pub reveal_at : Result ℕ × W → Db → Result (Unit {0}) × Db × W
    reveal_at (err x, w) d = (err x, d, w)
    reveal_at (ok height, w) d =
        let (d', w') = reveal_all (group (list_reveal_ready_candidates height d) []) d w in
        let (d'', w'') = publish_all (list_revealed_unpublished d') d' w' in (ok tt, d'', w'')

    unfoldable pub poll_reveal_tick : Db → W → Result (Unit {0}) × Db × W
    poll_reveal_tick d w = reveal_at (csd.get_chain_height w) d
