-- ===== src/Speculative/Round.antt =====
-- The round arithmetic of src/opoi/speculative_engine.rs.
use cs_stratum_bridge.Base.{
  ℕ, ◌+◌, ◌-◌, ◌*◌, ◌==◌, ltb, Bool, true, false, Option, none, some, List, [], ◌∷◌, length, min,
  if◌then◌else◌,
}
use Prim.Native.Nat.{max}

pub record RoundOutcome : Type 0 where
  pub accepted_count : ℕ
  pub settle_token : ℕ
  pub full_accept : Bool

abbrev pub carry_len : Option ℕ → ℕ
carry_len none = 0
carry_len (some _) = 1

-- The loop from the first drafted token on; `none` is an index out of range, which the assertion on
-- the lengths rules out.
unfoldable pub verify_from : ℕ → ℕ → List ℕ → List ℕ → Option RoundOutcome
verify_from expected accepted ds [] =
    some (record { accepted_count = accepted; settle_token = expected; full_accept = true })
verify_from expected accepted [] (logit ∷ logits) = none
verify_from expected accepted (d ∷ ds) (logit ∷ logits) =
    let rest = verify_from logit (accepted + 1) ds logits in
    if d == expected
    then rest
    else some (record { accepted_count = accepted; settle_token = expected; full_accept = false })

-- The position of a carried token is accepted without a test, and gives the first expectation.
abbrev pub verify_batch : Option ℕ → ℕ → List ℕ → List ℕ → Option RoundOutcome
verify_batch none expected0 ds logits = verify_from expected0 0 ds logits
verify_batch (some _) expected0 ds [] = verify_from expected0 0 ds []
verify_batch (some _) expected0 ds (logit ∷ logits) = verify_from logit 0 ds logits

-- `none` is the failed assertion: there is one logit for each position of the batch.
unfoldable pub greedy_verify_round : Option ℕ → ℕ → List ℕ → List ℕ → Option RoundOutcome
greedy_verify_round carry expected0 draft_token_ids target_logits =
    if length target_logits == length draft_token_ids + carry_len carry
    then verify_batch carry expected0 draft_token_ids target_logits
    else none

unfoldable pub kv_keep_len : ℕ → Option ℕ → ℕ → ℕ
kv_keep_len base_start carry accepted_count = base_start + carry_len carry + accepted_count

abbrev pub min_k : ℕ
min_k = 2

abbrev pub max_k : ℕ
max_k = 8

abbrev pub clamp : ℕ → ℕ
clamp k = max min_k (min k max_k)

-- The rate is a quotient of two counts below 2^32, so comparing it to 0.7 and to 0.5 in `f64` is
-- comparing the products: no such quotient rounds across them.
unfoldable pub next_k : ℕ → ℕ → ℕ → ℕ
next_k current_k accepted_count k_this_round =
    if k_this_round == 0
    then clamp current_k
    else clamp (
        if ltb (7 * k_this_round) (10 * accepted_count)
        then current_k + 1
        else (if ltb (2 * accepted_count) k_this_round then current_k - 1 else current_k))
