-- ===== src/Http.antt =====
-- src/http/handlers.rs: what a requester's client asks over HTTP. The router, the headers and JSON are a
-- library's. A byte is a number below 256; `healthz` asks the database whether it answers.
pub mod Bitwise
pub mod Guarded
mod Tests
use cs_stratum_bridge.Base.{
  ℕ, zero, suc, ◌+◌, ◌*◌, ◌/◌, ◌%◌, ◌==◌, if◌then◌else◌, Text, codes, Bool, true, false, not,
  Option, none, some, List, [], ◌∷◌, length,
}
use cs_stratum_bridge.RateLimit.{RateLimiter, IpAddr}
use cs_stratum_bridge.RateLimit
use cs_stratum_bridge.Daemon.{CsdRpcClient}
use cs_stratum_bridge.Db.{Submission}
use cs_stratum_bridge.Db.Submissions.{find_active_by_request_id}
use cs_stratum_bridge.Engine.Submit.{OpoiEngine, PendingSnapshotEntry, pending_snapshot}
use cs_stratum_bridge.Engine.Submit
use cs_stratum_bridge.Shard.{ShardEngine}
use cs_stratum_bridge.Shard.Dispatch
use cs_stratum_bridge.Shard.Topology.{TopologySnapshot, topology_snapshot}

-- The bits of `x ^ y` and of `x | y`, from the lowest; eight of them for a byte.
abbrev pub xor_bit : ℕ → ℕ → ℕ
xor_bit a b = if a == b then 0 else 1

abbrev pub or_bit : ℕ → ℕ → ℕ
or_bit a b = if (a + b) == 0 then 0 else 1

abbrev pub bitwise : (ℕ → ℕ → ℕ) → ℕ → ℕ → ℕ → ℕ
bitwise f zero x y = 0
bitwise f (suc n) x y = f (x % 2) (y % 2) + 2 * bitwise f n (x / 2) (y / 2)

abbrev pub xor_byte : ℕ → ℕ → ℕ
xor_byte x y = bitwise xor_bit 8 x y

abbrev pub or_byte : ℕ → ℕ → ℕ
or_byte x y = bitwise or_bit 8 x y

-- The fold over the pairs.
unfoldable pub fold_pairs : ℕ → Text → Text → ℕ
fold_pairs acc [] b = acc
fold_pairs acc (x ∷ xs) [] = acc
fold_pairs acc (x ∷ xs) (y ∷ ys) = fold_pairs (or_byte acc (xor_byte x y)) xs ys

unfoldable pub constant_time_eq : Text → Text → Bool
constant_time_eq a b = if length a == length b then fold_pairs 0 a b == 0 else false

pub record PromptRequest : Type 0 where
  pub request_id : Text
  pub prompt : Text
  pub model : Option Text
  pub max_tokens : Option ℕ

-- The part of the state that the handlers use.
pub record AppState : Type 0 where
  pub prompt_rate_limiter : RateLimiter
  pub opoi_requester_api_key : Text
  pub engine : OpoiEngine
  pub shard_engine : ShardEngine

-- The status and the text, or what is answered as JSON.
pub data Response : Type 0 where
  accepted : Response
  refused : ℕ → Text → Response
  found_submission : Submission → Response
  pending : List PendingSnapshotEntry → Response
  topology : TopologySnapshot → Response

abbrev pub is_authorized : Text → Option Text → Bool
is_authorized key none = false
is_authorized key (some provided) = constant_time_eq provided key

abbrev pub accept_response : Bool → Response
accept_response true = accepted
accept_response false = refused 404 (codes "request_id not found on-chain")

unfoldable pub submit_prompt :
    {W : Type 0}
    → CsdRpcClient W
    → (Text → Text)
    → IpAddr
    → ℕ
    → Option Text
    → PromptRequest
    → AppState
    → W
    → Response × AppState × W
submit_prompt csd hex_encode peer now provided body s w =
    let (allowed, limiter) = RateLimit.check peer now s.prompt_rate_limiter in
    let limited : AppState = record s { prompt_rate_limiter = limiter } in
    let prompt_hex : Text = hex_encode body.prompt in
    let (found, engine, w') =
      Submit.receive_prompt csd body.request_id prompt_hex body.model body.max_tokens s.engine w in
    if not allowed
    then (refused 429 (codes "rate limit exceeded, slow down"), limited, w)
    else (if not (is_authorized s.opoi_requester_api_key provided)
        then (refused 401 (codes "missing or invalid x-opoi-api-key"), limited, w)
        else (
          accept_response found,
          record limited {
            engine = engine;
            shard_engine = Dispatch.receive_prompt body.request_id prompt_hex s.shard_engine;
          },
          w',
        ))

abbrev pub submission_response : Option Submission → Response
submission_response none = refused 404 (codes "no active submission for this request_id")
submission_response (some sub) = found_submission sub

unfoldable pub get_submission : Text → AppState → Response
get_submission request s = submission_response (find_active_by_request_id request s.engine.db)

unfoldable pub list_pending : AppState → Response
list_pending s = pending (pending_snapshot s.engine)

abbrev pub topology_response : Option TopologySnapshot → Response
topology_response none = refused 404 (codes "no shard pipeline for this request_id right now")
topology_response (some snapshot) = topology snapshot

unfoldable pub get_topology : Text → AppState → Response
get_topology request s = topology_response (topology_snapshot request s.shard_engine)
