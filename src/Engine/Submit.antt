-- ===== src/Engine/Submit.antt =====
-- The requests that src/opoi/engine.rs caches and the answers that it takes: `receive_prompt`,
-- `pending_snapshot`, `handle_submit_result` and `on_disconnect`. Hexadecimal texts and the digest
-- are a library's. The commit that an answer spawns is an effect.
use cs_stratum_bridge.Base.{
  ℕ, if◌then◌else◌, Text, codes, text_key, ◌=ₖ◌, Map, lookup, insert, remove, is_some, Bool, true,
  false, Option, none, some, List, [], ◌∷◌, ◌++◌, map,
}
use cs_stratum_bridge.Bytes.{same_ignoring_case}
use cs_stratum_bridge.AppError.{
  AppError, unknown_request, not_assigned_to_caller, rejected, Result, ok, err,
}
use cs_stratum_bridge.Assignment.{
  AssignmentTracker, assignee, remove_assignment, release_for_wallet,
}
use cs_stratum_bridge.Wire.{OpoiAssign, OpoiSubmitResultParams}
use cs_stratum_bridge.Registry.{MinerRegistry}
use cs_stratum_bridge.Rpc.{OpoiRequest}
use cs_stratum_bridge.Daemon.{CsdRpcClient}
use cs_stratum_bridge.Db.{Submission, Db}
use cs_stratum_bridge.Db.Submissions.{create_submission, find_active_by_request_id}

pub record PendingRequest : Type 0 where
  pub request : OpoiRequest
  pub prompt_hex : Option Text

pub record PendingSnapshotEntry : Type 0 where
  pub request_id : Text
  pub model : Text
  pub has_prompt : Bool
  pub assigned_to : Option Text

-- A spawned `do_commit`: submission, request, hash and token count.
pub record SpawnedCommit : Type 0 where
  pub submission_id : ℕ
  pub request_id : Text
  pub response_hash : Text
  pub token_count : ℕ

-- The database and the registry that the engine shares, its own fields, and the lines to miners.
pub record OpoiEngine : Type 0 where
  pub db : Db
  pub registry : MinerRegistry
  pub assignments : AssignmentTracker
  pub pending : Map Text PendingRequest
  pub last_assigned : Option Text
  pub spawned : List SpawnedCommit
  pub asked : List (Text × OpoiAssign)

-- A request that the chain has not confirmed: the model and the tokens are the caller's word.
abbrev pub provisional : Text → Text → ℕ → OpoiRequest
provisional request model max_tokens = record {
  request_id = request;
  model = model;
  prompt_hash = [];
  max_tokens = max_tokens;
  payment = 0;
  fee_per_token = 0;
  task_type = none;
  task_class = none;
}

abbrev pub cache : Text → OpoiRequest → Text → OpoiEngine → OpoiEngine
cache id request prompt_hex e = record e {
  pending = insert id (record { request = request; prompt_hex = some prompt_hex }) e.pending;
}

abbrev pub cache_provisional : Text → Text → Option Text → Option ℕ → OpoiEngine → Bool × OpoiEngine
cache_provisional id prompt_hex (some model) (some max_tokens) e =
    (true, cache id (provisional id model max_tokens) prompt_hex e)
cache_provisional id prompt_hex none _ e = (false, e)
cache_provisional id prompt_hex (some _) none e = (false, e)

abbrev pub cache_fetched :
    Text → Text → Option Text → Option ℕ → Result OpoiRequest → OpoiEngine → Bool × OpoiEngine
cache_fetched id prompt_hex model max_tokens (ok request) e = (true, cache id request prompt_hex e)
cache_fetched id prompt_hex model max_tokens (err _) e =
    cache_provisional id prompt_hex model max_tokens e

unfoldable pub receive_prompt :
    {W : Type 0}
    → CsdRpcClient W
    → Text
    → Text
    → Option Text
    → Option ℕ
    → OpoiEngine
    → W
    → Bool × OpoiEngine × W
receive_prompt csd id prompt_hex model max_tokens e w = elim (lookup id e.pending) [
  | some entry ↦ (true, cache id entry.request prompt_hex e, w)
  | none ↦
      let (r, w') = csd.get_request id w in
      let (found, e') = cache_fetched id prompt_hex model max_tokens r e in (found, e', w')
]

abbrev pub snapshot_entry : AssignmentTracker → Text × PendingRequest → PendingSnapshotEntry
snapshot_entry t (id, entry) = record {
  request_id = id;
  model = entry.request.model;
  has_prompt = is_some entry.prompt_hex;
  assigned_to = assignee id t;
}

unfoldable pub pending_snapshot : OpoiEngine → List PendingSnapshotEntry
pending_snapshot e = map (snapshot_entry e.assignments) e.pending

abbrev pub duplicate : AppError
duplicate = rejected (codes "request_id already has an active submission")

abbrev pub not_hex : AppError
not_hex = rejected (codes "response_hex is not valid hex")

abbrev pub wrong_hash : AppError
wrong_hash = rejected (codes "response_hash does not match sha256(response_hex)")

abbrev pub model_of : Option PendingRequest → Option Text
model_of none = none
model_of (some entry) = some entry.request.model

abbrev pub prompt_hash_of : Option PendingRequest → Option Text
prompt_hash_of none = none
prompt_hash_of (some entry) = some entry.request.prompt_hash

-- The submission has been written, or not: only then is the request spoken for.
abbrev pub settle_answer :
    OpoiSubmitResultParams → Result ℕ × Db → OpoiEngine → Result ℕ × OpoiEngine
settle_answer params (err x, db) e = (err x, record e { db = db })
settle_answer params (ok id, db) e = (
  ok id,
  record e {
    db = db;
    assignments = remove_assignment params.request_id e.assignments;
    pending = remove params.request_id e.pending;
    spawned =
        e.spawned
        ++ record {
          submission_id = id;
          request_id = params.request_id;
          response_hash = params.response_hash;
          token_count = params.token_count;
        }
          ∷ [];
  },
)

abbrev pub persist_answer : Text → OpoiSubmitResultParams → OpoiEngine → Result ℕ × OpoiEngine
persist_answer wallet params e =
    let entry = lookup params.request_id e.pending in
    settle_answer params
      (create_submission wallet params.request_id (model_of entry) (prompt_hash_of entry) none none
        params.response_hash params.response_hex params.token_count e.db)
      e

module _ (hex_decode : Text → Option (List ℕ)) (hex_encode sha256 : List ℕ → Text) where
  -- The claimed hash against the claimed content.
  abbrev pub check_hash :
      Text → OpoiSubmitResultParams → Option (List ℕ) → OpoiEngine → Result ℕ × OpoiEngine
  check_hash wallet params none e = (err not_hex, e)
  check_hash wallet params (some raw) e =
      if same_ignoring_case (hex_encode (sha256 raw)) params.response_hash
      then persist_answer wallet params e
      else (err wrong_hash, e)

  abbrev pub check_active :
      Text → OpoiSubmitResultParams → Option Submission → OpoiEngine → Result ℕ × OpoiEngine
  check_active wallet params (some _) e = (err duplicate, e)
  check_active wallet params none e = check_hash wallet params (hex_decode params.response_hex) e

  abbrev pub check_assignee :
      Text → OpoiSubmitResultParams → Option Text → OpoiEngine → Result ℕ × OpoiEngine
  check_assignee wallet params none e = (err unknown_request, e)
  check_assignee wallet params (some assigned) e =
      if assigned =ₖ wallet
      then check_active wallet params (find_active_by_request_id params.request_id e.db) e
      else (err not_assigned_to_caller, e)

  unfoldable pub handle_submit_result :
      Text → OpoiSubmitResultParams → OpoiEngine → Result ℕ × OpoiEngine
  handle_submit_result wallet params e =
      check_assignee wallet params (assignee params.request_id e.assignments) e

unfoldable pub on_disconnect : Text → OpoiEngine → OpoiEngine
on_disconnect wallet e = record e { assignments = release_for_wallet wallet e.assignments }
