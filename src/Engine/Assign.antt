-- ===== src/Engine/Assign.antt =====
-- `poll_and_assign_tick` of src/opoi/engine.rs: requests of the chain are cached, and those with a
-- prompt are handed to miners in turn.
use cs_stratum_bridge.Base.{
  ℕ, if◌then◌else◌, Text, codes, text_key, ◌=ₖ◌, Map, lookup, insert, contains_key, is_some, Bool,
  true, false, not, ◌&&◌, ◌||◌, Option, none, some, List, [], ◌∷◌, ◌++◌,
}
use cs_stratum_bridge.AppError.{display, Result, ok, err}
use cs_stratum_bridge.Assignment.{AssignmentTracker, try_assign, assignee, remove_assignment}
use cs_stratum_bridge.Wire.{OpoiAssign}
use cs_stratum_bridge.Rpc.{OpoiRequest, ModelManifest}
use cs_stratum_bridge.Daemon.{CsdRpcClient}
use cs_stratum_bridge.Registry.{Sender, get, pick_next}
use cs_stratum_bridge.Db.Submissions.{find_active_by_request_id}
use cs_stratum_bridge.Engine.Submit.{OpoiEngine, PendingRequest}

-- The clock, the channels to the miners (whether a line could be sent), and `to_lowercase`.
pub record Outside (W : Type 0) : Type 0 where
  pub now : W → ℕ × W
  pub send : Sender → OpoiAssign → W → Bool × W
  pub to_lowercase : Text → Text

abbrev starts_with : Text → Text → Bool
starts_with [] s = true
starts_with (a ∷ t) [] = false
starts_with (a ∷ t) (b ∷ s) = (a ∷ [] =ₖ b ∷ []) && starts_with t s

-- `contains`.
abbrev pub contains : Text → Text → Bool
contains t [] = starts_with t []
contains t (b ∷ s) = starts_with t (b ∷ s) || contains t s

abbrev pub cache_request : OpoiRequest → OpoiEngine → OpoiEngine
cache_request req e =
    if contains_key req.request_id e.pending
      || is_some (find_active_by_request_id req.request_id e.db)
    then e
    else record e {
      pending = insert req.request_id (record { request = req; prompt_hex = none }) e.pending;
    }

unfoldable pub cache_requests : List OpoiRequest → OpoiEngine → OpoiEngine
cache_requests [] e = e
cache_requests (req ∷ reqs) e = cache_requests reqs (cache_request req e)

abbrev pub is_candidate : AssignmentTracker → Text → PendingRequest → Bool
is_candidate assignments id entry =
    is_some entry.prompt_hex && not (is_some (assignee id assignments))

unfoldable pub candidates_of : AssignmentTracker → Map Text PendingRequest → List Text
candidates_of assignments [] = []
candidates_of assignments ((id, entry) ∷ m) =
    let rest = candidates_of assignments m in
    if is_candidate assignments id entry then id ∷ rest else rest

abbrev pub opoi_assign : Text → OpoiRequest → Text → OpoiAssign
opoi_assign id request prompt_hex = record {
  request_id = id;
  model = request.model;
  prompt_hex = prompt_hex;
  max_tokens = request.max_tokens;
  task_type = request.task_type;
  task_class = request.task_class;
}

module _ {W : Type 0} (csd : CsdRpcClient W) (out : Outside W) where
  -- Whether the request is for one miner as a whole.
  abbrev pub is_whole_model : Result ModelManifest → Bool
  is_whole_model (ok m) = not (m.status =ₖ codes "ACTIVE")
  is_whole_model (err e) = contains (codes "not found") (out.to_lowercase (display e))

  abbrev pub log_sent : Text → Text → OpoiAssign → OpoiEngine → Bool × W → OpoiEngine × W
  log_sent id wallet assign e (true, w) = (record e { asked = e.asked ++ (wallet, assign) ∷ [] }, w)
  log_sent id wallet assign e (false, w) =
      (record e { assignments = remove_assignment id e.assignments }, w)

  abbrev pub send_assign :
      Text → Text → OpoiAssign → Option Sender → OpoiEngine → W → OpoiEngine × W
  send_assign id wallet assign none e w =
      (record e { assignments = remove_assignment id e.assignments }, w)
  send_assign id wallet assign (some tx) e w = log_sent id wallet assign e (out.send tx assign w)

  abbrev pub send_if_first :
      Text → Text → OpoiAssign → OpoiEngine → Bool × AssignmentTracker → W → OpoiEngine × W
  send_if_first id wallet assign e (true, assignments) w =
      send_assign id wallet assign (get wallet e.registry) (record e { assignments = assignments })
        w
  send_if_first id wallet assign e (false, assignments) w =
      (record e { assignments = assignments }, w)

  unfoldable pub hand_out : Text → Text → OpoiAssign → OpoiEngine → W → OpoiEngine × W
  hand_out id wallet assign e w =
      let (now, w') = out.now w in
      send_if_first id wallet assign (record e { last_assigned = some wallet })
        (try_assign id wallet now e.assignments) w'

  -- Nobody to pick ends the loop.
  abbrev pub pick_and_hand_out :
      Text
      → OpoiAssign
      → Option Text
      → (OpoiEngine → W → OpoiEngine × W)
      → OpoiEngine
      → W
      → OpoiEngine × W
  pick_and_hand_out id assign none rest e w = (e, w)
  pick_and_hand_out id assign (some wallet) rest e w =
      let (e', w') = hand_out id wallet assign e w in rest e' w'

  abbrev pub after_manifest :
      Text
      → OpoiAssign
      → (OpoiEngine → W → OpoiEngine × W)
      → OpoiEngine
      → Result ModelManifest × W
      → OpoiEngine × W
  after_manifest id assign rest e (r, w) =
      if is_whole_model r
      then pick_and_hand_out id assign (pick_next e.last_assigned e.registry) rest e w
      else rest e w

  -- A candidate has a prompt, so the panic of `unwrap` is no case.
  abbrev pub assign_one :
      Text
      → Option PendingRequest
      → (OpoiEngine → W → OpoiEngine × W)
      → OpoiEngine
      → W
      → OpoiEngine × W
  assign_one id none rest e w = rest e w
  assign_one id (some entry) rest e w = elim entry.prompt_hex [
    | none ↦ rest e w
    | some prompt_hex ↦
        after_manifest id (opoi_assign id entry.request prompt_hex) rest e
          (csd.get_model_manifest entry.request.model w)
  ]

  unfoldable pub assign_all : List Text → OpoiEngine → W → OpoiEngine × W
  assign_all [] e w = (e, w)
  assign_all (id ∷ ids) e w = assign_one id (lookup id e.pending) (assign_all ids) e w

  abbrev pub assign_listed :
      OpoiEngine → Result (List OpoiRequest) × W → Result (Unit {0}) × OpoiEngine × W
  assign_listed e (err x, w) = (err x, e, w)
  assign_listed e (ok reqs, w) =
      let cached : OpoiEngine = cache_requests reqs e in
      let (e', w') = assign_all (candidates_of cached.assignments cached.pending) cached w in
      (ok tt, e', w')

  unfoldable pub poll_and_assign_tick : OpoiEngine → W → Result (Unit {0}) × OpoiEngine × W
  poll_and_assign_tick e w = assign_listed e (csd.list_pending_requests w)
