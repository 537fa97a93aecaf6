-- ===== src/Engine/Held.antt =====
-- Who holds a request after `poll_and_assign_tick` of src/opoi/engine.rs.
use cs_stratum_bridge.Base.{
  ◌≡◌, ◌≢◌, refl, ap, sym, subst, ◌∙◌, Text, text_key, Text-discrete, lookup, insert, contains_key,
  lookup-insert, lookup-remove, Bool, true, false, Bool-cases, Option-cases, inl, inr, Option, none,
  some, List, [], ◌∷◌, ◌++◌, append-nil, append_assoc, arith, ◌||◌, is_some,
}
use cs_stratum_bridge.AppError.{Result, ok, err}
use cs_stratum_bridge.Assignment.{
  Assignment, AssignmentTracker, try_assign, assignee, remove_assignment,
}
use cs_stratum_bridge.Wire.{OpoiAssign}
use cs_stratum_bridge.Rpc.{OpoiRequest, ModelManifest}
use cs_stratum_bridge.Daemon.{CsdRpcClient}
use cs_stratum_bridge.Registry.{Sender, get, pick_next}
use cs_stratum_bridge.Db.Submissions.{find_active_by_request_id}
use cs_stratum_bridge.Engine.Submit.{OpoiEngine, PendingRequest}
use cs_stratum_bridge.Engine.Assign.{
  Outside, cache_request, cache_requests, candidates_of, opoi_assign, is_whole_model, log_sent,
  send_assign, hand_out, pick_and_hand_out, after_manifest, assign_one, assign_all, assign_listed,
  poll_and_assign_tick,
}

abbrev pub Line : Type 0
Line = Text × OpoiAssign

-- Among the lines to miners is one that hands the request to the wallet.
pub data Told (request wallet : Text) : List Line → Type 0 where
  here :
      (assign : OpoiAssign) (ls : List Line)
      → assign.request_id ≡ request
      → Told request wallet ((wallet, assign) ∷ ls)
  later : (l : Line) (ls : List Line) → Told request wallet ls → Told request wallet (l ∷ ls)

-- Who holds a request stays; or nobody did, and one does that was told so.
pub data Moved (request : Text) (before after : Option Text) (lines : List Line) : Type 0 where
  stays : after ≡ before → Moved request before after lines
  handed :
      (wallet : Text)
      → before ≡ none
      → after ≡ some wallet
      → Told request wallet lines
      → Moved request before after lines

abbrev pub Moves : Text → OpoiEngine → OpoiEngine → Type 0
Moves request e e' =
    (lines : List Line) × (e'.asked ≡ e.asked ++ lines)
    × Moved request (assignee request e.assignments) (assignee request e'.assignments) lines

Told-append :
    (request wallet : Text) (ls ms : List Line)
    → Told request wallet ls
    → Told request wallet (ls ++ ms)
Told-append request wallet _ ms (here assign ls same) = here assign (ls ++ ms) same
Told-append request wallet _ ms (later l ls told) =
    later l (ls ++ ms) (Told-append request wallet ls ms told)

append-Told :
    (request wallet : Text) (ls ms : List Line)
    → Told request wallet ms
    → Told request wallet (ls ++ ms)
append-Told request wallet [] ms told = told
append-Told request wallet (l ∷ ls) ms told =
    later l (ls ++ ms) (append-Told request wallet ls ms told)

Moved-trans :
    (request : Text) (before mid after : Option Text) (ls ms : List Line)
    → Moved request before mid ls
    → Moved request mid after ms
    → Moved request before after (ls ++ ms)
Moved-trans request before mid after ls ms (stays a) (stays b) = stays (b ∙ a)
Moved-trans request before mid after ls ms (stays a) (handed v free held told) =
    handed v (sym a ∙ free) held (append-Told request v ls ms told)
Moved-trans request before mid after ls ms (handed v free held told) (stays b) =
    handed v free (b ∙ held) (Told-append request v ls ms told)
Moved-trans request before mid after ls ms (handed v free held told) (handed v' free' held' told') =
    absurd (cc)

Moves-refl : (request : Text) (e : OpoiEngine) → Moves request e e
Moves-refl request e = ([], sym (append-nil e.asked), stays refl)

Moves-trans :
    (request : Text) (e e' e'' : OpoiEngine)
    → Moves request e e'
    → Moves request e' e''
    → Moves request e e''
Moves-trans request e e' e'' (ls, same, moved) (ms, same', moved') = (
  ls ++ ms,
  same' ∙ (ap (λ x. x ++ ms) same ∙ append_assoc e.asked ls ms),
  Moved-trans request _ (assignee request e'.assignments) _ ls ms moved moved',
)

-- An entry that is made for a free request and removed again.
assignee-released :
    (request id : Text) (a : Assignment) (t : AssignmentTracker)
    → contains_key id t ≡ false
    → assignee request (remove_assignment id (insert id a t)) ≡ assignee request t
unfolding assignee remove_assignment
assignee-released request id a t free =
    ground (arith, lookup-remove id request (insert id a t), lookup-insert id request a t)

assignee-insert_other :
    (request id : Text) (a : Assignment) (t : AssignmentTracker)
    → id ≢ request
    → assignee request (insert id a t) ≡ assignee request t
unfolding assignee
assignee-insert_other request id a t other = ground (arith, lookup-insert id request a t)

assignee-insert_same :
    (id : Text) (a : Assignment) (t : AssignmentTracker)
    → assignee id (insert id a t) ≡ some a.miner_wallet
unfolding assignee
assignee-insert_same id a t = ground (arith, lookup-insert id id a t)

assignee-free :
    (id : Text) (t : AssignmentTracker) → contains_key id t ≡ false → assignee id t ≡ none
unfolding assignee
assignee-free id t free = ground arith

module _ {W : Type 0} (csd : CsdRpcClient W) (out : Outside W) where
  -- The request was free and is entered for the wallet.
  log_sent-Moves :
      (request id wallet : Text) (assign : OpoiAssign) (a : Assignment) (e : OpoiEngine)
      (sent : Bool) (w : W)
      → assign.request_id ≡ id
      → a.miner_wallet ≡ wallet
      → contains_key id e.assignments ≡ false
      → Moves request e
          (log_sent csd out id wallet assign
            (record e { assignments = insert id a e.assignments })
            (sent, w)).0
  log_sent-Moves request id wallet assign a e false w asks holds free =
      ([], sym (append-nil e.asked), stays (assignee-released request id a e.assignments free))
  log_sent-Moves request id wallet assign a e true w asks holds free =
      elim (Text-discrete id request) [
        | yes same ↦ (
          (wallet, assign) ∷ [],
          refl,
          handed wallet
              (subst (λ x. assignee x e.assignments ≡ none) same
                (assignee-free id e.assignments free))
              (subst (λ x. assignee x (insert id a e.assignments) ≡ some wallet) same
                (assignee-insert_same id a e.assignments ∙ ap (λ x. some x) holds))
              (here assign [] (asks ∙ same)),
        )
        | no other ↦ (
          (wallet, assign) ∷ [],
          refl,
          stays (assignee-insert_other request id a e.assignments other),
        )
      ]

  send_assign-Moves :
      (request id wallet : Text) (assign : OpoiAssign) (a : Assignment) (tx : Option Sender)
      (e : OpoiEngine) (w : W)
      → assign.request_id ≡ id
      → a.miner_wallet ≡ wallet
      → contains_key id e.assignments ≡ false
      → Moves request e
          (send_assign csd out id wallet assign tx
            (record e { assignments = insert id a e.assignments })
            w).0
  send_assign-Moves request id wallet assign a none e w asks holds free =
      ([], sym (append-nil e.asked), stays (assignee-released request id a e.assignments free))
  send_assign-Moves request id wallet assign a (some tx) e w asks holds free =
      let reply = out.send tx assign w in
      log_sent-Moves request id wallet assign a e reply.0 reply.1 asks holds free

  hand_out-Moves :
      (request id wallet : Text) (assign : OpoiAssign) (e : OpoiEngine) (w : W)
      → assign.request_id ≡ id
      → Moves request e (hand_out csd out id wallet assign e w).0
  unfolding hand_out try_assign
  hand_out-Moves request id wallet assign e w asks =
      let picked : OpoiEngine = record e { last_assigned = some wallet } in
      elim (Bool-cases (contains_key id e.assignments)) [
        | inl held ↦ rw held (Moves-refl request picked)
        | inr free ↦ rw free (
            send_assign-Moves request id wallet assign
              (record { miner_wallet = wallet; assigned_at = (out.now w).0 })
              (get wallet e.registry) picked (out.now w).1 asks refl free)
      ]

  pick_and_hand_out-Moves :
      (request id : Text) (assign : OpoiAssign) (wallet : Option Text)
      (rest : OpoiEngine → W → OpoiEngine × W) (e : OpoiEngine) (w : W)
      → assign.request_id ≡ id
      → ((e' : OpoiEngine) (w' : W) → Moves request e' (rest e' w').0)
      → Moves request e (pick_and_hand_out csd out id assign wallet rest e w).0
  pick_and_hand_out-Moves request id assign none rest e w asks goes_on = Moves-refl request e
  pick_and_hand_out-Moves request id assign (some wallet) rest e w asks goes_on =
      let x = hand_out csd out id wallet assign e w in
      Moves-trans request e x.0 (rest x.0 x.1).0 (hand_out-Moves request id wallet assign e w asks)
        (goes_on x.0 x.1)

  after_manifest-Moves :
      (request id : Text) (assign : OpoiAssign) (rest : OpoiEngine → W → OpoiEngine × W)
      (e : OpoiEngine) (r : Result ModelManifest) (w : W)
      → assign.request_id ≡ id
      → ((e' : OpoiEngine) (w' : W) → Moves request e' (rest e' w').0)
      → Moves request e (after_manifest csd out id assign rest e (r, w)).0
  after_manifest-Moves request id assign rest e r w asks goes_on =
      elim (Bool-cases (is_whole_model csd out r)) [
        | inl whole ↦ rw whole (
            pick_and_hand_out-Moves request id assign (pick_next e.last_assigned e.registry) rest e
              w asks goes_on)
        | inr sharded ↦ rw sharded (goes_on e w)
      ]

  assign_one-Moves :
      (request id : Text) (entry : Option PendingRequest) (rest : OpoiEngine → W → OpoiEngine × W)
      (e : OpoiEngine) (w : W)
      → ((e' : OpoiEngine) (w' : W) → Moves request e' (rest e' w').0)
      → Moves request e (assign_one csd out id entry rest e w).0
  assign_one-Moves request id none rest e w goes_on = goes_on e w
  assign_one-Moves request id (some entry) rest e w goes_on = elim (Option-cases entry.prompt_hex) [
    | inl no_prompt ↦ rw no_prompt (goes_on e w)
    | inr (prompt_hex, known) ↦
        let reply = csd.get_model_manifest entry.request.model w in
        rw known (
          after_manifest-Moves request id (opoi_assign id entry.request prompt_hex) rest e reply.0
            reply.1 refl goes_on)
  ]

  assign_all-Moves :
      (request : Text) (ids : List Text) (e : OpoiEngine) (w : W)
      → Moves request e (assign_all csd out ids e w).0
  unfolding assign_all
  assign_all-Moves request [] e w = Moves-refl request e
  assign_all-Moves request (id ∷ ids) e w =
      assign_one-Moves request id (lookup id e.pending) (assign_all csd out ids) e w
        (assign_all-Moves request ids)

  cache_request-Moves :
      (request : Text) (req : OpoiRequest) (e : OpoiEngine) → Moves request e (cache_request req e)
  cache_request-Moves request req e =
      elim (Bool-cases (
        contains_key req.request_id e.pending
        || is_some (find_active_by_request_id req.request_id e.db))) [
          | inl seen ↦ rw seen (Moves-refl request e)
          | inr fresh ↦ rw fresh (Moves-refl request e)
        ]

  cache_requests-Moves :
      (request : Text) (reqs : List OpoiRequest) (e : OpoiEngine)
      → Moves request e (cache_requests reqs e)
  unfolding cache_requests
  cache_requests-Moves request [] e = Moves-refl request e
  cache_requests-Moves request (req ∷ reqs) e =
      Moves-trans request e (cache_request req e) (cache_requests reqs (cache_request req e))
        (cache_request-Moves request req e)
        (cache_requests-Moves request reqs (cache_request req e))

  assign_listed-Moves :
      (request : Text) (e : OpoiEngine) (r : Result (List OpoiRequest)) (w : W)
      → Moves request e (assign_listed csd out e (r, w)).1
  assign_listed-Moves request e (err x) w = Moves-refl request e
  assign_listed-Moves request e (ok reqs) w =
      let cached : OpoiEngine = cache_requests reqs e in
      let ids : List Text = candidates_of cached.assignments cached.pending in
      Moves-trans request e cached (assign_all csd out ids cached w).0
        (cache_requests-Moves request reqs e) (assign_all-Moves request ids cached w)

  -- By a tick a request that a wallet holds stays with it, and a request that nobody holds stays free
  -- or goes to a wallet that was sent the line for it: no request is held without its miner being told.
  pub poll_and_assign_tick-Moves :
      (request : Text) (e : OpoiEngine) (w : W)
      → Moves request e (poll_and_assign_tick csd out e w).1
  unfolding poll_and_assign_tick
  poll_and_assign_tick-Moves request e w =
      let reply = csd.list_pending_requests w in assign_listed-Moves request e reply.0 reply.1
