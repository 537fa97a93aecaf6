-- ===== src/Session.antt =====
-- src/proxy/session.rs: one miner's connection. Its lines go to the pool and the pool's lines to the
-- miner, but for the messages of OPoI, which go to the handlers of src/opoi/handler.rs. Sockets and JSON
-- are libraries'. A line is handled in one step.
pub mod Untouched
pub mod Relay
mod Tests
use cs_stratum_bridge.Base.{
  ℕ, ◌==◌, if◌then◌else◌, Text, codes, text_key, ◌=ₖ◌, is_some, Bool, true, false, ◌&&◌, Option,
  none, some, List, [], ◌∷◌, ◌++◌, any,
}
use cs_stratum_bridge.AppError.{AppError, unauthorized, stratum_code, display, Result, ok, err}
use cs_stratum_bridge.Registry.{
  MinerRegistry, Sender, register, unregister, mark_draft_capable, mark_auditor_capable,
  mark_expert_capable,
}
use cs_stratum_bridge.Wire.{
  OpoiSubmitResultParams, OpoiShardResult, OpoiDraftResult, OpoiKvRollbackAck, OpoiAuditResult,
  OpoiExpertResult,
}

-- What is used of `serde_json`: a value `V`, its parts, and the messages that it can be read as.
-- `is_i64` is that `as_i64` gives the number.
pub record Json (V : Type 0) : Type 0 where
  pub parse : Text → Option V
  pub null : V
  pub member : Text → V → Option V
  pub first_item : V → Option V
  pub as_text : V → Option Text
  pub as_u64 : V → Option ℕ
  pub is_i64 : ℕ → V → Bool
  pub as_bool : V → Option Bool
  pub as_array : V → Option (List V)
  pub to_submit_result : V → Option OpoiSubmitResultParams
  pub to_shard_result : V → Option OpoiShardResult
  pub to_audit_result : V → Option OpoiAuditResult
  pub to_expert_result : V → Option OpoiExpertResult
  pub to_draft_result : V → Option OpoiDraftResult
  pub to_kv_rollback_ack : V → Option OpoiKvRollbackAck

-- The handlers, on the state `S` of the engines with the registry that they share.
pub record Handlers (S : Type 0) : Type 0 where
  pub on_registry : (MinerRegistry → MinerRegistry) → S → S
  pub on_submit_result : Text → OpoiSubmitResultParams → S → Result ℕ × S
  pub on_shard_result : Text → OpoiShardResult → S → Result (Unit {0}) × S
  pub on_audit_result : Text → OpoiAuditResult → S → Result (Unit {0}) × S
  pub on_expert_result : Text → OpoiExpertResult → S → Result (Unit {0}) × S
  pub on_draft_result : Text → OpoiDraftResult → S → S
  pub on_kv_rollback_ack : Text → OpoiKvRollbackAck → S → S
  pub opoi_on_disconnect : Text → S → S
  pub shard_on_disconnect : Text → S → S
  pub speculative_on_disconnect : Text → S → S
  pub audit_on_disconnect : Text → S → S
  pub expert_on_disconnect : Text → S → S

-- A line to the miner: one of the pool's, or an answer to the message with this id.
pub data Down (V : Type 0) : Type 0 where
  relays : Text → Down V
  acks_submission : V → ℕ → Down V
  acks_shard_result acks_audit_result acks_expert_result : V → Down V
  refuses_submission refuses_shard_result refuses_audit_result refuses_expert_result :
      V → ℕ → Text → Down V

-- The channel to the miner, `AuthState`, what was sent to both sides, and the engines.
pub record Session (V S : Type 0) : Type 0 where
  pub down_tx : Sender
  pub pending : Option Text
  pub confirmed : Option Text
  pub down : List (Down V)
  pub up : List Text
  pub engines : S

abbrev pub then_get : {A B : Type 0} → Option A → (A → Option B) → Option B
then_get none f = none
then_get (some a) f = f a

abbrev pub or_default : {A : Type 0} → A → Option A → A
or_default a none = a
or_default a (some b) = b

-- `strip_prefix(p).unwrap_or(s)`, with what is left of both.
abbrev pub strip_from : Text → Text → Text → Text
strip_from whole [] s = s
strip_from whole (c ∷ cs) [] = whole
strip_from whole (c ∷ cs) (d ∷ ds) =
    let rest = strip_from whole cs ds in if c == d then rest else whole

-- `split('.').next()`.
abbrev pub before_dot : Text → Text
before_dot [] = []
before_dot (c ∷ cs) = let rest = before_dot cs in if c == 46 then [] else c ∷ rest

abbrev pub has_prefix : Text → Text → Bool
has_prefix [] s = true
has_prefix (c ∷ cs) [] = false
has_prefix (c ∷ cs) (d ∷ ds) = (c == d) && has_prefix cs ds

-- The address without `SOLO:` and without the worker.
abbrev pub wallet_only : Text → Text
wallet_only addr_raw = before_dot (strip_from addr_raw (codes "SOLO:") addr_raw)

abbrev pub send_down : {V S : Type 0} → Down V → Session V S → Session V S
send_down line s = record s { down = s.down ++ line ∷ [] }

abbrev pub send_up : {V S : Type 0} → Text → Session V S → Session V S
send_up line s = record s { up = s.up ++ line ∷ [] }

-- The methods of the `match`; `mining.submit` is relayed like any other.
pub data Method : Type 0 where
  submit_result shard_result audit_result expert_result draft_result : Method
  kv_rollback_ack capabilities authorize other : Method

unfoldable pub method_kind : Text → Method
method_kind method =
    if method =ₖ codes "opoi.submit_result"
    then submit_result
    else (if method =ₖ codes "opoi.shard_result"
        then shard_result
        else (if method =ₖ codes "opoi.audit_result"
            then audit_result
            else (if method =ₖ codes "opoi.expert_result"
                then expert_result
                else (if method =ₖ codes "opoi.draft_result"
                    then draft_result
                    else (if method =ₖ codes "opoi.kv_rollback_ack"
                        then kv_rollback_ack
                        else (if method =ₖ codes "opoi.capabilities"
                            then capabilities
                            else (if method =ₖ codes "mining.authorize"
                                then authorize
                                else other)))))))

module _ {V : Type 0} (j : Json V) where
  abbrev pub message_id : Option V → V
  message_id value = or_default j.null (then_get value (j.member (codes "id")))

  abbrev pub first_param : Option V → Option V
  first_param value = then_get (then_get value (j.member (codes "params"))) j.first_item

  abbrev pub method_of : Option V → Option Text
  method_of value = then_get (then_get value (j.member (codes "method"))) j.as_text

  abbrev pub texts_of : List V → List Text
  texts_of [] = []
  texts_of (v ∷ vs) = elim (j.as_text v) [ none ↦ texts_of vs | some t ↦ t ∷ texts_of vs ]

  abbrev pub caps_of : Option V → List Text
  caps_of param =
      texts_of (or_default [] (then_get (then_get param (j.member (codes "caps"))) j.as_array))

  abbrev pub has_cap : Text → Option V → Bool
  has_cap cap param = any (λ c. c =ₖ cap) (caps_of param)

  abbrev pub is_yes_of : Option Bool → Bool
  is_yes_of none = false
  is_yes_of (some b) = b

  abbrev pub is_two_of : Option V → Bool
  is_two_of none = false
  is_two_of (some v) = j.is_i64 2 v

  abbrev pub is_authorize_response : Option V → Bool
  is_authorize_response value =
      is_two_of (then_get value (j.member (codes "id")))
      && is_yes_of (then_get (then_get value (j.member (codes "result"))) j.as_bool)

  abbrev pub is_opoi : Option Text → Bool
  is_opoi none = false
  is_opoi (some method) = has_prefix (codes "opoi.") method

module _ {V S : Type 0} (j : Json V) (h : Handlers S) where
  abbrev pub settle_reply :
      {R : Type 0} → (R → Down V) → (ℕ → Text → Down V) → Result R × S → Session V S → Session V S
  settle_reply ack refuse (ok r, engines) s = send_down (ack r) (record s { engines = engines })
  settle_reply ack refuse (err x, engines) s =
      send_down (refuse (stratum_code x) (display x)) (record s { engines = engines })

  -- A message that is answered: it must be well formed, and the connection authorized.
  abbrev pub reply_to :
      {P R : Type 0}
      → Text
      → (Text → P → S → Result R × S)
      → (R → Down V)
      → (ℕ → Text → Down V)
      → Option P
      → Option Text
      → Session V S
      → Session V S
  reply_to malformed handle ack refuse none confirmed s = send_down (refuse 20 malformed) s
  reply_to malformed handle ack refuse (some params) none s =
      send_down (refuse (stratum_code unauthorized) (display unauthorized)) s
  reply_to malformed handle ack refuse (some params) (some wallet) s =
      settle_reply ack refuse (handle wallet params s.engines) s

  -- A message that is not answered.
  abbrev pub notify :
      {P : Type 0} → (Text → P → S → S) → Option P → Option Text → Session V S → Session V S
  notify handle none confirmed s = s
  notify handle (some params) none s = s
  notify handle (some params) (some wallet) s = record s {
    engines = handle wallet params s.engines;
  }

  abbrev pub mark_expert : Text → Option ℕ → S → S
  mark_expert wallet none engines = engines
  mark_expert wallet (some vram_mb) engines =
      h.on_registry (mark_expert_capable wallet vram_mb) engines

  abbrev pub announce : Text → Option V → S → S
  announce wallet param engines =
      let drafts : S =
        if has_cap j (codes "draft") param
        then h.on_registry (mark_draft_capable wallet) engines
        else engines in
      let audits : S =
        if has_cap j (codes "auditor") param
        then h.on_registry (mark_auditor_capable wallet) drafts
        else drafts in
      if has_cap j (codes "expert") param
      then mark_expert wallet
          (then_get (then_get param (j.member (codes "expert_vram_mb"))) j.as_u64) audits
      else audits

  abbrev pub take_capabilities : Option Text → Option V → Session V S → Session V S
  take_capabilities none param s = s
  take_capabilities (some wallet) param s = record s { engines = announce wallet param s.engines }

  abbrev pub await_authorization : Option Text → Session V S → Session V S
  await_authorization none s = s
  await_authorization (some addr_raw) s = record s { pending = some (wallet_only addr_raw) }

  -- The arms of the `match`.
  abbrev pub handle_method : Text → Option V → Method → Session V S → Session V S
  handle_method line value submit_result s =
      reply_to (codes "malformed opoi.submit_result") h.on_submit_result
        (acks_submission (message_id j value)) (refuses_submission (message_id j value))
        (then_get (first_param j value) j.to_submit_result) s.confirmed s
  handle_method line value shard_result s =
      reply_to (codes "malformed opoi.shard_result") h.on_shard_result
        (λ _. acks_shard_result (message_id j value)) (refuses_shard_result (message_id j value))
        (then_get (first_param j value) j.to_shard_result) s.confirmed s
  handle_method line value audit_result s =
      reply_to (codes "malformed opoi.audit_result") h.on_audit_result
        (λ _. acks_audit_result (message_id j value)) (refuses_audit_result (message_id j value))
        (then_get (first_param j value) j.to_audit_result) s.confirmed s
  handle_method line value expert_result s =
      reply_to (codes "malformed opoi.expert_result") h.on_expert_result
        (λ _. acks_expert_result (message_id j value)) (refuses_expert_result (message_id j value))
        (then_get (first_param j value) j.to_expert_result) s.confirmed s
  handle_method line value draft_result s =
      notify h.on_draft_result (then_get (first_param j value) j.to_draft_result) s.confirmed s
  handle_method line value kv_rollback_ack s =
      notify h.on_kv_rollback_ack (then_get (first_param j value) j.to_kv_rollback_ack) s.confirmed
        s
  handle_method line value capabilities s = take_capabilities s.confirmed (first_param j value) s
  handle_method line value authorize s =
      send_up line (await_authorization (then_get (first_param j value) j.as_text) s)
  handle_method line value other s = send_up line s

  abbrev pub handle_parsed : Text → Option Text → Option V → Session V S → Session V S
  handle_parsed line none value s = send_up line s
  handle_parsed line (some method) value s = handle_method line value (method_kind method) s

  -- A line of the miner.
  unfoldable pub down_line : Text → Session V S → Session V S
  down_line line s = handle_parsed line (method_of j (j.parse line)) (j.parse line) s

  abbrev pub confirm : Option Text → Session V S → Session V S
  confirm none s = s
  confirm (some wallet) s = record s {
    pending = none;
    confirmed = some wallet;
    engines = h.on_registry (register wallet s.down_tx) s.engines;
  }

  -- A line of the pool.
  unfoldable pub up_line : Text → Session V S → Session V S
  up_line line s =
      let value = j.parse line in
      if is_opoi j (method_of j value)
      then s
      else send_down (relays line)
          (if is_authorize_response j value then confirm s.pending s else s)

  abbrev pub release : Text → S → S
  release wallet engines = h.expert_on_disconnect wallet (
      h.audit_on_disconnect wallet (
        h.speculative_on_disconnect wallet (
          h.shard_on_disconnect wallet
            (h.opoi_on_disconnect wallet (h.on_registry (unregister wallet) engines)))))

  abbrev pub end_session : Option Text → Session V S → Session V S
  end_session none s = s
  end_session (some wallet) s = record s { engines = release wallet s.engines }

-- A line of either side, in the order in which the readers take them.
pub data Line : Type 0 where
  from_miner : Text → Line
  from_pool : Text → Line

module _ {V S : Type 0} (j : Json V) (h : Handlers S) where
  abbrev pub read_line : Line → Session V S → Session V S
  read_line (from_miner line) s = down_line j h line s
  read_line (from_pool line) s = up_line j h line s

  abbrev pub read_lines : List Line → Session V S → Session V S
  read_lines [] s = s
  read_lines (l ∷ ls) s = read_lines ls (read_line l s)

  -- The lines until a reader ends, then the disconnect.
  unfoldable pub run_session : List Line → Session V S → Session V S
  run_session lines s = let s' : Session V S = read_lines lines s in end_session j h s'.confirmed s'
