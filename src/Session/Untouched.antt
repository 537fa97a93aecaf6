-- ===== src/Session/Untouched.antt =====
-- A connection that the pool has not authorized, in src/proxy/session.rs.
use cs_stratum_bridge.Base.{
  ℕ, ◌≡◌, refl, sym, subst, ◌∙◌, Text, codes, text_key, Bool, false, Bool-cases, inl, inr, Option,
  none, some, List, [], ◌∷◌, All,
}
use cs_stratum_bridge.AppError.{Result}
use cs_stratum_bridge.Session.{
  Method, submit_result, shard_result, audit_result, expert_result, draft_result, kv_rollback_ack,
  capabilities, authorize, other, method_kind, Json, Handlers, Down, Session, Line, from_miner,
  from_pool, reply_to, notify, take_capabilities, await_authorization, handle_method, handle_parsed,
  down_line, up_line, then_get, first_param, method_of, is_authorize_response, is_opoi, read_line,
  read_lines, run_session, end_session, message_id, acks_submission, acks_shard_result,
  acks_audit_result, acks_expert_result, refuses_submission, refuses_shard_result,
  refuses_audit_result, refuses_expert_result,
}

-- Whether the line is the pool's answer that authorizes.
abbrev pub authorizes : {V : Type 0} → Json V → Line → Bool
authorizes j (from_miner line) = false
authorizes j (from_pool line) = is_authorize_response j (j.parse line)

-- The engines are as they were, and nobody is confirmed.
abbrev pub Untouched : {V S : Type 0} → Session V S → Session V S → Type 0
Untouched s s' = (s'.engines ≡ s.engines) × (s'.confirmed ≡ none)

module _ {V S : Type 0} (j : Json V) (h : Handlers S) where
  reply_to-Untouched :
      {P R : Type 0} (malformed : Text) (handle : Text → P → S → Result R × S) (ack : R → Down V)
      (refuse : ℕ → Text → Down V) (parsed : Option P) (c : Option Text) (s : Session V S)
      → c ≡ none
      → s.confirmed ≡ none
      → Untouched s (reply_to j h malformed handle ack refuse parsed c s)
  reply_to-Untouched malformed handle ack refuse none c s e e' = (refl, e')
  reply_to-Untouched malformed handle ack refuse (some p) none s e e' = (refl, e')
  reply_to-Untouched malformed handle ack refuse (some p) (some w) s e e' = absurd (cc)

  notify-Untouched :
      {P : Type 0} (handle : Text → P → S → S) (parsed : Option P) (c : Option Text)
      (s : Session V S)
      → c ≡ none
      → s.confirmed ≡ none
      → Untouched s (notify j h handle parsed c s)
  notify-Untouched handle none c s e e' = (refl, e')
  notify-Untouched handle (some p) none s e e' = (refl, e')
  notify-Untouched handle (some p) (some w) s e e' = absurd (cc)

  take_capabilities-Untouched :
      (c : Option Text) (param : Option V) (s : Session V S)
      → c ≡ none
      → s.confirmed ≡ none
      → Untouched s (take_capabilities j h c param s)
  take_capabilities-Untouched none param s e e' = (refl, e')
  take_capabilities-Untouched (some w) param s e e' = absurd (cc)

  await_authorization-Untouched :
      (addr : Option Text) (s : Session V S)
      → s.confirmed ≡ none
      → Untouched s (await_authorization j h addr s)
  await_authorization-Untouched none s e = (refl, e)
  await_authorization-Untouched (some a) s e = (refl, e)

  handle_method-Untouched :
      (line : Text) (value : Option V) (m : Method) (s : Session V S)
      → s.confirmed ≡ none
      → Untouched s (handle_method j h line value m s)
  handle_method-Untouched line value submit_result s e =
      reply_to-Untouched (codes "malformed opoi.submit_result") h.on_submit_result
        (acks_submission (message_id j value)) (refuses_submission (message_id j value))
        (then_get (first_param j value) j.to_submit_result) s.confirmed s e e
  handle_method-Untouched line value shard_result s e =
      reply_to-Untouched (codes "malformed opoi.shard_result") h.on_shard_result
        (λ _. acks_shard_result (message_id j value)) (refuses_shard_result (message_id j value))
        (then_get (first_param j value) j.to_shard_result) s.confirmed s e e
  handle_method-Untouched line value audit_result s e =
      reply_to-Untouched (codes "malformed opoi.audit_result") h.on_audit_result
        (λ _. acks_audit_result (message_id j value)) (refuses_audit_result (message_id j value))
        (then_get (first_param j value) j.to_audit_result) s.confirmed s e e
  handle_method-Untouched line value expert_result s e =
      reply_to-Untouched (codes "malformed opoi.expert_result") h.on_expert_result
        (λ _. acks_expert_result (message_id j value)) (refuses_expert_result (message_id j value))
        (then_get (first_param j value) j.to_expert_result) s.confirmed s e e
  handle_method-Untouched line value draft_result s e =
      notify-Untouched h.on_draft_result (then_get (first_param j value) j.to_draft_result)
        s.confirmed s e e
  handle_method-Untouched line value kv_rollback_ack s e =
      notify-Untouched h.on_kv_rollback_ack (then_get (first_param j value) j.to_kv_rollback_ack)
        s.confirmed s e e
  handle_method-Untouched line value capabilities s e =
      take_capabilities-Untouched s.confirmed (first_param j value) s e e
  handle_method-Untouched line value authorize s e =
      await_authorization-Untouched (then_get (first_param j value) j.as_text) s e
  handle_method-Untouched line value other s e = (refl, e)

  handle_parsed-Untouched :
      (line : Text) (method : Option Text) (value : Option V) (s : Session V S)
      → s.confirmed ≡ none
      → Untouched s (handle_parsed j h line method value s)
  handle_parsed-Untouched line none value s e = (refl, e)
  handle_parsed-Untouched line (some m) value s e =
      handle_method-Untouched line value (method_kind m) s e

  read_line-Untouched :
      (l : Line) (s : Session V S)
      → s.confirmed ≡ none
      → authorizes j l ≡ false
      → Untouched s (read_line j h l s)
  unfolding down_line up_line
  read_line-Untouched (from_miner line) s e never =
      handle_parsed-Untouched line (method_of j (j.parse line)) (j.parse line) s e
  read_line-Untouched (from_pool line) s e never =
      elim (Bool-cases (is_opoi j (method_of j (j.parse line)))) [
        | inl its ↦ rw its (refl, e)
        | inr plain ↦ rw (plain, never) (refl, e)
      ]

  read_lines-Untouched :
      (ls : List Line) (s : Session V S)
      → s.confirmed ≡ none
      → All (λ l. authorizes j l ≡ false) ls
      → Untouched s (read_lines j h ls s)
  read_lines-Untouched [] s e others = (refl, e)
  read_lines-Untouched (l ∷ ls) s e (never, others) =
      let (engines, confirmed) = read_line-Untouched l s e never in
      let (engines', confirmed') = read_lines-Untouched ls (read_line j h l s) confirmed others in
      (engines' ∙ engines, confirmed')

  -- A connection that the pool has not authorized calls no handler and changes nothing in the engines and
  -- in the registry, whatever its miner sends, up to its end, the disconnect included: provided that it
  -- begins without an authorization.
  pub run_session-Untouched :
      (ls : List Line) (s : Session V S)
      → s.confirmed ≡ none
      → All (λ l. authorizes j l ≡ false) ls
      → (run_session j h ls s).engines ≡ s.engines
  unfolding run_session
  run_session-Untouched ls s e others =
      let (engines, confirmed) = read_lines-Untouched ls s e others in
      subst (λ c. (end_session j h c (read_lines j h ls s)).engines ≡ s.engines) (sym confirmed)
        engines
