-- ===== src/Session/Relay.antt =====
-- What src/proxy/session.rs relays between a miner and the pool.
use cs_stratum_bridge.Base.{
  ℕ, ◌≡◌, refl, sym, ap, ◌∙◌, if◌then◌else◌, Text, codes, text_key, Bool, true, false, Bool-cases,
  inl, inr, Option, none, some, List, [], ◌∷◌, ◌++◌, append-nil, append_assoc,
}
use cs_stratum_bridge.AppError.{Result, ok, err}
use cs_stratum_bridge.Session.{
  Method, submit_result, shard_result, audit_result, expert_result, draft_result, kv_rollback_ack,
  capabilities, authorize, other, method_kind, Json, Handlers, Down, relays, acks_submission,
  acks_shard_result, acks_audit_result, acks_expert_result, refuses_submission,
  refuses_shard_result, refuses_audit_result, refuses_expert_result, Session, Line, from_miner,
  from_pool, settle_reply, reply_to, notify, take_capabilities, await_authorization, send_up,
  handle_method, handle_parsed, down_line, up_line, confirm, then_get, first_param, method_of,
  message_id, is_authorize_response, is_opoi, read_lines, run_session, end_session,
}

-- The messages that the bridge keeps to itself.
abbrev pub is_kept : Option Text → Bool
is_kept none = false
is_kept (some method) = elim (method_kind method) [ authorize ↦ false | other ↦ false | _ ↦ true ]

abbrev pub line_of : Bool → Text → List Text
line_of true line = []
line_of false line = line ∷ []

module _ {V : Type 0} (j : Json V) where
  -- What goes to the pool, and what of the pool goes to the miner.
  abbrev pub to_pool : List Line → List Text
  to_pool [] = []
  to_pool (from_miner line ∷ ls) = line_of (is_kept (method_of j (j.parse line))) line ++ to_pool ls
  to_pool (from_pool line ∷ ls) = to_pool ls

  abbrev pub to_miner : List Line → List Text
  to_miner [] = []
  to_miner (from_miner line ∷ ls) = to_miner ls
  to_miner (from_pool line ∷ ls) =
      line_of (is_opoi j (method_of j (j.parse line))) line ++ to_miner ls

abbrev pub relayed_line : {V : Type 0} → Down V → List Text
relayed_line (relays line) = line ∷ []
relayed_line (acks_submission _ _) = []
relayed_line (acks_shard_result _) = []
relayed_line (acks_audit_result _) = []
relayed_line (acks_expert_result _) = []
relayed_line (refuses_submission _ _ _) = []
relayed_line (refuses_shard_result _ _ _) = []
relayed_line (refuses_audit_result _ _ _) = []
relayed_line (refuses_expert_result _ _ _) = []

-- Without the bridge's own answers.
abbrev pub relayed : {V : Type 0} → List (Down V) → List Text
relayed [] = []
relayed (d ∷ ds) = relayed_line d ++ relayed ds

relayed-append :
    {V : Type 0} (ds es : List (Down V)) → relayed (ds ++ es) ≡ relayed ds ++ relayed es
relayed-append [] es = refl
relayed-append (d ∷ ds) es =
    ap (λ ls. relayed_line d ++ ls) (relayed-append ds es)
    ∙ sym (append_assoc (relayed_line d) (relayed ds) (relayed es))

-- The lines that have been added on both sides.
abbrev pub Relays : {V S : Type 0} → List Text → List Text → Session V S → Session V S → Type 0
Relays up down s s' = (s'.up ≡ s.up ++ up) × (relayed s'.down ≡ relayed s.down ++ down)

module _ {V S : Type 0} (j : Json V) (h : Handlers S) where
  same : (s : Session V S) → Relays [] [] s s
  same s = (sym (append-nil s.up), sym (append-nil (relayed s.down)))

  -- An answer of the bridge's own.
  answers :
      (d : Down V) (s : Session V S)
      → relayed_line d ≡ []
      → relayed (s.down ++ d ∷ []) ≡ relayed s.down ++ []
  answers d s own = relayed-append s.down (d ∷ []) ∙ ap (λ ls. relayed s.down ++ (ls ++ [])) own

  settle_reply-Relays :
      {R : Type 0} (ack : R → Down V) (refuse : ℕ → Text → Down V) (r : Result R) (engines : S)
      (s : Session V S)
      → ((x : R) → relayed_line (ack x) ≡ [])
      → ((n : ℕ) (t : Text) → relayed_line (refuse n t) ≡ [])
      → Relays [] [] s (settle_reply j h ack refuse (r, engines) s)
  settle_reply-Relays ack refuse (ok x) engines s own own' =
      (sym (append-nil s.up), answers (ack x) s (own x))
  settle_reply-Relays ack refuse (err x) engines s own own' =
      (sym (append-nil s.up), answers (refuse _ _) s (own' _ _))

  reply_to-Relays :
      {P R : Type 0} (malformed : Text) (handle : Text → P → S → Result R × S) (ack : R → Down V)
      (refuse : ℕ → Text → Down V) (parsed : Option P) (c : Option Text) (s : Session V S)
      → ((x : R) → relayed_line (ack x) ≡ [])
      → ((n : ℕ) (t : Text) → relayed_line (refuse n t) ≡ [])
      → Relays [] [] s (reply_to j h malformed handle ack refuse parsed c s)
  reply_to-Relays malformed handle ack refuse none c s own own' =
      (sym (append-nil s.up), answers (refuse _ _) s (own' _ _))
  reply_to-Relays malformed handle ack refuse (some p) none s own own' =
      (sym (append-nil s.up), answers (refuse _ _) s (own' _ _))
  reply_to-Relays malformed handle ack refuse (some p) (some w) s own own' =
      let (r, engines) = handle w p s.engines in settle_reply-Relays ack refuse r engines s own own'

  notify-Relays :
      {P : Type 0} (handle : Text → P → S → S) (parsed : Option P) (c : Option Text)
      (s : Session V S)
      → Relays [] [] s (notify j h handle parsed c s)
  notify-Relays handle none c s = same s
  notify-Relays handle (some p) none s = same s
  notify-Relays handle (some p) (some w) s = same s

  take_capabilities-Relays :
      (c : Option Text) (param : Option V) (s : Session V S)
      → Relays [] [] s (take_capabilities j h c param s)
  take_capabilities-Relays none param s = same s
  take_capabilities-Relays (some w) param s = same s

  authorize-Relays :
      (line : Text) (addr : Option Text) (s : Session V S)
      → Relays (line ∷ []) [] s (send_up line (await_authorization j h addr s))
  authorize-Relays line none s = (refl, sym (append-nil (relayed s.down)))
  authorize-Relays line (some a) s = (refl, sym (append-nil (relayed s.down)))

  handle_method-Relays :
      (line : Text) (value : Option V) (m : Method) (s : Session V S)
      → Relays
          (line_of (elim m [ authorize ↦ false | other ↦ false | _ ↦ true ]) line)
          []
          s
          (handle_method j h line value m s)
  handle_method-Relays line value submit_result s =
      reply_to-Relays (codes "malformed opoi.submit_result") h.on_submit_result
        (acks_submission (message_id j value)) (refuses_submission (message_id j value))
        (then_get (first_param j value) j.to_submit_result) s.confirmed s (λ x. refl) (λ n t. refl)
  handle_method-Relays line value shard_result s =
      reply_to-Relays (codes "malformed opoi.shard_result") h.on_shard_result
        (λ _. acks_shard_result (message_id j value)) (refuses_shard_result (message_id j value))
        (then_get (first_param j value) j.to_shard_result) s.confirmed s (λ x. refl) (λ n t. refl)
  handle_method-Relays line value audit_result s =
      reply_to-Relays (codes "malformed opoi.audit_result") h.on_audit_result
        (λ _. acks_audit_result (message_id j value)) (refuses_audit_result (message_id j value))
        (then_get (first_param j value) j.to_audit_result) s.confirmed s (λ x. refl) (λ n t. refl)
  handle_method-Relays line value expert_result s =
      reply_to-Relays (codes "malformed opoi.expert_result") h.on_expert_result
        (λ _. acks_expert_result (message_id j value)) (refuses_expert_result (message_id j value))
        (then_get (first_param j value) j.to_expert_result) s.confirmed s (λ x. refl) (λ n t. refl)
  handle_method-Relays line value draft_result s =
      notify-Relays h.on_draft_result (then_get (first_param j value) j.to_draft_result) s.confirmed
        s
  handle_method-Relays line value kv_rollback_ack s =
      notify-Relays h.on_kv_rollback_ack (then_get (first_param j value) j.to_kv_rollback_ack)
        s.confirmed s
  handle_method-Relays line value capabilities s =
      take_capabilities-Relays s.confirmed (first_param j value) s
  handle_method-Relays line value authorize s =
      authorize-Relays line (then_get (first_param j value) j.as_text) s
  handle_method-Relays line value other s = (refl, sym (append-nil (relayed s.down)))

  handle_parsed-Relays :
      (line : Text) (method : Option Text) (value : Option V) (s : Session V S)
      → Relays (line_of (is_kept method) line) [] s (handle_parsed j h line method value s)
  handle_parsed-Relays line none value s = (refl, sym (append-nil (relayed s.down)))
  handle_parsed-Relays line (some m) value s = handle_method-Relays line value (method_kind m) s

  confirm-found :
      (c : Option Text) (s : Session V S)
      → ((confirm j h c s).up ≡ s.up) × ((confirm j h c s).down ≡ s.down)
  confirm-found none s = (refl, refl)
  confirm-found (some w) s = (refl, refl)

  confirm-same :
      (b : Bool) (s : Session V S)
      → let s' = (if b then confirm j h s.pending s else s) in (s'.up ≡ s.up) × (s'.down ≡ s.down)
  confirm-same false s = (refl, refl)
  confirm-same true s = confirm-found s.pending s

  up_line-Relays :
      (line : Text) (s : Session V S)
      → Relays [] (line_of (is_opoi j (method_of j (j.parse line))) line) s (up_line j h line s)
  unfolding up_line
  up_line-Relays line s = elim (Bool-cases (is_opoi j (method_of j (j.parse line)))) [
    | inl its ↦ rw its (same s)
    | inr plain ↦
        let b : Bool = is_authorize_response j (j.parse line) in
        let s' : Session V S = if b then confirm j h s.pending s else s in
        let (up, down) = confirm-same b s in
        rw plain (
          (
            up ∙ sym (append-nil s.up),
            relayed-append s'.down (relays line ∷ []) ∙ ap (λ ds. relayed ds ++ line ∷ []) down,
          ))
  ]

  Relays-trans :
      (up down up' down' : List Text) (s s' s'' : Session V S)
      → Relays up down s s'
      → Relays up' down' s' s''
      → Relays (up ++ up') (down ++ down') s s''
  Relays-trans up down up' down' s s' s'' (u, d) (u', d') = (
    u' ∙ (ap (λ ls. ls ++ up') u ∙ append_assoc s.up up up'),
    d' ∙ (ap (λ ls. ls ++ down') d ∙ append_assoc (relayed s.down) down down'),
  )

  read_lines-Relays :
      (ls : List Line) (s : Session V S)
      → Relays (to_pool j ls) (to_miner j ls) s (read_lines j h ls s)
  unfolding down_line
  read_lines-Relays [] s = same s
  read_lines-Relays (from_miner line ∷ ls) s =
      let s' = down_line j h line s in
      Relays-trans (line_of (is_kept (method_of j (j.parse line))) line) [] (to_pool j ls)
        (to_miner j ls) s s' (read_lines j h ls s')
        (handle_parsed-Relays line (method_of j (j.parse line)) (j.parse line) s)
        (read_lines-Relays ls s')
  read_lines-Relays (from_pool line ∷ ls) s =
      let s' = up_line j h line s in
      Relays-trans [] (line_of (is_opoi j (method_of j (j.parse line))) line) (to_pool j ls)
        (to_miner j ls) s s' (read_lines j h ls s') (up_line-Relays line s)
        (read_lines-Relays ls s')

  end_session-Relays :
      (c : Option Text) (up down : List Text) (s s' : Session V S)
      → Relays up down s s'
      → Relays up down s (end_session j h c s')
  end_session-Relays none up down s s' relayed = relayed
  end_session-Relays (some w) up down s s' relayed = relayed

  -- The pool gets exactly the lines of the miner that are not one of the seven messages of OPoI, and the
  -- miner gets, besides the bridge's own answers, exactly the lines of the pool whose method does not begin
  -- with `opoi.`; each unchanged, once, and in order.
  pub run_session-Relays :
      (ls : List Line) (s : Session V S)
      → Relays (to_pool j ls) (to_miner j ls) s (run_session j h ls s)
  unfolding run_session
  run_session-Relays ls s =
      let s' = read_lines j h ls s in
      end_session-Relays s'.confirmed (to_pool j ls) (to_miner j ls) s s' (read_lines-Relays ls s)
