-- ===== src/Speculative/Lines.antt =====
-- What `begin_rollback` and `dispatch_draft` of src/opoi/speculative_engine.rs send.
use cs_stratum_bridge.Base.{
  ℕ, ◌%◌, ◌^◌, ◌≡◌, refl, ap, sym, subst, ◌∙◌, if◌then◌else◌, Text, text_key, lookup, Bool, false,
  Option, none, some, List, [], ◌∷◌, ◌++◌, append_assoc, append-nil,
}
use cs_stratum_bridge.Registry.{MinerRegistry, Sender, get, pick_next}
use cs_stratum_bridge.Wire.{OpoiDraftGenerate, draft_session_shard_index}
use cs_stratum_bridge.Rpc.{ShardDescriptor}
use cs_stratum_bridge.Speculative.Round.{RoundOutcome}
use cs_stratum_bridge.Speculative.Pipeline.{
  Phase, awaiting_draft, SpecPipeline, Effect, sends_kv_rollback, sends_draft_generate,
  SpeculativeEngine, emit,
}
use cs_stratum_bridge.Speculative.Dispatch.{
  dispatch_draft, draft_for, draft_with, send_draft, draft_generate, pick_drafter,
  is_awaiting_draft,
}
use cs_stratum_bridge.Speculative.Rollback.{
  begin_rollback, await_rollback, roll_shards, send_rollback, rollback,
}

-- The channel of a wallet, if there is one.
abbrev pub channel : Option Text → MinerRegistry → Option Sender
channel none r = none
channel (some w) r = get w r

-- One line to a channel, if there is one, that a cache is to be cut at a position.
abbrev pub cut : Option Sender → Text → ℕ → ℕ → Bool → List Effect
cut none request shard keep finalize = []
cut (some tx) request shard keep finalize =
    sends_kv_rollback tx (record {
      request_id = request;
      shard_index = shard;
      keep_until_pos = keep;
      finalize = finalize;
    })
    ∷ []

-- One line for each shard, in their order.
abbrev pub cut_shards : Option Sender → Text → List ShardDescriptor → ℕ → Bool → List Effect
cut_shards tx request [] keep finalize = []
cut_shards tx request (s ∷ ss) keep finalize =
    cut tx request s.shard_index keep finalize ++ cut_shards tx request ss keep finalize

-- The lines of a rollback: to the miner that is next in turn for every shard, and to the drafter, whose
-- session is never finalized.
abbrev pub cut_all : Text → SpecPipeline → ℕ → Bool → SpeculativeEngine → List Effect
cut_all request p keep finalize e =
    cut_shards (channel (pick_next e.last_shard_wallet e.registry) e.registry) request p.shards keep
      finalize
    ++ cut (channel p.draft_wallet e.registry) request draft_session_shard_index keep false

abbrev with_lines : SpeculativeEngine → List Effect → SpeculativeEngine
with_lines e lines = record e { effects = e.effects ++ lines }

send_rollback-lines :
    (o : Option Text) (tx : Option Sender) (request : Text) (shard keep : ℕ) (f : Bool)
    (e : SpeculativeEngine)
    → channel o e.registry ≡ tx
    → send_rollback o (rollback request shard keep f) e
      ≡ with_lines e (cut tx request shard (keep % 2 ^ 32) f)
send_rollback-lines none tx request shard keep f e found =
    subst (λ (t : Option Sender). e ≡ with_lines e (cut t request shard (keep % 2 ^ 32) f)) found
      (ap (λ (l : List Effect). record e { effects = l }) (sym (append-nil e.effects)))
send_rollback-lines (some w) none request shard keep f e found =
    subst
      (λ (t : Option Sender).
        elim t [
          | none ↦ e
          | some tx ↦ emit (sends_kv_rollback tx (rollback request shard keep f)) e
        ]
        ≡ with_lines e [])
      (sym found) (ap (λ (l : List Effect). record e { effects = l }) (sym (append-nil e.effects)))
send_rollback-lines (some w) (some tx) request shard keep f e found =
    ap
      (λ (t : Option Sender). elim t [
        | none ↦ e
        | some tx ↦ emit (sends_kv_rollback tx (rollback request shard keep f)) e
      ])
      found

roll_shards-lines :
    (request : Text) (ss : List ShardDescriptor) (keep : ℕ) (f : Bool) (tx : Option Sender)
    (e : SpeculativeEngine)
    → channel (pick_next e.last_shard_wallet e.registry) e.registry ≡ tx
    → roll_shards request ss keep f e ≡ with_lines e (cut_shards tx request ss (keep % 2 ^ 32) f)
roll_shards-lines request [] keep f tx e found =
    ap (λ (l : List Effect). record e { effects = l }) (sym (append-nil e.effects))
roll_shards-lines request (s ∷ ss) keep f tx e found =
    let line : List Effect = cut tx request s.shard_index (keep % 2 ^ 32) f in
    ap (roll_shards request ss keep f) (
      send_rollback-lines (pick_next e.last_shard_wallet e.registry) tx request s.shard_index keep f
        e found)
    ∙ (roll_shards-lines request ss keep f tx (with_lines e line) found
        ∙ ap (λ (l : List Effect). record e { effects = l })
            (append_assoc e.effects line (cut_shards tx request ss (keep % 2 ^ 32) f)))

pub begin_rollback-effects :
    (request : Text) (o : RoundOutcome) (keep k : ℕ) (f : Bool) (e : SpeculativeEngine)
    (p : SpecPipeline)
    → lookup request e.pipelines ≡ some p
    → (begin_rollback request o keep k f e).effects
      ≡ e.effects ++ cut_all request p (keep % 2 ^ 32) f e
unfolding begin_rollback
begin_rollback-effects request o keep k f e p here =
    let lines : List Effect =
      cut_shards (channel (pick_next e.last_shard_wallet e.registry) e.registry) request p.shards
        (keep % 2 ^ 32) f in
    let last : List Effect =
      cut (channel p.draft_wallet e.registry) request draft_session_shard_index (keep % 2 ^ 32)
        false in
    ap (λ (q : Option SpecPipeline). (await_rollback request o keep k f q e).effects) here
    ∙ (ap
          (λ (d : SpeculativeEngine).
            (send_rollback p.draft_wallet (rollback request draft_session_shard_index keep false)
              d).effects)
          (roll_shards-lines request p.shards keep f _ e refl)
        ∙ (ap (λ (d : SpeculativeEngine). d.effects)
              (send_rollback-lines p.draft_wallet _ request draft_session_shard_index keep false
                (with_lines e lines) refl)
            ∙ append_assoc e.effects lines last))

-- One line to a channel, if there is one, that asks for drafts.
abbrev pub ask : Option Sender → OpoiDraftGenerate → List Effect
ask none message = []
ask (some tx) message = sends_draft_generate tx message ∷ []

send_draft-effects :
    (request w : Text) (p : SpecPipeline) (tx : Option Sender) (e : SpeculativeEngine)
    → (send_draft request p w tx e).effects ≡ e.effects ++ ask tx (draft_generate request p)
send_draft-effects request w p none e = sym (append-nil e.effects)
send_draft-effects request w p (some tx) e = refl

draft_with-effects :
    (request : Text) (p : SpecPipeline) (o : Option Text) (e : SpeculativeEngine)
    → (draft_with request p o e).effects
      ≡ e.effects ++ ask (channel o e.registry) (draft_generate request p)
draft_with-effects request p none e = sym (append-nil e.effects)
draft_with-effects request p (some w) e = send_draft-effects request w p (get w e.registry) _

pub dispatch_draft-effects :
    (request : Text) (e : SpeculativeEngine) (p : SpecPipeline)
    → lookup request e.pipelines ≡ some p
    → p.phase ≡ awaiting_draft
    → (dispatch_draft request e).effects
      ≡ e.effects
        ++ ask
            (channel (pick_drafter p.draft_wallet e.registry) e.registry)
            (draft_generate request p)
unfolding dispatch_draft
dispatch_draft-effects request e p here waits =
    ap (λ (q : Option SpecPipeline). (draft_for request q e).effects) here
    ∙ (ap
          (λ (f : Phase).
            (if is_awaiting_draft f
              then draft_with request p (pick_drafter p.draft_wallet e.registry) e
              else e).effects)
          waits
        ∙ draft_with-effects request p (pick_drafter p.draft_wallet e.registry) e)
