-- ===== src/Speculative/Dispatch.antt =====
-- What src/opoi/speculative_engine.rs sends to the miners: `start_pipeline`, `dispatch_shard_step`,
-- `dispatch_draft` and `retry_stalled_tick`. A handler is one step. An index out of range ends the
-- handler with a panic; dispatching is the last that a handler does.
use cs_stratum_bridge.Base.{
  ℕ, ◌-◌, ◌^◌, ◌==◌, leb, if◌then◌else◌, Text, text_key, Map, lookup, insert, contains_key, is_some,
  Bool, true, false, not, ◌&&◌, Option, none, some, List, [], ◌∷◌, get_elem?,
}
use Prim.Native.Nat.{max}
use cs_stratum_bridge.Registry.{MinerRegistry, Sender, get, pick_next, pick_draft_capable}
use cs_stratum_bridge.Wire.{
  ShardInputWire, prompt, OpoiShardAssign, OpoiDraftGenerate, DraftInputWire,
}
use cs_stratum_bridge.Wire
use cs_stratum_bridge.Rpc.{ModelManifest, ShardDescriptor}
use cs_stratum_bridge.Speculative.Pipeline.{
  ModelSource, Phase, prompt_processing, awaiting_draft, verifying, awaiting_rollback, SpecPipeline,
  sends_shard_assign, sends_draft_generate, SpeculativeEngine, emit,
}

unfoldable pub is_eligible : Text → SpeculativeEngine → Bool
is_eligible model e =
    contains_key model e.draft_sources && is_some (pick_draft_capable none e.registry)

unfoldable pub has_pipeline : Text → SpeculativeEngine → Bool
has_pipeline request e = contains_key request e.pipelines

-- `unwrap_or(0)`.
abbrev pub or_zero : Option ℕ → ℕ
or_zero none = 0
or_zero (some n) = n

-- `then_some`.
abbrev pub then_some : Bool → Text → Option Text
then_some b t = if b then some t else none

-- The position, the input and whether the prompt is processed, if the phase relays through shards.
abbrev pub relay : Phase → Option (ℕ × ShardInputWire × Bool)
relay (prompt_processing pos input) = some (pos, input, true)
relay (verifying pos input _) = some (pos, input, false)
relay awaiting_draft = none
relay (awaiting_rollback _) = none

abbrev pub shard_assign :
    Text → SpecPipeline → ShardDescriptor → ℕ → ShardInputWire → Bool → OpoiShardAssign
shard_assign request p shard pos input is_prompt_processing =
    let is_entry = pos == 0 in
    record {
      request_id = request;
      model_id = p.manifest.model_id;
      shard_index = shard.shard_index;
      layer_start = or_zero shard.layer_start;
      layer_end = or_zero shard.layer_end;
      total_layers = p.manifest.num_layers;
      token_index = 0;
      max_tokens = 2 ^ 32 - 1;
      input = input;
      model_gguf_url = p.source.gguf_url;
      model_gguf_sha256 = p.manifest.backbone_pom_root;
      model_tokenizer_url = then_some (is_entry && is_prompt_processing) p.source.tokenizer_url;
      model_tokenizer_sha256 =
          then_some (is_entry && is_prompt_processing) p.source.tokenizer_sha256;
      moe_layer_step = none;
    }

-- A wallet has been picked, and is now the last.
abbrev pub assign_shard :
    Text → ShardDescriptor → OpoiShardAssign → Text → SpeculativeEngine → SpeculativeEngine
assign_shard request shard message wallet e = elim (get wallet e.registry) [
  | none ↦ e
  | some tx ↦ emit (sends_shard_assign tx message) (record e {
    shard_assignments =
        insert request (record { wallet = wallet; shard_index = shard.shard_index })
          e.shard_assignments;
  })
]

abbrev pub dispatch_relay :
    Text → SpecPipeline → Option (ℕ × ShardInputWire × Bool) → SpeculativeEngine → SpeculativeEngine
dispatch_relay request p none e = e
dispatch_relay request p (some (pos, input, is_prompt_processing)) e =
    elim (get_elem? p.shards pos) [
      | none ↦ e
      | some shard ↦ elim (pick_next e.last_shard_wallet e.registry) [
        | none ↦ e
        | some wallet ↦
            assign_shard request shard (shard_assign request p shard pos input is_prompt_processing)
              wallet (record e { last_shard_wallet = some wallet })
      ]
    ]

unfoldable pub dispatch_shard_step : Text → SpeculativeEngine → SpeculativeEngine
dispatch_shard_step request e = elim (lookup request e.pipelines) [
  | none ↦ e
  | some p ↦ dispatch_relay request p (relay p.phase) e
]

-- `sort_by_key(|s| s.shard_index)`, which is stable.
abbrev pub insert_shard : ShardDescriptor → List ShardDescriptor → List ShardDescriptor
insert_shard s [] = s ∷ []
insert_shard s (t ∷ ts) =
    let rest = insert_shard s ts in if leb s.shard_index t.shard_index then s ∷ t ∷ ts else t ∷ rest

abbrev pub sort_shards : List ShardDescriptor → List ShardDescriptor
sort_shards [] = []
sort_shards (s ∷ ss) = insert_shard s (sort_shards ss)

unfoldable pub start_pipeline :
    Text
    → ModelManifest
    → List ShardDescriptor
    → ℕ
    → Text
    → Text
    → ModelSource
    → SpeculativeEngine
    → SpeculativeEngine
start_pipeline request manifest shards max_tokens prompt_hex prompt_hash source e =
    elim (lookup manifest.model_id e.draft_sources) [
      | none ↦ e
      | some draft_source ↦ dispatch_shard_step request (record e {
        pipelines =
            insert request
              (record {
                shards = sort_shards shards;
                manifest = manifest;
                source = source;
                draft_source = draft_source;
                max_tokens = max_tokens;
                prompt_hash = prompt_hash;
                prompt_hex = prompt_hex;
                draft_wallet = none;
                base = 0;
                carry = none;
                expected0 = 0;
                k = 4;
                round = 0;
                phase = prompt_processing 0 (prompt prompt_hex);
                generated_token_ids = [];
                contributions = [];
              })
              e.pipelines;
      })
    ]

abbrev pub is_awaiting_draft : Phase → Bool
is_awaiting_draft awaiting_draft = true
is_awaiting_draft (prompt_processing _ _) = false
is_awaiting_draft (verifying _ _ _) = false
is_awaiting_draft (awaiting_rollback _) = false

-- The pinned wallet while it is connected, and otherwise any that drafts.
abbrev pub pick_drafter : Option Text → MinerRegistry → Option Text
pick_drafter none r = pick_draft_capable none r
pick_drafter (some w) r = if is_some (get w r) then some w else pick_draft_capable none r

abbrev pub draft_len : Option ℕ → ℕ → ℕ
draft_len none k = k
draft_len (some _) k = max (k - 1) 1

abbrev pub draft_input : Option ℕ → Text → DraftInputWire
draft_input none prompt_hex = Wire.DraftInputWire.prompt prompt_hex
draft_input (some c) prompt_hex = Wire.DraftInputWire.next_token_id c

abbrev pub draft_generate : Text → SpecPipeline → OpoiDraftGenerate
draft_generate request p = record {
  request_id = request;
  model_id = p.draft_source.draft_model_id;
  total_layers = p.draft_source.draft_total_layers;
  k = draft_len p.carry p.k;
  input = draft_input p.carry p.prompt_hex;
  model_gguf_url = p.draft_source.draft_gguf_url;
  model_gguf_sha256 = p.draft_source.draft_gguf_sha256;
  model_tokenizer_url = then_some (p.round == 0) p.draft_source.draft_tokenizer_url;
  model_tokenizer_sha256 = then_some (p.round == 0) p.draft_source.draft_tokenizer_sha256;
}

abbrev pub send_draft :
    Text → SpecPipeline → Text → Option Sender → SpeculativeEngine → SpeculativeEngine
send_draft request p wallet none e = e
send_draft request p wallet (some tx) e =
    emit (sends_draft_generate tx (draft_generate request p))
      (record e { draft_assignments = insert request wallet e.draft_assignments })

-- The wallet is pinned first.
abbrev pub draft_by : Text → SpecPipeline → Text → SpeculativeEngine → SpeculativeEngine
draft_by request p wallet e =
    send_draft request p wallet (get wallet e.registry) (record e {
      pipelines = insert request (record p { draft_wallet = some wallet }) e.pipelines;
    })

-- With the wallet that was found, if any.
abbrev pub draft_with : Text → SpecPipeline → Option Text → SpeculativeEngine → SpeculativeEngine
draft_with request p none e = e
draft_with request p (some wallet) e = draft_by request p wallet e

abbrev pub draft_for : Text → Option SpecPipeline → SpeculativeEngine → SpeculativeEngine
draft_for request none e = e
draft_for request (some p) e =
    if is_awaiting_draft p.phase
    then draft_with request p (pick_drafter p.draft_wallet e.registry) e
    else e

unfoldable pub dispatch_draft : Text → SpeculativeEngine → SpeculativeEngine
dispatch_draft request e = draft_for request (lookup request e.pipelines) e

-- The requests whose pipeline passes a test.
abbrev pub requests : (Text → SpecPipeline → Bool) → Map Text SpecPipeline → List Text
requests t [] = []
requests t ((request, p) ∷ m) =
    let rest = requests t m in if t request p then request ∷ rest else rest

abbrev pub each :
    (Text → SpeculativeEngine → SpeculativeEngine)
    → List Text
    → SpeculativeEngine
    → SpeculativeEngine
each f [] e = e
each f (request ∷ rs) e = each f rs (f request e)

abbrev pub retry_drafts : SpeculativeEngine → SpeculativeEngine
retry_drafts e =
    each dispatch_draft
      (requests
        (λ request p. is_awaiting_draft p.phase && not (contains_key request e.draft_assignments))
        e.pipelines)
      e

unfoldable pub retry_stalled_tick : SpeculativeEngine → SpeculativeEngine
retry_stalled_tick e = retry_drafts (
    each dispatch_shard_step
      (requests
        (λ request p. is_some (relay p.phase) && not (contains_key request e.shard_assignments))
        e.pipelines)
      e)
