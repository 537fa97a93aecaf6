-- ===== src/Experts/Dispatch.antt =====
-- src/opoi/expert_dispatch.rs: one dispatch, its retries, and the whole group, `dispatch_and_join`.
use cs_stratum_bridge.Base.{
  ℕ, zero, suc, ltb, leb, ◌||◌, if◌then◌else◌, Text, text_key, lookup, insert, remove, Bool, true,
  false, Option, none, some, List, [], ◌∷◌, ◌++◌, map,
}
use cs_stratum_bridge.Wire.{ShardOutputWire, tensor, OpoiExpertAssign, OpoiExpertResult}
use cs_stratum_bridge.Registry.{MinerRegistry, Sender, get, pick_expert_host}
use cs_stratum_bridge.Registry.Invariant.{Call, step}
use cs_stratum_bridge.Experts.{
  ExpertAssignmentKey, expert_key, SelectedExpert, ExpertDispatcher, handle_expert_result,
  on_disconnect,
}
use cs_stratum_bridge.Experts.Combine.{
  F32, no_experts, outside_range, no_eligible_host, no_remaining_host, exhausted, not_connected,
  closed, dropped, timed_out, Tried, done, failure, f32_to_le_bytes, f32_to_hex, combine_weighted,
}

-- What a group of dispatches has in common.
pub record Group : Type 0 where
  pub request_id : Text
  pub layer_start : ℕ
  pub layer_end : ℕ
  pub layer_idx : ℕ
  pub token_index : ℕ
  pub model_id : Text
  pub model_gguf_url : Text
  pub model_gguf_sha256 : Text

-- What happens while a dispatch waits: the handlers, the registry, and the other dispatches.
pub data Meanwhile : Type 0 where
  expert_result : Text → OpoiExpertResult → Meanwhile
  disconnect : Text → Meanwhile
  registry_call : Call → Meanwhile
  begins : ExpertAssignmentKey → Text → Meanwhile
  ends : ExpertAssignmentKey → Meanwhile

-- The surroundings, with a state of their own. `send` tells whether the channel is open.
pub record Host (W : Type 0) : Type 0 where
  pub f32 : F32
  pub hex_encode : List ℕ → Text
  pub hex_decode : Text → Option (List ℕ)
  pub sha256 : List ℕ → List ℕ
  pub send : Sender → OpoiExpertAssign → W → Bool × W
  pub meanwhile : ExpertAssignmentKey → W → List Meanwhile × W

-- Both maps forget a dispatch.
abbrev pub end_dispatch : ExpertAssignmentKey → ExpertDispatcher → ExpertDispatcher
end_dispatch key d = record d {
  assignments = remove key d.assignments;
  pending = remove key d.pending;
}

-- A new channel for a dispatch.
abbrev pub begin_dispatch : ExpertAssignmentKey → Text → ExpertDispatcher → ExpertDispatcher
begin_dispatch key wallet d = record d {
  assignments = insert key wallet d.assignments;
  pending = insert key tt d.pending;
  recent = insert key wallet d.recent;
  answers = remove key d.answers;
}

abbrev pub handle_meanwhile : Meanwhile → ExpertDispatcher → ExpertDispatcher
handle_meanwhile (expert_result wallet result) d = (handle_expert_result wallet result d).1
handle_meanwhile (disconnect wallet) d = on_disconnect wallet d
handle_meanwhile (registry_call c) d = record d { registry = step d.registry c }
handle_meanwhile (begins key wallet) d = begin_dispatch key wallet d
handle_meanwhile (ends key) d = end_dispatch key d

abbrev pub handle_all : List Meanwhile → ExpertDispatcher → ExpertDispatcher
handle_all [] d = d
handle_all (e ∷ es) d = handle_all es (handle_meanwhile e d)

abbrev pub received_result : Text → Option (Option OpoiExpertResult) → Tried OpoiExpertResult
received_result wallet (some (some result)) = done result
received_result wallet (some none) = failure (dropped wallet)
received_result wallet none = failure (timed_out wallet)

abbrev pub expert_key_of : Group → SelectedExpert → ExpertAssignmentKey
expert_key_of g sel = record {
  request_id = g.request_id;
  layer_start = g.layer_start;
  layer_end = g.layer_end;
  layer_idx = g.layer_idx;
  expert_id = sel.expert_id;
}

-- A line is logged.
abbrev pub log_asked : Text → OpoiExpertAssign → ExpertDispatcher → ExpertDispatcher
log_asked wallet assign d = record d { asked = d.asked ++ (wallet, assign) ∷ [] }

-- The hosts of a group, one after another, and all wallets that are in use then.
abbrev pub Planned : Type 0
Planned = Tried (List (SelectedExpert × Text) × List Text)

abbrev pub with_host : SelectedExpert → Text → Planned → Planned
with_host sel wallet (done (planned, used)) = done ((sel, wallet) ∷ planned, used)
with_host sel wallet (failure e) = failure e

abbrev pub plan_rest : SelectedExpert → Option Text → (Text → Planned) → Planned
plan_rest sel none rest = failure (no_eligible_host sel.expert_id)
plan_rest sel (some wallet) rest = with_host sel wallet (rest wallet)

unfoldable pub plan : MinerRegistry → (ℕ → ℕ) → List SelectedExpert → List Text → Planned
plan registry min_vram_mb_for [] used = done ([], used)
plan registry min_vram_mb_for (sel ∷ experts) used =
    plan_rest sel (pick_expert_host (min_vram_mb_for sel.expert_id) used registry)
      (λ wallet. plan registry min_vram_mb_for experts (used ++ wallet ∷ []))

abbrev pub max_retries_per_expert : ℕ
max_retries_per_expert = 2

module _ {W : Type 0} (host : Host W) where
  abbrev pub expert_assign : Group → SelectedExpert → OpoiExpertAssign
  expert_assign g sel = record {
    request_id = g.request_id;
    model_id = g.model_id;
    layer_start = g.layer_start;
    layer_end = g.layer_end;
    layer_idx = g.layer_idx;
    expert_id = sel.expert_id;
    token_index = g.token_index;
    input = tensor sel.shape (f32_to_hex host.hex_encode sel.values);
    input_hash = host.hex_encode (host.sha256 (f32_to_le_bytes sel.values));
    model_gguf_url = g.model_gguf_url;
    model_gguf_sha256 = g.model_gguf_sha256;
  }

  abbrev pub One : Type 0
  One = Tried OpoiExpertResult × ExpertDispatcher × W

  abbrev pub await_result : Text → ExpertAssignmentKey → ExpertDispatcher → List Meanwhile × W → One
  await_result wallet key d (events, w) =
      let d' : ExpertDispatcher = handle_all events d in
      (received_result wallet (lookup key d'.answers), end_dispatch key d', w)

  abbrev pub sent_to :
      Text → ExpertAssignmentKey → OpoiExpertAssign → ExpertDispatcher → Bool × W → One
  sent_to wallet key assign d (true, w) =
      await_result wallet key (log_asked wallet assign d) (host.meanwhile key w)
  sent_to wallet key assign d (false, w) = (failure (closed wallet), end_dispatch key d, w)

  abbrev pub dispatch_to :
      Text → ExpertAssignmentKey → OpoiExpertAssign → Option Sender → ExpertDispatcher → W → One
  dispatch_to wallet key assign none d w = (failure (not_connected wallet), d, w)
  dispatch_to wallet key assign (some tx) d w =
      sent_to wallet key assign (begin_dispatch key wallet d) (host.send tx assign w)

  unfoldable pub dispatch_one : Group → SelectedExpert → Text → ExpertDispatcher → W → One
  dispatch_one g sel wallet d w =
      dispatch_to wallet (expert_key_of g sel) (expert_assign g sel) (get wallet d.registry) d w

  abbrev pub Outcome : Type 0
  Outcome = Tried (ℕ × OpoiExpertResult) × ExpertDispatcher × W

  -- Another host, unless there is none. The floor of the memory is 0 here.
  abbrev pub retry_on :
      SelectedExpert
      → Option Text
      → (Text → ExpertDispatcher → W → Outcome)
      → ExpertDispatcher
      → W
      → Outcome
  retry_on sel none again d w = (failure (no_remaining_host sel.expert_id), d, w)
  retry_on sel (some next_wallet) again d w = again next_wallet d w

  abbrev pub or_retry : SelectedExpert → (ExpertDispatcher → W → Outcome) → One → Outcome
  or_retry sel again (done result, d, w) = (done (sel.weight, result), d, w)
  or_retry sel again (failure e, d, w) = again d w

  -- With the retries that are left, the wallets tried before this one, and those of the group.
  unfoldable pub dispatch_with :
      ℕ → Group → SelectedExpert → Text → List Text → List Text → ExpertDispatcher → W → Outcome
  dispatch_with zero g sel wallet tried group d w =
      or_retry sel (λ d w. (failure (exhausted sel.expert_id), d, w))
        (dispatch_one g sel wallet d w)
  dispatch_with (suc left) g sel wallet tried group d w =
      or_retry sel
        (λ d.
          retry_on sel (pick_expert_host 0 (group ++ (tried ++ wallet ∷ [])) d.registry)
            (λ next_wallet.
              dispatch_with left g sel next_wallet (tried ++ wallet ∷ [])
                (group ++ next_wallet ∷ []))
            d)
        (dispatch_one g sel wallet d w)

  unfoldable pub dispatch_one_with_retry :
      Group → SelectedExpert → Text → List Text → ExpertDispatcher → W → Outcome
  dispatch_one_with_retry g sel wallet group d w =
      dispatch_with max_retries_per_expert g sel wallet [] group d w

  -- The first failure, or all results.
  abbrev pub successes : List (Tried (ℕ × OpoiExpertResult)) → Tried (List (ℕ × OpoiExpertResult))
  successes [] = done []
  successes (failure e ∷ outcomes) = failure e
  successes (done pair ∷ outcomes) = elim (successes outcomes) [
    | done pairs ↦ done (pair ∷ pairs)
    | failure e ↦ failure e
  ]

  abbrev pub combine : Tried (List (ℕ × OpoiExpertResult)) → Tried ShardOutputWire
  combine (failure e) = failure e
  combine (done pairs) = combine_weighted host.f32 host.hex_encode host.hex_decode pairs

  abbrev pub Dispatch : Type 0
  Dispatch = ExpertDispatcher → W → Outcome

  module _
      (join_all : List Dispatch
        → ExpertDispatcher
        → W
        → List (Tried (ℕ × OpoiExpertResult)) × ExpertDispatcher × W) where
    abbrev pub Joined : Type 0
    Joined = Tried ShardOutputWire × ExpertDispatcher × W

    abbrev pub dispatch_planned : Group → Planned → ExpertDispatcher → W → Joined
    dispatch_planned g (failure e) d w = (failure e, d, w)
    dispatch_planned g (done (planned, used)) d w =
        let (outcomes, d', w') =
          join_all (map (λ p. dispatch_one_with_retry g p.0 p.1 used) planned) d w in
        (combine (successes outcomes), d', w')

    unfoldable pub dispatch_and_join :
        Group → List SelectedExpert → (ℕ → ℕ) → List Text → ExpertDispatcher → W → Joined
    dispatch_and_join g [] min_vram_mb_for pre_excluded d w = (failure no_experts, d, w)
    dispatch_and_join g (sel ∷ experts) min_vram_mb_for pre_excluded d w =
        if ltb g.layer_idx g.layer_start || leb g.layer_end g.layer_idx
        then (failure (outside_range g.layer_idx g.layer_start g.layer_end), d, w)
        else dispatch_planned g (plan d.registry min_vram_mb_for (sel ∷ experts) pre_excluded) d w
