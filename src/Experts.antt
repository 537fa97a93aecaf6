-- ===== src/Experts.antt =====
-- src/opoi/expert_dispatch.rs: the experts of a layer are run on hosts of their own. The waiting task
-- of a dispatch and the handlers that run meanwhile share the dispatcher. An `f32` is its 32 bits; the
-- text of an error is kept as what it is about.

pub mod Combine
pub mod Dispatch
pub mod Plan
pub mod Retries
mod Tests
use cs_stratum_bridge.Base.{
  ℕ, ◌==◌, if◌then◌else◌, Text, text_key, nat_key, ◌=ₖ◌, Key, Map, Set, lookup, insert, remove,
  contains_key, Bool, true, false, ◌&&◌, Option, none, some, List, [], ◌∷◌, ◌++◌, Text-discrete,
  ℕ_discrete,
}
use cs_stratum_bridge.AppError.{AppError, unknown_request, not_assigned_to_caller, Result, ok, err}
use cs_stratum_bridge.Wire.{OpoiExpertAssign, OpoiExpertResult}
use cs_stratum_bridge.Registry.{MinerRegistry}

pub record ExpertAssignmentKey : Type 0 where
  pub request_id : Text
  pub layer_start : ℕ
  pub layer_end : ℕ
  pub layer_idx : ℕ
  pub expert_id : ℕ

unfoldable pub ExpertAssignmentKey-discrete : Discrete ExpertAssignmentKey
unfolding Text-discrete ℕ_discrete
ExpertAssignmentKey-discrete = hlevel (ℕ_discrete, Text-discrete)

instance abbrev pub expert_key : Key ExpertAssignmentKey
expert_key = record { dec = ExpertAssignmentKey-discrete }

-- `values` is the field `data`.
pub record SelectedExpert : Type 0 where
  pub expert_id : ℕ
  pub weight : ℕ
  pub shape : List ℕ
  pub values : List ℕ

-- `pending` has the dispatches whose sender is kept; `answers` has what the receiver of a dispatch
-- got: the result, or `none` from a sender that was dropped. `asked` are the lines to miners.
pub record ExpertDispatcher : Type 0 where
  pub registry : MinerRegistry
  pub assignments : Map ExpertAssignmentKey Text
  pub pending : Set ExpertAssignmentKey
  pub recent : Map ExpertAssignmentKey Text
  pub answers : Map ExpertAssignmentKey (Option OpoiExpertResult)
  pub asked : List (Text × OpoiExpertAssign)

unfoldable pub new : MinerRegistry → ExpertDispatcher
new registry = record {
  registry = registry;
  assignments = [];
  pending = [];
  recent = [];
  answers = [];
  asked = [];
}

abbrev in_range : Text → ℕ → ℕ → ExpertAssignmentKey → Bool
in_range request layer_start layer_end key =
    (key.request_id =ₖ request) && (key.layer_start == layer_start && key.layer_end == layer_end)

abbrev range_of : Text → ℕ → ℕ → Map ExpertAssignmentKey Text → List (ℕ × Text)
range_of request layer_start layer_end [] = []
range_of request layer_start layer_end ((key, wallet) ∷ m) =
    let rest = range_of request layer_start layer_end m in
    if in_range request layer_start layer_end key then (key.expert_id, wallet) ∷ rest else rest

unfoldable pub recent_assignments_for_range : Text → ℕ → ℕ → ExpertDispatcher → List (ℕ × Text)
recent_assignments_for_range request layer_start layer_end d =
    range_of request layer_start layer_end d.recent

abbrev pub key_of : OpoiExpertResult → ExpertAssignmentKey
key_of result = record {
  request_id = result.request_id;
  layer_start = result.layer_start;
  layer_end = result.layer_end;
  layer_idx = result.layer_idx;
  expert_id = result.expert_id;
}

abbrev pub deliver_expert : OpoiExpertResult → Bool → ExpertDispatcher → ExpertDispatcher
deliver_expert result true d = record d {
  pending = remove (key_of result) d.pending;
  answers = insert (key_of result) (some result) d.answers;
}
deliver_expert result false d = d

abbrev pub check_sender :
    Text → OpoiExpertResult → Option Text → ExpertDispatcher → Result (Unit {0}) × ExpertDispatcher
check_sender wallet result none d = (err unknown_request, d)
check_sender wallet result (some expected) d =
    if expected =ₖ wallet
    then (ok tt, deliver_expert result (contains_key (key_of result) d.pending) d)
    else (err not_assigned_to_caller, d)

-- A result that comes after the sender is gone is no error.
unfoldable pub handle_expert_result :
    Text → OpoiExpertResult → ExpertDispatcher → Result (Unit {0}) × ExpertDispatcher
handle_expert_result wallet result d =
    check_sender wallet result (lookup (key_of result) d.assignments) d

abbrev pub stale_keys : Text → Map ExpertAssignmentKey Text → List ExpertAssignmentKey
stale_keys wallet [] = []
stale_keys wallet ((key, w) ∷ m) =
    let rest = stale_keys wallet m in if w =ₖ wallet then key ∷ rest else rest

-- The sender of a dispatch that waits is dropped.
abbrev pub drop_expert : ExpertAssignmentKey → ExpertDispatcher → ExpertDispatcher
drop_expert key d = record d {
  assignments = remove key d.assignments;
  pending = remove key d.pending;
  answers = if contains_key key d.pending then insert key none d.answers else d.answers;
}

abbrev pub drop_experts : List ExpertAssignmentKey → ExpertDispatcher → ExpertDispatcher
drop_experts [] d = d
drop_experts (key ∷ keys) d = drop_experts keys (drop_expert key d)

unfoldable pub on_disconnect : Text → ExpertDispatcher → ExpertDispatcher
on_disconnect wallet d = drop_experts (stale_keys wallet d.assignments) d
