-- ===== src/Assignment.antt =====
-- src/opoi/assignment.rs: which wallet a request was handed to. A map by request id; the time is an
-- argument of the call that records it.
pub mod History
mod Tests
use cs_stratum_bridge.Base.{
  ℕ, Text, text_key, Map, lookup, insert, remove, retain, contains_key, ◌=ₖ◌, Bool, true, false,
  not, Option, none, some, [], if◌then◌else◌,
}

pub record Assignment : Type 0 where
  pub miner_wallet : Text
  pub assigned_at : ℕ

abbrev pub AssignmentTracker : Type 0
AssignmentTracker = Map Text Assignment

unfoldable pub new : AssignmentTracker
new = []

-- Whether this call made the entry.
unfoldable pub try_assign : Text → Text → ℕ → AssignmentTracker → Bool × AssignmentTracker
try_assign request_id wallet now t =
    if contains_key request_id t
    then (false, t)
    else (true, insert request_id (record { miner_wallet = wallet; assigned_at = now }) t)

abbrev wallet_of : Option Assignment → Option Text
wallet_of none = none
wallet_of (some a) = some a.miner_wallet

unfoldable pub assignee : Text → AssignmentTracker → Option Text
assignee request_id t = wallet_of (lookup request_id t)

unfoldable pub remove_assignment : Text → AssignmentTracker → AssignmentTracker
remove_assignment request_id t = remove request_id t

abbrev pub held_by_other : Text → Assignment → Bool
held_by_other wallet a = not (a.miner_wallet =ₖ wallet)

unfoldable pub release_for_wallet : Text → AssignmentTracker → AssignmentTracker
release_for_wallet wallet t = retain (held_by_other wallet) t
