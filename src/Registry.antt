-- ===== src/Registry.antt =====
-- src/miner_registry.rs: the connected miners, their capabilities and the ban list.
-- A wallet is its text; the channel to a miner's socket is a number that names it.
mod Pick
pub mod RoundRobin
pub mod Invariant
pub mod Eligible
pub mod Hosts
pub mod Best
mod Tests
unfoldable pub use Pick.{
  keys, round_robin, scan, start_index, member, preferred, insert_host, sort_hosts, filter_hosts,
}
use cs_stratum_bridge.Base.{
  ℕ, ◌==◌, leb, Text, text_key, Map, Set, lookup, insert, remove, contains_key, ◌=ₖ◌, Bool, not,
  ◌&&◌, Option, none, some, List, [], ◌∷◌, map, take, if◌then◌else◌,
}
use Pick.{index_of, find}

abbrev pub Sender : Type 0
Sender = ℕ

pub record MinerRegistry : Type 0 where
  pub inner : Map Text Sender
  pub draft_capable : Set Text
  pub banned : Set Text
  pub auditor_capable : Set Text
  pub expert_capable_vram : Map Text ℕ

-- What a topology report shows of one miner.
pub record MinerSnapshot : Type 0 where
  pub wallet : Text
  pub draft_capable : Bool
  pub auditor_capable : Bool
  pub expert_capable : Bool
  pub expert_vram_mb : Option ℕ
  pub banned : Bool

unfoldable pub new : MinerRegistry
new = record {
  inner = [];
  draft_capable = [];
  banned = [];
  auditor_capable = [];
  expert_capable_vram = [];
}

unfoldable pub ban : Text → MinerRegistry → MinerRegistry
ban w r = record r { banned = insert w tt r.banned }

unfoldable pub is_banned : Text → MinerRegistry → Bool
is_banned w r = contains_key w r.banned

unfoldable pub register : Text → Sender → MinerRegistry → MinerRegistry
register w tx r = record r { inner = insert w tx r.inner }

unfoldable pub unregister : Text → MinerRegistry → MinerRegistry
unregister w r = record r {
  inner = remove w r.inner;
  draft_capable = remove w r.draft_capable;
  auditor_capable = remove w r.auditor_capable;
  expert_capable_vram = remove w r.expert_capable_vram;
}

unfoldable pub get : Text → MinerRegistry → Option Sender
get w r = lookup w r.inner

abbrev snapshot_one : MinerRegistry → Text → MinerSnapshot
snapshot_one r w = record {
  wallet = w;
  draft_capable = contains_key w r.draft_capable;
  auditor_capable = contains_key w r.auditor_capable;
  expert_capable = contains_key w r.expert_capable_vram;
  expert_vram_mb = lookup w r.expert_capable_vram;
  banned = contains_key w r.banned;
}

unfoldable pub snapshot_all : MinerRegistry → List MinerSnapshot
snapshot_all r = map (snapshot_one r) (keys r.inner)

-- The filter of `pick_next`.
abbrev pub may_take : MinerRegistry → Text → Bool
may_take r w = not (contains_key w r.banned)

unfoldable pub pick_next : Option Text → MinerRegistry → Option Text
pick_next last r = round_robin (may_take r) last (keys r.inner)

unfoldable pub mark_draft_capable : Text → MinerRegistry → MinerRegistry
mark_draft_capable w r =
    if contains_key w r.inner then record r { draft_capable = insert w tt r.draft_capable } else r

-- The filter of `pick_draft_capable`.
abbrev pub may_draft : MinerRegistry → Text → Bool
may_draft r w = contains_key w r.draft_capable && not (contains_key w r.banned)

-- The early return for an empty set of drafters is that of the source.
unfoldable pub pick_draft_capable : Option Text → MinerRegistry → Option Text
pick_draft_capable last r = elim r.draft_capable [
  | [] ↦ none
  | _ ↦ round_robin (may_draft r) last (keys r.inner)
]

unfoldable pub mark_auditor_capable : Text → MinerRegistry → MinerRegistry
mark_auditor_capable w r =
    if contains_key w r.inner
    then record r { auditor_capable = insert w tt r.auditor_capable }
    else r

-- The filter of `pick_auditor_capable`.
abbrev pub may_audit : MinerRegistry → Text → Text → Bool
may_audit r exclude_wallet w =
    not (w =ₖ exclude_wallet)
    && (contains_key w r.inner
        && (contains_key w r.auditor_capable && not (contains_key w r.banned)))

unfoldable pub pick_auditor_capable : List Text → Text → MinerRegistry → Option Text
pick_auditor_capable trusted exclude_wallet r = find (may_audit r exclude_wallet) trusted

unfoldable pub mark_expert_capable : Text → ℕ → MinerRegistry → MinerRegistry
mark_expert_capable w vram_mb r =
    if contains_key w r.inner
    then record r { expert_capable_vram = insert w vram_mb r.expert_capable_vram }
    else r

-- The filter of `pick_expert_hosts_top_n`, on a wallet and the memory that it reported.
abbrev pub may_host : MinerRegistry → ℕ → List Text → Text × ℕ → Bool
may_host r min_vram_mb exclude_wallets (w, vram_mb) =
    leb min_vram_mb vram_mb
    && (contains_key w r.inner && (not (contains_key w r.banned) && not (member w exclude_wallets)))

-- The wallets that pass the filter, best first.
unfoldable pub eligible_hosts : ℕ → List Text → MinerRegistry → List (Text × ℕ)
eligible_hosts min_vram_mb exclude_wallets r =
    sort_hosts (filter_hosts (may_host r min_vram_mb exclude_wallets) r.expert_capable_vram)

abbrev pub wallet_of : Text × ℕ → Text
wallet_of (w, _) = w

unfoldable pub pick_expert_hosts_top_n : ℕ → List Text → ℕ → MinerRegistry → List Text
pick_expert_hosts_top_n min_vram_mb exclude_wallets n r =
    if n == 0 then [] else map wallet_of (take n (eligible_hosts min_vram_mb exclude_wallets r))

abbrev head_of : List Text → Option Text
head_of [] = none
head_of (w ∷ _) = some w

unfoldable pub pick_expert_host : ℕ → List Text → MinerRegistry → Option Text
pick_expert_host min_vram_mb exclude_wallets r =
    head_of (pick_expert_hosts_top_n min_vram_mb exclude_wallets 1 r)
