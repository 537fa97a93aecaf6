-- ===== src/Registry/Invariant.antt =====
-- What every history of calls keeps true of the registry.
use cs_stratum_bridge.Base.{
  ℕ, ◌≡◌, true, List, [], ◌∷◌, Text, text_key, Map, lookup, insert, remove, contains_key,
  Bool-cases, refl, ◌implies◌, inl, inr, Unique, insert-Unique, remove-Unique, lookup-insert,
  lookup-remove, arith,
}
use cs_stratum_bridge.Registry.{
  MinerRegistry, Sender, new, ban, register, unregister, mark_draft_capable, mark_auditor_capable,
  mark_expert_capable,
}

-- Every key of the first map is a key of the second.
abbrev pub Within : {V W : Type 0} → Map Text V → Map Text W → Type 0
Within s m = (w : Text) → (contains_key w s implies contains_key w m) ≡ true

Within-insert :
    {V W : Type 0} (k : Text) (v : V) (s : Map Text V) (m : Map Text W)
    → contains_key k m ≡ true
    → Within s m
    → Within (insert k v s) m
Within-insert k v s m here h w = ground (arith, h w, lookup-insert k w v s)

Within-register :
    {V W : Type 0} (k : Text) (v : W) (s : Map Text V) (m : Map Text W)
    → Within s m
    → Within s (insert k v m)
Within-register k v s m h w = ground (arith, h w, lookup-insert k w v m)

Within-remove :
    {V W : Type 0} (k : Text) (s : Map Text V) (m : Map Text W)
    → Within s m
    → Within (remove k s) (remove k m)
Within-remove k s m h w = ground (arith, h w, lookup-remove k w s, lookup-remove k w m)

-- Each map has one entry for a wallet, and only connected wallets hold a capability.
pub record IsConsistent (r : MinerRegistry) : Type 0 where
  pub unique_inner : Unique r.inner
  pub unique_hosts : Unique r.expert_capable_vram
  pub drafters : Within r.draft_capable r.inner
  pub auditors : Within r.auditor_capable r.inner
  pub hosts : Within r.expert_capable_vram r.inner

pub data Call : Type 0 where
  registers : Text → Sender → Call
  unregisters bans announces_draft announces_auditor : Text → Call
  announces_expert : Text → ℕ → Call

unfoldable pub step : MinerRegistry → Call → MinerRegistry
step r (registers w tx) = register w tx r
step r (unregisters w) = unregister w r
step r (bans w) = ban w r
step r (announces_draft w) = mark_draft_capable w r
step r (announces_auditor w) = mark_auditor_capable w r
step r (announces_expert w vram_mb) = mark_expert_capable w vram_mb r

unfoldable pub run : MinerRegistry → List Call → MinerRegistry
run r [] = r
run r (c ∷ cs) = run (step r c) cs

register-IsConsistent :
    (w : Text) (tx : Sender) (r : MinerRegistry) → IsConsistent r → IsConsistent (register w tx r)
unfolding register
register-IsConsistent w tx r i = record {
  unique_inner = insert-Unique w tx r.inner i.unique_inner;
  unique_hosts = i.unique_hosts;
  drafters = Within-register w tx r.draft_capable r.inner i.drafters;
  auditors = Within-register w tx r.auditor_capable r.inner i.auditors;
  hosts = Within-register w tx r.expert_capable_vram r.inner i.hosts;
}

unregister-IsConsistent :
    (w : Text) (r : MinerRegistry) → IsConsistent r → IsConsistent (unregister w r)
unfolding unregister
unregister-IsConsistent w r i = record {
  unique_inner = remove-Unique w r.inner i.unique_inner;
  unique_hosts = remove-Unique w r.expert_capable_vram i.unique_hosts;
  drafters = Within-remove w r.draft_capable r.inner i.drafters;
  auditors = Within-remove w r.auditor_capable r.inner i.auditors;
  hosts = Within-remove w r.expert_capable_vram r.inner i.hosts;
}

mark_draft_capable-IsConsistent :
    (w : Text) (r : MinerRegistry) → IsConsistent r → IsConsistent (mark_draft_capable w r)
unfolding mark_draft_capable
mark_draft_capable-IsConsistent w r i = elim (Bool-cases (contains_key w r.inner)) [
  | inl here ↦ rw here (record {
    unique_inner = i.unique_inner;
    unique_hosts = i.unique_hosts;
    drafters = Within-insert w tt r.draft_capable r.inner here i.drafters;
    auditors = i.auditors;
    hosts = i.hosts;
  })
  | inr gone ↦ rw gone i
]

mark_auditor_capable-IsConsistent :
    (w : Text) (r : MinerRegistry) → IsConsistent r → IsConsistent (mark_auditor_capable w r)
unfolding mark_auditor_capable
mark_auditor_capable-IsConsistent w r i = elim (Bool-cases (contains_key w r.inner)) [
  | inl here ↦ rw here (record {
    unique_inner = i.unique_inner;
    unique_hosts = i.unique_hosts;
    drafters = i.drafters;
    auditors = Within-insert w tt r.auditor_capable r.inner here i.auditors;
    hosts = i.hosts;
  })
  | inr gone ↦ rw gone i
]

mark_expert_capable-IsConsistent :
    (w : Text) (v : ℕ) (r : MinerRegistry)
    → IsConsistent r
    → IsConsistent (mark_expert_capable w v r)
unfolding mark_expert_capable
mark_expert_capable-IsConsistent w v r i = elim (Bool-cases (contains_key w r.inner)) [
  | inl here ↦ rw here (record {
    unique_inner = i.unique_inner;
    unique_hosts = insert-Unique w v r.expert_capable_vram i.unique_hosts;
    drafters = i.drafters;
    auditors = i.auditors;
    hosts = Within-insert w v r.expert_capable_vram r.inner here i.hosts;
  })
  | inr gone ↦ rw gone i
]

pub step-IsConsistent : (r : MinerRegistry) (c : Call) → IsConsistent r → IsConsistent (step r c)
unfolding step ban
step-IsConsistent r (registers w tx) i = register-IsConsistent w tx r i
step-IsConsistent r (unregisters w) i = unregister-IsConsistent w r i
step-IsConsistent r (bans w) i = record {
  unique_inner = i.unique_inner;
  unique_hosts = i.unique_hosts;
  drafters = i.drafters;
  auditors = i.auditors;
  hosts = i.hosts;
}
step-IsConsistent r (announces_draft w) i = mark_draft_capable-IsConsistent w r i
step-IsConsistent r (announces_auditor w) i = mark_auditor_capable-IsConsistent w r i
step-IsConsistent r (announces_expert w v) i = mark_expert_capable-IsConsistent w v r i

run-IsConsistent : (r : MinerRegistry) (cs : List Call) → IsConsistent r → IsConsistent (run r cs)
unfolding run
run-IsConsistent r [] i = i
run-IsConsistent r (c ∷ cs) i = run-IsConsistent (step r c) cs (step-IsConsistent r c i)

new-IsConsistent : IsConsistent new
unfolding new lookup
new-IsConsistent = record {
  unique_inner = tt;
  unique_hosts = tt;
  drafters = λ w. refl;
  auditors = λ w. refl;
  hosts = λ w. refl;
}

-- After any history of calls each map has one entry for a wallet, and every wallet that is held
-- capable of drafting, auditing or hosting an expert is connected.
pub run-new-IsConsistent : (cs : List Call) → IsConsistent (run new cs)
run-new-IsConsistent cs = run-IsConsistent new cs new-IsConsistent
