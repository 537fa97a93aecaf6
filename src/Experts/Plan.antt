-- ===== src/Experts/Plan.antt =====
-- The hosts that `dispatch_and_join` of src/opoi/expert_dispatch.rs plans for a group.
use cs_stratum_bridge.Base.{
  ℕ, leb, ◌≡◌, refl, ap, sym, subst, ◌∙◌, true, false, ◌||◌, Text, text_key, ◌=ₖ◌, lookup,
  contains_key, Unique, Option-cases, inl, inr, some, List, [], ◌∷◌, ◌++◌, map, All, arith,
}
use cs_stratum_bridge.Registry.{MinerRegistry, is_banned, pick_expert_host, member}
use cs_stratum_bridge.Registry.Best.{IsBestHost, pick_expert_host-IsBestHost}
use cs_stratum_bridge.Experts.{SelectedExpert}
use cs_stratum_bridge.Experts.Combine.{done, failure}
use cs_stratum_bridge.Experts.Dispatch.{Planned, with_host, plan, plan_rest}

-- No wallet twice.
abbrev pub Distinct : List Text → Type 0
Distinct [] = Unit
Distinct (w ∷ ws) = (member w ws ≡ false) × Distinct ws

-- A connected wallet that is not banned and has the memory.
abbrev pub CanHost : MinerRegistry → ℕ → Text → Type 0
CanHost r floor w =
    (v : ℕ) × (lookup w r.expert_capable_vram ≡ some v)
    × (leb floor v ≡ true)
    × (contains_key w r.inner ≡ true)
    × (is_banned w r ≡ false)

-- The host of an expert, with the wallets that are in use.
abbrev pub IsHost : MinerRegistry → (ℕ → ℕ) → List Text → SelectedExpert × Text → Type 0
IsHost r floor used (sel, w) = (member w used ≡ false) × CanHost r (floor sel.expert_id) w

abbrev pub wallet : SelectedExpert × Text → Text
wallet (_, w) = w

abbrev pub expert : SelectedExpert × Text → SelectedExpert
expert (sel, _) = sel

pub member-append :
    (w : Text) (xs ys : List Text) → member w (xs ++ ys) ≡ (member w xs || member w ys)
unfolding member
member-append w [] ys = refl
member-append w (x ∷ xs) ys = ground (arith, member-append w xs ys)

pub pick_expert_host-IsHost :
    (r : MinerRegistry) (floor : ℕ) (used : List Text) (w : Text)
    → Unique r.expert_capable_vram
    → pick_expert_host floor used r ≡ some w
    → (member w used ≡ false) × CanHost r floor w
pick_expert_host-IsHost r floor used w u e =
    let (v, found, eligible, best) =
      subst (IsBestHost r floor used) e (pick_expert_host-IsBestHost floor used r u) in
    (ground arith, (v, found, ground arith, ground arith, ground arith))

-- What a plan that starts with a host goes on with.
with_host-inv :
    (sel : SelectedExpert) (w : Text) (rest : Planned) (planned : List (SelectedExpert × Text))
    (used : List Text)
    → with_host sel w rest ≡ done (planned, used)
    → (qs : List (SelectedExpert × Text)) × (rest ≡ done (qs, used)) × (planned ≡ (sel, w) ∷ qs)
with_host-inv sel w (done (qs, used')) planned used e = (qs, cc, cc)
with_host-inv sel w (failure x) planned used e = absurd (cc)

abbrev pub IsPlan :
    MinerRegistry
    → (ℕ → ℕ)
    → List SelectedExpert
    → List Text
    → List (SelectedExpert × Text)
    → Type 0
IsPlan r floor experts used planned =
    (map expert planned ≡ experts)
    × Distinct (map wallet planned)
    × All (IsHost r floor used) planned

member_last :
    (x w : Text) (used : List Text)
    → member x (used ++ w ∷ []) ≡ false
    → (member x used ≡ false) × ((x =ₖ w) ≡ false)
unfolding member
member_last x w used h = ground (arith, member-append x used (w ∷ []))

apart :
    (r : MinerRegistry) (floor : ℕ → ℕ) (used : List Text) (w : Text)
    (planned : List (SelectedExpert × Text))
    → All (IsHost r floor (used ++ w ∷ [])) planned
    → (member w (map wallet planned) ≡ false) × All (IsHost r floor used) planned
unfolding member
apart r floor used w [] h = (refl, tt)
apart r floor used w ((sel, x) ∷ planned) (host, rest) =
    let (away, others) = apart r floor used w planned rest in
    let (free, other) = member_last x w used host.0 in (ground arith, ((free, host.1), others))

-- A plan gives each expert of the group, in order, a host of its own: no wallet twice, none of those
-- that were excluded before, each connected, not banned and with the memory that its expert needs.
-- Provided that no wallet is reported twice.
pub plan-Plans :
    (r : MinerRegistry) (floor : ℕ → ℕ) (experts : List SelectedExpert) (used used' : List Text)
    (planned : List (SelectedExpert × Text))
    → Unique r.expert_capable_vram
    → plan r floor experts used ≡ done (planned, used')
    → IsPlan r floor experts used planned
unfolding plan
plan-Plans r floor [] used used' [] u e = (refl, tt, tt)
plan-Plans r floor [] used used' (p ∷ planned) u e = absurd (cc)
plan-Plans r floor (sel ∷ experts) used used' planned u e =
    elim (Option-cases (pick_expert_host (floor sel.expert_id) used r)) [
      | inl nobody ↦
          let bad =
            ap (λ o. plan_rest sel o (λ v. plan r floor experts (used ++ v ∷ []))) (sym nobody)
            ∙ e in
          absurd (cc)
      | inr (w, picked) ↦
          let (qs, rest, shape) =
            with_host-inv sel w (plan r floor experts (used ++ w ∷ [])) planned used' (
              ap (λ o. plan_rest sel o (λ v. plan r floor experts (used ++ v ∷ []))) (sym picked)
              ∙ e) in
          let (same, distinct, hosts) =
            plan-Plans r floor experts (used ++ w ∷ []) used' qs u rest in
          let (away, others) = apart r floor used w qs hosts in
          subst (IsPlan r floor (sel ∷ experts) used) (sym shape) (
            ap (◌∷◌ sel) same,
            (away, distinct),
            (pick_expert_host-IsHost r (floor sel.expert_id) used w u picked, others),
          )
    ]
