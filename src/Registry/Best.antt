-- ===== src/Registry/Best.antt =====
-- The expert host that is picked: eligible, and with the most memory of all that are.
use cs_stratum_bridge.Base.{
  ℕ, ◌≡◌, refl, sym, ◌∙◌, Bool, true, false, not, ◌&&◌, ◌implies◌, Bool-cases, inl, inr, leb, List,
  [], ◌∷◌, Option, none, some, Text, text_key, Map, lookup, contains_key, Unique, All, All-mono,
  arith, map, take,
}
use cs_stratum_bridge.Registry.Pick.{filter_hosts, preferred, insert_host, sort_hosts, member}
use cs_stratum_bridge.Registry.Hosts.{Ranked, eligible_hosts-Ranked}
use cs_stratum_bridge.Registry.{
  MinerRegistry, is_banned, may_host, wallet_of, head_of, eligible_hosts, pick_expert_hosts_top_n,
  pick_expert_host,
}

module _ (P : Text × ℕ → Type 0) where
  insert_host-All :
      (h : Text × ℕ) (hs : List (Text × ℕ)) → P h → All P hs → All P (insert_host h hs)
  unfolding insert_host
  insert_host-All h [] p a = (p, tt)
  insert_host-All h (x ∷ xs) p a = ground (arith, insert_host-All h xs p a.1)

  insert_host-All_inv :
      (h : Text × ℕ) (hs : List (Text × ℕ)) → All P (insert_host h hs) → P h × All P hs
  unfolding insert_host
  insert_host-All_inv h [] a = a
  insert_host-All_inv h (x ∷ xs) a = elim (Bool-cases (preferred x h)) [
    | inl e ↦
        let b : All P (x ∷ insert_host h xs) = rw e at a in
        let (p, q) = insert_host-All_inv h xs b.1 in (p, (b.0, q))
    | inr e ↦ rw e at a
  ]

  sort_hosts-All : (hs : List (Text × ℕ)) → All P hs → All P (sort_hosts hs)
  unfolding sort_hosts
  sort_hosts-All [] a = tt
  sort_hosts-All (h ∷ hs) a = insert_host-All h (sort_hosts hs) a.0 (sort_hosts-All hs a.1)

  sort_hosts-All_inv : (hs : List (Text × ℕ)) → All P (sort_hosts hs) → All P hs
  unfolding sort_hosts
  sort_hosts-All_inv [] a = tt
  sort_hosts-All_inv (h ∷ hs) a =
      let (p, q) = insert_host-All_inv h (sort_hosts hs) a in (p, sort_hosts-All_inv hs q)

first : (h : Text × ℕ) (hs : Map Text ℕ) → lookup h.0 (h ∷ hs) ≡ some h.1
unfolding lookup
first h hs = ground arith

later :
    (h : Text × ℕ) (hs : Map Text ℕ)
    → Unique (h ∷ hs)
    → (x : Text × ℕ) → lookup x.0 hs ≡ some x.1
    → lookup x.0 (h ∷ hs) ≡ some x.1
unfolding lookup
later h hs u x e = ground arith

module _ (p : Text × ℕ → Bool) where
  filter_hosts-All : (hs : List (Text × ℕ)) → All (λ x. p x ≡ true) (filter_hosts p hs)
  unfolding filter_hosts
  filter_hosts-All [] = tt
  filter_hosts-All (h ∷ hs) = ground (arith, filter_hosts-All hs)

  -- What holds of the entries that pass, holds of all under the test.
  filter_hosts-All_inv :
      (q : Text × ℕ → Bool) (hs : List (Text × ℕ))
      → All (λ x. q x ≡ true) (filter_hosts p hs)
      → All (λ x. (p x implies q x) ≡ true) hs
  unfolding filter_hosts
  filter_hosts-All_inv q [] a = tt
  filter_hosts-All_inv q (h ∷ hs) a = elim (Bool-cases (p h)) [
    | inl e ↦
        let b : All (λ x. q x ≡ true) (h ∷ filter_hosts p hs) = rw e at a in
        (rw e b.0, filter_hosts-All_inv q hs b.1)
    | inr e ↦
        let b : All (λ x. q x ≡ true) (filter_hosts p hs) = rw e at a in
        (rw e, filter_hosts-All_inv q hs b)
  ]

  -- Each entry that passes is the one of its wallet.
  filter_hosts-lookup :
      (hs : Map Text ℕ) → Unique hs → All (λ (w, v). lookup w hs ≡ some v) (filter_hosts p hs)
  unfolding filter_hosts
  filter_hosts-lookup [] u = tt
  filter_hosts-lookup (h ∷ hs) u =
      let rest = All-mono (later h hs u) (filter_hosts p hs) (filter_hosts-lookup hs u.1) in
      elim (Bool-cases (p h)) [ inl e ↦ rw e (first h hs, rest) | inr e ↦ rw e rest ]

-- What the filter is to test: enough memory, connected, not banned, not in use.
abbrev pub is_eligible : MinerRegistry → ℕ → List Text → Text × ℕ → Bool
is_eligible r min_vram_mb exclude (w, vram_mb) =
    leb min_vram_mb vram_mb
    && (contains_key w r.inner && (not (is_banned w r) && not (member w exclude)))

-- The promise of `pick_expert_host`: an eligible host with the memory that it reported, which is at
-- least that of every other eligible host; or no reported host is eligible.
abbrev pub IsBestHost : MinerRegistry → ℕ → List Text → Option Text → Type 0
IsBestHost r min exclude none = All (λ x. is_eligible r min exclude x ≡ false) r.expert_capable_vram
IsBestHost r min exclude (some w) =
    (v : ℕ) × (lookup w r.expert_capable_vram ≡ some v)
    × (is_eligible r min exclude (w, v) ≡ true)
    × All (λ x. (is_eligible r min exclude x implies leb x.1 v) ≡ true) r.expert_capable_vram

abbrev first_wallet : List (Text × ℕ) → Option Text
first_wallet [] = none
first_wallet ((w, _) ∷ _) = some w

pick_expert_host-first :
    (min : ℕ) (exclude : List Text) (r : MinerRegistry)
    → pick_expert_host min exclude r ≡ first_wallet (eligible_hosts min exclude r)
unfolding pick_expert_host pick_expert_hosts_top_n
pick_expert_host-first min exclude r = first_of_take (eligible_hosts min exclude r)
  where
    first_of_take : (hs : List (Text × ℕ)) → head_of (map wallet_of (take 1 hs)) ≡ first_wallet hs
    first_of_take [] = refl
    first_of_take (h ∷ hs) = refl

preferred-leb : (g h : Text × ℕ) → preferred g h ≡ false → leb g.1 h.1 ≡ true
unfolding preferred
preferred-leb g h e = ground arith

preferred_head :
    (h : Text × ℕ) (hs : List (Text × ℕ)) → Ranked (h ∷ hs) → All (λ x. leb x.1 h.1 ≡ true) (h ∷ hs)
preferred_head h hs r = (ground arith, All-mono (λ x. preferred-leb x h) hs r.0)

-- The head of a ranked list, of which every entry is reported and eligible, is the best host.
best_of :
    (r : MinerRegistry) (min : ℕ) (exclude : List Text) (hs : List (Text × ℕ))
    → Ranked hs
    → All (λ x. lookup x.0 r.expert_capable_vram ≡ some x.1) hs
    → All (λ x. is_eligible r min exclude x ≡ true) hs
    → ((q : Text × ℕ → Bool)
        → All (λ x. q x ≡ true) hs
        → All (λ x. (is_eligible r min exclude x implies q x) ≡ true) r.expert_capable_vram)
    → IsBestHost r min exclude (first_wallet hs)
best_of r min exclude [] ranked found passed back =
    All-mono (λ x e. ground arith) r.expert_capable_vram (back (λ x. false) tt)
best_of r min exclude (h ∷ hs) ranked found passed back =
    (h.1, found.0, passed.0, back (λ x. leb x.1 h.1) (preferred_head h hs ranked))

-- `pick_expert_host` returns an eligible host (enough memory, connected, not banned, not in use)
-- whose memory is at least that of every other eligible host, and none only if no host is eligible;
-- provided that no wallet is reported twice.
pub pick_expert_host-IsBestHost :
    (min : ℕ) (exclude : List Text) (r : MinerRegistry)
    → Unique r.expert_capable_vram
    → IsBestHost r min exclude (pick_expert_host min exclude r)
unfolding eligible_hosts is_banned
pick_expert_host-IsBestHost min exclude r u =
    let p : Text × ℕ → Bool = may_host r min exclude in
    let hosts : Map Text ℕ = r.expert_capable_vram in
    let passed : List (Text × ℕ) = filter_hosts p hosts in
    rw (pick_expert_host-first min exclude r) (
      best_of r min exclude (sort_hosts passed) (eligible_hosts-Ranked min exclude r).0
        (sort_hosts-All _ passed (filter_hosts-lookup p hosts u))
        (sort_hosts-All _ passed (filter_hosts-All p hosts))
        (λ q a. filter_hosts-All_inv p q hosts (sort_hosts-All_inv _ passed a)))

first_wallet-member :
    (r : MinerRegistry) (min : ℕ) (exclude : List Text) (hs : List (Text × ℕ)) (w : Text)
    → All (λ x. may_host r min exclude x ≡ true) hs
    → first_wallet hs ≡ some w
    → member w exclude ≡ false
first_wallet-member r min exclude [] w passed e = absurd (cc)
first_wallet-member r min exclude ((x, v) ∷ hs) w (p, passed) e = ground arith

-- Of an excluded wallet no host is made, whatever was reported.
pub pick_expert_host-member :
    (min : ℕ) (exclude : List Text) (r : MinerRegistry) (w : Text)
    → pick_expert_host min exclude r ≡ some w
    → member w exclude ≡ false
unfolding eligible_hosts
pick_expert_host-member min exclude r w e =
    let p : Text × ℕ → Bool = may_host r min exclude in
    first_wallet-member r min exclude (eligible_hosts min exclude r) w
      (sort_hosts-All _ (filter_hosts p r.expert_capable_vram)
        (filter_hosts-All p r.expert_capable_vram))
      (sym (pick_expert_host-first min exclude r) ∙ e)
