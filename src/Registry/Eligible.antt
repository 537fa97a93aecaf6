-- ===== src/Registry/Eligible.antt =====
-- Whom the registry selects: always a connected wallet that is not banned.
use cs_stratum_bridge.Base.{
  rotation, ℕ, ◌≡◌, ◌≢◌, refl, not, ◌=ₖ◌, ◌&&◌, Bool, true, false, ◌||◌, List, [], ◌∷◌, ◌++◌,
  Option, none, some, Text, text_key, Map, lookup, contains_key, take, drop, zero, suc,
  lookup-insert, arith,
}
use cs_stratum_bridge.Registry.{
  MinerRegistry, ban, is_banned, register, unregister, pick_next, pick_draft_capable,
  pick_auditor_capable, mark_draft_capable, mark_auditor_capable, mark_expert_capable, may_take,
  may_draft, may_audit,
}
use cs_stratum_bridge.Registry.Pick.{keys, find, member, start_index, round_robin}
use cs_stratum_bridge.Registry.RoundRobin.{round_robin-find}
use cs_stratum_bridge.Registry.Invariant.{
  Call, registers, unregisters, bans, announces_draft, announces_auditor, announces_expert, step,
  run,
}

find-eq-some :
    (p : Text → Bool) (ws : List Text) (w : Text)
    → find p ws ≡ some w
    → (p w ≡ true) × (member w ws ≡ true)
unfolding find member
find-eq-some p [] w e = cc
find-eq-some p (x ∷ ws) w e = ground (arith, find-eq-some p ws w)

find-eq-none :
    (p : Text → Bool) (ws : List Text) (w : Text)
    → find p ws ≡ none
    → member w ws ≡ true
    → p w ≡ false
unfolding find member
find-eq-none p [] w e m = cc
find-eq-none p (x ∷ ws) w e m = ground (arith, find-eq-none p ws w)

member-append : (w : Text) (xs ys : List Text) → member w (xs ++ ys) ≡ (member w xs || member w ys)
unfolding member
member-append w [] ys = refl
member-append w (x ∷ xs) ys = ground (arith, member-append w xs ys)

member-split :
    (w : Text) (s : ℕ) (ks : List Text)
    → member w ks ≡ (member w (take s ks) || member w (drop s ks))
unfolding member
member-split w zero ks = refl
member-split w (suc s) [] = refl
member-split w (suc s) (k ∷ ks) = ground (arith, member-split w s ks)

member-rotation : (w : Text) (s : ℕ) (ks : List Text) → member w (rotation s ks) ≡ member w ks
member-rotation w s ks =
    ground (arith, member-append w (drop s ks) (take s ks), member-split w s ks)

pub member-keys : {V : Type 0} (w : Text) (m : Map Text V) → member w (keys m) ≡ contains_key w m
unfolding member keys lookup
member-keys w [] = refl
member-keys w ((k, v) ∷ m) = ground (arith, member-keys w m)

-- A search over the connected wallets picks one that passes the filter, and fails only if none does.
module _ (p : Text → Bool) (last : Option Text) (r : MinerRegistry) where
  abbrev asked : List Text
  asked = rotation (start_index last (keys r.inner)) (keys r.inner)

  round_robin_sound :
      (w : Text)
      → round_robin p last (keys r.inner) ≡ some w
      → (p w ≡ true) × (contains_key w r.inner ≡ true)
  round_robin_sound w e = ground (
    arith,
    round_robin-find p last (keys r.inner),
    find-eq-some p asked w,
    member-rotation w (start_index last (keys r.inner)) (keys r.inner),
    member-keys w r.inner,
  )

  round_robin_complete :
      (w : Text)
      → round_robin p last (keys r.inner) ≡ none
      → contains_key w r.inner ≡ true
      → p w ≡ false
  round_robin_complete w e here = ground (
    arith,
    round_robin-find p last (keys r.inner),
    find-eq-none p asked w,
    member-rotation w (start_index last (keys r.inner)) (keys r.inner),
    member-keys w r.inner,
  )

-- What a search for a wallet with a property promises: it returns one, or there is none.
abbrev pub Selects : (Text → Bool) → Option Text → Type 0
Selects p none = (w : Text) → p w ≡ false
Selects p (some w) = p w ≡ true

Selects-of :
    (p : Text → Bool) (o : Option Text)
    → ((w : Text) → o ≡ some w → p w ≡ true)
    → ((w : Text) → o ≡ none → p w ≡ false)
    → Selects p o
Selects-of p none sound complete = λ w. complete w refl
Selects-of p (some w) sound complete = sound w refl

-- `pick_next` returns a wallet that is connected and not banned, and none only if there is none.
pub pick_next-Selects :
    (last : Option Text) (r : MinerRegistry)
    → Selects (λ w. contains_key w r.inner && not (is_banned w r)) (pick_next last r)
unfolding pick_next is_banned
pick_next-Selects last r =
    Selects-of _ (round_robin (may_take r) last (keys r.inner))
      (λ w e. ground (arith, round_robin_sound (may_take r) last r w))
      (λ w e. ground (arith, round_robin_complete (may_take r) last r w))

-- `pick_draft_capable` returns a connected wallet that announced `draft` and is not banned, and none
-- only if there is none.
pub pick_draft_capable-Selects :
    (last : Option Text) (r : MinerRegistry)
    → Selects
        (λ w. contains_key w r.inner && (contains_key w r.draft_capable && not (is_banned w r)))
        (pick_draft_capable last r)
unfolding pick_draft_capable is_banned lookup
pick_draft_capable-Selects last r =
    Selects-of _ (pick_draft_capable last r)
      (λ w e. ground (arith, round_robin_sound (may_draft r) last r w))
      (λ w e. ground (arith, round_robin_complete (may_draft r) last r w))

-- `pick_auditor_capable` returns a trusted wallet that is connected, announced `auditor`, is not
-- banned and is not the audited one, and none only if there is none.
pub pick_auditor_capable-Selects :
    (trusted : List Text) (audited : Text) (r : MinerRegistry)
    → Selects
        (λ w.
          member w trusted
          && (not (w =ₖ audited)
              && (contains_key w r.inner
                  && (contains_key w r.auditor_capable && not (is_banned w r)))))
        (pick_auditor_capable trusted audited r)
unfolding pick_auditor_capable is_banned
pick_auditor_capable-Selects trusted audited r =
    Selects-of _ (find (may_audit r audited) trusted)
      (λ w e. ground (arith, find-eq-some (may_audit r audited) trusted w))
      (λ w e. ground (arith, find-eq-none (may_audit r audited) trusted w))

-- A `pick_*` returns a wallet that may do the work, and none only if there is none: for `pick_next` it is
-- connected and not banned, for `pick_draft_capable` it has announced `draft` besides, and for
-- `pick_auditor_capable` it has announced `auditor`, is trusted and is not the audited one.
pub picks-Select :
    (last : Option Text) (trusted : List Text) (audited : Text) (r : MinerRegistry)
    → Selects (λ w. contains_key w r.inner && not (is_banned w r)) (pick_next last r)
      × Selects
          (λ w. contains_key w r.inner && (contains_key w r.draft_capable && not (is_banned w r)))
          (pick_draft_capable last r)
      × Selects
          (λ w.
            member w trusted
            && (not (w =ₖ audited)
                && (contains_key w r.inner
                    && (contains_key w r.auditor_capable && not (is_banned w r)))))
          (pick_auditor_capable trusted audited r)
picks-Select last trusted audited r = (
  pick_next-Selects last r,
  pick_draft_capable-Selects last r,
  pick_auditor_capable-Selects trusted audited r,
)

Selects-not :
    (p : Text → Bool) (o : Option Text) (w : Text) → Selects p o → p w ≡ false → o ≢ some w
Selects-not p none w s h e = cc
Selects-not p (some x) w s h e = ground arith

step-banned :
    (w : Text) (r : MinerRegistry) (c : Call) → is_banned w r ≡ true → is_banned w (step r c) ≡ true
unfolding step is_banned register unregister ban mark_draft_capable mark_auditor_capable
    mark_expert_capable
step-banned w r (registers x tx) h = h
step-banned w r (unregisters x) h = h
step-banned w r (bans x) h = ground (arith, lookup-insert x w tt r.banned)
step-banned w r (announces_draft x) h = ground arith
step-banned w r (announces_auditor x) h = ground arith
step-banned w r (announces_expert x v) h = ground arith

pub run-banned :
    (w : Text) (r : MinerRegistry) (cs : List Call)
    → is_banned w r ≡ true
    → is_banned w (run r cs) ≡ true
unfolding run
run-banned w r [] h = h
run-banned w r (c ∷ cs) h = run-banned w (step r c) cs (step-banned w r c h)

ban-banned : (w : Text) (r : MinerRegistry) → is_banned w (ban w r) ≡ true
unfolding is_banned ban
ban-banned w r = ground (arith, lookup-insert w w tt r.banned)

-- A wallet that has been banned is never again picked for an assignment, a draft or an audit, and
-- stays banned, whatever calls follow: connecting anew does not lift the ban.
pub ban-run-never_picked :
    (w : Text) (r : MinerRegistry) (cs : List Call) (last : Option Text) (trusted : List Text)
    (audited : Text)
    → let s = run (ban w r) cs in
      (is_banned w s ≡ true)
      × (pick_next last s ≢ some w)
      × (pick_draft_capable last s ≢ some w)
      × (pick_auditor_capable trusted audited s ≢ some w)
ban-run-never_picked w r cs last trusted audited =
    let s = run (ban w r) cs in
    let still = run-banned w (ban w r) cs (ban-banned w r) in
    (
      still,
      Selects-not _ _ w (pick_next-Selects last s) (ground arith),
      Selects-not _ _ w (pick_draft_capable-Selects last s) (ground arith),
      Selects-not _ _ w (pick_auditor_capable-Selects trusted audited s) (ground arith),
    )
