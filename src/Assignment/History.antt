-- ===== src/Assignment/History.antt =====
-- Exclusivity: a request stays with one wallet until it is removed or that wallet disconnects.
use cs_stratum_bridge.Base.{
  ℕ, Text, text_key, lookup, ◌=ₖ◌, ◌≡◌, refl, ap, ◌∙◌, Bool, true, false, Option, none, some, List,
  [], ◌∷◌, Unique, insert-Unique, remove-Unique, retain-Unique, lookup-insert, lookup-remove,
  lookup-retain, All, arith, if◌then◌else◌,
}
use cs_stratum_bridge.Assignment.{
  AssignmentTracker, new, try_assign, assignee, remove_assignment, release_for_wallet,
  held_by_other,
}

pub data Call : Type 0 where
  assigns : Text → Text → ℕ → Call
  removes releases : Text → Call

unfoldable pub step : AssignmentTracker → Call → AssignmentTracker
step t (assigns request_id wallet now) = (try_assign request_id wallet now t).1
step t (removes request_id) = remove_assignment request_id t
step t (releases wallet) = release_for_wallet wallet t

unfoldable pub run : AssignmentTracker → List Call → AssignmentTracker
run t [] = t
run t (c ∷ cs) = run (step t c) cs

-- What a call does to the holder of one request: the first wallet keeps it until it is removed or
-- the wallet leaves.
abbrev pub holder_after : Text → Call → Option Text → Option Text
holder_after j (assigns request_id wallet now) none = if request_id =ₖ j then some wallet else none
holder_after j (removes request_id) none = none
holder_after j (releases wallet) none = none
holder_after j (assigns request_id wallet now) (some holder) = some holder
holder_after j (removes request_id) (some holder) = if request_id =ₖ j then none else some holder
holder_after j (releases wallet) (some holder) = if holder =ₖ wallet then none else some holder

pub step-Unique : (t : AssignmentTracker) (c : Call) → Unique t → Unique (step t c)
unfolding step try_assign remove_assignment release_for_wallet
step-Unique t (assigns r w now) u =
    ground (arith, insert-Unique r (record { miner_wallet = w; assigned_at = now }) t u)
step-Unique t (removes r) u = remove-Unique r t u
step-Unique t (releases w) u = retain-Unique (held_by_other w) t u

step-holder :
    (j : Text) (t : AssignmentTracker) (c : Call)
    → Unique t
    → assignee j (step t c) ≡ holder_after j c (assignee j t)
unfolding step try_assign remove_assignment release_for_wallet assignee
step-holder j t (assigns r w now) u =
    ground (arith, lookup-insert r j (record { miner_wallet = w; assigned_at = now }) t)
step-holder j t (removes r) u = ground (arith, lookup-remove r j t)
step-holder j t (releases w) u = ground (arith, lookup-retain (held_by_other w) j t u)

-- The holder of a request after a history of calls.
unfoldable pub holder : Text → List Call → Option Text → Option Text
holder j [] h = h
holder j (c ∷ cs) h = holder j cs (holder_after j c h)

run-holder :
    (j : Text) (t : AssignmentTracker) (cs : List Call)
    → Unique t
    → assignee j (run t cs) ≡ holder j cs (assignee j t)
unfolding run holder
run-holder j t [] u = refl
run-holder j t (c ∷ cs) u =
    run-holder j (step t c) cs (step-Unique t c u) ∙ ap (holder j cs) (step-holder j t c u)

-- After any history of calls, the tracker names for each request the holder that the history gives
-- it: the first wallet to which it was assigned, until it is removed or that wallet disconnects.
pub run-new-holder : (j : Text) (cs : List Call) → assignee j (run new cs) ≡ holder j cs none
unfolding new assignee lookup
run-new-holder j cs = run-holder j new cs tt

-- The call takes the request from the wallet.
abbrev pub frees : Text → Text → Call → Bool
frees request_id wallet (assigns _ _ _) = false
frees request_id wallet (removes r) = r =ₖ request_id
frees request_id wallet (releases w) = wallet =ₖ w

holder-stays :
    (j w : Text) (cs : List Call)
    → All (λ c. frees j w c ≡ false) cs
    → holder j cs (some w) ≡ some w
unfolding holder
holder-stays j w [] a = refl
holder-stays j w (assigns _ _ _ ∷ cs) a = holder-stays j w cs a.1
holder-stays j w (removes r ∷ cs) a = rw a.0 (holder-stays j w cs a.1)
holder-stays j w (releases x ∷ cs) a = rw a.0 (holder-stays j w cs a.1)

run-Unique : (t : AssignmentTracker) (cs : List Call) → Unique t → Unique (run t cs)
unfolding run
run-Unique t [] u = u
run-Unique t (c ∷ cs) u = run-Unique (step t c) cs (step-Unique t c u)

assigned_holder :
    (request_id wallet : Text) (now : ℕ) (t : AssignmentTracker)
    → (try_assign request_id wallet now t).0 ≡ true
    → assignee request_id (try_assign request_id wallet now t).1 ≡ some wallet
unfolding try_assign assignee
assigned_holder r w now t e =
    ground (arith, lookup-insert r r (record { miner_wallet = w; assigned_at = now }) t)

held-try_assign :
    (request_id wallet other : Text) (now : ℕ) (t : AssignmentTracker)
    → assignee request_id t ≡ some wallet
    → try_assign request_id other now t ≡ (false, t)
unfolding try_assign assignee
held-try_assign r w o now t e = ground arith

-- Once `try_assign` has given a request to a wallet, every later attempt to assign it, to whomever,
-- fails and changes nothing, as long as the request is not removed and the wallet is not released.
pub try_assign-exclusive :
    (request_id wallet other : Text) (now later : ℕ) (t : AssignmentTracker) (cs : List Call)
    → Unique t
    → (try_assign request_id wallet now t).0 ≡ true
    → All (λ c. frees request_id wallet c ≡ false) cs
    → let s = run (try_assign request_id wallet now t).1 cs in
      (assignee request_id s ≡ some wallet) × (try_assign request_id other later s ≡ (false, s))
try_assign-exclusive r w o now later t cs u done a =
    let t' : AssignmentTracker = (try_assign r w now t).1 in
    let u' : Unique t' = unfold step in step-Unique t (assigns r w now) u in
    let e : assignee r (run t' cs) ≡ some w =
      run-holder r t' cs u'
      ∙ ap (holder r cs) (assigned_holder r w now t done)
      ∙ holder-stays r w cs a in
    (e, held-try_assign r w o later (run t' cs) e)
