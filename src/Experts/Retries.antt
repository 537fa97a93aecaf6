-- ===== src/Experts/Retries.antt =====
-- Whom `dispatch_one_with_retry` of src/opoi/expert_dispatch.rs asks for one expert.
use cs_stratum_bridge.Base.{
  ℕ, zero, suc, ◌≤◌, ◌≡◌, refl, ap, sym, subst, ◌∙◌, ◌⊎◌, inl, inr, Bool, true, false, Text,
  text_key, lookup, contains_key, Option, none, some, List, [], ◌∷◌, ◌++◌, length, map, All,
  All-mono, arith, append_assoc, append-nil,
}
use cs_stratum_bridge.Wire.{OpoiExpertAssign, OpoiExpertResult}
use cs_stratum_bridge.Registry.{Sender, get, pick_expert_host, member}
use cs_stratum_bridge.Registry.Best.{pick_expert_host-member}
use cs_stratum_bridge.Experts.{
  ExpertAssignmentKey, expert_key, SelectedExpert, ExpertDispatcher, handle_expert_result,
  on_disconnect, check_sender, deliver_expert, drop_experts, key_of, stale_keys,
}
use cs_stratum_bridge.Experts.Combine.{Tried, done, failure}
use cs_stratum_bridge.Experts.Dispatch.{
  Group, Host, Meanwhile, expert_result, disconnect, registry_call, begins, ends, handle_meanwhile,
  handle_all, dispatch_one, dispatch_to, sent_to, retry_on, or_retry, dispatch_with,
  dispatch_one_with_retry, expert_key_of, expert_assign, begin_dispatch, log_asked,
  max_retries_per_expert,
}
use cs_stratum_bridge.Experts.Plan.{Distinct, member-append}

-- The lines to miners stay as they are.
deliver_expert-asked :
    (result : OpoiExpertResult) (waits : Bool) (d : ExpertDispatcher)
    → (deliver_expert result waits d).asked ≡ d.asked
deliver_expert-asked result true d = refl
deliver_expert-asked result false d = refl

check_sender-asked :
    (caller : Text) (result : OpoiExpertResult) (expected : Option Text) (d : ExpertDispatcher)
    → (check_sender caller result expected d).1.asked ≡ d.asked
check_sender-asked caller result none d = refl
check_sender-asked caller result (some expected) d =
    let same = deliver_expert-asked result (contains_key (key_of result) d.pending) d in
    ground arith

drop_experts-asked :
    (keys : List ExpertAssignmentKey) (d : ExpertDispatcher) → (drop_experts keys d).asked ≡ d.asked
drop_experts-asked [] d = refl
drop_experts-asked (key ∷ keys) d = drop_experts-asked keys _

handle_meanwhile-asked :
    (e : Meanwhile) (d : ExpertDispatcher) → (handle_meanwhile e d).asked ≡ d.asked
unfolding handle_expert_result on_disconnect
handle_meanwhile-asked (expert_result caller result) d =
    check_sender-asked caller result (lookup (key_of result) d.assignments) d
handle_meanwhile-asked (disconnect caller) d =
    drop_experts-asked (stale_keys caller d.assignments) d
handle_meanwhile-asked (registry_call c) d = refl
handle_meanwhile-asked (begins key caller) d = refl
handle_meanwhile-asked (ends key) d = refl

handle_all-asked : (es : List Meanwhile) (d : ExpertDispatcher) → (handle_all es d).asked ≡ d.asked
handle_all-asked [] d = refl
handle_all-asked (e ∷ es) d =
    handle_all-asked es (handle_meanwhile e d) ∙ handle_meanwhile-asked e d

abbrev pub Line : Type 0
Line = Text × OpoiExpertAssign

abbrev pub to_wallet : Line → Text
to_wallet (w, _) = w

-- At most one line, and that to the wallet.
data AsksOne (wallet : Text) : List Line → Type 0 where
  asks_nobody : AsksOne wallet []
  asks : (assign : OpoiExpertAssign) → AsksOne wallet ((wallet, assign) ∷ [])

-- The lines that are added.
abbrev pub Adds : ExpertDispatcher → ExpertDispatcher → (List Line → Type 0) → Type 0
Adds d d' P = (lines : List Line) × (d'.asked ≡ d.asked ++ lines) × P lines

module _ {W : Type 0} (host : Host W) where
  sent_to-AsksOne :
      (wallet : Text) (key : ExpertAssignmentKey) (assign : OpoiExpertAssign) (d : ExpertDispatcher)
      (sending : Bool) (w : W)
      → Adds d (sent_to host wallet key assign d (sending, w)).1 (AsksOne wallet)
  sent_to-AsksOne wallet key assign d true w = (
    (wallet, assign) ∷ [],
    handle_all-asked (host.meanwhile key w).0 (log_asked wallet assign d),
    asks assign,
  )
  sent_to-AsksOne wallet key assign d false w = ([], sym (append-nil d.asked), asks_nobody)

  dispatch_to-AsksOne :
      (wallet : Text) (key : ExpertAssignmentKey) (assign : OpoiExpertAssign) (tx : Option Sender)
      (d : ExpertDispatcher) (w : W)
      → Adds d (dispatch_to host wallet key assign tx d w).1 (AsksOne wallet)
  dispatch_to-AsksOne wallet key assign none d w = ([], sym (append-nil d.asked), asks_nobody)
  dispatch_to-AsksOne wallet key assign (some tx) d w =
      let reply = host.send tx assign w in
      sent_to-AsksOne wallet key assign (begin_dispatch key wallet d) reply.0 reply.1

  dispatch_one-AsksOne :
      (g : Group) (sel : SelectedExpert) (wallet : Text) (d : ExpertDispatcher) (w : W)
      → Adds d (dispatch_one host g sel wallet d w).1 (AsksOne wallet)
  unfolding dispatch_one
  dispatch_one-AsksOne g sel wallet d w =
      dispatch_to-AsksOne wallet (expert_key_of g sel) (expert_assign host g sel)
        (get wallet d.registry) d w

-- At most so many lines, no two to one wallet, each to this wallet or to one that is not to be avoided.
abbrev pub Asks : ℕ → Text → List Text → List Line → Type 0
Asks n wallet avoid lines =
    (length lines ≤ n)
    × Distinct (map to_wallet lines)
    × All (λ l. (to_wallet l ≡ wallet) ⊎ (member (to_wallet l) avoid ≡ false)) lines

AsksOne-Asks :
    (n : ℕ) (wallet : Text) (avoid : List Text) (lines : List Line)
    → AsksOne wallet lines
    → Asks (suc n) wallet avoid lines
unfolding member
AsksOne-Asks n wallet avoid [] asks_nobody = (omega arith, tt, tt)
AsksOne-Asks n wallet avoid _ (asks assign) = (omega arith, (refl, tt), (inl refl, tt))

-- None of the lines is to a wallet that they all avoid.
avoided :
    (wallet : Text) (avoid : List Text) (lines : List Line)
    → member wallet avoid ≡ true
    → All (λ l. member (to_wallet l) avoid ≡ false) lines
    → member wallet (map to_wallet lines) ≡ false
unfolding member
avoided wallet avoid [] h others = refl
avoided wallet avoid ((x, assign) ∷ lines) h (away, others) =
    ground (arith, avoided wallet avoid lines h others)

Asks-cons :
    (n : ℕ) (wallet : Text) (avoid : List Text) (one lines : List Line)
    → member wallet avoid ≡ true
    → AsksOne wallet one
    → length lines ≤ n
    → Distinct (map to_wallet lines)
    → All (λ l. member (to_wallet l) avoid ≡ false) lines
    → Asks (suc n) wallet avoid (one ++ lines)
Asks-cons n wallet avoid _ lines h asks_nobody few distinct others =
    (omega arith, distinct, All-mono (λ l away. inr away) lines others)
Asks-cons n wallet avoid _ lines h (asks assign) few distinct others = (
  omega arith,
  (avoided wallet avoid lines h others, distinct),
  (inl refl, All-mono (λ l away. inr away) lines others),
)

-- A wallet that none of a retry's exclusions is was no exclusion before.
narrower :
    (v next : Text) (group tried : List Text)
    → member next (group ++ tried) ≡ false
    → (v ≡ next) ⊎ (member v ((group ++ next ∷ []) ++ (tried ++ next ∷ [])) ≡ false)
    → member v (group ++ tried) ≡ false
narrower v next group tried h (inl same) =
    subst (λ x. member x (group ++ tried) ≡ false) (sym same) h
narrower v next group tried h (inr away) = ground (
  arith,
  member-append v group tried,
  member-append v (group ++ next ∷ []) (tried ++ next ∷ []),
  member-append v group (next ∷ []),
  member-append v tried (next ∷ []),
)

spared_of :
    (v wallet : Text) (group : List Text)
    → (v ≡ wallet) ⊎ (member v (group ++ wallet ∷ []) ≡ false)
    → (v ≡ wallet) ⊎ (member v group ≡ false)
spared_of v wallet group (inl same) = inl same
spared_of v wallet group (inr away) = inr (ground (arith, member-append v group (wallet ∷ [])))

member_last_same :
    (w : Text) (group tried : List Text) → member w (group ++ (tried ++ w ∷ [])) ≡ true
unfolding member
member_last_same w group tried =
    ground (arith, member-append w group (tried ++ w ∷ []), member-append w tried (w ∷ []))

module _ {W : Type 0} (host : Host W) where
  or_retry-either :
      (Q : ExpertDispatcher → Type 0) (sel : SelectedExpert)
      (again : ExpertDispatcher → W → Tried (ℕ × OpoiExpertResult) × ExpertDispatcher × W)
      (verdict : Tried OpoiExpertResult) (d : ExpertDispatcher) (w : W)
      → Q d
      → Q (again d w).1
      → Q (or_retry host sel again (verdict, d, w)).1
  or_retry-either Q sel again (done result) d w now later = now
  or_retry-either Q sel again (failure e) d w now later = later

  retry_on-either :
      (Q : ExpertDispatcher → Type 0) (sel : SelectedExpert) (next : Option Text)
      (again : Text → ExpertDispatcher → W → Tried (ℕ × OpoiExpertResult) × ExpertDispatcher × W)
      (d : ExpertDispatcher) (w : W)
      → Q d
      → ((v : Text) → next ≡ some v → Q (again v d w).1)
      → Q (retry_on host sel next again d w).1
  retry_on-either Q sel none again d w now later = now
  retry_on-either Q sel (some v) again d w now later = later v refl

  -- The lines of a retry come behind those of the dispatch that failed.
  Adds-after :
      (left : ℕ) (wallet next : Text) (group tried : List Text) (d d' d'' : ExpertDispatcher)
      → member next (group ++ (tried ++ wallet ∷ [])) ≡ false
      → Adds d d' (AsksOne wallet)
      → Adds d' d''
          (Asks (suc left) next ((group ++ next ∷ []) ++ ((tried ++ wallet ∷ []) ++ next ∷ [])))
      → Adds d d'' (Asks (suc (suc left)) wallet (group ++ (tried ++ wallet ∷ [])))
  Adds-after left wallet next group tried d d' d'' fresh (one, same, is_one)
        (lines, same', (few, distinct, apart)) =
      (
        one ++ lines,
        same' ∙ (ap (λ x. x ++ lines) same ∙ append_assoc d.asked one lines),
        Asks-cons (suc left) wallet (group ++ (tried ++ wallet ∷ [])) one lines
            (member_last_same wallet group tried) is_one few distinct
            (All-mono (λ l. narrower (to_wallet l) next group (tried ++ wallet ∷ []) fresh) lines
              apart),
      )

  dispatch_with-Asks :
      (left : ℕ) (g : Group) (sel : SelectedExpert) (wallet : Text) (tried group : List Text)
      (d : ExpertDispatcher) (w : W)
      → Adds d
          (dispatch_with host left g sel wallet tried group d w).1
          (Asks (suc left) wallet (group ++ (tried ++ wallet ∷ [])))
  unfolding dispatch_with
  dispatch_with-Asks zero g sel wallet tried group d w =
      let x = dispatch_one host g sel wallet d w in
      let (one, same, is_one) = dispatch_one-AsksOne host g sel wallet d w in
      let now : Adds d x.1 (Asks 1 wallet (group ++ (tried ++ wallet ∷ []))) =
        (one, same, AsksOne-Asks 0 wallet (group ++ (tried ++ wallet ∷ [])) one is_one) in
      or_retry-either (λ y. Adds d y (Asks 1 wallet (group ++ (tried ++ wallet ∷ [])))) sel _ x.0
        x.1 x.2 now now
  dispatch_with-Asks (suc left) g sel wallet tried group d w =
      let Q : ExpertDispatcher → Type 0 =
        λ y. Adds d y (Asks (suc (suc left)) wallet (group ++ (tried ++ wallet ∷ []))) in
      let x = dispatch_one host g sel wallet d w in
      let first = dispatch_one-AsksOne host g sel wallet d w in
      let now : Q x.1 = (
        first.0,
        first.1,
        AsksOne-Asks (suc left) wallet (group ++ (tried ++ wallet ∷ [])) first.0 first.2,
      ) in
      or_retry-either Q sel _ x.0 x.1 x.2 now (
        retry_on-either Q sel (pick_expert_host 0 (group ++ (tried ++ wallet ∷ [])) (x.1).registry)
          _ x.1 x.2 now
          (λ v e.
            Adds-after left wallet v group tried d x.1
              (dispatch_with host left g sel v (tried ++ wallet ∷ []) (group ++ v ∷ []) x.1 x.2).1
              (pick_expert_host-member 0 (group ++ (tried ++ wallet ∷ [])) (x.1).registry v e) first
              (dispatch_with-Asks left g sel v (tried ++ wallet ∷ []) (group ++ v ∷ []) x.1 x.2)))

  -- For one expert at most three miners are asked, none of them twice: the planned one, and such as the
  -- plan of the group gives to no expert, whatever happens meanwhile. That a retry of another expert of
  -- the group has taken the same miner is not excluded.
  pub dispatch_one_with_retry-Asks :
      (g : Group) (sel : SelectedExpert) (wallet : Text) (group : List Text) (d : ExpertDispatcher)
      (w : W)
      → Adds d (dispatch_one_with_retry host g sel wallet group d w).1 (Asks 3 wallet group)
  unfolding dispatch_one_with_retry
  dispatch_one_with_retry-Asks g sel wallet group d w =
      let (lines, same, (few, distinct, apart)) =
        dispatch_with-Asks max_retries_per_expert g sel wallet [] group d w in
      (
        lines,
        same,
        (few, distinct, All-mono (λ l. spared_of (to_wallet l) wallet group) lines apart),
      )
