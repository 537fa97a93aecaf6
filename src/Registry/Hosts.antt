-- ===== src/Registry/Hosts.antt =====
-- The ranking of expert hosts.
use mathlib.Core.List.{Perm}
use mathlib.Core.List.Perm
use cs_stratum_bridge.Base.{
  ℕ, ◌≡◌, refl, true, false, Bool-cases, inl, inr, List, [], ◌∷◌, Text, text_key, text_ltb, All,
  arith,
}
use cs_stratum_bridge.Registry.Pick.{filter_hosts, preferred, insert_host, sort_hosts}
use cs_stratum_bridge.Registry.{MinerRegistry, may_host, eligible_hosts}

text_ltb-asymm : (s t : Text) → text_ltb s t ≡ true → text_ltb t s ≡ false
unfolding text_ltb
text_ltb-asymm [] [] h = refl
text_ltb-asymm [] (b ∷ t) h = refl
text_ltb-asymm (a ∷ s) [] h = cc
text_ltb-asymm (a ∷ s) (b ∷ t) h = ground (arith, text_ltb-asymm s t)

-- "Not before" is transitive.
text_ltb-neg_trans :
    (s t u : Text) → text_ltb t s ≡ false → text_ltb u t ≡ false → text_ltb u s ≡ false
unfolding text_ltb
text_ltb-neg_trans [] [] u h k = k
text_ltb-neg_trans [] (b ∷ t) [] h k = refl
text_ltb-neg_trans [] (b ∷ t) (c ∷ u) h k = refl
text_ltb-neg_trans (a ∷ s) [] u h k = cc
text_ltb-neg_trans (a ∷ s) (b ∷ t) [] h k = cc
text_ltb-neg_trans (a ∷ s) (b ∷ t) (c ∷ u) h k = ground (arith, text_ltb-neg_trans s t u)

preferred-asymm : (g h : Text × ℕ) → preferred g h ≡ true → preferred h g ≡ false
unfolding preferred
preferred-asymm (w, v) (x, u) e = ground (arith, text_ltb-asymm w x)

preferred-neg_trans :
    (f g h : Text × ℕ) → preferred g f ≡ false → preferred h g ≡ false → preferred h f ≡ false
unfolding preferred
preferred-neg_trans (w, v) (x, u) (y, t) d e = ground (arith, text_ltb-neg_trans w x y)

-- Nobody further down the list is preferred to one further up.
abbrev pub Ranked : List (Text × ℕ) → Type 0
Ranked [] = Unit
Ranked (h ∷ hs) = All (λ g. preferred g h ≡ false) hs × Ranked hs

All-not_preferred :
    (f g : Text × ℕ) (hs : List (Text × ℕ))
    → preferred g f ≡ false
    → All (λ x. preferred x g ≡ false) hs
    → All (λ x. preferred x f ≡ false) hs
All-not_preferred f g [] e a = tt
All-not_preferred f g (h ∷ hs) e a =
    (preferred-neg_trans f g h e a.0, All-not_preferred f g hs e a.1)

All-insert_host :
    (f h : Text × ℕ) (hs : List (Text × ℕ))
    → preferred h f ≡ false
    → All (λ x. preferred x f ≡ false) hs
    → All (λ x. preferred x f ≡ false) (insert_host h hs)
unfolding insert_host
All-insert_host f h [] e a = (e, tt)
All-insert_host f h (x ∷ xs) e a = ground (arith, All-insert_host f h xs)

insert_host-Ranked : (h : Text × ℕ) (hs : List (Text × ℕ)) → Ranked hs → Ranked (insert_host h hs)
unfolding insert_host
insert_host-Ranked h [] r = (tt, tt)
insert_host-Ranked h (x ∷ xs) r = elim (Bool-cases (preferred x h)) [
  | inl e ↦ rw e (All-insert_host x h xs (preferred-asymm x h e) r.0, insert_host-Ranked h xs r.1)
  | inr e ↦ rw e ((e, All-not_preferred h x xs e r.0), r)
]

sort_hosts-Ranked : (hs : List (Text × ℕ)) → Ranked (sort_hosts hs)
unfolding sort_hosts
sort_hosts-Ranked [] = tt
sort_hosts-Ranked (h ∷ hs) = insert_host-Ranked h (sort_hosts hs) (sort_hosts-Ranked hs)

insert_host-perm : (h : Text × ℕ) (hs : List (Text × ℕ)) → Perm (insert_host h hs) (h ∷ hs)
unfolding insert_host
insert_host-perm h [] = Perm.refl _
insert_host-perm h (x ∷ xs) = elim (Bool-cases (preferred x h)) [
  | inl e ↦ rw e (Perm.trans (Perm.cons x (insert_host-perm h xs)) (Perm.swap h x xs))
  | inr e ↦ rw e (Perm.refl _)
]

sort_hosts-perm : (hs : List (Text × ℕ)) → Perm (sort_hosts hs) hs
unfolding sort_hosts
sort_hosts-perm [] = Perm.refl _
sort_hosts-perm (h ∷ hs) =
    Perm.trans (insert_host-perm h (sort_hosts hs)) (Perm.cons h (sort_hosts-perm hs))

-- Before it is cut to `n`, the list of hosts holds exactly the reported ones that pass the filter,
-- each as often, and is ordered: more memory first, then the lower address.
pub eligible_hosts-Ranked :
    (min_vram_mb : ℕ) (exclude : List Text) (r : MinerRegistry)
    → Ranked (eligible_hosts min_vram_mb exclude r)
      × Perm
          (eligible_hosts min_vram_mb exclude r)
          (filter_hosts (may_host r min_vram_mb exclude) r.expert_capable_vram)
unfolding eligible_hosts
eligible_hosts-Ranked min_vram_mb exclude r = (sort_hosts-Ranked _, sort_hosts-perm _)
