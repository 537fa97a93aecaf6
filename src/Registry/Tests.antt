-- ===== src/Registry/Tests.antt =====
-- The tests of src/miner_registry.rs, and the theorems at concrete inputs.
use cs_stratum_bridge.Base.{
  ◌≡◌, ◌≢◌, refl, ◌&&◌, true, not, none, some, List, [], ◌∷◌, Text, codes, text_key, text_ltb,
  Text-discrete, ◌=ₖ◌, lookup, insert, contains_key, Unique,
}
use cs_stratum_bridge.Registry.{
  MinerRegistry, new, ban, is_banned, pick_next, pick_draft_capable, pick_auditor_capable,
  pick_expert_host, pick_expert_hosts_top_n, register, mark_draft_capable, mark_auditor_capable,
  mark_expert_capable, eligible_hosts,
}
use cs_stratum_bridge.Registry.Pick.{
  member, keys, index_of, start_index, scan, round_robin, filter_hosts, preferred, insert_host,
  sort_hosts,
}
use cs_stratum_bridge.Registry.Invariant.{
  Call, registers, unregisters, announces_draft, announces_auditor, announces_expert, step, run,
  IsConsistent, run-new-IsConsistent,
}
use cs_stratum_bridge.Registry.Eligible.{Selects, picks-Select, ban-run-never_picked}
use cs_stratum_bridge.Registry.Best.{IsBestHost, pick_expert_host-IsBestHost}

abbrev small : Text
small = codes "small"

abbrev medium : Text
medium = codes "medium"

abbrev big : Text
big = codes "big"

abbrev three_hosts : List Call
three_hosts =
    registers small 1
    ∷ registers big 2
    ∷ registers medium 3
    ∷ announces_expert small 4000
    ∷ announces_expert big 24000
    ∷ announces_expert medium 12000
    ∷ announces_draft medium
    ∷ announces_auditor small
    ∷ []

abbrev three : MinerRegistry
three = record {
  inner = (small, 1) ∷ (big, 2) ∷ (medium, 3) ∷ [];
  draft_capable = (medium, tt) ∷ [];
  banned = [];
  auditor_capable = (small, tt) ∷ [];
  expert_capable_vram = (small, 4000) ∷ (big, 24000) ∷ (medium, 12000) ∷ [];
}

calls_make_three : run new three_hosts ≡ three
unfolding run step new register mark_expert_capable mark_draft_capable mark_auditor_capable insert
    lookup Text-discrete
calls_make_three = refl

prefers_highest_vram : pick_expert_host 1000 [] three ≡ some big
unfolding pick_expert_host pick_expert_hosts_top_n eligible_hosts sort_hosts insert_host
    filter_hosts preferred member lookup Text-discrete
prefers_highest_vram = refl

filters_below_min_vram : pick_expert_host 50000 [] three ≡ none
unfolding pick_expert_host pick_expert_hosts_top_n eligible_hosts sort_hosts insert_host
    filter_hosts preferred member lookup Text-discrete
filters_below_min_vram = refl

excludes_used_wallets : pick_expert_host 1000 (big ∷ []) three ≡ some medium
unfolding pick_expert_host pick_expert_hosts_top_n eligible_hosts sort_hosts insert_host
    filter_hosts preferred member lookup Text-discrete
excludes_used_wallets = refl

excludes_banned_wallets : pick_expert_host 1000 [] (ban big three) ≡ some medium
unfolding pick_expert_host pick_expert_hosts_top_n eligible_hosts sort_hosts insert_host
    filter_hosts preferred member lookup Text-discrete ban insert
excludes_banned_wallets = refl

ranks_two : pick_expert_hosts_top_n 1000 [] 2 three ≡ big ∷ medium ∷ []
unfolding pick_expert_hosts_top_n eligible_hosts sort_hosts insert_host filter_hosts preferred
    member lookup Text-discrete
ranks_two = refl

ties_break_on_address :
    pick_expert_hosts_top_n 1 [] 2 (
      run new (
        registers small 1
        ∷ registers big 2
        ∷ announces_expert small 8
        ∷ announces_expert big 8
        ∷ []))
    ≡ big ∷ small ∷ []
unfolding run step new register mark_expert_capable insert lookup Text-discrete
    pick_expert_hosts_top_n eligible_hosts sort_hosts insert_host filter_hosts preferred member
    text_ltb
ties_break_on_address = refl

goes_round : pick_next (some medium) three ≡ some small
unfolding pick_next round_robin start_index index_of scan keys lookup Text-discrete
goes_round = refl

three-Unique : Unique three.expert_capable_vram
unfolding lookup Text-discrete
three-Unique = (refl, (refl, (refl, tt)))

run-new-IsConsistent_example : IsConsistent (run new three_hosts)
run-new-IsConsistent_example = run-new-IsConsistent three_hosts

picks-Select_example :
    Selects (λ w. contains_key w three.inner && not (is_banned w three)) (pick_next none three)
    × Selects
        (λ w.
          contains_key w three.inner
          && (contains_key w three.draft_capable && not (is_banned w three)))
        (pick_draft_capable none three)
    × Selects
        (λ w.
          member w (big ∷ small ∷ [])
          && (not (w =ₖ medium)
              && (contains_key w three.inner
                  && (contains_key w three.auditor_capable && not (is_banned w three)))))
        (pick_auditor_capable (big ∷ small ∷ []) medium three)
picks-Select_example = picks-Select none (big ∷ small ∷ []) medium three

ban-run-never_picked_example :
    let s = run (ban big three) (unregisters big ∷ registers big 9 ∷ []) in
    (is_banned big s ≡ true)
    × (pick_next (some small) s ≢ some big)
    × (pick_draft_capable (some small) s ≢ some big)
    × (pick_auditor_capable (big ∷ []) small s ≢ some big)
ban-run-never_picked_example =
    ban-run-never_picked big three (unregisters big ∷ registers big 9 ∷ []) (some small) (big ∷ [])
      small

pick_expert_host-IsBestHost_example :
    IsBestHost three 5000 (big ∷ []) (pick_expert_host 5000 (big ∷ []) three)
pick_expert_host-IsBestHost_example = pick_expert_host-IsBestHost 5000 (big ∷ []) three three-Unique
