-- ===== src/Experts/Tests.antt =====
-- Two experts and three hosts.
use cs_stratum_bridge.Base.{
  ℕ, ◌≡◌, refl, Text, codes, text_key, nat_key, Text-discrete, ℕ_discrete, lookup, true, some, List,
  [], ◌∷◌, Unique,
}
use cs_stratum_bridge.Registry.{
  MinerRegistry, pick_expert_host, pick_expert_hosts_top_n, eligible_hosts, sort_hosts,
  filter_hosts, insert_host, member, preferred,
}
use cs_stratum_bridge.Experts.{SelectedExpert, ExpertDispatcher}
use cs_stratum_bridge.Experts.Combine.{F32, done}
use cs_stratum_bridge.Experts.Dispatch.{Group, Host, disconnect, plan, dispatch_one_with_retry}
use cs_stratum_bridge.Experts.Plan.{IsPlan, plan-Plans}
use cs_stratum_bridge.Experts.Retries.{Adds, Asks, dispatch_one_with_retry-Asks}

abbrev hosts : MinerRegistry
hosts = record {
  inner = (codes "a", 1) ∷ (codes "b", 2) ∷ (codes "c", 3) ∷ [];
  draft_capable = [];
  banned = [];
  auditor_capable = [];
  expert_capable_vram = (codes "a", 8) ∷ (codes "b", 4) ∷ (codes "c", 16) ∷ [];
}

hosts-Unique : Unique hosts.expert_capable_vram
unfolding lookup Text-discrete ℕ_discrete
hosts-Unique = (refl, (refl, (refl, tt)))

abbrev first_expert : SelectedExpert
first_expert = record { expert_id = 5; weight = 1; shape = 1 ∷ []; values = 7 ∷ [] }

abbrev second_expert : SelectedExpert
second_expert = record { expert_id = 6; weight = 1; shape = 1 ∷ []; values = 7 ∷ [] }

abbrev floor : ℕ → ℕ
floor expert = 6

-- The primary is left out, so the second expert has no host but the one of eight.
abbrev planned : List (SelectedExpert × Text)
planned = (first_expert, codes "c") ∷ (second_expert, codes "a") ∷ []

planned_hosts :
    plan hosts floor (first_expert ∷ second_expert ∷ []) (codes "p" ∷ [])
    ≡ done (planned, codes "p" ∷ codes "c" ∷ codes "a" ∷ [])
unfolding plan pick_expert_host pick_expert_hosts_top_n eligible_hosts lookup Text-discrete
    ℕ_discrete member preferred insert_host sort_hosts filter_hosts
planned_hosts = refl

plan-Plans_example : IsPlan hosts floor (first_expert ∷ second_expert ∷ []) (codes "p" ∷ []) planned
plan-Plans_example =
    plan-Plans hosts floor (first_expert ∷ second_expert ∷ []) (codes "p" ∷ [])
      (codes "p" ∷ codes "c" ∷ codes "a" ∷ []) planned hosts-Unique planned_hosts

abbrev group : Group
group = record {
  request_id = codes "req";
  layer_start = 0;
  layer_end = 2;
  layer_idx = 1;
  token_index = 0;
  model_id = codes "m";
  model_gguf_url = codes "u";
  model_gguf_sha256 = codes "s";
}

abbrev machine : F32
machine = record { add = λ x y. x; mul = λ x y. x }

-- Whoever is asked disconnects.
abbrev host : Host Unit
host = record {
  f32 = machine;
  hex_encode = λ bytes. bytes;
  hex_decode = λ hex. some hex;
  sha256 = λ bytes. bytes;
  send = λ tx assign w. (true, w);
  meanwhile =
      λ key w. (disconnect (codes "a") ∷ disconnect (codes "b") ∷ disconnect (codes "c") ∷ [], w);
}

abbrev dispatcher : ExpertDispatcher
dispatcher = record {
  registry = hosts;
  assignments = [];
  pending = [];
  recent = [];
  answers = [];
  asked = [];
}

dispatch_one_with_retry-Asks_example :
    Adds dispatcher
      (dispatch_one_with_retry host group first_expert
        (codes "c")
        (codes "p" ∷ codes "c" ∷ [])
        dispatcher
        tt).1
      (Asks 3 (codes "c") (codes "p" ∷ codes "c" ∷ []))
dispatch_one_with_retry-Asks_example =
    dispatch_one_with_retry-Asks host group first_expert (codes "c") (codes "p" ∷ codes "c" ∷ [])
      dispatcher tt
