-- ===== src/Shard/Split.antt =====
-- What `split_model_execution_graph` of src/opoi/shard_engine.rs makes of a graph.
use mathlib.Core.List.{Perm}
use mathlib.Core.List.Perm
use cs_stratum_bridge.Base.{
  ℕ, leb, ◌≡◌, refl, ap, ◌∙◌, codes, text_key, ◌=ₖ◌, lookup, insert, lookup-insert, Bool, true,
  Bool-cases, inl, inr, Option, none, some, List, [], ◌∷◌, ◌++◌, append_assoc, filter, map, All,
  arith,
}
use cs_stratum_bridge.Rpc.{ShardDescriptor}
use cs_stratum_bridge.Speculative.Dispatch.{or_zero, sort_shards, insert_shard}
use cs_stratum_bridge.Shard.{
  LayerRange, range_key, range_of, ExpertGroups, of_type, or_empty, group_experts,
  split_model_execution_graph,
}

-- In the order of their indices.
abbrev pub Sorted : List ShardDescriptor → Type 0
Sorted [] = Unit
Sorted (s ∷ ss) = All (λ t. leb s.shard_index t.shard_index ≡ true) ss × Sorted ss

insert_shard-perm :
    (s : ShardDescriptor) (ss : List ShardDescriptor) → Perm (insert_shard s ss) (s ∷ ss)
insert_shard-perm s [] = Perm.refl _
insert_shard-perm s (t ∷ ts) = elim (Bool-cases (leb s.shard_index t.shard_index)) [
  | inl e ↦ rw e (Perm.refl _)
  | inr e ↦ rw e (Perm.trans (Perm.cons t (insert_shard-perm s ts)) (Perm.swap s t ts))
]

sort_shards-perm : (ss : List ShardDescriptor) → Perm (sort_shards ss) ss
sort_shards-perm [] = Perm.refl _
sort_shards-perm (s ∷ ss) =
    Perm.trans (insert_shard-perm s (sort_shards ss)) (Perm.cons s (sort_shards-perm ss))

All-insert_shard :
    (a s : ShardDescriptor) (ss : List ShardDescriptor)
    → leb a.shard_index s.shard_index ≡ true
    → All (λ t. leb a.shard_index t.shard_index ≡ true) ss
    → All (λ t. leb a.shard_index t.shard_index ≡ true) (insert_shard s ss)
All-insert_shard a s [] h all = (h, tt)
All-insert_shard a s (t ∷ ts) h all = ground (arith, All-insert_shard a s ts)

All-leb_trans :
    (a s : ShardDescriptor) (ss : List ShardDescriptor)
    → leb a.shard_index s.shard_index ≡ true
    → All (λ t. leb s.shard_index t.shard_index ≡ true) ss
    → All (λ t. leb a.shard_index t.shard_index ≡ true) ss
All-leb_trans a s [] h all = tt
All-leb_trans a s (t ∷ ts) h (first, all) = (ground arith, All-leb_trans a s ts h all)

insert_shard-Sorted :
    (s : ShardDescriptor) (ss : List ShardDescriptor) → Sorted ss → Sorted (insert_shard s ss)
insert_shard-Sorted s [] sorted = (tt, tt)
insert_shard-Sorted s (t ∷ ts) (all, sorted) = elim (Bool-cases (leb s.shard_index t.shard_index)) [
  | inl e ↦ rw e ((e, All-leb_trans s t ts e all), (all, sorted))
  | inr e ↦ rw e (All-insert_shard t s ts (ground arith) all, insert_shard-Sorted s ts sorted)
]

sort_shards-Sorted : (ss : List ShardDescriptor) → Sorted (sort_shards ss)
sort_shards-Sorted [] = tt
sort_shards-Sorted (s ∷ ss) = insert_shard-Sorted s (sort_shards ss) (sort_shards-Sorted ss)

-- A group, unless it has no experts.
abbrev pub grown : Option (List ℕ) → List ℕ → Option (List ℕ)
grown group [] = group
grown none (id ∷ ids) = some (id ∷ ids)
grown (some more) (id ∷ ids) = some (more ++ id ∷ ids)

abbrev pub id_of : ShardDescriptor → ℕ
id_of s = or_zero s.expert_id

abbrev pub in_range : LayerRange → ShardDescriptor → Bool
in_range r s = range_of s =ₖ r

grown_cons :
    (group : Option (List ℕ)) (id : ℕ) (ids : List ℕ)
    → grown (some (or_empty group ++ id ∷ [])) ids ≡ grown group (id ∷ ids)
grown_cons none id [] = refl
grown_cons none id (i ∷ ids) = refl
grown_cons (some more) id [] = refl
grown_cons (some more) id (i ∷ ids) = ap (λ x. some x) (append_assoc more (id ∷ []) (i ∷ ids))

lookup-group_experts :
    (r : LayerRange) (ss : List ShardDescriptor) (groups : ExpertGroups)
    → lookup r (group_experts ss groups)
      ≡ grown (lookup r groups) (map id_of (filter (in_range r) ss))
unfolding group_experts
lookup-group_experts r [] groups = refl
lookup-group_experts r (s ∷ ss) groups =
    let k : LayerRange = range_of s in
    let v : List ℕ = or_empty (lookup k groups) ++ or_zero s.expert_id ∷ [] in
    lookup-group_experts r ss (insert k v groups)
    ∙ ground (
      arith,
      lookup-insert k r v groups,
      grown_cons (lookup k groups) (or_zero s.expert_id) (map id_of (filter (in_range r) ss)),
    )

-- The pipeline walks exactly the DENSE nodes of the graph, in the order of their indices; and the
-- group of a range has the experts of exactly its EXPERT nodes, in the order of the graph, and is
-- missing if there are none.
pub split_model_execution_graph-Splits :
    (shards : List ShardDescriptor) (r : LayerRange)
    → Sorted (split_model_execution_graph shards).0
      × Perm (split_model_execution_graph shards).0 (filter (of_type (codes "DENSE")) shards)
      × (lookup r (split_model_execution_graph shards).1
          ≡ grown none (map id_of (filter (in_range r) (filter (of_type (codes "EXPERT")) shards))))
unfolding split_model_execution_graph lookup
split_model_execution_graph-Splits shards r = (
  sort_shards-Sorted (filter (of_type (codes "DENSE")) shards),
  sort_shards-perm (filter (of_type (codes "DENSE")) shards),
  lookup-group_experts r (filter (of_type (codes "EXPERT")) shards) [],
)
