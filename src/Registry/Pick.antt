-- ===== src/Registry/Pick.antt =====
-- The searches of src/miner_registry.rs: round robin over the connected wallets, the first match of
-- an allow list, and the ranking of expert hosts.
use cs_stratum_bridge.Base.{
  ℕ, zero, suc, ◌+◌, ◌%◌, ◌==◌, ltb, Text, text_ltb, text_key, Map, ◌=ₖ◌, Bool, false, ◌&&◌, ◌||◌,
  Option, none, some, List, [], ◌∷◌, length, get_elem?, if◌then◌else◌,
}

unfoldable pub keys : {V : Type 0} → Map Text V → List Text
keys [] = []
keys ((k, _) ∷ m) = k ∷ keys m

-- `IndexMap::get_index_of`.
unfoldable pub index_of : Text → List Text → Option ℕ
index_of w [] = none
index_of w (k ∷ ks) =
    if k =ₖ w then some 0 else elim (index_of w ks) [ none ↦ none | some i ↦ some (suc i) ]

-- Where the search starts: behind `last`, or at the front if `last` is not connected.
unfoldable pub start_index : Option Text → List Text → ℕ
start_index none ks = 0
start_index (some w) ks = elim (index_of w ks) [ none ↦ 0 | some i ↦ (i + 1) % length ks ]

-- `find_map` over `(0..n).map(|offset| (start + offset) % len)`, from `offset` on.
unfoldable pub scan : (Text → Bool) → List Text → ℕ → ℕ → ℕ → Option Text
scan p ks start offset zero = none
scan p ks start offset (suc n) =
    let rest = scan p ks start (suc offset) n in
    elim (get_elem? ks ((start + offset) % length ks)) [
      | none ↦ rest
      | some w ↦ if p w then some w else rest
    ]

unfoldable pub round_robin : (Text → Bool) → Option Text → List Text → Option Text
round_robin p last ks =
    if length ks == 0 then none else scan p ks (start_index last ks) 0 (length ks)

-- `Iterator::find`.
unfoldable pub find : (Text → Bool) → List Text → Option Text
find p [] = none
find p (w ∷ ws) = if p w then some w else find p ws

-- `exclude_wallets.iter().any(..)`.
unfoldable pub member : Text → List Text → Bool
member w [] = false
member w (x ∷ xs) = x =ₖ w || member w xs

unfoldable pub filter_hosts : (Text × ℕ → Bool) → List (Text × ℕ) → List (Text × ℕ)
filter_hosts p [] = []
filter_hosts p (h ∷ hs) = if p h then h ∷ filter_hosts p hs else filter_hosts p hs

-- The comparison of `sort_by`: more memory first, then the lower address.
unfoldable pub preferred : Text × ℕ → Text × ℕ → Bool
preferred (w, v) (x, u) = ltb u v || v == u && text_ltb w x

-- `sort_by` is a stable sort: an entry goes behind those that are preferred to it.
unfoldable pub insert_host : Text × ℕ → List (Text × ℕ) → List (Text × ℕ)
insert_host h [] = h ∷ []
insert_host h (x ∷ xs) = if preferred x h then x ∷ insert_host h xs else h ∷ x ∷ xs

unfoldable pub sort_hosts : List (Text × ℕ) → List (Text × ℕ)
sort_hosts [] = []
sort_hosts (h ∷ hs) = insert_host h (sort_hosts hs)
