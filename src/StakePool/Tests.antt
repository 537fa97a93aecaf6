-- ===== src/StakePool/Tests.antt =====
-- The rotation at a concrete pool: the world is the trace of the addresses asked.
use mathlib.Core.List.{Perm}
use cs_stratum_bridge.Base.{
  ℕ, ◌+◌, ◌%◌, ◌≡◌, refl, List, [], ◌∷◌, length, Text, codes, rotation, arith, if◌then◌else◌,
  Text-discrete, text_key, ◌=ₖ◌,
}
use cs_stratum_bridge.AppError.{rpc, ok, err}
use cs_stratum_bridge.StakePool.{StakePool, Action, try_from, try_each, no_addresses, usize_mod}
use cs_stratum_bridge.StakePool.Rotation.{Tries, try_each-Tries}

abbrev pool : StakePool
pool = record { addresses = codes "a" ∷ codes "b" ∷ codes "c" ∷ []; next = 7 }

-- Only "a" is eligible.
abbrev submit : Action ℕ (List Text)
submit addr asked =
    (if addr =ₖ codes "a" then ok 42 else err (rpc (codes "not eligible")), addr ∷ asked)

starts_at_b :
    try_each submit pool []
    ≡ (ok (codes "a", 42), codes "a" ∷ codes "c" ∷ codes "b" ∷ [], record pool { next = 8 })
unfolding try_each try_from Text-discrete
starts_at_b = refl

try_each-Tries_example :
    let order = rotation (pool.next % length pool.addresses) pool.addresses in
    let (r, s', p') = try_each submit pool [] in
    Tries submit order no_addresses [] (r, s')
    × Perm order pool.addresses
    × (p'.addresses ≡ pool.addresses)
    × (p'.next ≡ (pool.next + 1) % usize_mod)
try_each-Tries_example = try_each-Tries submit pool [] (omega arith)
