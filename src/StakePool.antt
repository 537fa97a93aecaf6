-- ===== src/StakePool.antt =====
-- src/stake_pool.rs: the bridge's stake addresses, tried in rotation. The counter is an `AtomicUsize`
-- of 64 bits, which wraps. What is tried for an address is an action on the world `S`: the call of
-- the daemon, which is not part of this repository.
pub mod Rotation
mod Tests
use cs_stratum_bridge.Base.{
  ℕ, zero, suc, ◌+◌, ◌%◌, ◌^◌, Text, codes, Option, none, some, List, [], ◌∷◌, length, get_elem?,
}
use cs_stratum_bridge.AppError.{AppError, rpc, Result, ok, err}

pub record StakePool : Type 0 where
  pub addresses : List Text
  pub next : ℕ

abbrev pub usize_mod : ℕ
usize_mod = 2 ^ 64

-- `none` is the failed assertion on an empty list.
unfoldable pub new : List Text → Option StakePool
new [] = none
new (a ∷ addrs) = some (record { addresses = a ∷ addrs; next = 0 })

abbrev head_or : List Text → Text
head_or [] = []
head_or (a ∷ _) = a

-- `self.addresses[0]`; the list of a pool is not empty.
unfoldable pub primary : StakePool → Text
primary p = head_or p.addresses

abbrev pub no_addresses : AppError
no_addresses = rpc (codes "StakePool: no addresses configured")

abbrev pub Action : Type 0 → Type 0 → Type 0
Action T S = Text → S → Result T × S

module _ {T S : Type 0} where
  -- The `match` on what the action returned: stop, or go on with the error.
  abbrev pub settle :
      Text → Result T × S → (AppError → S → Result (Text × T) × S) → Result (Text × T) × S
  settle addr (ok v, s) next = (ok (addr, v), s)
  settle addr (err e, s) next = next e s

  -- The loop: `n` addresses are left, `i` have failed, the last with `last_err`. An index is below the
  -- length, so the case of a missing address does not arise.
  unfoldable pub try_from :
      Action T S → List Text → ℕ → ℕ → ℕ → AppError → S → Result (Text × T) × S
  try_from f addrs start i zero last_err s = (err last_err, s)
  try_from f addrs start i (suc n) last_err s =
      elim (get_elem? addrs ((start + i) % length addrs)) [
        | none ↦ (err last_err, s)
        | some addr ↦ settle addr (f addr s) (try_from f addrs start (suc i) n)
      ]

  unfoldable pub try_each : Action T S → StakePool → S → Result (Text × T) × S × StakePool
  try_each f p s =
      let n : ℕ = length p.addresses in
      let (r, s') = try_from f p.addresses (p.next % n) 0 n no_addresses s in
      (r, s', record p { next = (p.next + 1) % usize_mod })
