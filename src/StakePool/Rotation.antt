-- ===== src/StakePool/Rotation.antt =====
-- `try_each` asks the addresses in rotation, and stops at the first success.
use mathlib.Core.List.{Perm}
use cs_stratum_bridge.Base.{
  ℕ, zero, suc, ◌+◌, ◌%◌, ◌<◌, ◌≡◌, refl, sym, ap, subst, ◌∙◌, Text, some, List, [], ◌∷◌, length,
  get_elem?, drop, arith, rotation, length-rotation, get_elem?-rotation, rotation-perm,
  get_elem?-in_range, drop-step, drop_all,
}
use cs_stratum_bridge.AppError.{AppError, Result, ok, err}
use cs_stratum_bridge.StakePool.{
  StakePool, Action, settle, try_from, try_each, no_addresses, usize_mod,
}

module _ {T S : Type 0} where
  -- The addresses of a list in order, up to the first success; the error is the last one.
  unfoldable pub first_ok : Action T S → List Text → AppError → S → Result (Text × T) × S
  first_ok f [] last_err s = (err last_err, s)
  first_ok f (a ∷ addrs) last_err s = settle a (f a s) (first_ok f addrs)

  -- What trying the addresses in order comes to: the first success, under its address, or the last
  -- error once all have been asked.
  pub data Tries (f : Action T S) : List Text → AppError → S → Result (Text × T) × S → Type 0 where
    gives_up : {e : AppError} {s : S} → Tries f [] e s (err e, s)
    succeeds :
        {a : Text} {addrs : List Text} {e : AppError} {s s' : S} {v : T}
        → f a s ≡ (ok v, s')
        → Tries f (a ∷ addrs) e s (ok (a, v), s')
    goes_on :
        {a : Text} {addrs : List Text} {e e' : AppError} {s s' : S} {r : Result (Text × T) × S}
        → f a s ≡ (err e', s')
        → Tries f addrs e' s' r
        → Tries f (a ∷ addrs) e s r

  settle-Tries :
      (f : Action T S) (a : Text) (addrs : List Text) (e : AppError) (s : S) (r : Result T × S)
      → f a s ≡ r
      → ((e' : AppError) (s' : S) → Tries f addrs e' s' (first_ok f addrs e' s'))
      → Tries f (a ∷ addrs) e s (settle a r (first_ok f addrs))
  settle-Tries f a addrs e s (ok v, s') asked rest = succeeds asked
  settle-Tries f a addrs e s (err e', s') asked rest = goes_on asked (rest e' s')

  first_ok-Tries :
      (f : Action T S) (addrs : List Text) (e : AppError) (s : S)
      → Tries f addrs e s (first_ok f addrs e s)
  unfolding first_ok
  first_ok-Tries f [] e s = gives_up
  first_ok-Tries f (a ∷ addrs) e s =
      settle-Tries f a addrs e s (f a s) refl (first_ok-Tries f addrs)

  settle_cong :
      (a : Text) (r : Result T × S) (k k' : AppError → S → Result (Text × T) × S)
      → ((e : AppError) (s : S) → k e s ≡ k' e s)
      → settle a r k ≡ settle a r k'
  settle_cong a (ok v, s) k k' h = refl
  settle_cong a (err e, s) k k' h = h e s

  try_from-first_ok :
      (f : Action T S) (addrs : List Text) (start i n : ℕ) (e : AppError) (s : S)
      → start < length addrs
      → i + n ≡ length addrs
      → try_from f addrs start i n e s ≡ first_ok f (drop i (rotation start addrs)) e s
  unfolding try_from first_ok
  try_from-first_ok f addrs start i zero e s h len =
      rw (drop_all i (rotation start addrs) (omega (arith, length-rotation start addrs h)))
  try_from-first_ok f addrs start i (suc n) e s h len =
      let (a, found) =
        get_elem?-in_range (rotation start addrs) i
          (omega (arith, length-rotation start addrs h)) in
      let found' : get_elem? addrs ((start + i) % length addrs) ≡ some a =
        sym (get_elem?-rotation start i addrs h (omega arith)) ∙ found in
      rw (found', try_from)
        (rw (drop-step (rotation start addrs) i a found) (
          settle_cong a (f a s) _ _
            (λ e' s'. try_from-first_ok f addrs start (suc i) n e' s' h (omega arith))))

  try_each-first_ok :
      (f : Action T S) (p : StakePool) (s : S)
      → 0 < length p.addresses
      → let order = rotation (p.next % length p.addresses) p.addresses in
        let (r, s', p') = try_each f p s in
        ((r, s') ≡ first_ok f order no_addresses s)
        × Perm order p.addresses
        × (p'.addresses ≡ p.addresses)
        × (p'.next ≡ (p.next + 1) % usize_mod)
  unfolding try_each
  try_each-first_ok f p s h = (
    try_from-first_ok f p.addresses (p.next % length p.addresses) 0 (length p.addresses)
        no_addresses s (grind arith) (omega arith),
    rotation-perm _ p.addresses,
    refl,
    refl,
  )

  -- `try_each` asks every address of the pool at most once, in the order of the list from a start that
  -- moves on by one with every call, and round; it stops at the first success, which it returns under its
  -- address, and reports the last error if none succeeds. Provided that the pool is not empty.
  pub try_each-Tries :
      (f : Action T S) (p : StakePool) (s : S)
      → 0 < length p.addresses
      → let order = rotation (p.next % length p.addresses) p.addresses in
        let (r, s', p') = try_each f p s in
        Tries f order no_addresses s (r, s')
        × Perm order p.addresses
        × (p'.addresses ≡ p.addresses)
        × (p'.next ≡ (p.next + 1) % usize_mod)
  try_each-Tries f p s h =
      let order = rotation (p.next % length p.addresses) p.addresses in
      let (same, perm, kept, next) = try_each-first_ok f p s h in
      (
        subst (Tries f order no_addresses s) (sym same) (first_ok-Tries f order no_addresses s),
        perm,
        kept,
        next,
      )

  first_ok-ok :
      (f : Action T S) (takes : (a : Text) (s : S) → (v : T) × ((f a s).0 ≡ ok v))
      (addrs : List Text) (e : AppError) (s : S)
      → 0 < length addrs
      → (x : Text × T) × ((first_ok f addrs e s).0 ≡ ok x)
  unfolding first_ok
  first_ok-ok f takes [] e s h = absurd (omega arith)
  first_ok-ok f takes (a ∷ addrs) e s h =
      let (v, taken) = takes a s in
      (
        (a, v),
        subst (λ r. (settle a (r, (f a s).1) (first_ok f addrs)).0 ≡ ok (a, v)) (sym taken) refl,
      )

  -- An action that every address can do is done with one of them.
  pub try_each-ok :
      (f : Action T S) (takes : (a : Text) (s : S) → (v : T) × ((f a s).0 ≡ ok v)) (p : StakePool)
      (s : S)
      → 0 < length p.addresses
      → (x : Text × T) × ((try_each f p s).0 ≡ ok x) × ((try_each f p s).2.addresses ≡ p.addresses)
  try_each-ok f takes p s h =
      let order = rotation (p.next % length p.addresses) p.addresses in
      let (same, perm, kept, next) = try_each-first_ok f p s h in
      let some_order : 0 < length order =
        omega (arith, length-rotation (p.next % length p.addresses) p.addresses (grind arith)) in
      let (x, done) = first_ok-ok f takes order no_addresses s some_order in
      (x, ap (λ pair. pair.0) same ∙ done, kept)
