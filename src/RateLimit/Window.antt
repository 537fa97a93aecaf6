-- ===== src/RateLimit/Window.antt =====
-- How many requests of one address a window lets through.
use cs_stratum_bridge.Base.{
  ℕ, suc, ◌+◌, ◌-◌, ◌%◌, ◌≤◌, ◌<◌, ◌≡◌, ◌≢◌, leb, text_key, ◌=ₖ◌, lookup, lookup-insert, Bool, true,
  ◌&&◌, Option, none, some, List, [], ◌∷◌, length, All, arith, min, if◌then◌else◌, Text-discrete,
}
use cs_stratum_bridge.RateLimit.{RateLimiter, IpAddr, check, u32_mod, entry_or}

-- A history: who asks, and when.
abbrev pub Requests : Type 0
Requests = List (IpAddr × ℕ)

-- How many requests of `ip` a history holds, and how many of them pass.
unfoldable pub asked : IpAddr → Requests → ℕ
asked ip [] = 0
asked ip ((who, now) ∷ rs) = if who =ₖ ip then suc (asked ip rs) else asked ip rs

unfoldable pub allowed : IpAddr → RateLimiter → Requests → ℕ
allowed ip l [] = 0
allowed ip l ((who, now) ∷ rs) =
    let (passes, l') = check who now l in
    let rest : ℕ = allowed ip l' rs in if (who =ₖ ip) && passes then suc rest else rest

-- The requests come before the window that starts at `start` is over.
abbrev pub InWindow : ℕ → ℕ → Requests → Type 0
InWindow start window = All (λ (_, now). now - start < window)

-- Other addresses do not share the bucket.
check_other :
    (ip who : IpAddr) (now : ℕ) (l : RateLimiter)
    → who ≢ ip
    → lookup ip (check who now l).1.buckets ≡ lookup ip l.buckets
unfolding check
check_other ip who now l ne = ground (
  arith,
  lookup-insert who ip (now, 1) l.buckets,
  lookup-insert who ip
      (
        (entry_or now (lookup who l.buckets)).0,
        ((entry_or now (lookup who l.buckets)).1 + 1) % u32_mod,
      )
      l.buckets,
)

check_limits :
    (who : IpAddr) (now : ℕ) (l : RateLimiter)
    → ((check who now l).1.window ≡ l.window) × ((check who now l).1.max_requests ≡ l.max_requests)
unfolding check
check_limits who now l = ground arith

-- Inside a window the count goes up, and the request passes while it is within the limit.
check_counts :
    (ip : IpAddr) (now start count : ℕ) (l : RateLimiter)
    → lookup ip l.buckets ≡ some (start, count)
    → now - start < l.window
    → count + 1 < u32_mod
    → (lookup ip (check ip now l).1.buckets ≡ some (start, count + 1))
      × ((check ip now l).0 ≡ leb (count + 1) l.max_requests)
unfolding check
check_counts ip now start count l e h small =
    ground (arith, lookup-insert ip ip (start, (count + 1) % u32_mod) l.buckets)

allowed_rest :
    (ip : IpAddr) (start count : ℕ) (l : RateLimiter) (rs : Requests)
    → lookup ip l.buckets ≡ some (start, count)
    → InWindow start l.window rs
    → count + length rs < u32_mod
    → allowed ip l rs ≡ min (l.max_requests - count) (asked ip rs)
unfolding allowed asked
allowed_rest ip start count l [] e inside small = omega arith
allowed_rest ip start count l ((who, now) ∷ rs) e inside small = elim (Text-discrete who ip) [
  | yes same ↦
      let counted = check_counts ip now start count l e inside.0 (omega arith) in
      let limits = check_limits ip now l in
      let later : InWindow start (check ip now l).1.window rs = rw limits.0 inside.1 in
      let ih =
        allowed_rest ip start (count + 1) (check ip now l).1 rs counted.0 later (omega arith) in
      rw same (ground (arith, counted, limits, ih))
  | no other ↦ ground (
    arith,
    check_other ip who now l other,
    check_limits who now l,
    allowed_rest ip start count (check who now l).1 rs,
  )
]

-- A request opens a window: the address is new, or its last window is over.
abbrev pub opens : ℕ → ℕ → Option (ℕ × ℕ) → Bool
opens window now none = true
opens window now (some (start, _)) = leb window (now - start)

check-opens :
    (ip : IpAddr) (now : ℕ) (l : RateLimiter)
    → opens l.window now (lookup ip l.buckets) ≡ true
    → 1 ≤ l.max_requests
    → 0 < l.window
    → (lookup ip (check ip now l).1.buckets ≡ some (now, 1)) × ((check ip now l).0 ≡ true)
unfolding check
check-opens ip now l o one some_time = ground (arith, lookup-insert ip ip (now, 1) l.buckets)

-- A request that opens a window, with what follows before the window is over: of the requests of
-- this address exactly the first `max_requests` pass, or all if they are fewer; the requests of other
-- addresses do not count. Provided that the limit and the window are not 0 and that there are fewer
-- than 2^32 requests.
pub allowed-InWindow :
    (ip : IpAddr) (now : ℕ) (l : RateLimiter) (rs : Requests)
    → opens l.window now (lookup ip l.buckets) ≡ true
    → 1 ≤ l.max_requests
    → 0 < l.window
    → InWindow now l.window rs
    → length rs + 1 < u32_mod
    → allowed ip l ((ip, now) ∷ rs) ≡ min l.max_requests (asked ip ((ip, now) ∷ rs))
unfolding allowed asked
allowed-InWindow ip now l rs o one some_time inside small =
    let opened = check-opens ip now l o one some_time in
    let limits = check_limits ip now l in
    let later : InWindow now (check ip now l).1.window rs = rw limits.0 inside in
    let rest = allowed_rest ip now 1 (check ip now l).1 rs opened.0 later (omega arith) in
    ground (arith, opened, limits, rest)
