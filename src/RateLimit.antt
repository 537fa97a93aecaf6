-- ===== src/RateLimit.antt =====
-- src/http/rate_limit.rs: a fixed window for each address. The clock is an argument of each call, in
-- any unit; `duration_since` stops at 0. The counter is a `u32` and wraps.
pub mod Window
mod Tests
use cs_stratum_bridge.Base.{
  ℕ, ◌+◌, ◌-◌, ◌%◌, ◌^◌, leb, Text, text_key, Map, lookup, insert, Bool, true, Option, none, some,
  [], if◌then◌else◌,
}

-- The octets of an address, 4 or 16.
abbrev pub IpAddr : Type 0
IpAddr = Text

-- A bucket is the start of the window and the count.
pub record RateLimiter : Type 0 where
  pub max_requests : ℕ
  pub window : ℕ
  pub buckets : Map IpAddr (ℕ × ℕ)

unfoldable pub new : ℕ → ℕ → RateLimiter
new max_requests window = record { max_requests = max_requests; window = window; buckets = [] }

-- `entry(ip).or_insert((now, 0))`.
abbrev pub entry_or : ℕ → Option (ℕ × ℕ) → ℕ × ℕ
entry_or now none = (now, 0)
entry_or now (some e) = e

abbrev pub u32_mod : ℕ
u32_mod = 2 ^ 32

unfoldable pub check : IpAddr → ℕ → RateLimiter → Bool × RateLimiter
check ip now l =
    let (start, count) = entry_or now (lookup ip l.buckets) in
    let count' : ℕ = (count + 1) % u32_mod in
    if leb l.window (now - start)
    then (true, record l { buckets = insert ip (now, 1) l.buckets })
    else (leb count' l.max_requests, record l { buckets = insert ip (start, count') l.buckets })
