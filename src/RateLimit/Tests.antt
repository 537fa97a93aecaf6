-- ===== src/RateLimit/Tests.antt =====
-- The limiter at concrete inputs.
use cs_stratum_bridge.Base.{◌≡◌, refl, [], ◌∷◌, Text, arith, lookup, insert, Text-discrete}
use cs_stratum_bridge.RateLimit.{new, check}
use cs_stratum_bridge.RateLimit.Window.{Requests, allowed, asked, allowed-InWindow}

abbrev client : Text
client = 127 ∷ 0 ∷ 0 ∷ 1 ∷ []

abbrev other : Text
other = 10 ∷ 0 ∷ 0 ∷ 1 ∷ []

abbrev burst : Requests
burst = (client, 11) ∷ (other, 12) ∷ (client, 13) ∷ []

-- At a limit of 0 the first request is refused, and one that reopens a window passes.
zero_limit : allowed client (new 0 10) ((client, 0) ∷ (client, 10) ∷ []) ≡ 1
unfolding allowed new check lookup insert Text-discrete
zero_limit = refl

allowed-InWindow_example : allowed client (new 2 10) ((client, 10) ∷ burst) ≡ 2
unfolding new lookup asked Text-discrete
allowed-InWindow_example =
    allowed-InWindow client 10 (new 2 10) burst refl (omega arith) (omega arith) (omega arith)
      (omega arith)
