-- ===== src/Base/Decimal.antt =====
-- What `{}` writes for a number: twenty digits are enough for 64 bits.
use Prim.Native.Nat.{ℕ, zero, suc, ◌+◌, ◌/◌, ◌%◌}
use mathlib.Core.List.{[], ◌∷◌}
use cs_stratum_bridge.Base.Tests.{ltb, if◌then◌else◌}
use cs_stratum_bridge.Base.Texts.{Text}

-- The digits before those that are written.
unfoldable pub digits_from : ℕ → ℕ → Text → Text
digits_from zero n written = written
digits_from (suc fuel) n written =
    let digit : ℕ = n % 10 + 48 in
    let more = digits_from fuel (n / 10) (digit ∷ written) in
    if ltb n 10 then digit ∷ written else more

unfoldable pub decimal : ℕ → Text
decimal n = digits_from 20 n []
