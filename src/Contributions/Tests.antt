-- ===== src/Contributions/Tests.antt =====
-- The paid wallet of a concrete request.
use cs_stratum_bridge.Base.{ℕ, ◌≡◌, refl, Text, codes, some, [], ◌∷◌, Map}
use cs_stratum_bridge.Contributions.{select_winning_wallet, Wins, select_winning_wallet-Wins}

abbrev three_wallets : Map Text ℕ
three_wallets = (codes "a", 3) ∷ (codes "b", 5) ∷ (codes "c", 5) ∷ []

last_of_the_best : select_winning_wallet three_wallets ≡ some (codes "c", 5)
unfolding select_winning_wallet
last_of_the_best = refl

select_winning_wallet-Wins_example : Wins three_wallets (select_winning_wallet three_wallets)
select_winning_wallet-Wins_example = select_winning_wallet-Wins three_wallets
