-- ===== src/Contributions.antt =====
-- The `BTreeMap` of how many steps each wallet has delivered for a request, and who is paid for it:
-- `contributions` in src/opoi/speculative_engine.rs and src/opoi/shard_engine.rs.
mod Tests
use cs_stratum_bridge.Base.{
  ◌++◌, All, All-mono, append_assoc, append-nil, subst, sym, ap, ◌∙◌, ◌<◌, ◌≤◌, Bool-cases, inl,
  inr, ◌≡◌, arith, refl, All-append, ℕ, ◌+◌, ◌%◌, ◌^◌, ltb, if◌then◌else◌, Text, text_key, ◌=ₖ◌,
  text_ltb, Map, Option, none, some, [], ◌∷◌,
}

-- `*entry(wallet).or_insert(0) += 1`, on a map in the order of its keys; the count is a `u32`.
unfoldable pub bump : Text → Map Text ℕ → Map Text ℕ
bump w [] = (w, 1) ∷ []
bump w ((v, n) ∷ m) =
    let rest = bump w m in
    if v =ₖ w
    then (v, (n + 1) % 2 ^ 32) ∷ m
    else (if text_ltb w v then (w, 1) ∷ (v, n) ∷ m else (v, n) ∷ rest)

-- `max_by_key`: of several entries with the greatest count the last one.
abbrev pub max_from : Text × ℕ → Map Text ℕ → Text × ℕ
max_from best [] = best
max_from best ((v, n) ∷ m) = if ltb n best.1 then max_from best m else max_from (v, n) m

unfoldable pub select_winning_wallet : Map Text ℕ → Option (Text × ℕ)
select_winning_wallet [] = none
select_winning_wallet (entry ∷ m) = some (max_from entry m)

abbrev AtMost : ℕ → Text × ℕ → Type 0
AtMost n e = e.1 ≤ n

abbrev Less : ℕ → Text × ℕ → Type 0
Less n e = e.1 < n

-- The entry is one of the list; none has more, and those after it have less.
abbrev pub Wins : Map Text ℕ → Option (Text × ℕ) → Type 0
Wins m none = m ≡ []
Wins m (some best) =
    (before : Map Text ℕ) × (after : Map Text ℕ) × (m ≡ before ++ best ∷ after)
    × All (AtMost best.1) before
    × All (Less best.1) after

AtMost-mono : (a b : ℕ) (m : Map Text ℕ) → a ≤ b → All (AtMost a) m → All (AtMost b) m
AtMost-mono a b m h = All-mono (λ (e : Text × ℕ) (le : e.1 ≤ a). omega arith) m

Less-AtMost : (a b : ℕ) (m : Map Text ℕ) → a ≤ b → All (Less a) m → All (AtMost b) m
Less-AtMost a b m h = All-mono (λ (e : Text × ℕ) (lt : e.1 < a). omega arith) m

-- `best` so far stands behind `before`, and `passed` behind it.
max_from-Wins :
    (before passed m : Map Text ℕ) (best : Text × ℕ)
    → All (AtMost best.1) before
    → All (Less best.1) passed
    → Wins (before ++ best ∷ (passed ++ m)) (some (max_from best m))
max_from-Wins before passed [] best hb hp =
    (before, passed, ap (λ (p : Map Text ℕ). before ++ best ∷ p) (append-nil passed), hb, hp)
max_from-Wins before passed ((v, n) ∷ m) best hb hp = elim (Bool-cases (ltb n best.1)) [
  | inl less ↦
      let lt : n < best.1 = ground arith in
      rw less (
        subst (λ (p : Map Text ℕ). Wins (before ++ best ∷ p) (some (max_from best m)))
          (append_assoc passed ((v, n) ∷ []) m)
          (max_from-Wins before (passed ++ (v, n) ∷ []) m best hb
            (All-append (Less best.1) passed ((v, n) ∷ []) hp (lt, tt))))
  | inr more ↦
      let le : best.1 ≤ n = ground arith in
      rw more (
        subst (λ (p : Map Text ℕ). Wins p (some (max_from (v, n) m)))
          (append_assoc before (best ∷ passed) ((v, n) ∷ m))
          (max_from-Wins (before ++ best ∷ passed) [] m (v, n)
            (All-append (AtMost n) before (best ∷ passed) (AtMost-mono best.1 n before le hb)
              (le, Less-AtMost best.1 n passed le hp))
            tt))
]

-- The wallet that `select_winning_wallet` names has contributed, and nobody has delivered more steps;
-- of several with the most it is the last in the order of the wallets. It names none exactly if there
-- are no contributions.
pub select_winning_wallet-Wins : (m : Map Text ℕ) → Wins m (select_winning_wallet m)
unfolding select_winning_wallet
select_winning_wallet-Wins [] = refl
select_winning_wallet-Wins (entry ∷ m) = max_from-Wins [] [] m entry tt tt
