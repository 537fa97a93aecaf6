-- ===== src/Speculative/Greedy.antt =====
-- Speculative decoding commits what plain greedy decoding by the target model would.
use cs_stratum_bridge.Base.{
  ℕ, suc, zero, ◌+◌, ◌==◌, ◌≡◌, refl, ap, ◌∙◌, sym, subst, true, false, Option, none, some, List,
  [], ◌∷◌, ◌++◌, length, take, arith, Bool-cases, inl, inr, ◌≤◌, ==_iff,
}
use cs_stratum_bridge.Speculative.Round.{RoundOutcome, verify_from, greedy_verify_round}

-- The target model: the token that it puts after a context.
module _ (next : List ℕ → ℕ) where
  -- Plain greedy decoding of `n` tokens.
  abbrev pub greedy : List ℕ → ℕ → List ℕ
  greedy context zero = []
  greedy context (suc n) = next context ∷ greedy (context ++ next context ∷ []) n

  -- What one verify pass returns: the target's choice after each position of the batch.
  abbrev pub predictions : List ℕ → List ℕ → List ℕ
  predictions context [] = []
  predictions context (t ∷ ts) = next (context ++ t ∷ []) ∷ predictions (context ++ t ∷ []) ts

  length-predictions : (context ts : List ℕ) → length (predictions context ts) ≡ length ts
  length-predictions context [] = refl
  length-predictions context (t ∷ ts) = ap suc (length-predictions (context ++ t ∷ []) ts)

  -- What a round commits: the accepted drafts and the token that settles it.
  abbrev pub committed : List ℕ → RoundOutcome → List ℕ
  committed ds o = take o.accepted_count ds ++ o.settle_token ∷ []

  verify_from-greedy :
      (context ds : List ℕ) (a : ℕ)
      → (o : RoundOutcome) × (verify_from (next context) a ds (predictions context ds) ≡ some o)
        × (n : ℕ) × (o.accepted_count ≡ a + n)
        × (take n ds ++ o.settle_token ∷ [] ≡ greedy context (suc n))
        × (n ≤ length ds)
        × ((n == length ds) ≡ o.full_accept)
  unfolding verify_from
  verify_from-greedy context [] a = (
    record { accepted_count = a; settle_token = next context; full_accept = true },
    refl,
    0,
    omega arith,
    refl,
    omega arith,
    refl,
  )
  verify_from-greedy context (d ∷ ds) a = elim (Bool-cases (d == next context)) [
    | inl hit ↦
        let (o, e, n, count, tokens, within, full) =
          verify_from-greedy (context ++ d ∷ []) ds (a + 1) in
        let same : d ≡ next context = (==_iff d (next context)).0 hit in
        let tokens' : d ∷ (take n ds ++ o.settle_token ∷ []) ≡ greedy context (suc (suc n)) =
          ap (◌∷◌ d) tokens ∙ ap (λ (x : ℕ). x ∷ greedy (context ++ x ∷ []) (suc n)) same in
        (o, rw hit e, suc n, omega arith, tokens', omega arith, ground arith)
    | inr miss ↦ (
      record { accepted_count = a; settle_token = next context; full_accept = false },
      rw miss,
      0,
      omega arith,
      refl,
      omega arith,
      ground arith,
    )
  ]

  -- What a round promises, with the drafts that it checked behind a context: it commits the target's
  -- own next tokens, at most one more than were drafted, and reports whether all drafts were accepted.
  abbrev pub CommitsGreedy : List ℕ → List ℕ → Option RoundOutcome → Type 0
  CommitsGreedy context ds none = ⊥
  CommitsGreedy context ds (some o) =
      (committed ds o ≡ greedy context (o.accepted_count + 1))
      × (o.accepted_count ≤ length ds)
      × ((o.accepted_count == length ds) ≡ o.full_accept)

  verify_from-CommitsGreedy :
      (context ds : List ℕ)
      → CommitsGreedy context ds (verify_from (next context) 0 ds (predictions context ds))
  verify_from-CommitsGreedy context ds =
      let (o, e, n, count, tokens, within, full) = verify_from-greedy context ds 0 in
      let same : n ≡ o.accepted_count = omega arith in
      let same' : suc n ≡ o.accepted_count + 1 = omega arith in
      rw e (
        ap (λ (m : ℕ). take m ds ++ o.settle_token ∷ []) (sym same)
            ∙ tokens
            ∙ ap (greedy context) same',
        omega arith,
        subst (λ m. (m == length ds) ≡ o.full_accept) same full,
      )

  -- The context behind which the drafts stand, the batch that is verified, and what the round must
  -- expect at its first position when no token is carried into it.
  abbrev pub with_carry : Option ℕ → List ℕ → List ℕ
  with_carry none context = context
  with_carry (some c) context = context ++ c ∷ []

  abbrev pub batch : Option ℕ → List ℕ → List ℕ
  batch none ds = ds
  batch (some c) ds = c ∷ ds

  abbrev pub IsExpected : List ℕ → Option ℕ → ℕ → Type 0
  IsExpected context none expected0 = expected0 ≡ next context
  IsExpected context (some c) expected0 = Unit

  -- On the target's own logits for the batch, a round commits exactly the tokens that plain greedy
  -- decoding by the target would put next, whatever was drafted: the accepted drafts and one more. It
  -- never fails, and it reports a full accept exactly if every draft was accepted. Provided that the
  -- first expectation is the target's next token when nothing is carried.
  pub greedy_verify_round-CommitsGreedy :
      (context : List ℕ) (carry : Option ℕ) (expected0 : ℕ) (ds : List ℕ)
      → IsExpected context carry expected0
      → CommitsGreedy
          (with_carry carry context)
          ds
          (greedy_verify_round carry expected0 ds (predictions context (batch carry ds)))
  unfolding greedy_verify_round
  greedy_verify_round-CommitsGreedy context none expected0 ds h =
      let long : (length (predictions context ds) == length ds + 0) ≡ true =
        (==_iff _ _).1 (omega (arith, length-predictions context ds)) in
      rw (long, h) (verify_from-CommitsGreedy context ds)
  greedy_verify_round-CommitsGreedy context (some c) expected0 ds h =
      let long : (suc (length (predictions (context ++ c ∷ []) ds)) == length ds + 1) ≡ true =
        (==_iff _ _).1 (omega (arith, length-predictions (context ++ c ∷ []) ds)) in
      rw long (verify_from-CommitsGreedy (context ++ c ∷ []) ds)
