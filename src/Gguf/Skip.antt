-- ===== src/Gguf/Skip.antt =====
-- The readers of src/opoi/expert_vram.rs on what the format lays out.
use cs_stratum_bridge.Base.{
  ℕ, suc, ◌-◌, ◌+◌, ◌≤◌, ◌<◌, ◌≡◌, refl, ap, ◌∙◌, sym, subst, ltb, false, List, [], ◌∷◌, ◌++◌,
  length, length-append, append_assoc, arith,
}
use cs_stratum_bridge.Gguf.{
  Parsed, ok, Parser, continue, pure, read_exact_or_incomplete, read_u32, read_u64,
  header_prefix_cap_bytes, max_metadata_or_tensor_count,
}
use cs_stratum_bridge.Bytes.{from_le_bytes}
use cs_stratum_bridge.Gguf.Header.{
  read_string_bytes, scalar, string, array, kind_of, skip_times, skip_kind, skip_metadata_value,
}
use cs_stratum_bridge.Gguf.Print.{
  le4, le8, MetaValue, number, text, elements, MetaValues, no_values, value, tag, count, put_string,
  put_value, put_values, IsValue, AreValues, IsU64,
}

pub read_exact-append :
    (xs rest : List ℕ) → read_exact_or_incomplete (length xs) (xs ++ rest) ≡ ok (xs, rest)
unfolding read_exact_or_incomplete
read_exact-append [] rest = refl
read_exact-append (x ∷ xs) rest =
    ap (λ (r : Parsed (List ℕ × List ℕ)). continue r (λ read. pure (x ∷ read)))
      (read_exact-append xs rest)

pub read_u32-le4 :
    (v : ℕ) (rest : List ℕ) → v < 4294967296 → read_u32 (le4 v ++ rest) ≡ ok (v, rest)
unfolding read_u32 read_exact_or_incomplete
read_u32-le4 v rest h =
    let same : from_le_bytes (le4 v) ≡ v = omega arith in ap (λ (n : ℕ). ok (n, rest)) same

pub read_u64-le8 : (v : ℕ) (rest : List ℕ) → IsU64 v → read_u64 (le8 v ++ rest) ≡ ok (v, rest)
unfolding read_u64 read_exact_or_incomplete
read_u64-le8 v rest h =
    let same : from_le_bytes (le8 v) ≡ v = omega arith in ap (λ (n : ℕ). ok (n, rest)) same

pub ltb-false : (a b : ℕ) → b ≤ a → ltb a b ≡ false
ltb-false a b h = ground arith

pub read_string-put :
    (s rest : List ℕ)
    → length s ≤ header_prefix_cap_bytes
    → read_string_bytes (put_string s ++ rest) ≡ ok (s, rest)
unfolding read_string_bytes
read_string-put s rest h =
    rw
      (
        read_u64-le8 (length s) (s ++ rest) (omega arith),
        ltb-false header_prefix_cap_bytes (length s) h,
      )
      (read_exact-append s rest)

-- The reader of an array, on its head.
skip_array :
    (skip : ℕ → Parser (Unit {0})) (t : ℕ) (n : ℕ) (rest : List ℕ)
    → t < 4294967296
    → n ≤ max_metadata_or_tensor_count
    → skip_kind skip 9 array (le4 t ++ (le8 n ++ rest)) ≡ skip_times n (skip t) rest
skip_array skip t n rest ht hn =
    rw
      (
        read_u32-le4 t (le8 n ++ rest) ht,
        read_u64-le8 n rest (omega arith),
        ltb-false max_metadata_or_tensor_count n hn,
      )
      refl

kind_of_text : kind_of 8 ≡ string
unfolding kind_of
kind_of_text = refl

kind_of_array : kind_of 9 ≡ array
unfolding kind_of
kind_of_array = refl

skip_number :
    (fuel t : ℕ) (bytes rest : List ℕ)
    → kind_of t ≡ scalar (length bytes)
    → skip_metadata_value (suc fuel) t (bytes ++ rest) ≡ ok (tt, rest)
unfolding skip_metadata_value
skip_number fuel t bytes rest h = rw (h, read_exact-append bytes rest) refl

skip_text :
    (fuel : ℕ) (bytes rest : List ℕ)
    → length bytes ≤ header_prefix_cap_bytes
    → skip_metadata_value (suc fuel) 8 (put_string bytes ++ rest) ≡ ok (tt, rest)
unfolding skip_metadata_value
skip_text fuel bytes rest h = rw (kind_of_text, read_string-put bytes rest h) refl

skip_elements :
    (fuel t n : ℕ) (rest : List ℕ)
    → t < 4294967296
    → n ≤ max_metadata_or_tensor_count
    → skip_metadata_value (suc fuel) 9 (le4 t ++ (le8 n ++ rest))
      ≡ skip_times n (skip_metadata_value fuel t) rest
unfolding skip_metadata_value
skip_elements fuel t n rest ht hn =
    rw kind_of_array (skip_array (skip_metadata_value fuel) t n rest ht hn)

-- A value of the metadata is skipped to its end, whatever it is, on any fuel beyond its length.
mutual
  unfolding put_value put_values IsValue AreValues skip_times

  pub skip_value-put :
      (v : MetaValue) (fuel : ℕ) (rest : List ℕ)
      → IsValue v
      → length (put_value v) ≤ fuel
      → skip_metadata_value (suc fuel) (tag v) (put_value v ++ rest) ≡ ok (tt, rest)
  skip_value-put (number t bytes) fuel rest h l = skip_number fuel t bytes rest h.1
  skip_value-put (text bytes) fuel rest h l = skip_text fuel bytes rest h
  skip_value-put (elements t vs) fuel rest (ht, hn, hs) l =
      let e : fuel ≡ suc (fuel - 1) = omega arith in
      skip_elements fuel t (count vs) (put_values vs ++ rest) ht hn
      ∙ subst
          (λ (g : ℕ).
            skip_times (count vs) (skip_metadata_value g t) (put_values vs ++ rest) ≡ ok (tt, rest))
          (sym e) (skip_values-put vs (fuel - 1) t rest hs (omega arith))

  skip_values-put :
      (vs : MetaValues) (fuel t : ℕ) (rest : List ℕ)
      → AreValues t vs
      → length (put_values vs) ≤ fuel
      → skip_times (count vs) (skip_metadata_value (suc fuel) t) (put_values vs ++ rest)
        ≡ ok (tt, rest)
  skip_values-put no_values fuel t rest h l = refl
  skip_values-put (value v vs) fuel t rest (same, hv, hs) l =
      let long : length (put_value v ++ put_values vs)
          ≡ length (put_value v) + length (put_values vs) =
        length-append (put_value v) (put_values vs) in
      let first : skip_metadata_value (suc fuel) t ((put_value v ++ put_values vs) ++ rest)
          ≡ ok (tt, put_values vs ++ rest) =
        ap (skip_metadata_value (suc fuel) t) (append_assoc (put_value v) (put_values vs) rest)
        ∙ subst
            (λ (u : ℕ).
              skip_metadata_value (suc fuel) u (put_value v ++ (put_values vs ++ rest))
              ≡ ok (tt, put_values vs ++ rest))
            same (skip_value-put v fuel (put_values vs ++ rest) hv (omega arith)) in
      ap
        (λ (r : Parsed (Unit {0} × List ℕ)).
          continue r (λ _. skip_times (count vs) (skip_metadata_value (suc fuel) t)))
        first
      ∙ skip_values-put vs fuel t rest hs (omega arith)
