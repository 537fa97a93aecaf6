-- ===== src/Gguf/Fuel.antt =====
-- The fuel of `parse_gguf_tensor_infos` (src/opoi/expert_vram.rs) is enough for any bytes.
use cs_stratum_bridge.Base.{
  ℕ, zero, suc, ◌≤◌, ◌<◌, ◌≢◌, ltb, ◌||◌, if◌then◌else◌, Bool, true, false, List, [], ◌∷◌, Text,
  codes, text_key, ◌=ₖ◌, Map, insert, length, arith,
}
use cs_stratum_bridge.Gguf.{
  Parsed, ok, failed, out_of_fuel, Parser, fail, invalid, implausible_counts, continue, ◌>>=◌,
  read_exact_or_incomplete, read_u32, read_u64, header_prefix_cap_bytes,
  max_metadata_or_tensor_count,
}
use cs_stratum_bridge.Gguf.Header.{
  GgufTensorInfo, read_string_bytes, ValueKind, scalar, string, array, unknown, kind_of, skip_times,
  skip_kind, skip_metadata_value, skip_pair, read_dims, read_info, read_infos, read_tables,
  parse_header, drop_rest, parse_gguf_tensor_infos,
}

-- The parser ends, and leaves at most so many bytes.
abbrev pub Leaves : {A : Type 0} → ℕ → Parsed (A × List ℕ) → Type 0
Leaves n (ok (a, rest)) = length rest ≤ n
Leaves n (failed e) = Unit {0}
Leaves n out_of_fuel = ⊥

continue-Leaves :
    {A B : Type 0} (n m : ℕ) (r : Parsed (A × List ℕ)) (f : A → Parser B)
    → Leaves n r
    → ((a : A) (bs : List ℕ) → length bs ≤ n → Leaves m (f a bs))
    → Leaves m (continue r f)
continue-Leaves n m (ok (a, bs)) f h k = k a bs h
continue-Leaves n m (failed e) f h k = tt
continue-Leaves n m out_of_fuel f h k = h

Leaves-mono : {A : Type 0} (n m : ℕ) (r : Parsed (A × List ℕ)) → n ≤ m → Leaves n r → Leaves m r
Leaves-mono n m (ok (a, bs)) le h = omega arith
Leaves-mono n m (failed e) le h = tt
Leaves-mono n m out_of_fuel le h = h

-- A test before a parser.
if-Leaves :
    {A : Type 0} (n : ℕ) (b : Bool) (p q : Parser A) (bs : List ℕ)
    → Leaves n (p bs)
    → Leaves n (q bs)
    → Leaves n ((if b then p else q) bs)
if-Leaves n true p q bs h k = h
if-Leaves n false p q bs h k = k

read_exact-Leaves : (n : ℕ) (bs : List ℕ) → Leaves (length bs) (read_exact_or_incomplete n bs)
unfolding read_exact_or_incomplete
read_exact-Leaves zero bs = omega arith
read_exact-Leaves (suc n) [] = tt
read_exact-Leaves (suc n) (b ∷ bs) =
    continue-Leaves (length bs) (suc (length bs)) (read_exact_or_incomplete n bs) _
      (read_exact-Leaves n bs) (λ a rest h. omega arith)

-- Four bytes at least are taken.
read_u32-Leaves : (m : ℕ) (bs : List ℕ) → length bs ≤ suc m → Leaves m (read_u32 bs)
unfolding read_u32 read_exact_or_incomplete
read_u32-Leaves m [] h = tt
read_u32-Leaves m (a ∷ []) h = tt
read_u32-Leaves m (a ∷ b ∷ []) h = tt
read_u32-Leaves m (a ∷ b ∷ c ∷ []) h = tt
read_u32-Leaves m (a ∷ b ∷ c ∷ d ∷ bs) h = omega arith

read_u64-Leaves : (bs : List ℕ) → Leaves (length bs) (read_u64 bs)
unfolding read_u64
read_u64-Leaves bs =
    continue-Leaves (length bs) (length bs) (read_exact_or_incomplete 8 bs) _
      (read_exact-Leaves 8 bs) (λ a rest h. h)

read_string-Leaves : (bs : List ℕ) → Leaves (length bs) (read_string_bytes bs)
unfolding read_string_bytes
read_string-Leaves bs =
    continue-Leaves (length bs) (length bs) (read_u64 bs) _ (read_u64-Leaves bs) (λ len rest h.
      if-Leaves (length bs) (ltb header_prefix_cap_bytes len) _ (read_exact_or_incomplete len) rest
        tt
        (Leaves-mono (length rest) (length bs) (read_exact_or_incomplete len rest) h
          (read_exact-Leaves len rest)))

skip_times-Leaves :
    (n m : ℕ) (p : Parser (Unit {0}))
    → ((bs : List ℕ) → length bs ≤ m → Leaves (length bs) (p bs))
    → (bs : List ℕ) → length bs ≤ m
    → Leaves (length bs) (skip_times n p bs)
unfolding skip_times
skip_times-Leaves zero m p h bs le = omega arith
skip_times-Leaves (suc n) m p h bs le =
    continue-Leaves (length bs) (length bs) (p bs) _ (h bs le) (λ a rest le'.
      Leaves-mono (length rest) (length bs) (skip_times n p rest) le'
        (skip_times-Leaves n m p h rest (omega arith)))

-- An element's call is made on fewer bytes than the array has.
skip_kind-Leaves :
    (m : ℕ) (skip : ℕ → Parser (Unit {0})) (vtype : ℕ) (kind : ValueKind)
    → ((t : ℕ) (bs : List ℕ) → length bs < m → Leaves (length bs) (skip t bs))
    → (bs : List ℕ) → length bs ≤ m
    → Leaves (length bs) (skip_kind skip vtype kind bs)
unfolding read_u32 read_exact_or_incomplete
skip_kind-Leaves m skip vtype (scalar width) h bs le =
    continue-Leaves (length bs) (length bs) (read_exact_or_incomplete width bs) _
      (read_exact-Leaves width bs) (λ a rest l. l)
skip_kind-Leaves m skip vtype string h bs le =
    continue-Leaves (length bs) (length bs) (read_string_bytes bs) _ (read_string-Leaves bs)
      (λ a rest l. l)
skip_kind-Leaves m skip vtype unknown h bs le = tt
skip_kind-Leaves m skip vtype array h [] le = tt
skip_kind-Leaves m skip vtype array h (b ∷ bs) le =
    let n : ℕ = length bs in
    continue-Leaves n (suc n) (read_u32 (b ∷ bs)) _ (read_u32-Leaves n (b ∷ bs) (omega arith))
      (λ elem_type rest l.
        continue-Leaves (length rest) (suc n) (read_u64 rest) _ (read_u64-Leaves rest)
          (λ len rest' l'.
            if-Leaves (suc n) (ltb max_metadata_or_tensor_count len) _
              (skip_times len (skip elem_type)) rest' tt
              (Leaves-mono (length rest') (suc n) (skip_times len (skip elem_type) rest')
                (omega arith)
                (skip_times-Leaves len n (skip elem_type) (λ bs' le'. h elem_type bs' (omega arith))
                  rest' (omega arith)))))

skip_value-Leaves :
    (fuel vtype : ℕ) (bs : List ℕ)
    → length bs < fuel
    → Leaves (length bs) (skip_metadata_value fuel vtype bs)
unfolding skip_metadata_value
skip_value-Leaves zero vtype bs le = absurd (omega arith)
skip_value-Leaves (suc fuel) vtype bs le =
    skip_kind-Leaves fuel (skip_metadata_value fuel) vtype (kind_of vtype)
      (λ t bs' l. skip_value-Leaves fuel t bs' l) bs (omega arith)

skip_pair-Leaves :
    (fuel : ℕ) (bs : List ℕ) → length bs < fuel → Leaves (length bs) (skip_pair fuel bs)
unfolding skip_pair
skip_pair-Leaves fuel bs le =
    continue-Leaves (length bs) (length bs) (read_string_bytes bs) _ (read_string-Leaves bs)
      (λ key rest l.
        continue-Leaves (length rest) (length bs) (read_u32 rest) _
          (read_u32-Leaves (length rest) rest (omega arith))
          (λ vtype rest' l'.
            Leaves-mono (length rest') (length bs) (skip_metadata_value fuel vtype rest')
              (omega arith) (skip_value-Leaves fuel vtype rest' (omega arith))))

read_dims-Leaves : (n : ℕ) (bs : List ℕ) → Leaves (length bs) (read_dims n bs)
unfolding read_dims
read_dims-Leaves zero bs = omega arith
read_dims-Leaves (suc n) bs =
    continue-Leaves (length bs) (length bs) (read_u64 bs) _ (read_u64-Leaves bs) (λ d rest l.
      continue-Leaves (length rest) (length bs) (read_dims n rest) _ (read_dims-Leaves n rest)
        (λ ds rest' l'. omega arith))

module _ (from_utf8_lossy : List ℕ → Text) where
  read_info-Leaves : (bs : List ℕ) → Leaves (length bs) (read_info from_utf8_lossy bs)
  unfolding read_info
  read_info-Leaves bs =
      continue-Leaves (length bs) (length bs) (read_string_bytes bs) _ (read_string-Leaves bs)
        (λ name rest l.
          continue-Leaves (length rest) (length bs) (read_u32 rest) _
            (read_u32-Leaves (length rest) rest (omega arith))
            (λ n_dims rest' l'.
              if-Leaves (length bs) (ltb max_metadata_or_tensor_count n_dims) _ _ rest' tt (
                continue-Leaves (length rest') (length bs) (read_dims n_dims rest') _
                  (read_dims-Leaves n_dims rest')
                  (λ dims r l2.
                    continue-Leaves (length r) (length bs) (read_u32 r) _
                      (read_u32-Leaves (length r) r (omega arith))
                      (λ ggml_type r' l3.
                        continue-Leaves (length r') (length bs) (read_u64 r') _ (read_u64-Leaves r')
                          (λ offset r'' l4. omega arith))))))

  read_infos-Leaves :
      (n : ℕ) (infos : Map Text GgufTensorInfo) (bs : List ℕ)
      → Leaves (length bs) (read_infos from_utf8_lossy n infos bs)
  unfolding read_infos
  read_infos-Leaves zero infos bs = omega arith
  read_infos-Leaves (suc n) infos bs =
      continue-Leaves (length bs) (length bs) (read_info from_utf8_lossy bs) _ (read_info-Leaves bs)
        (λ entry rest l.
          Leaves-mono (length rest) (length bs)
            (read_infos from_utf8_lossy n (insert entry.0 entry.1 infos) rest) l
            (read_infos-Leaves n (insert entry.0 entry.1 infos) rest))

  read_tables-Leaves :
      (fuel tensor_count kv_count : ℕ) (bs : List ℕ)
      → length bs < fuel
      → Leaves (length bs) (read_tables from_utf8_lossy fuel tensor_count kv_count bs)
  read_tables-Leaves fuel tensor_count kv_count bs le =
      if-Leaves (length bs)
        (ltb max_metadata_or_tensor_count tensor_count || ltb max_metadata_or_tensor_count kv_count)
        (fail (invalid (implausible_counts tensor_count kv_count)))
        (skip_times kv_count (skip_pair fuel) >>= λ _. read_infos from_utf8_lossy tensor_count [])
        bs tt
        (continue-Leaves (length bs) (length bs) (skip_times kv_count (skip_pair fuel) bs) _
          (skip_times-Leaves kv_count (length bs) (skip_pair fuel)
            (λ bs' le'. skip_pair-Leaves fuel bs' (omega arith)) bs (omega arith))
          (λ a rest l.
            Leaves-mono (length rest) (length bs) (read_infos from_utf8_lossy tensor_count [] rest)
              l (read_infos-Leaves tensor_count [] rest)))

  parse_header-Leaves :
      (fuel : ℕ) (bs : List ℕ)
      → length bs < fuel
      → Leaves (length bs) (parse_header from_utf8_lossy fuel bs)
  unfolding parse_header
  parse_header-Leaves fuel bs le =
      continue-Leaves (length bs) (length bs) (read_exact_or_incomplete 4 bs) _
        (read_exact-Leaves 4 bs)
        (λ magic rest l.
          if-Leaves (length bs) (magic =ₖ codes "GGUF") _ _ rest
            (continue-Leaves (length rest) (length bs) (read_u32 rest) _
              (read_u32-Leaves (length rest) rest (omega arith))
              (λ version r l1.
                continue-Leaves (length r) (length bs) (read_u64 r) _ (read_u64-Leaves r)
                  (λ tensor_count r' l2.
                    continue-Leaves (length r') (length bs) (read_u64 r') _ (read_u64-Leaves r')
                      (λ kv_count r'' l3.
                        Leaves-mono (length r'') (length bs)
                          (read_tables from_utf8_lossy fuel tensor_count kv_count r'') (omega arith)
                          (read_tables-Leaves fuel tensor_count kv_count r'' (omega arith))))))
            tt)

  drop_rest-ne-out_of_fuel :
      (n : ℕ) (r : Parsed (Map Text GgufTensorInfo × List ℕ))
      → Leaves n r
      → drop_rest from_utf8_lossy r ≢ out_of_fuel
  drop_rest-ne-out_of_fuel n (ok (infos, rest)) h e = cc
  drop_rest-ne-out_of_fuel n (failed x) h e = cc
  drop_rest-ne-out_of_fuel n out_of_fuel h e = h

  -- The recursion of the parser into arrays of arrays is never deeper than the bytes are many, so that one
  -- level of recursion for each byte and one more, the fuel, is enough to reach a table or an error on any
  -- bytes. That the call stack holds so many levels is not stated.
  pub parse_gguf_tensor_infos-ne-out_of_fuel :
      (bytes : List ℕ) → parse_gguf_tensor_infos from_utf8_lossy bytes ≢ out_of_fuel
  unfolding parse_gguf_tensor_infos
  parse_gguf_tensor_infos-ne-out_of_fuel bytes =
      drop_rest-ne-out_of_fuel (length bytes)
        (parse_header from_utf8_lossy (suc (length bytes)) bytes)
        (parse_header-Leaves (suc (length bytes)) bytes (omega arith))
