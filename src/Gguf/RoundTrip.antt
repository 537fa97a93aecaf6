-- ===== src/Gguf/RoundTrip.antt =====
-- The header that `parse_gguf_tensor_infos` of src/opoi/expert_vram.rs reads is the one that was laid
-- out.
use cs_stratum_bridge.Base.{
  ℕ, suc, ◌+◌, ◌≤◌, ◌≡◌, refl, ap, ◌∙◌, List, [], ◌∷◌, ◌++◌, Text, codes, text_key, Text-discrete,
  ℕ_discrete, Map, insert, length, length-append, append_assoc, All, arith,
}
use cs_stratum_bridge.Gguf.{
  Parsed, ok, continue, read_exact_or_incomplete, max_metadata_or_tensor_count,
}
use cs_stratum_bridge.Gguf.Header.{
  GgufTensorInfo, skip_times, skip_pair, read_dims, read_info, read_infos, read_tables,
  parse_header, drop_rest, parse_gguf_tensor_infos,
}
use cs_stratum_bridge.Gguf.Print.{
  le4, le8, tag, put_string, put_value, Pair, Tensor, Header, put_pairs, put_dims, put_tensors,
  put_header, IsPair, IsU64, IsTensor, IsHeader, table,
}
use cs_stratum_bridge.Gguf.Skip.{
  read_exact-append, read_u32-le4, read_u64-le8, read_string-put, skip_value-put, ltb-false,
}

skip_pair-put :
    (p : Pair) (fuel : ℕ) (rest : List ℕ)
    → IsPair p
    → length (put_value p.meta) ≤ fuel
    → skip_pair (suc fuel) (put_string p.key ++ (le4 (tag p.meta) ++ (put_value p.meta ++ rest)))
      ≡ ok (tt, rest)
unfolding skip_pair
skip_pair-put p fuel rest (hk, ht, hv) l =
    rw
      (
        read_string-put p.key (le4 (tag p.meta) ++ (put_value p.meta ++ rest)) hk,
        read_u32-le4 (tag p.meta) (put_value p.meta ++ rest) ht,
      )
      (skip_value-put p.meta fuel rest hv l)

read_dims-put :
    (ds rest : List ℕ) → All IsU64 ds → read_dims (length ds) (put_dims ds ++ rest) ≡ ok (ds, rest)
unfolding read_dims put_dims
read_dims-put [] rest h = refl
read_dims-put (d ∷ ds) rest (hd, hs) =
    rw (read_u64-le8 d (put_dims ds ++ rest) hd, read_dims-put ds rest hs) refl

pairs-put :
    (ps : List Pair) (fuel : ℕ) (rest : List ℕ)
    → All IsPair ps
    → length (put_pairs ps) ≤ fuel
    → skip_times (length ps) (skip_pair (suc fuel)) (put_pairs ps ++ rest) ≡ ok (tt, rest)
unfolding put_pairs skip_times
pairs-put [] fuel rest h l = refl
pairs-put (p ∷ ps) fuel rest (hp, hs) l =
    let split : put_pairs (p ∷ ps) ++ rest
        ≡ put_string p.key ++ (le4 (tag p.meta) ++ (put_value p.meta ++ (put_pairs ps ++ rest))) =
      simp append_assoc in
    let long : length (put_pairs (p ∷ ps))
        ≡ 8 + length p.key + (4 + (length (put_value p.meta) + length (put_pairs ps))) =
      omega (
        arith,
        length-append p.key (le4 (tag p.meta) ++ (put_value p.meta ++ put_pairs ps)),
        length-append (put_value p.meta) (put_pairs ps),
      ) in
    ap
      (λ (bs : List ℕ).
        continue (skip_pair (suc fuel) bs) (λ _. skip_times (length ps) (skip_pair (suc fuel))))
      split
    ∙ ap
        (λ (r : Parsed (Unit {0} × List ℕ)).
          continue r (λ _. skip_times (length ps) (skip_pair (suc fuel))))
        (skip_pair-put p fuel (put_pairs ps ++ rest) hp (omega arith))
    ∙ pairs-put ps fuel rest hs (omega arith)

module _ (from_utf8_lossy : List ℕ → Text) where
  read_info-put :
      (t : Tensor) (rest : List ℕ)
      → IsTensor t
      → read_info from_utf8_lossy (
          put_string t.name
          ++ (le4 (length t.info.dims)
              ++ (put_dims t.info.dims ++ (le4 t.info.ggml_type ++ (le8 t.offset ++ rest)))))
        ≡ ok ((from_utf8_lossy t.name, t.info), rest)
  unfolding read_info
  read_info-put t rest (hn, hc, hd, ht, ho) =
      let after_type : List ℕ = le8 t.offset ++ rest in
      let after_dims : List ℕ = le4 t.info.ggml_type ++ after_type in
      let after_count : List ℕ = put_dims t.info.dims ++ after_dims in
      rw
        (
          read_string-put t.name (le4 (length t.info.dims) ++ after_count) hn,
          read_u32-le4 (length t.info.dims) after_count (omega arith),
          ltb-false max_metadata_or_tensor_count (length t.info.dims) hc,
          read_dims-put t.info.dims after_dims hd,
          read_u32-le4 t.info.ggml_type after_type ht,
          read_u64-le8 t.offset rest ho,
        )
        refl

  tensors-put :
      (ts : List Tensor) (infos : Map Text GgufTensorInfo) (rest : List ℕ)
      → All IsTensor ts
      → read_infos from_utf8_lossy (length ts) infos (put_tensors ts ++ rest)
        ≡ ok (table from_utf8_lossy ts infos, rest)
  unfolding put_tensors read_infos table
  tensors-put [] infos rest h = refl
  tensors-put (t ∷ ts) infos rest (ht, hs) =
      let split : put_tensors (t ∷ ts) ++ rest
          ≡ put_string t.name
            ++ (le4 (length t.info.dims)
                ++ (put_dims t.info.dims
                    ++ (le4 t.info.ggml_type ++ (le8 t.offset ++ (put_tensors ts ++ rest))))) =
        simp append_assoc in
      let go : Parsed ((Text × GgufTensorInfo) × List ℕ)
          → Parsed (Map Text GgufTensorInfo × List ℕ) =
        λ r.
          continue r
            (λ entry. read_infos from_utf8_lossy (length ts) (insert entry.0 entry.1 infos)) in
      ap (λ (bs : List ℕ). go (read_info from_utf8_lossy bs)) split
      ∙ ap go (read_info-put t (put_tensors ts ++ rest) ht)
      ∙ tensors-put ts (insert (from_utf8_lossy t.name) t.info infos) rest hs

  tables-put :
      (h : Header) (fuel : ℕ) (rest : List ℕ)
      → IsHeader h
      → length (put_pairs h.pairs) ≤ fuel
      → read_tables from_utf8_lossy
          (suc fuel)
          (length h.tensors)
          (length h.pairs)
          (put_pairs h.pairs ++ (put_tensors h.tensors ++ rest))
        ≡ ok (table from_utf8_lossy h.tensors [], rest)
  tables-put h fuel rest i l =
      rw
        (
          ltb-false max_metadata_or_tensor_count (length h.tensors) i.tensor_count,
          ltb-false max_metadata_or_tensor_count (length h.pairs) i.pair_count,
          pairs-put h.pairs fuel (put_tensors h.tensors ++ rest) i.pairs l,
        )
        (tensors-put h.tensors [] rest i.tensors)

  magic_read :
      (rest : List ℕ) → read_exact_or_incomplete 4 (codes "GGUF" ++ rest) ≡ ok (codes "GGUF", rest)
  magic_read rest = read_exact-append (codes "GGUF") rest

  header-put :
      (h : Header) (fuel : ℕ) (rest : List ℕ)
      → IsHeader h
      → parse_header from_utf8_lossy fuel (
          codes "GGUF"
          ++ (le4 h.version ++ (le8 (length h.tensors) ++ (le8 (length h.pairs) ++ rest))))
        ≡ read_tables from_utf8_lossy fuel (length h.tensors) (length h.pairs) rest
  unfolding parse_header Text-discrete ℕ_discrete
  header-put h fuel rest i =
      let after_tensors : List ℕ = le8 (length h.pairs) ++ rest in
      let after_version : List ℕ = le8 (length h.tensors) ++ after_tensors in
      rw
        (
          magic_read (le4 h.version ++ after_version),
          read_u32-le4 h.version after_version i.version,
          read_u64-le8 (length h.tensors) after_tensors (omega (arith, i.tensor_count)),
          read_u64-le8 (length h.pairs) rest (omega (arith, i.pair_count)),
        )
        refl

  -- The header that the reader takes from the bytes of a header, whatever follows them, is the table of
  -- its tensors: every pair of the metadata is skipped to its end, arrays in arrays included. Provided
  -- that the counts and lengths are within the reader's caps and the numbers within their widths.
  pub parse_gguf_tensor_infos-put_header :
      (h : Header) (rest : List ℕ)
      → IsHeader h
      → parse_gguf_tensor_infos from_utf8_lossy (put_header h ++ rest)
        ≡ ok (table from_utf8_lossy h.tensors [])
  unfolding parse_gguf_tensor_infos parse_header put_header
  parse_gguf_tensor_infos-put_header h rest i =
      let body : List ℕ = put_pairs h.pairs ++ put_tensors h.tensors in
      let fuel : ℕ = length (put_header h ++ rest) in
      let long : length (body ++ rest)
          ≡ length (put_pairs h.pairs) + length (put_tensors h.tensors) + length rest =
        length-append body rest
        ∙ ap (λ (n : ℕ). n + length rest)
            (length-append (put_pairs h.pairs) (put_tensors h.tensors)) in
      ap (drop_rest from_utf8_lossy) (
        header-put h (suc fuel) (body ++ rest) i
        ∙ ap (read_tables from_utf8_lossy (suc fuel) (length h.tensors) (length h.pairs))
            (append_assoc (put_pairs h.pairs) (put_tensors h.tensors) rest)
        ∙ tables-put h fuel rest i (omega (arith, long)))
