-- ===== src/Experts/Combine.antt =====
-- `combine_weighted` of src/opoi/expert_dispatch.rs: the sum of the experts' outputs, weighted by the
-- router. The arithmetic on `f32` is the machine's, and a hexadecimal text is a library's.
use cs_stratum_bridge.Base.{
  ℕ, zero, suc, ◌*◌, ◌==◌, ◌%◌, if◌then◌else◌, Text, text_key, ◌=ₖ◌, Option, none, some, List, [],
  ◌∷◌, length,
}
use cs_stratum_bridge.Bytes.{encode_tokens}
use cs_stratum_bridge.Audit.{ids_of}
use cs_stratum_bridge.Wire.{ShardOutputWire, OpoiExpertResult}

pub record F32 : Type 0 where
  pub add : ℕ → ℕ → ℕ
  pub mul : ℕ → ℕ → ℕ

pub data DispatchErr : Type 0 where
  no_experts no_outputs : DispatchErr
  outside_range : ℕ → ℕ → ℕ → DispatchErr
  no_eligible_host no_remaining_host : ℕ → DispatchErr
  exhausted : ℕ → DispatchErr
  not_connected closed dropped timed_out : Text → DispatchErr
  not_hex : DispatchErr
  odd_length : ℕ → DispatchErr
  shape_mismatch length_mismatch : ℕ → DispatchErr

pub data Tried {ℓ} (A : Type ℓ) : Type ℓ where
  done : A → Tried A
  failure : DispatchErr → Tried A

-- Four bytes each, as for the tokens.
abbrev pub f32_to_le_bytes : List ℕ → List ℕ
f32_to_le_bytes values = encode_tokens values

unfoldable pub f32_to_hex : (List ℕ → Text) → List ℕ → Text
f32_to_hex hex_encode values = hex_encode (f32_to_le_bytes values)

abbrev pub floats_of : Option (List ℕ) → Tried (List ℕ)
floats_of none = failure not_hex
floats_of (some bytes) =
    if length bytes % 4 == 0 then done (ids_of bytes) else failure (odd_length (length bytes))

unfoldable pub hex_to_f32 : (Text → Option (List ℕ)) → Text → Tried (List ℕ)
hex_to_f32 hex_decode hex = floats_of (hex_decode hex)

-- `shape.iter().product()`, as a `usize` of 64 bits.
abbrev pub element_count : List ℕ → ℕ → ℕ
element_count [] n = n
element_count (d ∷ ds) n = element_count ds (n * d % 18446744073709551616)

-- `vec![0f32; n]`.
abbrev pub zeros : ℕ → List ℕ
zeros zero = []
zeros (suc n) = 0 ∷ zeros n

module _ (f32 : F32) (hex_encode : List ℕ → Text) (hex_decode : Text → Option (List ℕ)) where
  -- `*a += weight * v`, for each element.
  abbrev pub add_weighted : ℕ → List ℕ → List ℕ → List ℕ
  add_weighted weight (a ∷ acc) (v ∷ values) =
      f32.add a (f32.mul weight v) ∷ add_weighted weight acc values
  add_weighted weight [] values = []
  add_weighted weight (a ∷ acc) [] = a ∷ acc

  abbrev pub add_values : ℕ → ℕ → ℕ → List ℕ → Tried (List ℕ) → Tried (List ℕ)
  add_values expert weight expected_len acc (failure e) = failure e
  add_values expert weight expected_len acc (done values) =
      if length values == expected_len
      then done (add_weighted weight acc values)
      else failure (length_mismatch expert)

  abbrev pub add_output : List ℕ → ℕ → ℕ → OpoiExpertResult → List ℕ → Tried (List ℕ)
  add_output shape expected_len weight result acc =
      if result.output.shape =ₖ shape
      then add_values result.expert_id weight expected_len acc
          (hex_to_f32 hex_decode result.output.data_hex)
      else failure (shape_mismatch result.expert_id)

  abbrev pub and_then : Tried (List ℕ) → (List ℕ → Tried (List ℕ)) → Tried (List ℕ)
  and_then (done acc) f = f acc
  and_then (failure e) f = failure e

  unfoldable pub add_outputs : List ℕ → ℕ → List (ℕ × OpoiExpertResult) → List ℕ → Tried (List ℕ)
  add_outputs shape expected_len [] acc = done acc
  add_outputs shape expected_len ((weight, result) ∷ outcomes) acc =
      and_then (add_output shape expected_len weight result acc)
        (add_outputs shape expected_len outcomes)

  abbrev pub wire_output : List ℕ → Tried (List ℕ) → Tried ShardOutputWire
  wire_output shape (failure e) = failure e
  wire_output shape (done acc) =
      done (record { shape = shape; data_hex = f32_to_hex hex_encode acc })

  unfoldable pub combine_weighted : List (ℕ × OpoiExpertResult) → Tried ShardOutputWire
  combine_weighted [] = failure no_outputs
  combine_weighted ((weight, first) ∷ outcomes) = wire_output first.output.shape (
      add_outputs first.output.shape (element_count first.output.shape 1)
        ((weight, first) ∷ outcomes) (zeros (element_count first.output.shape 1)))
