-- ===== src/Object/Tests.antt =====
-- Deltas as bytes, accepted and refused.
use wasm_hot.Base.{◌≡◌, ◌⊎◌, refl, [], ◌∷◌, true, false, arith}
use wasm_hot.Bytes.{Bytes, IsBytes, from_le, read_u32, to_le}
use wasm_hot.Storage
use wasm_hot.Storage.{ComponentStorage}
use wasm_hot.Object.{GameObject, apply_output_delta}
use wasm_hot.Object.Delta.{
  encode_delta, IsDelta, apply_output_delta-encode_delta, apply_output_delta_lem,
}

abbrev empty : ComponentStorage
empty = record { store = [] }

abbrev room : GameObject
room = record {
  header = record { schema_version = 1; object_type = 7; object_id = 5 };
  attached = true;
}

-- The magic reads "WASM" in memory.
magic_bytes : encode_delta 2 (9 ∷ []) ≡ 87 ∷ 65 ∷ 83 ∷ 77 ∷ 2 ∷ 0 ∷ 0 ∷ 0 ∷ 9 ∷ []
unfolding encode_delta to_le
magic_bytes = refl

abbrev broken : Bytes
broken = 87 ∷ 65 ∷ 83 ∷ 78 ∷ 2 ∷ 0 ∷ 0 ∷ 0 ∷ 9 ∷ []

broken_refused : (apply_output_delta room empty broken).0 ≡ false
unfolding apply_output_delta read_u32 from_le
broken_refused = refl

apply_output_delta-encode_delta_run :
    apply_output_delta room empty (encode_delta 2 (9 ∷ []))
    ≡ (true, Storage.write empty 5 2 (9 ∷ []))
apply_output_delta-encode_delta_run =
    apply_output_delta-encode_delta room empty 2 (9 ∷ []) refl (omega arith)

broken-IsBytes : IsBytes broken
broken-IsBytes = ground arith

apply_output_delta_lem_example :
    (((apply_output_delta room empty broken).0 ≡ true) × IsDelta broken)
    ⊎ (((apply_output_delta room empty broken).0 ≡ false)
        × ((apply_output_delta room empty broken).1 ≡ empty)
        × ¬ (IsDelta broken))
apply_output_delta_lem_example = apply_output_delta_lem room empty broken broken-IsBytes
