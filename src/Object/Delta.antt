-- ===== src/Object/Delta.antt =====
-- GameObject::ApplyOutputDelta against the format of a delta, written from the encoder's side.
use wasm_hot.Base.{
  Bool-cases, ◌⊎◌, inl, inr, false, ℕ, ◌+◌, ◌≤◌, ◌<◌, ◌^◌, ◌≡◌, refl, sym, ap, ap₂, subst, ◌∙◌,
  List, [], ◌∷◌, ◌++◌, true, false, arith, length, drop, nat_key, take-append, drop-append,
  length-append,
}
use wasm_hot.Bytes.{
  Bytes, IsBytes, to_le, from_le, read_u32, length-to_le, from_le-to_le, to_le-from_le,
}
use wasm_hot.Storage
use wasm_hot.Storage.{ComponentStorage, ComponentType, ComponentData}
use wasm_hot.Object.{GameObject, object_id, g_delta_magic, apply_output_delta}

-- [magic][component type][the component's bytes]
unfoldable pub encode_delta : ComponentType → ComponentData → Bytes
encode_delta type bytes = to_le 4 g_delta_magic ++ (to_le 4 type ++ bytes)

read_magic : (type : ℕ) (bytes : Bytes) → read_u32 0 (encode_delta type bytes) ≡ g_delta_magic
unfolding read_u32 encode_delta
read_magic type bytes =
    rw (take-append (to_le 4 g_delta_magic) (to_le 4 type ++ bytes) 4 (length-to_le 4 _))
      (from_le-to_le g_delta_magic (omega arith))

drop_magic : (type : ℕ) (bytes : Bytes) → drop 4 (encode_delta type bytes) ≡ to_le 4 type ++ bytes
unfolding encode_delta
drop_magic type bytes =
    drop-append (to_le 4 g_delta_magic) (to_le 4 type ++ bytes) 4 (length-to_le 4 _)

read_type : (type : ℕ) (bytes : Bytes) → type < 2 ^ 32 → read_u32 4 (encode_delta type bytes) ≡ type
unfolding read_u32
read_type type bytes h =
    rw (drop_magic, take-append (to_le 4 type) bytes 4 (length-to_le 4 _)) (from_le-to_le type h)

drop_eight {ℓ} : {A : Type ℓ} (xs : List A) → drop 8 xs ≡ drop 4 (drop 4 xs)
drop_eight (a ∷ b ∷ c ∷ d ∷ xs) = refl
drop_eight _ = refl

drop_header : (type : ℕ) (bytes : Bytes) → drop 8 (encode_delta type bytes) ≡ bytes
drop_header type bytes =
    drop_eight (encode_delta type bytes)
    ∙ rw drop_magic (drop-append (to_le 4 type) bytes 4 (length-to_le 4 _))

length-encode_delta :
    (type : ℕ) (bytes : Bytes) → length (encode_delta type bytes) ≡ 8 + length bytes
unfolding encode_delta
length-encode_delta type bytes = omega (
  arith,
  length-append (to_le 4 g_delta_magic) (to_le 4 type ++ bytes),
  length-append (to_le 4 type) bytes,
  length-to_le 4 g_delta_magic,
  length-to_le 4 type,
)

-- A view that is attached to the storage accepts every encoded delta of a 32-bit type, and writes its
-- bytes as the component that it names, of the view's own object.
pub apply_output_delta-encode_delta :
    (obj : GameObject) (s : ComponentStorage) (type : ComponentType) (bytes : ComponentData)
    → obj.attached ≡ true
    → type < 2 ^ 32
    → apply_output_delta obj s (encode_delta type bytes)
      ≡ (true, Storage.write s (object_id obj) type bytes)
unfolding apply_output_delta
apply_output_delta-encode_delta obj s type bytes attached h = ground (
  arith,
  length-encode_delta type bytes,
  read_magic type bytes,
  read_type type bytes h,
  drop_header type bytes,
)

encode_delta-accepted :
    (obj : GameObject) (s : ComponentStorage) (type : ComponentType) (bytes : ComponentData)
    → (apply_output_delta obj s (encode_delta type bytes)).0 ≡ true
unfolding apply_output_delta
encode_delta-accepted obj s type bytes =
    ground (arith, length-encode_delta type bytes, read_magic type bytes)

from_le-lt : (a b c d : ℕ) → IsBytes (a ∷ b ∷ c ∷ d ∷ []) → from_le (a ∷ b ∷ c ∷ d ∷ []) < 2 ^ 32
unfolding from_le
from_le-lt a b c d h = omega arith

-- `output` is a delta: some component type and bytes encode to it.
abbrev pub IsDelta : Bytes → Type 0
IsDelta output = (type : ℕ) × (bytes : Bytes) × (type < 2 ^ 32) × (output ≡ encode_delta type bytes)

split-IsDelta :
    (output : Bytes)
    → IsBytes output
    → 8 ≤ length output
    → read_u32 0 output ≡ g_delta_magic
    → IsDelta output
unfolding read_u32 encode_delta
split-IsDelta (a ∷ b ∷ c ∷ d ∷ e ∷ f ∷ g ∷ h ∷ rest) k len m = (
  from_le (e ∷ f ∷ g ∷ h ∷ []),
  rest,
  from_le-lt e f g h (omega arith),
  sym (
      ap₂ (λ p q. p ++ (q ++ rest))
        (ap (to_le 4) (sym m) ∙ to_le-from_le (a ∷ b ∷ c ∷ d ∷ []) (omega arith))
        (to_le-from_le (e ∷ f ∷ g ∷ h ∷ []) (omega arith))),
)
split-IsDelta _ k len m = absurd (omega arith)

-- Bytes are either a delta and accepted, or not a delta, refused, and without effect on the storage.
pub apply_output_delta_lem :
    (obj : GameObject) (s : ComponentStorage) (output : Bytes)
    → IsBytes output
    → let r = apply_output_delta obj s output in
      ((r.0 ≡ true) × IsDelta output) ⊎ ((r.0 ≡ false) × (r.1 ≡ s) × ¬ (IsDelta output))
unfolding apply_output_delta
apply_output_delta_lem obj s output k = elim (Bool-cases (apply_output_delta obj s output).0) [
  | inl h ↦ inl (h, split-IsDelta output k (ground arith) (ground arith))
  | inr h ↦ inr (
    h,
    ground arith,
    λ (type, bytes, _, e).
        let accepted : (apply_output_delta obj s output).0 ≡ true =
          subst (λ o. (apply_output_delta obj s o).0 ≡ true) (sym e)
            (encode_delta-accepted obj s type bytes) in
        absurd (ground arith),
  )
]
