-- ===== src/Object.antt =====
-- core/object.h and core/object.cpp: the view of an object that logic plugins receive.
-- The storage that the view points to is passed to each method and returned by it.
pub mod Delta
mod Tests
use wasm_hot.Base.{
  ℕ, ◌≡◌, refl, Option, none, some, Bool, true, false, List, ltb, length, drop, ◌*◌, ◌==◌, nat_key,
  if◌then◌else◌,
}
use wasm_hot.Bytes.{Bytes, read_u32}
use wasm_hot.Schema.{Schema}
use wasm_hot.Storage
use wasm_hot.Storage.{ComponentStorage, ComponentType, ComponentData}

pub record ObjectHeader : Type 0 where
  pub schema_version : ℕ
  pub object_type : ℕ
  pub object_id : ℕ

-- `attached` is `storage != nullptr`: there is one storage, and a view points to it or to nothing.
pub record GameObject : Type 0 where
  pub header : ObjectHeader
  pub attached : Bool

abbrev pub object_id : GameObject → ℕ
object_id obj = obj.header.object_id

-- "WASM" little-endian
abbrev pub g_delta_magic : ℕ
g_delta_magic = 0x4D534157

abbrev pub sizeof_u32 : ℕ
sizeof_u32 = 4

unfoldable pub read_component {ℓ} :
    {A : Type ℓ} → GameObject → ComponentStorage → ComponentType → (Option ComponentData → A) → A
read_component obj s type callback =
    if obj.attached then Storage.read s (object_id obj) type callback else callback none

unfoldable pub write_component :
    GameObject → ComponentStorage → ComponentType → ComponentData → ComponentStorage
write_component obj s type bytes =
    if obj.attached then Storage.write s (object_id obj) type bytes else s

unfoldable pub write_component_with_schema :
    GameObject → ComponentStorage → ComponentType → Schema → ComponentData → Bool × ComponentStorage
write_component_with_schema obj s type schema bytes =
    if obj.attached
    then Storage.write_with_schema s (object_id obj) type schema bytes
    else (false, s)

unfoldable pub remove_component :
    GameObject → ComponentStorage → ComponentType → Bool × ComponentStorage
remove_component obj s type =
    if obj.attached then Storage.remove s (object_id obj) type else (false, s)

-- The tests of `ApplyOutputDelta` in the order of the code, then the write.
unfoldable pub apply_output_delta : GameObject → ComponentStorage → Bytes → Bool × ComponentStorage
unfolding write_component
apply_output_delta obj s output =
    if ltb (length output) (sizeof_u32 * 2)
    then (false, s)
    else (let magic = read_u32 0 output in
        let type = read_u32 sizeof_u32 output in
        if magic == g_delta_magic
        then (true, write_component obj s type (drop (sizeof_u32 * 2) output))
        else (false, s))
