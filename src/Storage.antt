-- ===== src/Storage.antt =====
-- core/component_storage.h and core/component_storage.cpp: the bytes of every component.
-- Each call runs alone here, between others.
pub mod Lookup
pub mod Refinement
pub mod Threads
pub mod Unordered
mod Tests
use wasm_hot.Base.{
  ℕ, [], Option, none, some, Bool, true, false, length, ◌==◌, if◌then◌else◌, is_some, nat_key,
}
use wasm_hot.Bytes.{Bytes}
use wasm_hot.Dict.{Dict, find, assign, erase}
use wasm_hot.Schema.{Schema}

-- ComponentType is uint32_t.
abbrev pub ComponentType : Type 0
ComponentType = ℕ

abbrev pub ComponentData : Type 0
ComponentData = Bytes

abbrev pub ObjectComponents : Type 0
ObjectComponents = Dict ComponentType ComponentData

pub record ComponentStorage : Type 0 where
  pub store : Dict ℕ ObjectComponents

-- The callback's result is the result; `none` stands for the null pointer.
unfoldable pub read {ℓ} :
    {A : Type ℓ} → ComponentStorage → ℕ → ComponentType → (Option ComponentData → A) → A
read s object_id type callback = elim (find object_id s.store) [
  | none ↦ callback none
  | some components ↦ callback (find type components)
]

-- The slot that a write works on: the one that is there, or a new one.
abbrev pub slot_of : Option ObjectComponents → ObjectComponents
slot_of none = []
slot_of (some components) = components

unfoldable pub write : ComponentStorage → ℕ → ComponentType → ComponentData → ComponentStorage
write s object_id type bytes = record s {
  store = assign object_id (assign type bytes (slot_of (find object_id s.store))) s.store;
}

unfoldable pub write_with_schema :
    ComponentStorage → ℕ → ComponentType → Schema → ComponentData → Bool × ComponentStorage
write_with_schema s object_id type schema bytes =
    if length bytes == schema.total_size then (true, write s object_id type bytes) else (false, s)

unfoldable pub remove : ComponentStorage → ℕ → ComponentType → Bool × ComponentStorage
remove s object_id type = elim (find object_id s.store) [
  | none ↦ (false, s)
  | some components ↦ (
    is_some (find type components),
    record s { store = assign object_id (erase type components) s.store },
  )
]

unfoldable pub remove_all : ComponentStorage → ℕ → ComponentStorage
remove_all s object_id = elim (find object_id s.store) [
  | none ↦ s
  | some components ↦ record s { store = erase object_id s.store }
]
