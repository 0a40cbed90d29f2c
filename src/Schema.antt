-- ===== src/Schema.antt =====
-- core/schema_manager.h and core/schema_manager.cpp: the schemas of every object type and version.
-- The lock makes each method one step, so a method is a function on the table.
pub mod Versions
mod Tests
use wasm_hot.Base.{
  ℕ, ◌≡◌, refl, [], ◌∷◌, List, Option, none, some, Bool, false, true, arith, String, ltb, max, ◌==◌,
  ◌&&◌, if◌then◌else◌, nat_key,
}
use wasm_hot.Dict.{Dict, find, assign, find-assign}

pub data FieldType : Type 0 where
  int32 int64 float double bool string bytes object_ref : FieldType

pub record FieldDef : Type 0 where
  pub name : String
  pub field_type : FieldType
  pub offset : ℕ
  pub size : ℕ

pub record Schema : Type 0 where
  pub version : ℕ
  pub object_type : ℕ
  pub fields : List FieldDef
  pub total_size : ℕ

-- object_type -> (version -> Schema)
pub record SchemaManager : Type 0 where
  pub schemas : Dict ℕ (Dict ℕ Schema)

-- What `schemas_[key]` refers to: a missing entry is made empty first.
abbrev pub slot : {V : Type 0} → Option (Dict ℕ V) → Dict ℕ V
slot none = []
slot (some inner) = inner

pub register_schema : SchemaManager → Schema → SchemaManager
register_schema m s = record m {
  schemas =
      assign s.object_type (assign s.version s (slot (find s.object_type m.schemas))) m.schemas;
}

pub get_schema : SchemaManager → ℕ → ℕ → Option Schema
get_schema m object_type version = elim (find object_type m.schemas) [
  | none ↦ none
  | some inner ↦ find version inner
]

-- The loop over the versions of one object type.
latest_of : ℕ → Dict ℕ Schema → ℕ
latest_of latest [] = latest
latest_of latest ((version, _) ∷ rest) = latest_of (max version latest) rest

pub get_latest_version : SchemaManager → ℕ → Option ℕ
get_latest_version m object_type = elim (find object_type m.schemas) [
  | none ↦ none
  | some inner ↦ let latest = latest_of 0 inner in if ltb 0 latest then some latest else none
]

-- After a registration, the registered pair of type and version yields the new schema, and every
-- other pair yields what it yielded before.
pub get_schema-register_schema :
    (m : SchemaManager) (s : Schema) (object_type version : ℕ)
    → get_schema (register_schema m s) object_type version ≡ (
        if s.object_type == object_type && s.version == version
        then some s
        else get_schema m object_type version)
unfolding get_schema register_schema find
get_schema-register_schema m s object_type version =
    let inner = slot (find s.object_type m.schemas) in
    ground (
      arith,
      find-assign s.object_type object_type (assign s.version s inner) m.schemas,
      find-assign s.version version s inner,
    )
