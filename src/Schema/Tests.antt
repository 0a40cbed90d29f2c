-- ===== src/Schema/Tests.antt =====
-- Runs of the schema manager, and the theorems at concrete tables.
use wasm_hot.Base.{◌↔◌, ℕ, ◌≡◌, ◌≤◌, ◌<◌, refl, [], none, some, true, is_some}
use wasm_hot.Schema.{
  Schema, SchemaManager, register_schema, get_schema, get_latest_version, latest_of,
}
use wasm_hot.Schema.Versions.{get_latest_version-some, get_latest_version-none}

abbrev room : ℕ → Schema
room version = record { version = version; object_type = 7; fields = []; total_size = 16 }

abbrev no_schemas : SchemaManager
no_schemas = record { schemas = [] }

abbrev two_versions : SchemaManager
unfolding register_schema
two_versions = register_schema (register_schema no_schemas (room 3)) (room 1)

latest_is_three : get_latest_version two_versions 7 ≡ some 3
unfolding get_latest_version register_schema latest_of wasm_hot.Dict.find wasm_hot.Dict.assign
latest_is_three = refl

unknown_type : get_latest_version two_versions 8 ≡ none
unfolding get_latest_version register_schema wasm_hot.Dict.find wasm_hot.Dict.assign
unknown_type = refl

get_latest_version-some_run :
    (0 < 3)
    × (is_some (get_schema two_versions 7 3) ≡ true)
    × ((w : ℕ) → is_some (get_schema two_versions 7 w) ≡ true → w ≤ 3)
get_latest_version-some_run = get_latest_version-some two_versions 7 3 latest_is_three

-- The default version, 0, is known and yet not reported.
get_latest_version-none_run :
    (get_latest_version (register_schema no_schemas (room 0)) 7 ≡ none)
    ↔ ((w : ℕ) → is_some (get_schema (register_schema no_schemas (room 0)) 7 w) ≡ true → w ≡ 0)
get_latest_version-none_run = get_latest_version-none (register_schema no_schemas (room 0)) 7

version_zero :
    (get_latest_version (register_schema no_schemas (room 0)) 7 ≡ none)
    × (get_schema (register_schema no_schemas (room 0)) 7 0 ≡ some (room 0))
unfolding get_latest_version register_schema get_schema latest_of wasm_hot.Dict.find
    wasm_hot.Dict.assign
version_zero = (refl, refl)
