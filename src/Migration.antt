-- ===== src/Migration.antt =====
-- core/migration_engine.h and core/migration_engine.cpp: moving an object between schema versions.
-- A migration function is handed the view and, through its pointer, the storage; it returns both.
pub mod Keys
pub mod Path
pub mod Outcome
mod Tests
use Prim.Native.Nat.{bit_or}
use wasm_hot.Base.{
  ℕ, zero, suc, ◌+◌, ◌-◌, ◌*◌, ◌%◌, ◌^◌, Option, none, some, Bool, true, false, ltb, ◌==◌, nat_key,
  if◌then◌else◌,
}
use wasm_hot.Dict.{Dict, find, assign}
use wasm_hot.Storage.{ComponentStorage}
use wasm_hot.Object.{GameObject}

-- What a migration leaves: its answer, the view and the storage.
pub record Migrated : Type 0 where
  pub ok : Bool
  pub obj : GameObject
  pub storage : ComponentStorage

abbrev pub MigrationFunc : Type 0
MigrationFunc = GameObject → ComponentStorage → ℕ → ℕ → Migrated

pub record MigrationEngine : Type 0 where
  pub migrations : Dict ℕ MigrationFunc

-- (static_cast<uint64_t>(from) << 32) | static_cast<uint64_t>(to)
unfoldable pub make_key : ℕ → ℕ → ℕ
make_key from to = bit_or (from * 2 ^ 32 % 2 ^ 64) to

unfoldable pub register : MigrationEngine → ℕ → ℕ → MigrationFunc → MigrationEngine
register e from_version to_version func = record e {
  migrations = assign (make_key from_version to_version) func e.migrations;
}

unfoldable pub find_migration : MigrationEngine → ℕ → ℕ → Option MigrationFunc
find_migration e from to = find (make_key from to) e.migrations

unfoldable pub migrate_step : MigrationEngine → GameObject → ComponentStorage → ℕ → ℕ → Migrated
migrate_step e obj s from to = elim (find_migration e from to) [
  | none ↦ record { ok = false; obj = obj; storage = s }
  | some func ↦ func obj s from to
]

-- obj.header.schema_version = current
abbrev pub stamp : GameObject → ℕ → GameObject
stamp obj version = record obj { header = record obj.header { schema_version = version } }

-- current < target ? current + 1 : current - 1, on uint32_t
unfoldable pub next_version : ℕ → ℕ → ℕ
next_version current target =
    if ltb current target then (current + 1) % 2 ^ 32 else (current + 2 ^ 32 - 1) % 2 ^ 32

-- The loop of `Migrate`; `none` means that the rounds ran out.
unfoldable pub migrate_loop :
    ℕ → MigrationEngine → ℕ → ℕ → GameObject → ComponentStorage → Option Migrated
migrate_loop zero e current target obj s = none
migrate_loop (suc rounds) e current target obj s =
    let next = next_version current target in
    let r = migrate_step e obj s current next in
    let rest = migrate_loop rounds e next target (stamp r.obj next) r.storage in
    if current == target
    then some (record { ok = true; obj = obj; storage = s })
    else (if r.ok then rest else some r)

-- One round for each version between the two, and one for the last test, are enough.
unfoldable pub migrate : MigrationEngine → GameObject → ComponentStorage → ℕ → Option Migrated
migrate e obj s target =
    let current = obj.header.schema_version in
    migrate_loop (suc (current + target)) e current target obj s
