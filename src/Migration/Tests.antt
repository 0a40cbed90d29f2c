-- ===== src/Migration/Tests.antt =====
-- Migrations of one object, and the theorems about them at concrete engines.
use wasm_hot.Base.{◌≡◌, refl, ℕ, [], ◌∷◌, nat_key, some, true, false, arith, length}
use wasm_hot.Storage.{ComponentStorage, write}
use wasm_hot.Object.{GameObject, object_id}
use wasm_hot.Migration.{
  MigrationEngine, MigrationFunc, Migrated, register, find_migration, migrate, migrate_loop,
  make_key,
}
use wasm_hot.Migration.Keys.{find_migration-register}
use wasm_hot.Migration.Path.{path, run_path, migrate-run_path, migrate_loop-path}
use wasm_hot.Migration.Outcome.{AllRegistered, FailsAt, migrate-ok, migrate-FailsAt}

abbrev empty : ComponentStorage
empty = record { store = [] }

abbrev room : ℕ → GameObject
room version = record {
  header = record { schema_version = version; object_type = 7; object_id = 5 };
  attached = true;
}

-- Leaves the two versions in component 1.
abbrev traces : MigrationFunc
traces obj s from to = record {
  ok = true;
  obj = obj;
  storage = write s (object_id obj) 1 (from ∷ to ∷ []);
}

-- Registered for the steps between 1, 2 and 3.
abbrev engine : MigrationEngine
engine =
    register
      (register (register (register (record { migrations = [] }) 1 2 traces) 2 3 traces) 3 2 traces)
      2 1 traces

abbrev traced : ℕ → ℕ → ComponentStorage
traced from to = record { store = (5, (1, from ∷ to ∷ []) ∷ []) ∷ [] }

up_two :
    migrate engine (room 1) empty 3
    ≡ some (record { ok = true; obj = room 3; storage = traced 2 3 })
unfolding migrate wasm_hot.Migration.migrate_loop wasm_hot.Migration.migrate_step find_migration
    wasm_hot.Dict.find register wasm_hot.Dict.assign make_key wasm_hot.Migration.next_version write
up_two = refl

down_two :
    migrate engine (room 3) empty 1
    ≡ some (record { ok = true; obj = room 1; storage = traced 2 1 })
unfolding migrate wasm_hot.Migration.migrate_loop wasm_hot.Migration.migrate_step find_migration
    wasm_hot.Dict.find register wasm_hot.Dict.assign make_key wasm_hot.Migration.next_version write
down_two = refl

-- From 3 to 4 nothing is registered.
too_far :
    migrate engine (room 2) empty 4
    ≡ some (record { ok = false; obj = room 3; storage = traced 2 3 })
unfolding migrate wasm_hot.Migration.migrate_loop wasm_hot.Migration.migrate_step find_migration
    wasm_hot.Dict.find register wasm_hot.Dict.assign make_key wasm_hot.Migration.next_version write
too_far = refl

find_migration-register_run :
    find_migration (register engine 9 8 traces) 1 2 ≡ find_migration engine 1 2
find_migration-register_run =
    find_migration-register engine traces 9 8 1 2 (omega arith) (omega arith) (omega arith)
      (omega arith)

migrate-run_path_run :
    migrate engine (room 3) empty 1 ≡ some (run_path engine (path 3 1) (room 3) empty)
migrate-run_path_run = migrate-run_path engine (room 3) empty 1 (omega arith) (omega arith)

migrate-ok_run : ((room 3).header.schema_version ≡ 3) × AllRegistered engine (path 1 3)
migrate-ok_run =
    migrate-ok engine (room 1) empty 3 (record { ok = true; obj = room 3; storage = traced 2 3 })
      (omega arith) (omega arith) up_two refl

migrate-FailsAt_example :
    FailsAt engine
      (path 2 4)
      (room 2)
      empty
      (record { ok = false; obj = room 3; storage = traced 2 3 })
migrate-FailsAt_example =
    migrate-FailsAt engine (room 2) empty 4
      (record { ok = false; obj = room 3; storage = traced 2 3 }) (omega arith) (omega arith)
      too_far refl

migrate_loop-path_example :
    (migrate_loop 5 engine 3 1 (room 3) empty ≡ some (run_path engine (path 3 1) (room 3) empty))
    × (length (path 3 1) ≡ 2)
migrate_loop-path_example =
    migrate_loop-path engine 5 3 1 (room 3) empty (omega arith) (omega arith) (omega arith)
