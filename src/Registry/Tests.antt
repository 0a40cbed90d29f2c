-- ===== src/Registry/Tests.antt =====
-- An object from its creation to its end, and the theorems about the registry at a concrete one.
use wasm_hot.Base.{◌≡◌, refl, [], ◌∷◌, nat_key, none, some, true, false, arith}
use wasm_hot.Storage.{ComponentStorage, write}
use wasm_hot.Storage.Lookup.{component}
use wasm_hot.Object.{ObjectHeader, object_id}
use wasm_hot.Migration.{MigrationEngine, MigrationFunc, register}
use wasm_hot.Registry.{ObjectRegistry, new_registry, create, destroy, migrate, view_of}
use wasm_hot.Registry.Objects.{seen, seen-create, destroy_lem}
use wasm_hot.Registry.Migrate.{Answers, migrate-Answers, migrate-StopsAfterOne}

abbrev header : ObjectHeader
header = record { schema_version = 1; object_type = 7; object_id = 5 }

abbrev registry : ObjectRegistry
registry = (create new_registry header).1

abbrev storage : ComponentStorage
storage = record { store = (5, (1, 9 ∷ []) ∷ []) ∷ (6, (1, 8 ∷ []) ∷ []) ∷ [] }

-- Clears component 1.
abbrev clears : MigrationFunc
clears obj s from to = record { ok = true; obj = obj; storage = write s (object_id obj) 1 [] }

-- Only the step from 1 to 2 is there.
abbrev engine : MigrationEngine
engine = register (record { migrations = [] }) 1 2 clears

abbrev cleared : ComponentStorage
cleared = record { store = (5, (1, []) ∷ []) ∷ (6, (1, 8 ∷ []) ∷ []) ∷ [] }

half_way : migrate registry engine storage 5 3 ≡ some (false, registry, cleared)
unfolding migrate wasm_hot.Dict.find create wasm_hot.Dict.assign wasm_hot.Migration.migrate
    wasm_hot.Migration.migrate_loop wasm_hot.Migration.migrate_step
    wasm_hot.Migration.find_migration register wasm_hot.Migration.make_key
    wasm_hot.Migration.next_version write
half_way = refl

seen-create_run : seen (create registry (record header { object_id = 6 })).1 5 ≡ seen registry 5
seen-create_run = seen-create registry (record header { object_id = 6 }) 5

destroy_lem_run :
    (seen (destroy registry storage 5).0 5 ≡ none)
    × (component (destroy registry storage 5).1 5 1 ≡ none)
unfolding create wasm_hot.Registry.get wasm_hot.Dict.find wasm_hot.Dict.assign
destroy_lem_run = destroy_lem registry storage 5 5 1 refl

seen_room : seen registry 5 ≡ some (view_of registry header)
unfolding wasm_hot.Registry.get wasm_hot.Dict.find create wasm_hot.Dict.assign
seen_room = refl

migrate-Answers_example :
    Answers registry engine storage 5 2 header (migrate registry engine storage 5 2)
migrate-Answers_example =
    migrate-Answers registry engine storage 5 2 header seen_room (omega arith) (omega arith)

stops :
    (wasm_hot.Migration.find_migration engine 1 2 ≡ some clears)
    × ((clears (view_of registry header) storage 1 2).ok ≡ true)
    × (wasm_hot.Migration.find_migration engine 2 3 ≡ none)
unfolding wasm_hot.Migration.find_migration wasm_hot.Dict.find register wasm_hot.Dict.assign
    wasm_hot.Migration.make_key
stops = (refl, refl, refl)

migrate-StopsAfterOne_example :
    migrate registry engine storage 5 3
    ≡ some (false, registry, (clears (view_of registry header) storage 1 2).storage)
migrate-StopsAfterOne_example =
    migrate-StopsAfterOne registry engine storage 5 3 header clears seen_room (omega arith)
      (omega arith) stops
