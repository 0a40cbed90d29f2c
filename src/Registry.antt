-- ===== src/Registry.antt =====
-- core/object_registry.h and core/object_registry.cpp: the objects by id.
-- `Migrate` holds the map's shared lock and the object's lock to its end, so it is one step here too.
pub mod Objects
pub mod Migrate
pub mod Threads
mod Tests
use wasm_hot.Base.{ℕ, [], Option, none, some, Bool, true, false, if◌then◌else◌, nat_key}
use wasm_hot.Dict.{Dict, find, assign, erase}
use wasm_hot.Storage.{ComponentStorage, remove_all}
use wasm_hot.Object.{ObjectHeader, GameObject}
use wasm_hot.Migration.{MigrationEngine, Migrated}
use wasm_hot.Migration

-- An `ObjectEntry` is its header; `attached` is `storage_ != nullptr`.
pub record ObjectRegistry : Type 0 where
  pub objects : Dict ℕ ObjectHeader
  pub attached : Bool

-- ObjectRegistry(): storage_(ComponentStorage::Instance())
abbrev pub new_registry : ObjectRegistry
new_registry = record { objects = []; attached = true }

unfoldable pub create : ObjectRegistry → ObjectHeader → ℕ × ObjectRegistry
create r header =
    (header.object_id, record r { objects = assign header.object_id header r.objects })

-- The view that `Get` and `Migrate` make of an entry.
abbrev pub view_of : ObjectRegistry → ObjectHeader → GameObject
view_of r header = record { header = header; attached = r.attached }

unfoldable pub get {ℓ} : {A : Type ℓ} → ObjectRegistry → ℕ → (Option GameObject → A) → A
get r object_id callback = elim (find object_id r.objects) [
  | none ↦ callback none
  | some header ↦ callback (some (view_of r header))
]

unfoldable pub destroy : ObjectRegistry → ComponentStorage → ℕ → ObjectRegistry × ComponentStorage
destroy r s object_id = elim (find object_id r.objects) [
  | none ↦ (r, s)
  | some header ↦ (
    record r { objects = erase object_id r.objects },
    if r.attached then remove_all s object_id else s,
  )
]

-- The end of `Migrate`: the header is stored only after success.
unfoldable pub finish_migrate :
    ObjectRegistry → ℕ → Option Migrated → Option (Bool × ObjectRegistry × ComponentStorage)
finish_migrate r object_id none = none
finish_migrate r object_id (some m) =
    if m.ok
    then some (true, record r { objects = assign object_id m.obj.header r.objects }, m.storage)
    else some (false, r, m.storage)

-- `none` means that the engine's loop ran out of rounds.
unfoldable pub migrate :
    ObjectRegistry
    → MigrationEngine
    → ComponentStorage
    → ℕ
    → ℕ
    → Option (Bool × ObjectRegistry × ComponentStorage)
unfolding finish_migrate
migrate r e s object_id target = elim (find object_id r.objects) [
  | none ↦ some (false, r, s)
  | some header ↦ finish_migrate r object_id (Migration.migrate e (view_of r header) s target)
]
