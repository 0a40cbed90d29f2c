-- ===== src/Registry/Threads.antt =====
-- core/object_registry.cpp beside other threads: Get releases the map's lock before its callback runs,
-- and Destroy does so before it calls RemoveAll. What a thread does under a lock is one step.
pub mod Owners
pub mod Orphans
mod Tests
use wasm_hot.Base.{
  ℕ, [], ◌∷◌, List, Option, none, some, Bool, true, false, is_some, if◌then◌else◌, nat_key,
}
use wasm_hot.Dict.{Dict, find, assign, erase}
use wasm_hot.Storage.{ComponentStorage, ComponentType, ComponentData, remove_all}
use wasm_hot.Object.{ObjectHeader, GameObject, write_component}
use wasm_hot.Registry.{ObjectRegistry, view_of, create}

-- The registry and the storage, with the calls of Get whose callbacks run, each with its view, and
-- the calls of Destroy that have erased an entry and have not called RemoveAll yet.
pub record Shared : Type 0 where
  pub registry : ObjectRegistry
  pub storage : ComponentStorage
  pub views : Dict ℕ GameObject
  pub removals : Dict ℕ ℕ

-- Get from `map_mutex_` to the view; the callback for a missing object does nothing.
unfoldable pub begin_get : Shared → ℕ → ℕ → Shared
begin_get s call object_id = elim (find object_id s.registry.objects) [
  | none ↦ s
  | some header ↦ record s { views = assign call (view_of s.registry header) s.views }
]

-- What a callback does with its view: it writes a component.
unfoldable pub write_through : Shared → ℕ → ComponentType → ComponentData → Shared
write_through s call type bytes = elim (find call s.views) [
  | none ↦ s
  | some view ↦ record s { storage = write_component view s.storage type bytes }
]

-- The callback returns.
unfoldable pub end_get : Shared → ℕ → Shared
end_get s call = record s { views = erase call s.views }

-- Destroy under `map_mutex_`. No call of Get holds the entry's mutex at that time.
unfoldable pub begin_destroy : Shared → ℕ → ℕ → Shared
begin_destroy s call object_id = elim (find object_id s.registry.objects) [
  | none ↦ s
  | some header ↦ record s {
    registry = record s.registry { objects = erase object_id s.registry.objects };
    removals = assign call object_id s.removals;
  }
]

-- The end of Destroy.
unfoldable pub end_destroy : Shared → ℕ → Shared
end_destroy s call = elim (find call s.removals) [
  | none ↦ s
  | some object_id ↦ record s {
    storage = if s.registry.attached then remove_all s.storage object_id else s.storage;
    removals = erase call s.removals;
  }
]

-- What some thread does next. A number names a call.
pub data Step : Type 0 where
  creates : ObjectHeader → Step
  begins_get : ℕ → ℕ → Step
  writes : ℕ → ComponentType → ComponentData → Step
  ends_get : ℕ → Step
  begins_destroy : ℕ → ℕ → Step
  ends_destroy : ℕ → Step

unfoldable pub step : Shared → Step → Shared
unfolding begin_get write_through end_get begin_destroy end_destroy
step s (creates header) = record s { registry = (create s.registry header).1 }
step s (begins_get call object_id) = begin_get s call object_id
step s (writes call type bytes) = write_through s call type bytes
step s (ends_get call) = end_get s call
step s (begins_destroy call object_id) = begin_destroy s call object_id
step s (ends_destroy call) = end_destroy s call
