-- ===== src/Storage/Threads.antt =====
-- The methods of core/component_storage.cpp beside other threads, lock by lock.
-- A part of a method that holds a lock on the map from beginning to end is one step. A thread inside
-- Write is between two such parts: it holds no lock on the map there.
pub mod Sound
pub mod Writes
pub mod Removal
mod Tests
use wasm_hot.Base.{
  ℕ, ◌+◌, [], ◌∷◌, List, Option, none, some, Bool, true, false, ◌==◌, if◌then◌else◌, nat_key,
}
use wasm_hot.Dict.{Dict, find, assign, erase}
use wasm_hot.Storage.{ComponentType, ComponentData, ObjectComponents}

-- A thread inside Write: before the unique lock, and after it with the iterator to the object, which
-- has its address and the generation of the map.
pub data Writer : Type 0 where
  inserting : ℕ → ComponentType → ComponentData → Writer
  assigning : ℕ → ℕ → ℕ → ComponentType → ComponentData → Writer

-- `store` has the unique_ptr of each object, as an address; what is not in `heap` has been freed. A
-- rehash of `store` begins a new generation, and iterators of an earlier one are invalid.
pub record Threads : Type 0 where
  pub store : Dict ℕ ℕ
  pub heap : Dict ℕ ObjectComponents
  pub next_address : ℕ
  pub generation : ℕ
  pub writers : Dict ℕ Writer

-- it->second->components[type] = data under the object's mutex; `none` is a use of freed memory.
unfoldable pub assign_at : Threads → ℕ → ComponentType → ComponentData → Option Threads
assign_at s address type bytes = elim (find address s.heap) [
  | none ↦ none
  | some components ↦
      some (record s { heap = assign address (assign type bytes components) s.heap })
]

-- The call of Write by a thread: all of it if the object is found, under the shared lock.
unfoldable pub enter_write : Threads → ℕ → ℕ → ComponentType → ComponentData → Option Threads
unfolding assign_at
enter_write s thread object_id type bytes = elim (find object_id s.store) [
  | none ↦ some (record s { writers = assign thread (inserting object_id type bytes) s.writers })
  | some address ↦ assign_at s address type bytes
]

-- A thread that is inside Write does not call it.
unfoldable pub begin_write : Threads → ℕ → ℕ → ComponentType → ComponentData → Option Threads
unfolding enter_write
begin_write s thread object_id type bytes = elim (find thread s.writers) [
  | some writer ↦ some s
  | none ↦ enter_write s thread object_id type bytes
]

-- slot = store_[object_id]; if (!slot) slot = std::move(new_obj). The map decides whether it rehashes
-- for a new object.
unfoldable pub insert_object : Threads → ℕ → Bool → ℕ × Threads
insert_object s object_id rehashes = elim (find object_id s.store) [
  | some address ↦ (address, s)
  | none ↦ (
    s.next_address,
    record s {
      store = assign object_id s.next_address s.store;
      heap = assign s.next_address [] s.heap;
      next_address = s.next_address + 1;
      generation = if rehashes then s.generation + 1 else s.generation;
    },
  )
]

-- The next part of a Write: that under the unique lock, which ends with a new iterator, and then the
-- rest without a lock on the map. `none` is the use of freed memory or of an invalid iterator.
unfoldable pub advance : Threads → ℕ → Writer → Bool → Option Threads
unfolding insert_object assign_at
advance s thread (inserting object_id type bytes) rehashes =
    let (address, s') = insert_object s object_id rehashes in
    some (record s' {
      writers = assign thread (assigning object_id address s'.generation type bytes) s'.writers;
    })
advance s thread (assigning object_id address generation type bytes) rehashes =
    let rest = assign_at (record s { writers = erase thread s.writers }) address type bytes in
    if generation == s.generation then rest else none

unfoldable pub continue_write : Threads → ℕ → Bool → Option Threads
unfolding advance
continue_write s thread rehashes = elim (find thread s.writers) [
  | none ↦ some s
  | some writer ↦ advance s thread writer rehashes
]

-- RemoveAll, under the unique lock: the object is erased and with it freed.
unfoldable pub remove_object : Threads → ℕ → Threads
remove_object s object_id = elim (find object_id s.store) [
  | none ↦ s
  | some address ↦ record s { store = erase object_id s.store; heap = erase address s.heap }
]

-- Read, under the shared lock: what the callback gets. `none` is a use of freed memory.
unfoldable pub read_at : Threads → ComponentType → Option ℕ → Option (Option ComponentData)
read_at s type none = some none
read_at s type (some address) = elim (find address s.heap) [
  | none ↦ none
  | some components ↦ some (find type components)
]

unfoldable pub read_component : Threads → ℕ → ComponentType → Option (Option ComponentData)
unfolding read_at
read_component s object_id type = read_at s type (find object_id s.store)

-- The whole Read, which leaves everything as it is.
unfoldable pub read_step : Threads → ℕ → ComponentType → Option Threads
unfolding read_component
read_step s object_id type = elim (read_component s object_id type) [
  | none ↦ none
  | some answer ↦ some s
]

-- Remove, under the shared lock.
unfoldable pub erase_at : Threads → ComponentType → Option ℕ → Option Threads
erase_at s type none = some s
erase_at s type (some address) = elim (find address s.heap) [
  | none ↦ none
  | some components ↦ some (record s { heap = assign address (erase type components) s.heap })
]

unfoldable pub remove_component : Threads → ℕ → ComponentType → Option Threads
unfolding erase_at
remove_component s object_id type = erase_at s type (find object_id s.store)

-- What one thread does next.
pub data Step : Type 0 where
  begins : ℕ → ℕ → ComponentType → ComponentData → Step
  continues : ℕ → Bool → Step
  reads removes : ℕ → ComponentType → Step
  removes_all : ℕ → Step

unfoldable pub step : Threads → Step → Option Threads
unfolding begin_write continue_write remove_object read_step remove_component
step s (begins thread object_id type bytes) = begin_write s thread object_id type bytes
step s (continues thread rehashes) = continue_write s thread rehashes
step s (reads object_id type) = read_step s object_id type
step s (removes object_id type) = remove_component s object_id type
step s (removes_all object_id) = some (remove_object s object_id)

unfoldable pub run : Threads → List Step → Option Threads
unfolding step
run s [] = some s
run s (x ∷ xs) = elim (step s x) [ none ↦ none | some s' ↦ run s' xs ]
