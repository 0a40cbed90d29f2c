-- ===== src/Storage/Unordered.antt =====
-- The storage of core/component_storage.cpp without the order of its unordered_maps and without their
-- empty entries: two storages with the same components are the same.
use mathlib.Core.Quot.{Quot, mk, sound, ind, lift, Quot-set}
use wasm_hot.Base.{
  ℕ, ◌≡◌, Option, none, some, Bool, true, false, arith, ◌==◌, ◌&&◌, if◌then◌else◌, nat_key,
}
use wasm_hot.Storage.{ComponentStorage, ComponentType, ComponentData, write, remove, remove_all}
use wasm_hot.Storage.Lookup.{component, component-write, component-remove, component-remove_all}

abbrev pub Same : ComponentStorage → ComponentStorage → Type 0
Same s r = (o : ℕ) (t : ComponentType) → component s o t ≡ component r o t

abbrev pub UnorderedStorage : Type 0
UnorderedStorage = Quot Same

-- A call that changes the storage.
pub data Change : Type 0 where
  writes : ℕ → ComponentType → ComponentData → Change
  removes : ℕ → ComponentType → Change
  removes_all : ℕ → Change

abbrev pub change : Change → ComponentStorage → ComponentStorage
change (writes o t bytes) s = write s o t bytes
change (removes o t) s = (remove s o t).1
change (removes_all o) s = remove_all s o

-- The components that a call names, and what it leaves there.
abbrev pub touches : Change → ℕ → ComponentType → Bool
touches (writes o t bytes) p q = o == p && t == q
touches (removes o t) p q = o == p && t == q
touches (removes_all o) p q = o == p

abbrev pub left_by : Change → Option ComponentData
left_by (writes o t bytes) = some bytes
left_by (removes o t) = none
left_by (removes_all o) = none

component-change :
    (x : Change) (s : ComponentStorage) (p : ℕ) (q : ComponentType)
    → component (change x s) p q ≡ (if touches x p q then left_by x else component s p q)
component-change (writes o t bytes) s p q = component-write s o t p q bytes
component-change (removes o t) s p q = component-remove s o t p q
component-change (removes_all o) s p q = component-remove_all s o 0 p q

change-Same : (x : Change) (s r : ComponentStorage) → Same s r → Same (change x s) (change x r)
change-Same x s r h p q = ground (arith, component-change x s p q, component-change x r p q, h p q)

-- The same call on what is left of the storage.
pub change_unordered : Change → UnorderedStorage → UnorderedStorage
change_unordered x = lift Quot-set (λ s. mk (change x s)) (λ s r h. sound (change-Same x s r h))

-- No component is named by both.
abbrev pub Apart : Change → Change → Type 0
Apart x y = (p : ℕ) (q : ComponentType) → touches x p q ≡ true → touches y p q ≡ false

changes-Apart :
    (x y : Change) (s : ComponentStorage)
    → Apart x y
    → Same (change x (change y s)) (change y (change x s))
changes-Apart x y s apart p q = ground (
  arith,
  component-change x (change y s) p q,
  component-change y s p q,
  component-change y (change x s) p q,
  component-change x s p q,
  apart p q,
)

-- What Read shows, which is all that is left of the storage.
bytes_set : IsSet (Option ComponentData)
bytes_set = hlevel

pub component_of : UnorderedStorage → ℕ → ComponentType → Option ComponentData
component_of u o t = lift bytes_set (λ s. component s o t) (λ s r h. h o t) u

component_of-change_unordered :
    (x : Change) (o : ℕ) (t : ComponentType) (u : UnorderedStorage)
    → component_of (change_unordered x u) o t
      ≡ (if touches x o t then left_by x else component_of u o t)
unfolding component_of change_unordered
component_of-change_unordered x o t = ind (λ v. bytes_set _ _) (λ s. component-change x s o t)

change_unordered_comm :
    (x y : Change)
    → Apart x y
    → (u : UnorderedStorage)
    → change_unordered x (change_unordered y u) ≡ change_unordered y (change_unordered x u)
unfolding change_unordered
change_unordered_comm x y apart = ind (λ v. Quot-set _ _) (λ s. sound (changes-Apart x y s apart))

-- Up to the order of its maps and their empty entries, the storage is what Read shows of it: after a
-- call, a component that the call names is what the call leaves there, and each other one is as
-- before. Two calls that name no component in common, such as writes of different components, or
-- anything that is done to two objects, may come in either order.
pub unordered_lem :
    (x y : Change) (u : UnorderedStorage)
    → Apart x y
    → ((o : ℕ) (t : ComponentType)
        → component_of (change_unordered x u) o t
          ≡ (if touches x o t then left_by x else component_of u o t))
      × (change_unordered x (change_unordered y u) ≡ change_unordered y (change_unordered x u))
unordered_lem x y u apart =
    (λ o t. component_of-change_unordered x o t u, change_unordered_comm x y apart u)
