-- ===== src/Registry/Threads/Owners.antt =====
-- Whose components the storage of core/object_registry.cpp holds, while several threads use it.
use wasm_hot.Base.{
  ℕ, ◌≡◌, refl, ◌⊎◌, inl, inr, [], none, some, true, arith, ◌==◌, is_some, nat_key, Option-cases,
  Bool-cases,
}
use wasm_hot.Dict.{find, find-assign, find-erase}
use wasm_hot.Storage.{ComponentStorage, ComponentType, ComponentData}
use wasm_hot.Storage.Lookup.{component, component-write, component-remove_all}
use wasm_hot.Object.{ObjectHeader, GameObject, object_id, write_component}
use wasm_hot.Registry.{new_registry, create}
use wasm_hot.Registry.Threads.{
  Shared, Step, creates, begins_get, writes, ends_get, begins_destroy, ends_destroy, begin_get,
  write_through, end_get, begin_destroy, end_destroy, step,
}

-- A callback writes while its object is registered, and no call of Destroy has the number of another
-- that has not ended.
abbrev pub IsTimely : Shared → Step → Type 0
IsTimely s (creates header) = Unit
IsTimely s (begins_get call o) = Unit
IsTimely s (writes call type bytes) =
    (view : GameObject)
    → find call s.views ≡ some view
    → is_some (find (object_id view) s.registry.objects) ≡ true
IsTimely s (ends_get call) = Unit
IsTimely s (begins_destroy call o) = find call s.removals ≡ none
IsTimely s (ends_destroy call) = Unit

pub data Reaches : Shared → Shared → Type 0 where
  stays : (s : Shared) → Reaches s s
  moves : (s s' : Shared) (x : Step) → IsTimely s x → Reaches (step s x) s' → Reaches s s'

-- The registry points to the storage, and every component is of a registered object or of one that is
-- about to be removed.
abbrev IsOwned : Shared → Type 0
IsOwned s =
    (s.registry.attached ≡ true)
    × ((o : ℕ) (t : ComponentType)
        → is_some (component s.storage o t) ≡ true
        → (is_some (find o s.registry.objects) ≡ true)
          ⊎ ((call : ℕ) × (find call s.removals ≡ some o)))

module _ (s : Shared) (v : IsOwned s) where
  creates-IsOwned : (header : ObjectHeader) → IsOwned (step s (creates header))
  unfolding step create
  creates-IsOwned header = (
    v.0,
    λ o t e. elim (v.1 o t e) [
      | inl there ↦ inl (ground (arith, find-assign header.object_id o header s.registry.objects))
      | inr leaving ↦ inr leaving
    ],
  )

  begins_get-IsOwned : (call o : ℕ) → IsOwned (step s (begins_get call o))
  unfolding step begin_get
  begins_get-IsOwned call o = elim (Option-cases (find o s.registry.objects)) [
    | inl e ↦ rw (e, begin_get) v
    | inr (header, e) ↦ rw (e, begin_get) v
  ]

  writes-IsOwned :
      (call : ℕ) (type : ComponentType) (bytes : ComponentData)
      → IsTimely s (writes call type bytes)
      → IsOwned (step s (writes call type bytes))
  unfolding step write_through write_component
  writes-IsOwned call type bytes timely = elim (Option-cases (find call s.views)) [
    | inl e ↦ rw (e, write_through) v
    | inr (view, e) ↦
        rw (e, write_through)
          (
            v.0,
            λ o t h. elim (Bool-cases (object_id view == o)) [
              | inl same ↦ inl (ground (arith, timely view e))
              | inr other ↦
                  v.1 o t
                    (ground (arith, component-write s.storage (object_id view) type o t bytes))
            ],
          )
  ]

  begins_destroy-IsOwned :
      (call o : ℕ) → find call s.removals ≡ none → IsOwned (step s (begins_destroy call o))
  unfolding step begin_destroy
  begins_destroy-IsOwned call o free = elim (Option-cases (find o s.registry.objects)) [
    | inl e ↦ rw (e, begin_destroy) v
    | inr (header, e) ↦
        rw (e, begin_destroy)
          (
            v.0,
            λ q t h. elim (v.1 q t h) [
              | inl there ↦ elim (Bool-cases (o == q)) [
                | inl same ↦ inr (call, ground (arith, find-assign call call o s.removals))
                | inr other ↦ inl (ground (arith, find-erase o q s.registry.objects))
              ]
              | inr (c, leaving) ↦ inr (c, ground (arith, find-assign call c o s.removals))
            ],
          )
  ]

  ends_destroy-IsOwned : (call : ℕ) → IsOwned (step s (ends_destroy call))
  unfolding step end_destroy
  ends_destroy-IsOwned call = elim (Option-cases (find call s.removals)) [
    | inl e ↦ rw (e, end_destroy) v
    | inr (o, e) ↦
        rw (e, end_destroy)
          (
            v.0,
            λ q t h. elim (v.1 q t (ground (arith, component-remove_all s.storage o t q t, v.0))) [
              | inl there ↦ inl there
              | inr (c, leaving) ↦ inr (
                c,
                ground (
                  arith,
                  find-erase call c s.removals,
                  component-remove_all s.storage o t q t,
                  v.0,
                ),
              )
            ],
          )
  ]

  step-IsOwned : (x : Step) → IsTimely s x → IsOwned (step s x)
  unfolding step end_get
  step-IsOwned (creates header) w = creates-IsOwned header
  step-IsOwned (begins_get call o) w = begins_get-IsOwned call o
  step-IsOwned (writes call type bytes) w = writes-IsOwned call type bytes w
  step-IsOwned (ends_get call) w = v
  step-IsOwned (begins_destroy call o) w = begins_destroy-IsOwned call o w
  step-IsOwned (ends_destroy call) w = ends_destroy-IsOwned call

Reaches-IsOwned : (s s' : Shared) → Reaches s s' → IsOwned s → IsOwned s'
Reaches-IsOwned s s' (stays r) v = v
Reaches-IsOwned s s' (moves r r' x w rest) v =
    Reaches-IsOwned (step r x) r' rest (step-IsOwned r v x w)

abbrev pub new_shared : Shared
new_shared = record {
  registry = new_registry;
  storage = record { store = [] };
  views = [];
  removals = [];
}

new_shared-IsOwned : IsOwned new_shared
unfolding find wasm_hot.Storage.read
new_shared-IsOwned = (refl, λ o t e. absurd (ground arith))

-- However calls of Create, Get and Destroy interleave: if each callback of Get that writes a component
-- does so while its object is registered, then a component belongs to a registered object, or to one
-- whose Destroy has not ended.
pub owned_lem :
    (s : Shared) (o : ℕ) (t : ComponentType)
    → Reaches new_shared s
    → is_some (component s.storage o t) ≡ true
    → (is_some (find o s.registry.objects) ≡ true) ⊎ ((call : ℕ) × (find call s.removals ≡ some o))
owned_lem s o t reached h = (Reaches-IsOwned new_shared s reached new_shared-IsOwned).1 o t h
