-- ===== src/Registry/Objects.antt =====
-- What Get and the storage show after Create and Destroy.
use wasm_hot.Base.{
  ℕ, ◌≡◌, Option, none, some, true, arith, ◌==◌, ◌&&◌, if◌then◌else◌, is_some, nat_key, inl, inr,
  Option-cases,
}
use wasm_hot.Dict.{find, find-assign, find-erase}
use wasm_hot.Storage.{ComponentStorage, ComponentType}
use wasm_hot.Storage.Lookup.{component, component-remove_all}
use wasm_hot.Object.{ObjectHeader, GameObject}
use wasm_hot.Registry.{ObjectRegistry, view_of, create, get, destroy}

-- The view that `Get` hands to its callback.
abbrev pub seen : ObjectRegistry → ℕ → Option GameObject
seen r object_id = get r object_id (λ view. view)

-- A created object is seen with the header that it was given, also where its id was in use before,
-- and every other object is seen as before.
pub seen-create :
    (r : ObjectRegistry) (header : ObjectHeader) (q : ℕ)
    → seen (create r header).1 q
      ≡ (if header.object_id == q then some (view_of r header) else seen r q)
unfolding get create
seen-create r header q = ground (arith, find-assign header.object_id q header r.objects)

-- Destroying a registered object of an attached registry removes it and all its components, and
-- nothing of any other object; destroying an unknown object changes nothing.
pub destroy_lem :
    (r : ObjectRegistry) (s : ComponentStorage) (o q : ℕ) (t : ComponentType)
    → r.attached ≡ true
    → let (r', s') = destroy r s o in
      (seen r' q ≡ (if o == q then none else seen r q))
      × (component s' q t ≡ (if is_some (seen r o) && o == q then none else component s q t))
unfolding get destroy
destroy_lem r s o q t h = elim (Option-cases (find o r.objects)) [
  | inl e ↦ ground arith
  | inr (header, e) ↦ ground (arith, find-erase o q r.objects, component-remove_all s o t q t)
]

-- Every entry is stored under the id that its header has.
abbrev pub IsKeyed : ObjectRegistry → Type 0
IsKeyed r = (q : ℕ) (view : GameObject) → seen r q ≡ some view → view.header.object_id ≡ q

pub create-IsKeyed :
    (r : ObjectRegistry) (header : ObjectHeader) → IsKeyed r → IsKeyed (create r header).1
create-IsKeyed r header k q view h = ground (arith, seen-create r header q, k q view)

pub destroy-IsKeyed :
    (r : ObjectRegistry) (s : ComponentStorage) (o : ℕ) → IsKeyed r → IsKeyed (destroy r s o).0
unfolding get destroy
destroy-IsKeyed r s o k q view h = elim (Option-cases (find o r.objects)) [
  | inl e ↦ ground (arith, k q view)
  | inr (header, e) ↦ ground (arith, k q view, find-erase o q r.objects)
]
