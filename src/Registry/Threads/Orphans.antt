-- ===== src/Registry/Threads/Orphans.antt =====
-- What happens to the components of an object that core/object_registry.cpp destroys while a callback
-- of Get still uses its view.
use wasm_hot.Base.{ℕ, ◌≡◌, ◌∙◌, ap, refl, inl, inr, Option-cases, none, some, true, arith, nat_key}
use wasm_hot.Dict.{find, find-erase}
use wasm_hot.Storage.{ComponentType, ComponentData}
use wasm_hot.Storage.Lookup.{component, component-write}
use wasm_hot.Object.{GameObject, object_id, write_component}
use wasm_hot.Registry.{ObjectRegistry}
use wasm_hot.Registry.Threads.{
  Shared, writes, begins_destroy, ends_destroy, write_through, begin_destroy, end_destroy, step,
}

module _ (s : Shared) where
  begins_destroy_lem :
      (destroyer o : ℕ)
      → let s' = step s (begins_destroy destroyer o) in
        (s'.views ≡ s.views) × (find o s'.registry.objects ≡ none)
  unfolding step begin_destroy
  begins_destroy_lem destroyer o = elim (Option-cases (find o s.registry.objects)) [
    | inl e ↦ rw (e, begin_destroy) (refl, e)
    | inr (header, e) ↦
        rw (e, begin_destroy) (refl, ground (arith, find-erase o o s.registry.objects))
  ]

  ends_destroy_lem :
      (destroyer : ℕ)
      → let s' = step s (ends_destroy destroyer) in
        (s'.views ≡ s.views) × (s'.registry ≡ s.registry)
  unfolding step end_destroy
  ends_destroy_lem destroyer = elim (Option-cases (find destroyer s.removals)) [
    | inl e ↦ rw (e, end_destroy) (refl, refl)
    | inr (o, e) ↦ rw (e, end_destroy) (refl, refl)
  ]

  begins_destroy_unknown :
      (destroyer o : ℕ) → find o s.registry.objects ≡ none → step s (begins_destroy destroyer o) ≡ s
  unfolding step begin_destroy
  begins_destroy_unknown destroyer o e = rw (e, begin_destroy)

  writes_lem :
      (call : ℕ) (view : GameObject) (type : ComponentType) (bytes : ComponentData)
      → find call s.views ≡ some view
      → view.attached ≡ true
      → let s' = step s (writes call type bytes) in
        (s'.registry ≡ s.registry) × (component s'.storage (object_id view) type ≡ some bytes)
  unfolding step write_through write_component
  writes_lem call view type bytes used attached =
      rw (used, write_through, attached)
        (
          refl,
          ground
              (arith, component-write s.storage (object_id view) type (object_id view) type bytes),
        )

-- Destroy does not wait for the callbacks of Get. While a callback uses an attached view, another
-- thread can run the whole of Destroy for its object, and what the callback writes then stays in the
-- storage for an object that is not registered. Another Destroy of the object does not find it, and
-- so removes nothing.
pub orphan_lem :
    (s : Shared) (call destroyer : ℕ) (view : GameObject) (type : ComponentType)
    (bytes : ComponentData)
    → find call s.views ≡ some view
    → view.attached ≡ true
    → let o = object_id view in
      let s' =
        step
          (step (step s (begins_destroy destroyer o)) (ends_destroy destroyer))
          (writes call type bytes) in
      (find o s'.registry.objects ≡ none)
      × (component s'.storage o type ≡ some bytes)
      × ((again : ℕ) → step s' (begins_destroy again o) ≡ s')
orphan_lem s call destroyer view type bytes used attached =
    let o = object_id view in
    let begun = step s (begins_destroy destroyer o) in
    let gone = step begun (ends_destroy destroyer) in
    let (kept, erased) = begins_destroy_lem s destroyer o in
    let (kept', same) = ends_destroy_lem begun destroyer in
    let used' : find call gone.views ≡ some view = ap (find call) (kept' ∙ kept) ∙ used in
    let (same', written) = writes_lem gone call view type bytes used' attached in
    let unknown = ap (λ (r : ObjectRegistry). find o r.objects) (same' ∙ same) ∙ erased in
    (
      unknown,
      written,
      λ again. begins_destroy_unknown (step gone (writes call type bytes)) again o unknown,
    )
