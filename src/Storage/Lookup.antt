-- ===== src/Storage/Lookup.antt =====
-- What a reader finds after each operation on the storage.
use wasm_hot.Base.{
  ℕ, ◌≡◌, Option, none, some, arith, ◌==◌, ◌&&◌, if◌then◌else◌, is_some, nat_key, inl, inr,
  Option-cases,
}
use wasm_hot.Dict.{find, assign, erase, find-assign, find-erase}
use wasm_hot.Storage.{
  ComponentStorage, ComponentType, ComponentData, slot_of, read, write, remove, remove_all,
}

-- The component that a reader is shown.
abbrev pub component : ComponentStorage → ℕ → ComponentType → Option ComponentData
component s object_id type = read s object_id type (λ found. found)

-- The callback gets exactly the component that is stored.
pub read_lem {ℓ} :
    {A : Type ℓ} (s : ComponentStorage) (o : ℕ) (t : ComponentType)
    (callback : Option ComponentData → A)
    → read s o t callback ≡ callback (component s o t)
unfolding read
read_lem s o t callback = elim (Option-cases (find o s.store)) [
  | inl e ↦ rw (e, read)
  | inr (c, e) ↦ rw (e, read)
]

module _ (s : ComponentStorage) (o : ℕ) (t : ComponentType) (p : ℕ) (q : ComponentType) where
  -- A write changes the one component that it names.
  pub component-write :
      (bytes : ComponentData)
      → component (write s o t bytes) p q
        ≡ (if o == p && t == q then some bytes else component s p q)
  unfolding read write find
  component-write bytes =
      let components = slot_of (find o s.store) in
      ground (
        arith,
        find-assign o p (assign t bytes components) s.store,
        find-assign t q bytes components,
      )

  pub component-remove :
      component (remove s o t).1 p q ≡ (if o == p && t == q then none else component s p q)
  unfolding read remove
  component-remove = elim (Option-cases (find o s.store)) [
    | inl e ↦ ground arith
    | inr (c, e) ↦ ground (arith, find-assign o p (erase t c) s.store, find-erase t q c)
  ]

  pub component-remove_all :
      component (remove_all s o) p q ≡ (if o == p then none else component s p q)
  unfolding read remove_all
  component-remove_all = ground (arith, find-erase o p s.store)

-- A removal reports whether there was something to remove.
pub remove_reports :
    (s : ComponentStorage) (o : ℕ) (t : ComponentType)
    → (remove s o t).0 ≡ is_some (component s o t)
unfolding read remove
remove_reports s o t = ground arith
