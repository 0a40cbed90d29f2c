-- ===== src/Storage/Threads/Sound.antt =====
-- The objects of core/component_storage.cpp and the iterators of its writers, between the locks.
use wasm_hot.Base.{
  ℕ, ◌<◌, ◌≡◌, refl, inl, inr, [], Option, none, some, true, false, ◌&&◌, ◌==◌, if◌then◌else◌,
  is_some, arith, nat_key, Option-cases,
}
use wasm_hot.Dict.{Dict, find, assign, erase, find-assign, find-erase}
use wasm_hot.Storage.{ComponentType, ComponentData, ObjectComponents}
use wasm_hot.Storage.Threads.{
  Writer, assigning, Threads, assign_at, erase_at, read_at, read_component, insert_object,
}

-- The component that a reader finds.
abbrev pub component_in : Option ObjectComponents → ComponentType → Option ComponentData
component_in none t = none
component_in (some components) t = find t components

abbrev pub object_in : Dict ℕ ObjectComponents → Option ℕ → Option ObjectComponents
object_in heap none = none
object_in heap (some address) = find address heap

abbrev pub visible : Threads → ℕ → ComponentType → Option ComponentData
visible s o t = component_in (object_in s.heap (find o s.store)) t

-- Objects are allocated, each at an address of its own, and an iterator is valid and points to its
-- object.
pub record IsSound (s : Threads) : Type 0 where
  pub allocated :
      (o a : ℕ) → find o s.store ≡ some a → (a < s.next_address) × (is_some (find a s.heap) ≡ true)
  pub separate : (o p a : ℕ) → find o s.store ≡ some a → find p s.store ≡ some a → o ≡ p
  pub valid :
      (thread o a g : ℕ) (t : ComponentType) (bytes : ComponentData)
      → find thread s.writers ≡ some (assigning o a g t bytes)
      → (find o s.store ≡ some a) × (g ≡ s.generation)

-- A write or a removal that takes effect: what the component is then.
abbrev pub Effect : Type 0
Effect = ℕ × ComponentType × Option ComponentData

-- A component after an effect.
abbrev pub after_effect :
    Effect → (ℕ → ComponentType → Option ComponentData) → ℕ → ComponentType → Option ComponentData
after_effect (o, t, now) f p q = if o == p && t == q then now else f p q

pub assign_at-IsSound :
    (s : Threads) (o a : ℕ) (t : ComponentType) (bytes : ComponentData)
    → IsSound s
    → find o s.store ≡ some a
    → (s' : Threads) × (assign_at s a t bytes ≡ some s')
      × IsSound s'
      × ((p : ℕ) (q : ComponentType)
          → visible s' p q ≡ after_effect (o, t, some bytes) (visible s) p q)
unfolding assign_at
assign_at-IsSound s o a t bytes v here = elim (Option-cases (find a s.heap)) [
  | inl e ↦ let known = v.allocated o a here in absurd (ground arith)
  | inr (c, e) ↦ (
    record s { heap = assign a (assign t bytes c) s.heap },
    ground arith,
    record {
      allocated = λ p b k.
          let known = v.allocated p b k in
          ground (arith, find-assign a b (assign t bytes c) s.heap);
      separate = v.separate;
      valid = v.valid;
    },
    λ p q. elim (Option-cases (find p s.store)) [
      | inl e' ↦ ground arith
      | inr (b, e') ↦ ground (
        arith,
        find-assign a b (assign t bytes c) s.heap,
        find-assign t q bytes c,
        v.separate o p a here,
      )
    ],
  )
]

pub erase_at-IsSound :
    (s : Threads) (o a : ℕ) (t : ComponentType)
    → IsSound s
    → find o s.store ≡ some a
    → (s' : Threads) × (erase_at s t (some a) ≡ some s')
      × IsSound s'
      × ((p : ℕ) (q : ComponentType) → visible s' p q ≡ after_effect (o, t, none) (visible s) p q)
unfolding erase_at
erase_at-IsSound s o a t v here = elim (Option-cases (find a s.heap)) [
  | inl e ↦ let known = v.allocated o a here in absurd (ground arith)
  | inr (c, e) ↦ (
    record s { heap = assign a (erase t c) s.heap },
    ground arith,
    record {
      allocated = λ p b k.
          let known = v.allocated p b k in ground (arith, find-assign a b (erase t c) s.heap);
      separate = v.separate;
      valid = v.valid;
    },
    λ p q. elim (Option-cases (find p s.store)) [
      | inl e' ↦ ground arith
      | inr (b, e') ↦
          ground
            (arith, find-assign a b (erase t c) s.heap, find-erase t q c, v.separate o p a here)
    ],
  )
]

-- In a sound state a reader uses no freed memory.
pub read_component-visible :
    (s : Threads) (o : ℕ) (t : ComponentType)
    → IsSound s
    → read_component s o t ≡ some (visible s o t)
unfolding read_component read_at
read_component-visible s o t v = elim (Option-cases (find o s.store)) [
  | inl e ↦ ground arith
  | inr (a, e) ↦ let known = v.allocated o a e in ground arith
]

-- The store after the part under the unique lock, if it does not rehash, with the iterator that the thread has then.
pub insert_object-IsSound :
    (s : Threads) (o : ℕ)
    → IsSound s
    → let (a, s') = insert_object s o false in
      IsSound s'
      × (find o s'.store ≡ some a)
      × (s'.writers ≡ s.writers)
      × ((p : ℕ) (q : ComponentType) → visible s' p q ≡ visible s p q)
unfolding insert_object find
insert_object-IsSound s o v = elim (Option-cases (find o s.store)) [
  | inr (a, e) ↦ rw (e, insert_object) (v, e, refl, λ p q. refl)
  | inl e ↦
      rw (e, insert_object)
        (
          record {
            allocated = λ p a k. ground (
              arith,
              find-assign o p s.next_address s.store,
              find-assign s.next_address a [] s.heap,
              v.allocated p a,
            );
            separate = λ p q a h k. ground (
              arith,
              find-assign o p s.next_address s.store,
              find-assign o q s.next_address s.store,
              v.allocated p a,
              v.allocated q a,
              v.separate p q a,
            );
            valid = λ thread p a g t bytes k.
                let known = v.valid thread p a g t bytes k in
                (ground (arith, find-assign o p s.next_address s.store, known.0), known.1);
          },
          ground (arith, find-assign o o s.next_address s.store),
          refl,
          λ p q. elim (Option-cases (find p s.store)) [
            | inl e' ↦ ground (
              arith,
              find-assign o p s.next_address s.store,
              find-assign s.next_address s.next_address [] s.heap,
            )
            | inr (b, e') ↦
                let known = v.allocated p b e' in
                ground (
                  arith,
                  find-assign o p s.next_address s.store,
                  find-assign s.next_address b [] s.heap,
                )
          ],
        )
]

-- The same store with other writers, all of whose iterators are good.
pub with_writers :
    (s : Threads) (ws : Dict ℕ Writer)
    → IsSound s
    → ((thread o a g : ℕ) (t : ComponentType) (bytes : ComponentData)
        → find thread ws ≡ some (assigning o a g t bytes)
        → (find o s.store ≡ some a) × (g ≡ s.generation))
    → IsSound (record s { writers = ws })
with_writers s ws v good = record { allocated = v.allocated; separate = v.separate; valid = good }
