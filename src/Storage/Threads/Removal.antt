-- ===== src/Storage/Threads/Removal.antt =====
-- ComponentStorage::Write and ComponentStorage::RemoveAll of core/component_storage.cpp at once.
use wasm_hot.Base.{
  ℕ, ◌+◌, ◌≡◌, ◌≢◌, ◌∙◌, refl, sym, [], ◌∷◌, none, some, Bool, true, false, ◌==◌, if◌then◌else◌,
  arith, nat_key,
}
use wasm_hot.Dict.{find, assign, find-assign, find-erase}
use wasm_hot.Storage.{ComponentType, ComponentData}
use wasm_hot.Storage.Threads.{
  inserting, assigning, Threads, assign_at, enter_write, begin_write, insert_object, advance,
  continue_write, remove_object, begins, continues, removes_all, step, run,
}

module _ (s : Threads) (thread o : ℕ) (t : ComponentType) (bytes : ComponentData) where
  -- A Write by a thread that is not inside Write, of an object that is not there yet, uses freed
  -- memory if a RemoveAll of the object comes between its two locks.
  pub remove_all_between :
      (rehashes again : Bool)
      → find thread s.writers ≡ none
      → find o s.store ≡ none
      → run s (
          begins thread o t bytes
          ∷ continues thread rehashes
          ∷ removes_all o
          ∷ continues thread again
          ∷ [])
        ≡ none
  unfolding run step begin_write enter_write continue_write advance insert_object remove_object
      assign_at
  remove_all_between rehashes again idle missing =
      let g = if rehashes then s.generation + 1 else s.generation in
      ground (
        arith,
        find-assign thread thread (inserting o t bytes) s.writers,
        find-assign thread thread (assigning o s.next_address g t bytes)
            (assign thread (inserting o t bytes) s.writers),
        find-assign o o s.next_address s.store,
        find-erase s.next_address s.next_address (assign s.next_address [] s.heap),
      )

  -- The steps of a thread inside Write, of an object that is not there, up to its iterator.
  iterator_taken :
      (rehashes : Bool)
      → find thread s.writers ≡ some (inserting o t bytes)
      → find o s.store ≡ none
      → (s' : Threads) × (step s (continues thread rehashes) ≡ some s')
        × (a : ℕ) × (find thread s'.writers ≡ some (assigning o a s'.generation t bytes))
        × (s'.generation ≡ (if rehashes then s.generation + 1 else s.generation))
        × ((q : ℕ) → q ≢ o → find q s'.store ≡ find q s.store)
        × ((q : ℕ) → q ≢ thread → find q s'.writers ≡ find q s.writers)
  unfolding step continue_write advance insert_object
  iterator_taken rehashes here missing =
      let g = if rehashes then s.generation + 1 else s.generation in
      let iterator = assigning o s.next_address g t bytes in
      (
        record s {
          store = assign o s.next_address s.store;
          heap = assign s.next_address [] s.heap;
          next_address = s.next_address + 1;
          generation = g;
          writers = assign thread iterator s.writers;
        },
        rw (here, missing, continue_write, advance, insert_object) refl,
        s.next_address,
        ground (arith, find-assign thread thread iterator s.writers),
        refl,
        λ q other. ground (arith, find-assign o q s.next_address s.store),
        λ q other. ground (arith, find-assign thread q iterator s.writers),
      )

  -- An iterator of an earlier generation is invalid.
  old_iterator :
      (a g : ℕ) (rehashes : Bool)
      → find thread s.writers ≡ some (assigning o a g t bytes)
      → g ≢ s.generation
      → step s (continues thread rehashes) ≡ none
  unfolding step continue_write advance
  old_iterator a g rehashes here old =
      let stale : (g == s.generation) ≡ false = ground arith in
      rw (here, continue_write, advance, stale) refl

-- Two threads are inside Write, each of an object of its own that is not there yet. If one has taken
-- its iterator and released the lock, and the insertion of the other makes the map rehash, then the
-- first uses an invalid iterator.
pub rehash_between :
    (s : Threads) (thread other o p : ℕ) (t u : ComponentType) (bytes content : ComponentData)
    → thread ≢ other
    → o ≢ p
    → find thread s.writers ≡ some (inserting o t bytes)
    → find other s.writers ≡ some (inserting p u content)
    → find o s.store ≡ none
    → find p s.store ≡ none
    → (rehashes again : Bool)
    → run s (continues thread rehashes ∷ continues other true ∷ continues thread again ∷ []) ≡ none
unfolding run
rehash_between s thread other o p t u bytes content two apart here there missing absent rehashes
      again =
    let (s₁, e₁, a, taken, g₁, store₁, writers₁) =
      iterator_taken s thread o t bytes rehashes here missing in
    let (s₂, e₂, b, taken₂, g₂, store₂, writers₂) =
      iterator_taken s₁ other p u content true (writers₁ other (λ e. two (sym e)) ∙ there)
        (store₁ p (λ e. apart (sym e)) ∙ absent) in
    let kept = writers₂ thread two ∙ taken in
    let faults = old_iterator s₂ thread o t bytes a s₁.generation again kept (omega arith) in
    rw (e₁, run) (rw (e₂, run) (rw (faults, run) refl))
