-- ===== src/Storage/Tests.antt =====
-- Runs of the component storage, and the refinement at one history.
use mathlib.Core.Quot.{mk}
use wasm_hot.Base.{ℕ, ◌≡◌, refl, [], ◌∷◌, List, some, true, false, arith, if◌then◌else◌, nat_key}
use wasm_hot.Storage.{
  ComponentStorage, ComponentType, read, write, remove, remove_all, write_with_schema,
}
use wasm_hot.Storage.Unordered
use wasm_hot.Storage.Unordered.{
  UnorderedStorage, Apart, Change, touches, left_by, component_of, change_unordered, unordered_lem,
}
use wasm_hot.Storage.Refinement.{
  Call, reads, writes, writes_with_schema, removes, removes_all, found, reports, nothing, step, run,
  spec_run, view, run-view,
}

abbrev empty : ComponentStorage
empty = record { store = [] }

abbrev history : List Call
history =
    writes 1 10 (65 ∷ 66 ∷ [])
    ∷ reads 1 10
    ∷ writes_with_schema 1 11 (record { version = 1; object_type = 0; fields = []; total_size = 4 })
        []
    ∷ removes 1 10
    ∷ removes 1 10
    ∷ removes_all 1
    ∷ []

replies :
    (run empty history).1
    ≡ nothing
      ∷ found (some (65 ∷ 66 ∷ []))
      ∷ reports false
      ∷ reports true
      ∷ reports false
      ∷ nothing
      ∷ []
unfolding run step read write write_with_schema remove remove_all wasm_hot.Dict.find
    wasm_hot.Dict.assign wasm_hot.Dict.erase
replies = refl

run-view_example :
    ((run empty history).1 ≡ (spec_run (view empty) history).1)
    × (view (run empty history).0 ≡ (spec_run (view empty) history).0)
run-view_example = run-view empty history

abbrev one : Change
one = Unordered.writes 1 10 (65 ∷ [])

abbrev all_of_two : Change
all_of_two = Unordered.removes_all 2

apart : Apart one all_of_two
apart p q h = ground arith

unordered_lem_example :
    let u : UnorderedStorage = mk (run empty history).0 in
    ((o : ℕ) (t : ComponentType)
      → component_of (change_unordered one u) o t
        ≡ (if touches one o t then left_by one else component_of u o t))
    × (change_unordered one (change_unordered all_of_two u)
        ≡ change_unordered all_of_two (change_unordered one u))
unordered_lem_example = unordered_lem one all_of_two (mk (run empty history).0) apart
