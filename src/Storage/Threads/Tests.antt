-- ===== src/Storage/Threads/Tests.antt =====
-- Two threads that write to an object that is not there yet, and one that removes it meanwhile.
use wasm_hot.Base.{◌≡◌, refl, [], ◌∷◌, ◌++◌, List, none, some, true, false, arith}
use wasm_hot.Dict.{find}
use wasm_hot.Storage.Threads.{
  inserting, Threads, Step, begins, reads, removes, continues, removes_all, run, step,
}
use wasm_hot.Storage.Threads.Sound.{IsSound}
use wasm_hot.Storage.Threads.Writes.{Performs, all_performed, run-Performs}
use wasm_hot.Storage.Threads.Removal.{remove_all_between, rehash_between}

abbrev idle : Threads
idle = record { store = []; heap = []; next_address = 100; generation = 0; writers = [] }

idle-IsSound : IsSound idle
unfolding find
idle-IsSound = record {
  allocated = λ o a h. absurd (ground arith);
  separate = λ o p a h k. absurd (ground arith);
  valid = λ thread o a g t bytes h. absurd (ground arith);
}

-- Both find no object and go on to insert it.
abbrev race : List Step
race =
    begins 1 5 10 (7 ∷ [])
    ∷ begins 2 5 11 (8 ∷ [])
    ∷ continues 1 false
    ∷ continues 2 false
    ∷ continues 2 false
    ∷ continues 1 false
    ∷ []

-- One object is made, and it has both components.
both_written :
    run idle race
    ≡ some (record {
      store = (5, 100) ∷ [];
      heap = (100, (11, 8 ∷ []) ∷ (10, 7 ∷ []) ∷ []) ∷ [];
      next_address = 101;
      generation = 0;
      writers = [];
    })
unfolding run find wasm_hot.Dict.assign wasm_hot.Dict.erase
both_written = refl

-- Then one is removed, and read.
abbrev then_removed : List Step
then_removed = race ++ removes 5 11 ∷ reads 5 11 ∷ []

run-Performs_example :
    Performs idle
      (run idle then_removed)
      ((5, 11, some (8 ∷ [])) ∷ (5, 10, some (7 ∷ [])) ∷ (5, 11, none) ∷ [])
unfolding all_performed find step wasm_hot.Dict.assign wasm_hot.Dict.erase
run-Performs_example =
    run-Performs idle then_removed idle-IsSound (refl, (refl, (refl, (refl, tt))))

remove_all_between_example :
    run idle (begins 1 5 10 (7 ∷ []) ∷ continues 1 true ∷ removes_all 5 ∷ continues 1 false ∷ [])
    ≡ none
unfolding find
remove_all_between_example = remove_all_between idle 1 5 10 (7 ∷ []) true false refl refl

-- Two threads before the unique lock, each with an object of its own.
abbrev two_inside : Threads
two_inside = record idle {
  writers = (1, inserting 5 10 (7 ∷ [])) ∷ (2, inserting 6 11 (8 ∷ [])) ∷ [];
}

rehash_between_example :
    run two_inside (continues 1 false ∷ continues 2 true ∷ continues 1 false ∷ []) ≡ none
unfolding find
rehash_between_example =
    rehash_between two_inside 1 2 5 6 10 11 (7 ∷ []) (8 ∷ []) (omega arith) (omega arith) refl refl
      refl refl false false
