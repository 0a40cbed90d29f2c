-- ===== src/Singleton/Tests.antt =====
-- Two threads ask for the instance at once, and the first constructor throws.
use wasm_hot.Base.{◌≡◌, refl, [], ◌∷◌, ◌++◌, List, some, true, false, if◌then◌else◌, nat_key}
use wasm_hot.Singleton.{new_singleton, Step, calls, constructs, call_instance, run}
use wasm_hot.Singleton.Instance.{all_point_to, is_finished, run-all_point_to}

abbrev steps : List Step
steps =
    calls 1 ∷ calls 2 ∷ constructs 1 false ∷ calls 2 ∷ calls 1 ∷ constructs 2 true ∷ calls 1 ∷ []

both : (run (new_singleton 100) steps).returned ≡ (2, some 100) ∷ (1, some 100) ∷ []
unfolding run new_singleton
both = refl

run-all_point_to_example :
    let s = run (new_singleton 100) steps in
    (all_point_to 100 s.returned ≡ true)
    × (s.constructed ≡ (if is_finished s.flag then 1 else 0))
    × (is_finished s.flag ≡ true
        → call_instance s 3 ≡ record s { returned = s.returned ++ (3, some 100) ∷ [] })
run-all_point_to_example = run-all_point_to 100 steps 3
