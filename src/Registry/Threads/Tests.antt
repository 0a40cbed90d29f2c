-- ===== src/Registry/Threads/Tests.antt =====
-- A room that is created, looked up and written, and destroyed while its view is in use.
use wasm_hot.Base.{
  subst, sym, ◌∙◌, Option, ℕ, ◌≡◌, ◌⊎◌, refl, [], ◌∷◌, none, some, true, is_some, nat_key,
}
use wasm_hot.Dict.{find}
use wasm_hot.Storage.Lookup.{component}
use wasm_hot.Object.{ObjectHeader, GameObject, object_id}
use wasm_hot.Registry.Threads.{
  begin_get, Shared, creates, begins_get, writes, begins_destroy, ends_destroy, step,
}
use wasm_hot.Registry.Threads.Owners.{IsTimely, Reaches, stays, moves, new_shared, owned_lem}
use wasm_hot.Registry.Threads.Orphans.{orphan_lem}

abbrev header : ObjectHeader
header = record { schema_version = 1; object_type = 7; object_id = 5 }

abbrev view : GameObject
view = record { header = header; attached = true }

-- A registered room, one that call 1 looks at, and what that call has written.
abbrev there : Shared
there = step new_shared (creates header)

abbrev used : Shared
used = step there (begins_get 1 5)

abbrev written : Shared
written = step used (writes 1 2 (9 ∷ []))

is_used : find 1 used.views ≡ some view
unfolding find step wasm_hot.Registry.create wasm_hot.Dict.assign
is_used = refl

is_written : is_some (component written.storage 5 2) ≡ true
unfolding wasm_hot.Storage.read find step wasm_hot.Registry.create wasm_hot.Dict.assign
    wasm_hot.Object.write_component wasm_hot.Storage.write
is_written = refl

in_time : IsTimely used (writes 1 2 (9 ∷ []))
unfolding find step begin_get wasm_hot.Registry.create wasm_hot.Dict.assign
in_time looked_at e =
    subst
      (λ (o : Option GameObject). elim o [
        | none ↦ Unit
        | some v ↦ is_some (find (object_id v) used.registry.objects) ≡ true
      ])
      (sym is_used ∙ e) refl

is_reached : Reaches new_shared written
unfolding find step
is_reached = moves new_shared written (creates header) tt (
    moves there written (begins_get 1 5) tt
      (moves used written (writes 1 2 (9 ∷ [])) in_time (stays written)))

owned_lem_example :
    (is_some (find 5 written.registry.objects) ≡ true)
    ⊎ ((call : ℕ) × (find call written.removals ≡ some 5))
owned_lem_example = owned_lem written 5 2 is_reached is_written

orphan_lem_example :
    let s' = step (step (step used (begins_destroy 8 5)) (ends_destroy 8)) (writes 1 2 (9 ∷ [])) in
    (find 5 s'.registry.objects ≡ none)
    × (component s'.storage 5 2 ≡ some (9 ∷ []))
    × ((again : ℕ) → step s' (begins_destroy again 5) ≡ s')
orphan_lem_example = orphan_lem used 1 8 view 2 (9 ∷ []) is_used refl
