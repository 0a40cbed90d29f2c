-- ===== src/Storage/Refinement.antt =====
-- The component storage beside a function from objects and types to bytes, under histories of calls.
use wasm_hot.Base.{
  ℕ, ◌≡◌, refl, ap, ap₂, fun_ext, List, [], ◌∷◌, Option, none, some, Bool, true, false, arith,
  length, ◌==◌, ◌&&◌, if◌then◌else◌, is_some, nat_key, Bool-cases, inl, inr, ◌∙◌,
}
use wasm_hot.Schema.{Schema}
use wasm_hot.Storage.{
  ComponentStorage, ComponentType, ComponentData, read, write, write_with_schema, remove,
  remove_all,
}
use wasm_hot.Storage.Lookup.{
  component, component-write, component-remove, component-remove_all, remove_reports,
}

pub data Call : Type 0 where
  reads : ℕ → ComponentType → Call
  writes : ℕ → ComponentType → ComponentData → Call
  writes_with_schema : ℕ → ComponentType → Schema → ComponentData → Call
  removes : ℕ → ComponentType → Call
  removes_all : ℕ → Call

pub data Reply : Type 0 where
  found : Option ComponentData → Reply
  reports : Bool → Reply
  nothing : Reply

abbrev pub reply_bool {ℓ} : {A : Type ℓ} → Bool × A → A × Reply
reply_bool (b, s) = (s, reports b)

-- What the storage does at a call.
unfoldable pub step : ComponentStorage → Call → ComponentStorage × Reply
step s (reads o t) = (s, found (read s o t (λ c. c)))
step s (writes o t bytes) = (write s o t bytes, nothing)
step s (writes_with_schema o t schema bytes) = reply_bool (write_with_schema s o t schema bytes)
step s (removes o t) = reply_bool (remove s o t)
step s (removes_all o) = (remove_all s o, nothing)

-- The specification: a table of components.
abbrev pub Table : Type 0
Table = ℕ → ComponentType → Option ComponentData

abbrev pub put : Table → ℕ → ComponentType → Option ComponentData → Table
put f o t c p q = if o == p && t == q then c else f p q

pub spec_step : Table → Call → Table × Reply
spec_step f (reads o t) = (f, found (f o t))
spec_step f (writes o t bytes) = (put f o t (some bytes), nothing)
spec_step f (writes_with_schema o t schema bytes) =
    if length bytes == schema.total_size
    then (put f o t (some bytes), reports true)
    else (f, reports false)
spec_step f (removes o t) = (put f o t none, reports (is_some (f o t)))
spec_step f (removes_all o) = ((λ p q. if o == p then none else f p q), nothing)

unfoldable pub run : ComponentStorage → List Call → ComponentStorage × List Reply
run s [] = (s, [])
run s (c ∷ cs) = let (s', r) = step s c in let (t, rs) = run s' cs in (t, r ∷ rs)

pub spec_run : Table → List Call → Table × List Reply
spec_run f [] = (f, [])
spec_run f (c ∷ cs) = let (f', r) = spec_step f c in let (g, rs) = spec_run f' cs in (g, r ∷ rs)

-- The table that a storage stands for.
abbrev pub view : ComponentStorage → Table
view s o t = component s o t

step-view : (s : ComponentStorage) (c : Call) → view (step s c).0 ≡ (spec_step (view s) c).0
unfolding step spec_step write_with_schema
step-view s (reads o t) = refl
step-view s (writes o t bytes) = fun_ext λ p. fun_ext λ q. component-write s o t p q bytes
step-view s (writes_with_schema o t schema bytes) =
    elim (Bool-cases (length bytes == schema.total_size)) [
      | inl e ↦ rw e (fun_ext λ p. fun_ext λ q. component-write s o t p q bytes)
      | inr e ↦ rw e
    ]
step-view s (removes o t) = fun_ext λ p. fun_ext λ q. component-remove s o t p q
step-view s (removes_all o) = fun_ext λ p. fun_ext λ q. component-remove_all s o 0 p q

step-reply : (s : ComponentStorage) (c : Call) → (step s c).1 ≡ (spec_step (view s) c).1
unfolding step spec_step write_with_schema
step-reply s (reads o t) = refl
step-reply s (writes o t bytes) = refl
step-reply s (writes_with_schema o t schema bytes) = ground arith
step-reply s (removes o t) = ap reports (remove_reports s o t)
step-reply s (removes_all o) = refl

-- For every storage and every sequence of calls, the answers and the table that results are those
-- of the specification run on the table that the storage stands for.
pub run-view :
    (s : ComponentStorage) (cs : List Call)
    → ((run s cs).1 ≡ (spec_run (view s) cs).1) × (view (run s cs).0 ≡ (spec_run (view s) cs).0)
unfolding run spec_run
run-view s [] = (refl, refl)
run-view s (c ∷ cs) =
    let (replies, table) = run-view (step s c).0 cs in
    let moved = step-view s c in
    (
      ap₂ ◌∷◌ (step-reply s c) (replies ∙ ap (λ f. (spec_run f cs).1) moved),
      table ∙ ap (λ f. (spec_run f cs).0) moved,
    )
