-- ===== src/Storage/Threads/Writes.antt =====
-- What threads in core/component_storage.cpp do to the components that readers find.
use wasm_hot.Base.{
  ap, ℕ, ◌≡◌, refl, sym, ◌∙◌, fun_ext, inl, inr, [], ◌∷◌, ◌++◌, List, Option, none, some, true,
  false, ◌==◌, arith, nat_key, Option-cases, Bool-cases,
}
use wasm_hot.Dict.{find, assign, erase, find-assign, find-erase}
use wasm_hot.Storage.{ComponentType, ComponentData}
use wasm_hot.Storage.Threads.{
  Writer, inserting, assigning, Threads, enter_write, begin_write, insert_object, advance,
  continue_write, erase_at, read_step, remove_component, Step, begins, continues, reads, removes,
  removes_all, step, run,
}
use wasm_hot.Storage.Threads.Sound.{
  visible, IsSound, Effect, after_effect, assign_at-IsSound, erase_at-IsSound,
  read_component-visible, insert_object-IsSound, with_writers,
}

-- The write or removal that takes effect in a step, if one does.
abbrev pub finished : Option Writer → List Effect
finished none = []
finished (some (inserting o t bytes)) = []
finished (some (assigning o a g t bytes)) = (o, t, some bytes) ∷ []

abbrev entered : Option ℕ → Effect → List Effect
entered none w = []
entered (some a) w = w ∷ []

abbrev begun : Option Writer → Option ℕ → Effect → List Effect
begun none found w = entered found w
begun (some writer) found w = []

abbrev pub performed : Threads → Step → List Effect
performed s (begins thread o t bytes) =
    begun (find thread s.writers) (find o s.store) (o, t, some bytes)
performed s (continues thread rehashes) = finished (find thread s.writers)
performed s (reads o t) = []
performed s (removes o t) = entered (find o s.store) (o, t, none)
performed s (removes_all o) = []

abbrev pub View : Type 0
View = ℕ → ComponentType → Option ComponentData

unfoldable pub after_effects : List Effect → View → View
after_effects [] f = f
after_effects (w ∷ ws) f = after_effects ws (after_effect w f)

-- A step that is no fault, leaves the state sound and has had these effects.
abbrev pub Performs : Threads → Option Threads → List Effect → Type 0
Performs s result ws =
    (s' : Threads) × (result ≡ some s') × IsSound s' × (visible s' ≡ after_effects ws (visible s))

enter_write-Performs :
    (s : Threads) (thread o : ℕ) (t : ComponentType) (bytes : ComponentData)
    → IsSound s
    → Performs s (enter_write s thread o t bytes) (entered (find o s.store) (o, t, some bytes))
unfolding enter_write after_effects
enter_write-Performs s thread o t bytes v = elim (Option-cases (find o s.store)) [
  | inl e ↦ rw e (
    record s { writers = assign thread (inserting o t bytes) s.writers },
    rw (e, enter_write),
    with_writers s (assign thread (inserting o t bytes) s.writers) v λ other p a g q bs k.
        v.valid other p a g q bs
          (ground (arith, find-assign thread other (inserting o t bytes) s.writers)),
    refl,
  )
  | inr (a, e) ↦
      let (s', ran, sound, seen) = assign_at-IsSound s o a t bytes v e in
      rw e (s', rw (e, enter_write) ran, sound, fun_ext λ p. fun_ext λ q. seen p q)
]

advance-Performs :
    (s : Threads) (thread : ℕ) (writer : Writer)
    → IsSound s
    → find thread s.writers ≡ some writer
    → Performs s (advance s thread writer false) (finished (some writer))
unfolding advance after_effects
advance-Performs s thread (inserting o t bytes) v here =
    let (sound, found, same, seen) = insert_object-IsSound s o v in
    let a = (insert_object s o false).0 in
    let s' = (insert_object s o false).1 in
    let iterator = assigning o a s'.generation t bytes in
    (
      record s' { writers = assign thread iterator s'.writers },
      refl,
      with_writers s' (assign thread iterator s'.writers) sound λ other p b g q bs k.
          elim (Bool-cases (thread == other)) [
            | inl mine ↦ ground (arith, find-assign thread other iterator s'.writers, found)
            | inr theirs ↦
                sound.valid other p b g q bs
                  (ground (arith, find-assign thread other iterator s'.writers))
          ],
      fun_ext λ p. fun_ext λ q. seen p q,
    )
advance-Performs s thread (assigning o a g t bytes) v here =
    let rest = with_writers s (erase thread s.writers) v λ other p b g' q bs k.
      v.valid other p b g' q bs (ground (arith, find-erase thread other s.writers)) in
    let (found, now) = v.valid thread o a g t bytes here in
    let (s', ran, sound, seen) =
      assign_at-IsSound (record s { writers = erase thread s.writers }) o a t bytes rest found in
    (s', ground (arith, ran, now), sound, fun_ext λ p. fun_ext λ q. seen p q)

-- Steps among which there is no RemoveAll, and in which no insertion rehashes.
abbrev pub IsQuiet : List Step → Type 0
IsQuiet [] = Unit {0}
IsQuiet (begins thread o t bytes ∷ xs) = IsQuiet xs
IsQuiet (continues thread rehashes ∷ xs) = (rehashes ≡ false) × IsQuiet xs
IsQuiet (reads o t ∷ xs) = IsQuiet xs
IsQuiet (removes o t ∷ xs) = IsQuiet xs
IsQuiet (removes_all o ∷ xs) = ⊥

begin_write-Performs :
    (s : Threads) (thread o : ℕ) (t : ComponentType) (bytes : ComponentData)
    → IsSound s
    → Performs s (begin_write s thread o t bytes) (performed s (begins thread o t bytes))
unfolding begin_write after_effects
begin_write-Performs s thread o t bytes v = elim (Option-cases (find thread s.writers)) [
  | inl e ↦ rw (e, begin_write) (enter_write-Performs s thread o t bytes v)
  | inr (writer, e) ↦ rw (e, begin_write) (s, refl, v, refl)
]

continue_write-Performs :
    (s : Threads) (thread : ℕ)
    → IsSound s
    → Performs s (continue_write s thread false) (performed s (continues thread false))
unfolding continue_write after_effects
continue_write-Performs s thread v = elim (Option-cases (find thread s.writers)) [
  | inl e ↦ rw (e, continue_write) (s, refl, v, refl)
  | inr (writer, e) ↦ rw (e, continue_write) (advance-Performs s thread writer v e)
]

read_step-Performs :
    (s : Threads) (o : ℕ) (t : ComponentType)
    → IsSound s
    → Performs s (read_step s o t) (performed s (reads o t))
unfolding read_step after_effects
read_step-Performs s o t v = (s, ground (arith, read_component-visible s o t v), v, refl)

remove_component-Performs :
    (s : Threads) (o : ℕ) (t : ComponentType)
    → IsSound s
    → Performs s (remove_component s o t) (performed s (removes o t))
unfolding remove_component after_effects erase_at
remove_component-Performs s o t v = elim (Option-cases (find o s.store)) [
  | inl e ↦ rw (e, remove_component, erase_at) (s, refl, v, refl)
  | inr (a, e) ↦
      let (s', ran, sound, seen) = erase_at-IsSound s o a t v e in
      rw (e, remove_component) (s', ran, sound, fun_ext λ p. fun_ext λ q. seen p q)
]

step-Performs :
    (s : Threads) (x : Step) → IsSound s → IsQuiet (x ∷ []) → Performs s (step s x) (performed s x)
unfolding step
step-Performs s (begins thread o t bytes) v quiet = begin_write-Performs s thread o t bytes v
step-Performs s (continues thread false) v quiet = continue_write-Performs s thread v
step-Performs s (continues thread true) v quiet = absurd (ground arith)
step-Performs s (reads o t) v quiet = read_step-Performs s o t v
step-Performs s (removes o t) v quiet = remove_component-Performs s o t v
step-Performs s (removes_all o) v quiet = absurd quiet

after_effects-append :
    (us ws : List Effect) (f : View)
    → after_effects (us ++ ws) f ≡ after_effects ws (after_effects us f)
unfolding after_effects
after_effects-append [] ws f = refl
after_effects-append (u ∷ us) ws f = after_effects-append us ws (after_effect u f)

first-IsQuiet : (x : Step) (xs : List Step) → IsQuiet (x ∷ xs) → IsQuiet (x ∷ []) × IsQuiet xs
first-IsQuiet (begins thread o t bytes) xs quiet = (tt, quiet)
first-IsQuiet (continues thread rehashes) xs (none_rehashes, quiet) = ((none_rehashes, tt), quiet)
first-IsQuiet (reads o t) xs quiet = (tt, quiet)
first-IsQuiet (removes o t) xs quiet = (tt, quiet)
first-IsQuiet (removes_all o) xs quiet = absurd quiet

-- The writes and removals that take effect in a run, in order.
unfoldable pub all_performed : Threads → List Step → List Effect
all_performed s [] = []
all_performed s (x ∷ xs) =
    performed s x ++ elim (step s x) [ none ↦ [] | some s' ↦ all_performed s' xs ]

-- From a sound state, in every interleaving of reads, writes and removals of single components, a
-- Write in its parts between the locks, and as long as no insertion makes the map rehash, no freed
-- memory and no invalid iterator is used and the state stays sound, and the components that readers find are those from before, changed by the writes and removals that took
-- effect, in order.
pub run-Performs :
    (s : Threads) (xs : List Step)
    → IsSound s
    → IsQuiet xs
    → Performs s (run s xs) (all_performed s xs)
unfolding run all_performed after_effects
run-Performs s [] v quiet = (s, refl, v, refl)
run-Performs s (x ∷ xs) v quiet =
    let (now, later) = first-IsQuiet x xs quiet in
    let (s', ran, sound, seen) = step-Performs s x v now in
    let (s'', ran', sound', seen') = run-Performs s' xs sound later in
    rw (ran, run, all_performed)
      (
        s'',
        ran',
        sound',
        seen'
            ∙ ap (after_effects (all_performed s' xs)) seen
            ∙ sym (after_effects-append (performed s x) (all_performed s' xs) (visible s)),
      )
