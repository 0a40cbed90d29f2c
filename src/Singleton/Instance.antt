-- ===== src/Singleton/Instance.antt =====
-- What Instance of common/singleton.h answers, in every interleaving of its callers.
use wasm_hot.Base.{
  ℕ, ◌≡◌, refl, ap, ◌∙◌, [], ◌∷◌, ◌++◌, List, Option, none, some, Bool, true, false, ◌&&◌, ◌==◌,
  nat_key, if◌then◌else◌, arith, if_both,
}
use wasm_hot.Singleton.{
  OnceFlag, fresh, running, finished, Singleton, new_singleton, return_instance, call_under,
  call_instance, reset, end_lambda, construct, Step, calls, constructs, step, run,
}

abbrev pub points_to : ℕ → Option ℕ → Bool
points_to address none = false
points_to address (some a) = a == address

-- Every answer is the object at this address.
unfoldable pub all_point_to : ℕ → List (ℕ × Option ℕ) → Bool
all_point_to address [] = true
all_point_to address ((thread, answer) ∷ rest) =
    points_to address answer && all_point_to address rest

abbrev pub is_finished : OnceFlag → Bool
is_finished finished = true
is_finished _ = false

all_point_to-append :
    (address thread : ℕ) (answer : Option ℕ) (xs : List (ℕ × Option ℕ))
    → all_point_to address (xs ++ (thread, answer) ∷ [])
      ≡ (all_point_to address xs && points_to address answer)
unfolding all_point_to
all_point_to-append address thread answer [] = ground arith
all_point_to-append address thread answer ((t, a) ∷ xs) =
    ground (arith, all_point_to-append address thread answer xs)

call_finished :
    (s : Singleton) (thread : ℕ) (f : OnceFlag)
    → s.flag ≡ f
    → is_finished f ≡ true
    → call_instance s thread ≡ return_instance s thread
unfolding call_instance call_under
call_finished s thread fresh e h = absurd (ground arith)
call_finished s thread (running other) e h = absurd (ground arith)
call_finished s thread finished e h = ap (λ f. call_under f s thread) e

return_some :
    (s : Singleton) (thread address : ℕ)
    → s.instance_ ≡ some address
    → return_instance s thread ≡ record s { returned = s.returned ++ (thread, some address) ∷ [] }
unfolding return_instance
return_some s thread address here =
    ap (λ (o : Option ℕ). record s { returned = s.returned ++ (thread, o) ∷ [] }) here

module _ (address : ℕ) where
  -- Until the lambda has returned there is no object, and afterwards there is one.
  record IsSingle (s : Singleton) : Type 0 where
    pub answers : all_point_to address s.returned ≡ true
    pub made : s.constructed ≡ (if is_finished s.flag then 1 else 0)
    pub object : is_finished s.flag ≡ true → s.instance_ ≡ some address
    pub next : is_finished s.flag ≡ false → s.next_address ≡ address

  return_instance-IsSingle :
      (s : Singleton) (thread : ℕ)
      → is_finished s.flag ≡ true
      → IsSingle s
      → IsSingle (return_instance s thread)
  unfolding return_instance
  return_instance-IsSingle s thread h v =
      let here = v.object h in
      let before = v.answers in
      record {
        answers = ground (arith, all_point_to-append address thread s.instance_ s.returned);
        made = v.made;
        object = v.object;
        next = v.next;
      }

  reset-IsSingle : (s : Singleton) → is_finished s.flag ≡ false → IsSingle s → IsSingle (reset s)
  unfolding reset
  reset-IsSingle s h v =
      let next = v.next h in
      let made = v.made in
      record {
        answers = v.answers;
        made = ground arith;
        object = λ f. ground arith;
        next = λ f. ground arith;
      }

  -- A change of the flag alone, before the lambda has returned.
  flag-IsSingle :
      (s : Singleton) (f : OnceFlag)
      → is_finished s.flag ≡ false
      → is_finished f ≡ false
      → IsSingle s
      → IsSingle (record s { flag = f })
  flag-IsSingle s f h h' v =
      let made = v.made in
      record {
        answers = v.answers;
        made = ground arith;
        object = λ k. absurd (ground arith);
        next = λ k. v.next h;
      }

  call_under-IsSingle :
      (s : Singleton) (thread : ℕ) (f : OnceFlag)
      → s.flag ≡ f
      → IsSingle s
      → IsSingle (call_under f s thread)
  unfolding call_under
  call_under-IsSingle s thread fresh e v =
      flag-IsSingle s (running thread) (ap is_finished e) refl v
  call_under-IsSingle s thread (running other) e v = v
  call_under-IsSingle s thread finished e v = return_instance-IsSingle s thread (ap is_finished e) v

  end_lambda-IsSingle :
      (s : Singleton) (thread runner : ℕ) (ok : Bool)
      → is_finished s.flag ≡ false
      → IsSingle s
      → IsSingle (end_lambda s thread runner ok)
  unfolding end_lambda reset
  end_lambda-IsSingle s thread runner ok h v =
      if_both IsSingle (thread == runner)
        (if_both IsSingle ok (return_instance-IsSingle (reset s) thread refl (reset-IsSingle s h v))
          (flag-IsSingle s fresh h refl v))
        v

  construct-IsSingle :
      (s : Singleton) (thread : ℕ) (ok : Bool) (f : OnceFlag)
      → s.flag ≡ f
      → IsSingle s
      → IsSingle (construct s thread ok)
  unfolding construct
  construct-IsSingle s thread ok fresh e v = rw (e, construct) v
  construct-IsSingle s thread ok (running runner) e v =
      rw (e, construct) (end_lambda-IsSingle s thread runner ok (ap is_finished e) v)
  construct-IsSingle s thread ok finished e v = rw (e, construct) v

  run-IsSingle : (s : Singleton) (xs : List Step) → IsSingle s → IsSingle (run s xs)
  unfolding run step call_instance
  run-IsSingle s [] v = v
  run-IsSingle s (calls thread ∷ xs) v =
      run-IsSingle (call_instance s thread) xs (call_under-IsSingle s thread s.flag refl v)
  run-IsSingle s (constructs thread ok ∷ xs) v =
      run-IsSingle (construct s thread ok) xs (construct-IsSingle s thread ok s.flag refl v)

-- In every interleaving of its callers, also if constructors throw on the way, Instance answers
-- every one with the same object and none with a null pointer, and the object is constructed once,
-- or not at all as long as no constructor has returned. A call after that answers at once.
pub run-all_point_to :
    (address : ℕ) (xs : List Step) (thread : ℕ)
    → let s = run (new_singleton address) xs in
      (all_point_to address s.returned ≡ true)
      × (s.constructed ≡ (if is_finished s.flag then 1 else 0))
      × (is_finished s.flag ≡ true
          → call_instance s thread
            ≡ record s { returned = s.returned ++ (thread, some address) ∷ [] })
unfolding new_singleton all_point_to
run-all_point_to address xs thread =
    let start : IsSingle address (new_singleton address) = record {
      answers = refl;
      made = refl;
      object = λ f. absurd (ground arith);
      next = λ f. refl;
    } in
    let v = run-IsSingle address (new_singleton address) xs start in
    let s = run (new_singleton address) xs in
    (
      v.answers,
      v.made,
      λ h. call_finished s thread s.flag refl h ∙ return_some s thread address (v.object h),
    )
