-- ===== src/Singleton.antt =====
-- common/singleton.h: Instance of the managers, which threads call for the first time at once.
-- std::call_once runs the lambda of one caller at a time; the others wait. If it throws, the next
-- caller runs it again; once it has returned, no one does.
pub mod Instance
mod Tests
use wasm_hot.Base.{
  ℕ, ◌+◌, [], ◌∷◌, ◌++◌, List, Option, none, some, Bool, true, false, ◌==◌, nat_key, if◌then◌else◌,
}

pub data OnceFlag : Type 0 where
  fresh : OnceFlag
  running : ℕ → OnceFlag
  finished : OnceFlag

-- `instance_` is the address of the object, and `returned` what Instance has answered, a null pointer
-- being `none`. Each `new` takes the next address.
pub record Singleton : Type 0 where
  pub flag : OnceFlag
  pub instance_ : Option ℕ
  pub next_address : ℕ
  pub constructed : ℕ
  pub returned : List (ℕ × Option ℕ)

unfoldable pub new_singleton : ℕ → Singleton
new_singleton address = record {
  flag = fresh;
  instance_ = none;
  next_address = address;
  constructed = 0;
  returned = [];
}

-- return instance_.get()
unfoldable pub return_instance : Singleton → ℕ → Singleton
return_instance s thread = record s { returned = s.returned ++ (thread, s.instance_) ∷ [] }

-- A thread calls Instance; one that finds the lambda running waits, and calls again later.
call_under : OnceFlag → Singleton → ℕ → Singleton
unfolding return_instance
call_under fresh s thread = record s { flag = running thread }
call_under (running other) s thread = s
call_under finished s thread = return_instance s thread

unfoldable pub call_instance : Singleton → ℕ → Singleton
unfolding call_under
call_instance s thread = call_under s.flag s thread

-- instance_.reset(new T), unless the constructor throws.
unfoldable pub reset : Singleton → Singleton
reset s = record s {
  flag = finished;
  instance_ = some s.next_address;
  next_address = s.next_address + 1;
  constructed = s.constructed + 1;
}

-- The thread that runs the lambda ends it.
end_lambda : Singleton → ℕ → ℕ → Bool → Singleton
unfolding reset return_instance
end_lambda s thread runner ok =
    if thread == runner
    then (if ok then return_instance (reset s) thread else record s { flag = fresh })
    else s

unfoldable pub construct : Singleton → ℕ → Bool → Singleton
unfolding end_lambda
construct s thread ok = elim s.flag [
  | fresh ↦ s
  | running runner ↦ end_lambda s thread runner ok
  | finished ↦ s
]

-- What one thread does next.
pub data Step : Type 0 where
  calls : ℕ → Step
  constructs : ℕ → Bool → Step

unfoldable pub step : Singleton → Step → Singleton
unfolding call_instance construct
step s (calls thread) = call_instance s thread
step s (constructs thread ok) = construct s thread ok

unfoldable pub run : Singleton → List Step → Singleton
unfolding step
run s [] = s
run s (x ∷ xs) = run (step s x) xs
