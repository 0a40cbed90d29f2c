-- ===== src/Session/Race.antt =====
-- The lambda of Gateway::Session::Send of core/gateway.cpp on several threads. It is posted on the
-- executor of the socket, which is that of the io_context and no strand: with more than one thread
-- its statements interleave with those of another lambda. Each statement is one step.
pub mod Overlap
use wasm_hot.Base.{
  ℕ, [], ◌∷◌, ◌++◌, List, Option, none, some, Bool, true, false, not, nat_key, if◌then◌else◌,
}
use wasm_hot.Bytes.{Bytes}
use wasm_hot.Dict.{Dict, find, assign, erase}
use wasm_hot.Session.{Sending, frame}

-- The statement of the lambda that a thread comes to next.
pub data Stage : Type 0 where
  pushing : Bytes → Stage
  testing marking writing : Stage

-- The members of a session that the lambdas share, and the writes that have not ended.
pub record Shared : Type 0 where
  pub send_queue : List Bytes
  pub send_in_progress : Bool
  pub in_flights : List Bytes
  pub threads : Dict ℕ Stage

-- A thread that is free takes a lambda.
unfoldable pub post : Shared → ℕ → Bytes → Shared
post s thread msg = elim (find thread s.threads) [
  | some stage ↦ s
  | none ↦ record s { threads = assign thread (pushing msg) s.threads }
]

-- DoWrite, which starts a write of the first message.
write_front : Shared → List Bytes → Shared
write_front s [] = record s { send_in_progress = false }
write_front s (msg ∷ rest) = record s {
  send_queue = rest;
  in_flights = s.in_flights ++ frame msg ∷ [];
}

-- The statements of the lambda, one by one.
advance_from : Shared → ℕ → Stage → Shared
unfolding write_front
advance_from s thread (pushing msg) = record s {
  send_queue = s.send_queue ++ msg ∷ [];
  threads = assign thread testing s.threads;
}
advance_from s thread testing =
    if not s.send_in_progress
    then record s { threads = assign thread marking s.threads }
    else record s { threads = erase thread s.threads }
advance_from s thread marking = record s {
  send_in_progress = true;
  threads = assign thread writing s.threads;
}
advance_from s thread writing =
    write_front (record s { threads = erase thread s.threads }) s.send_queue

unfoldable pub advance : Shared → ℕ → Shared
unfolding advance_from
advance s thread = elim (find thread s.threads) [
  | none ↦ s
  | some stage ↦ advance_from s thread stage
]

pub data Step : Type 0 where
  posts : ℕ → Bytes → Step
  advances : ℕ → Step

unfoldable pub step : Shared → Step → Shared
unfolding post advance
step s (posts thread msg) = post s thread msg
step s (advances thread) = advance s thread

unfoldable pub run : Shared → List Step → Shared
unfolding step
run s [] = s
run s (x ∷ xs) = run (step s x) xs
