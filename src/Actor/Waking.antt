-- ===== src/Actor/Waking.antt =====
-- The tasks of an actor of actor/actor.cpp that fetch messages, posted only into an empty mailbox.
use wasm_hot.Base.{
  ◌≡◌, ◌⊎◌, inl, inr, refl, [], ◌∷◌, ◌++◌, List, some, Bool, true, false, ◌||◌, arith, Option-cases,
}
use wasm_hot.Actor.{
  Actor, Task, process, tick, Move, enqueues, schedules, begins, handles, ends, move, run,
  enqueue_message, schedule_tick, begin_task, handle_next, end_task, is_empty,
}

abbrev pub has_process : List Task → Bool
has_process [] = false
has_process (process ∷ ts) = true
has_process (tick n ∷ ts) = has_process ts

pub has_process-append :
    (ts us : List Task) → has_process (ts ++ us) ≡ (has_process ts || has_process us)
has_process-append [] us = refl
has_process-append (process ∷ ts) us = refl
has_process-append (tick n ∷ ts) us = has_process-append ts us

-- A waiting message has a ProcessMessages task on the strand.
abbrev pub IsAwake : Actor → Type 0
IsAwake a = (is_empty a.mailbox ≡ true) ⊎ (has_process a.tasks ≡ true)

move-IsAwake : (a b : Actor) (m : Move) → IsAwake a → move a m ≡ some b → IsAwake b
unfolding move enqueue_message schedule_tick begin_task handle_next end_task
move-IsAwake a b (enqueues sender_id payload) v h =
    ground (arith, has_process-append a.tasks (process ∷ []))
move-IsAwake a b (schedules n) v h = ground (arith, has_process-append a.tasks (tick n ∷ []))
move-IsAwake a b begins v h = ground arith
move-IsAwake a b handles v h = ground arith
move-IsAwake a b ends v h = ground arith

-- In every state that any steps reach, a waiting message has its task on the strand.
pub run-IsAwake : (a b : Actor) (ms : List Move) → IsAwake a → run a ms ≡ some b → IsAwake b
unfolding run
run-IsAwake a b [] v h = ground arith
run-IsAwake a b (m ∷ ms) v h = elim (Option-cases (move a m)) [
  | inl e ↦ absurd (ground arith)
  | inr (c, e) ↦ run-IsAwake c b ms (move-IsAwake a c m v e) (ground arith)
]
