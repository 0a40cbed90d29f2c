-- ===== src/Actor/Tests.antt =====
-- Two messages and a tick, with a message that arrives while the first is handled.
use wasm_hot.Base.{◌≡◌, refl, inr, [], ◌∷◌, ◌++◌, List, none, some}
use wasm_hot.Actor.{
  Actor, ActorMessage, Move, enqueues, schedules, begins, handles, ends, new_actor, run, process,
  tick, handled, ticked, enqueue_message, schedule_tick, begin_task, handle_next, end_task,
}
use wasm_hot.Actor.Delivery.{all_messages, messages, sent, IsSettled, run-all_messages}
use wasm_hot.Actor.Liveness.{IsStrand, delivers_all}

abbrev one : ActorMessage
one = record { sender_id = 1; payload = 10 ∷ [] }

abbrev two : ActorMessage
two = record { sender_id = 2; payload = 20 ∷ [] }

abbrev moves : List Move
moves = enqueues 1 (10 ∷ []) ∷ schedules 16 ∷ begins ∷ enqueues 2 (20 ∷ []) ∷ handles ∷ ends ∷ []

-- The second message waits, with a task of its own behind the tick.
abbrev waiting : Actor
waiting = record {
  mailbox = two ∷ [];
  tasks = tick 16 ∷ process ∷ [];
  running = none;
  batch = [];
  log = handled one ∷ [];
}

runs : run new_actor moves ≡ some waiting
unfolding run begin_task schedule_tick enqueue_message handle_next end_task
runs = refl

-- The tick handles the second message first, and then there is nothing left for its task.
rest :
    run waiting (begins ∷ handles ∷ ends ∷ begins ∷ ends ∷ [])
    ≡ some (record {
      mailbox = [];
      tasks = [];
      running = none;
      batch = [];
      log = handled one ∷ handled two ∷ ticked 16 ∷ [];
    })
unfolding run begin_task handle_next end_task
rest = refl

run-all_messages_example :
    (all_messages waiting ≡ all_messages new_actor ++ sent moves) × IsSettled waiting
run-all_messages_example = run-all_messages new_actor waiting moves (λ stopped. refl) runs

delivers_all_example :
    (ms : List Move) × (b : Actor) × (run waiting ms ≡ some b)
    × IsStrand ms
    × (messages b.log ≡ all_messages waiting)
    × (b.mailbox ≡ [])
    × (b.tasks ≡ [])
    × (b.running ≡ none)
delivers_all_example = delivers_all waiting (λ stopped. refl) (inr refl)
