-- ===== src/Actor.antt =====
-- actor/actor.h and actor/actor.cpp: the mailbox of an actor and the tasks on its strand.
-- The mutex makes an access to the mailbox one step, and the strand runs one task at a time; between
-- the steps other threads may enqueue, as `Move` lists.
pub mod Delivery
pub mod Waking
pub mod Liveness
pub mod Ticks
mod Tests
use wasm_hot.Base.{ℕ, [], ◌∷◌, ◌++◌, List, Option, none, some, Bool, true, false, if◌then◌else◌}
use wasm_hot.Bytes.{Bytes}

pub record ActorMessage : Type 0 where
  pub sender_id : ℕ
  pub payload : Bytes

-- What is posted on the strand: the lambda of EnqueueMessage, and that of ScheduleTick.
pub data Task : Type 0 where
  process : Task
  tick : ℕ → Task

-- What an actor has been called with: HandleMessage and Tick, in order.
pub data Event : Type 0 where
  handled : ActorMessage → Event
  ticked : ℕ → Event

-- `batch` is `local_messages` of the task that runs, `running`.
pub record Actor : Type 0 where
  pub mailbox : List ActorMessage
  pub tasks : List Task
  pub running : Option Task
  pub batch : List ActorMessage
  pub log : List Event

abbrev pub new_actor : Actor
new_actor = record { mailbox = []; tasks = []; running = none; batch = []; log = [] }

abbrev pub is_empty {ℓ} : {A : Type ℓ} → List A → Bool
is_empty [] = true
is_empty (x ∷ xs) = false

unfoldable pub enqueue_message : Actor → ℕ → Bytes → Actor
enqueue_message a sender_id payload =
    let was_empty = is_empty a.mailbox in
    record a {
      mailbox = a.mailbox ++ record { sender_id = sender_id; payload = payload } ∷ [];
      tasks = if was_empty then a.tasks ++ process ∷ [] else a.tasks;
    }

unfoldable pub schedule_tick : Actor → ℕ → Actor
schedule_tick a interval_ms = record a { tasks = a.tasks ++ tick interval_ms ∷ [] }

-- The strand takes its next task. Both kinds begin with ProcessMessages, which swaps the mailbox out.
take_task : Actor → List Task → Option Actor
take_task a [] = none
take_task a (t ∷ ts) =
    some (record a { mailbox = []; tasks = ts; running = some t; batch = a.mailbox })

unfoldable pub begin_task : Actor → Option Actor
unfolding take_task
begin_task a = elim a.running [ none ↦ take_task a a.tasks | some t ↦ none ]

-- One round of the loop of ProcessMessages.
handle_batch : Actor → List ActorMessage → Option Actor
handle_batch a [] = none
handle_batch a (msg ∷ rest) = some (record a { batch = rest; log = a.log ++ handled msg ∷ [] })

unfoldable pub handle_next : Actor → Option Actor
unfolding handle_batch
handle_next a = elim a.running [ none ↦ none | some t ↦ handle_batch a a.batch ]

-- The end of a task: that of ScheduleTick calls Tick after the messages.
close_task : Actor → Task → Actor
close_task a process = record a { running = none }
close_task a (tick interval_ms) = record a {
  running = none;
  log = a.log ++ ticked interval_ms ∷ [];
}

unfoldable pub end_task : Actor → Option Actor
unfolding close_task
end_task a = elim a.running [
  | none ↦ none
  | some t ↦ if is_empty a.batch then some (close_task a t) else none
]

-- Steps of other threads, and steps of the strand.
pub data Move : Type 0 where
  enqueues : ℕ → Bytes → Move
  schedules : ℕ → Move
  begins handles ends : Move

pub move : Actor → Move → Option Actor
move a (enqueues sender_id payload) = some (enqueue_message a sender_id payload)
move a (schedules interval_ms) = some (schedule_tick a interval_ms)
move a begins = begin_task a
move a handles = handle_next a
move a ends = end_task a

unfoldable pub run : Actor → List Move → Option Actor
unfolding move
run a [] = some a
run a (m ∷ ms) = elim (move a m) [ none ↦ none | some b ↦ run b ms ]
