-- ===== src/Actor/Delivery.antt =====
-- The messages of an actor of actor/actor.cpp: sent, waiting, being handled and handled.
use wasm_hot.Base.{
  ℕ, ◌≡◌, ◌≢◌, refl, ap, subst, sym, ◌∙◌, [], ◌∷◌, ◌++◌, List, Option, none, some, arith,
  append-nil, append_assoc, Option-cases, inl, inr,
}
use wasm_hot.Bytes.{Bytes}
use wasm_hot.Actor.{
  Actor, ActorMessage, Event, handled, ticked, Task, process, tick, Move, enqueues, schedules,
  begins, handles, ends, move, run, enqueue_message, schedule_tick, begin_task, handle_next,
  end_task,
}

-- The messages among the calls of an actor.
unfoldable pub messages : List Event → List ActorMessage
messages [] = []
messages (handled msg ∷ rest) = msg ∷ messages rest
messages (ticked interval_ms ∷ rest) = messages rest

messages-append : (xs ys : List Event) → messages (xs ++ ys) ≡ messages xs ++ messages ys
unfolding messages
messages-append [] ys = refl
messages-append (handled msg ∷ rest) ys = ap (◌∷◌ msg) (messages-append rest ys)
messages-append (ticked n ∷ rest) ys = messages-append rest ys

messages_ticked : (xs : List Event) (n : ℕ) → messages (xs ++ ticked n ∷ []) ≡ messages xs
unfolding messages
messages_ticked xs n = messages-append xs (ticked n ∷ []) ∙ append-nil (messages xs)

messages_handled :
    (xs : List Event) (msg : ActorMessage)
    → messages (xs ++ handled msg ∷ []) ≡ messages xs ++ msg ∷ []
unfolding messages
messages_handled xs msg = messages-append xs (handled msg ∷ [])

-- The messages that a sequence of steps puts into the mailbox.
unfoldable pub sent : List Move → List ActorMessage
sent [] = []
sent (enqueues sender_id payload ∷ rest) =
    record { sender_id = sender_id; payload = payload } ∷ sent rest
sent (schedules n ∷ rest) = sent rest
sent (begins ∷ rest) = sent rest
sent (handles ∷ rest) = sent rest
sent (ends ∷ rest) = sent rest

sent-cons : (m : Move) (ms : List Move) → sent (m ∷ ms) ≡ sent (m ∷ []) ++ sent ms
unfolding sent
sent-cons (enqueues sender_id payload) ms = refl
sent-cons _ ms = refl

-- Handled, about to be handled, and waiting.
abbrev pub all_messages : Actor → List ActorMessage
all_messages a = messages a.log ++ (a.batch ++ a.mailbox)

-- Between tasks nothing is left of a batch.
abbrev pub IsSettled : Actor → Type 0
IsSettled a = a.running ≡ none → a.batch ≡ []

-- The fields that a step of the strand changes.
begins_lem :
    (a b : Actor)
    → begin_task a ≡ some b
    → (a.running ≡ none)
      × (b.mailbox ≡ [])
      × (b.batch ≡ a.mailbox)
      × (b.log ≡ a.log)
      × (b.running ≢ none)
unfolding begin_task
begins_lem a b h = ground arith

handles_lem :
    (a b : Actor)
    → handle_next a ≡ some b
    → (msg : ActorMessage) × (a.batch ≡ msg ∷ b.batch)
      × (b.log ≡ a.log ++ handled msg ∷ [])
      × (b.mailbox ≡ a.mailbox)
      × (b.running ≢ none)
unfolding handle_next
handles_lem a b h = of_batch a.running a.batch refl refl h
  where
    of_batch :
        (t : Option Task) (batch : List ActorMessage)
        → a.running ≡ t
        → a.batch ≡ batch
        → handle_next a ≡ some b
        → (msg : ActorMessage) × (a.batch ≡ msg ∷ b.batch)
          × (b.log ≡ a.log ++ handled msg ∷ [])
          × (b.mailbox ≡ a.mailbox)
          × (b.running ≢ none)
    of_batch none batch e e' k = absurd (ground arith)
    of_batch (some t) [] e e' k = absurd (ground arith)
    of_batch (some t) (msg ∷ rest) e e' k =
        (msg, ground arith, ground arith, ground arith, λ stopped. ground arith)

ends_lem :
    (a b : Actor)
    → end_task a ≡ some b
    → (a.batch ≡ []) × (b.batch ≡ []) × (b.mailbox ≡ a.mailbox) × (messages b.log ≡ messages a.log)
unfolding end_task
ends_lem a b h = of_task a.running a.batch refl refl
  where
    of_task :
        (t : Option Task) (batch : List ActorMessage)
        → a.running ≡ t
        → a.batch ≡ batch
        → (a.batch ≡ [])
          × (b.batch ≡ [])
          × (b.mailbox ≡ a.mailbox)
          × (messages b.log ≡ messages a.log)
    of_task none batch e e' = absurd (ground arith)
    of_task (some t) (msg ∷ rest) e e' = absurd (ground arith)
    of_task (some process) [] e e' = (e', ground arith, ground arith, ground arith)
    of_task (some (tick n)) [] e e' =
        (e', ground arith, ground arith, ground (arith, messages_ticked a.log n))

enqueues_lem :
    (a b : Actor) (sender_id : ℕ) (payload : Bytes)
    → move a (enqueues sender_id payload) ≡ some b
    → (b.log ≡ a.log)
      × (b.batch ≡ a.batch)
      × (b.running ≡ a.running)
      × (b.mailbox ≡ a.mailbox ++ record { sender_id = sender_id; payload = payload } ∷ [])
unfolding move enqueue_message
enqueues_lem a b sender_id payload h = ground arith

schedules_lem :
    (a b : Actor) (n : ℕ)
    → move a (schedules n) ≡ some b
    → (b.log ≡ a.log) × (b.batch ≡ a.batch) × (b.running ≡ a.running) × (b.mailbox ≡ a.mailbox)
unfolding move schedule_tick
schedules_lem a b n h = ground arith

-- One step adds at the end what it puts into the mailbox, and nothing else.
move-all_messages :
    (a b : Actor) (m : Move)
    → IsSettled a
    → move a m ≡ some b
    → (all_messages b ≡ all_messages a ++ sent (m ∷ [])) × IsSettled b
unfolding move sent
move-all_messages a b (enqueues sender_id payload) v h =
    let (log, batch, running, mailbox) = enqueues_lem a b sender_id payload h in
    (rw (log, batch, mailbox) (simp append_assoc), λ stopped. batch ∙ v (sym running ∙ stopped))
move-all_messages a b (schedules n) v h =
    let (log, batch, running, mailbox) = schedules_lem a b n h in
    (rw (log, batch, mailbox) (sym (append-nil _)), λ stopped. batch ∙ v (sym running ∙ stopped))
move-all_messages a b begins v h =
    let (idle, mailbox, batch, log, busy) = begins_lem a b h in
    (rw (log, batch, mailbox, v idle) (simp append-nil), λ stopped. absurd (busy stopped))
move-all_messages a b handles v h =
    let (msg, batch, log, mailbox, busy) = handles_lem a b h in
    (
      simp (log, batch, mailbox, messages_handled, append-nil, append_assoc),
      λ stopped. absurd (busy stopped),
    )
move-all_messages a b ends v h =
    let (batch, batch', mailbox, log) = ends_lem a b h in
    (rw (log, batch, batch', mailbox) (simp append-nil), λ stopped. batch')

-- After any steps from an actor that has no batch while it is between tasks, its handled, current
-- and waiting messages are those from before, followed by the ones sent meanwhile, in order and
-- once each; and between tasks it has no batch again.
pub run-all_messages :
    (a b : Actor) (ms : List Move)
    → IsSettled a
    → run a ms ≡ some b
    → (all_messages b ≡ all_messages a ++ sent ms) × IsSettled b
unfolding run sent
run-all_messages a b [] v h =
    let same : a ≡ b = cc h in
    subst (λ c. (all_messages c ≡ all_messages a ++ []) × IsSettled c) same
      (sym (append-nil (all_messages a)), v)
run-all_messages a b (m ∷ ms) v h = elim (Option-cases (move a m)) [
  | inl e ↦ absurd (ground arith)
  | inr (c, e) ↦
      let (one, v') = move-all_messages a c m v e in
      let (rest, v'') = run-all_messages c b ms v' (ground arith) in
      (
        rest
            ∙ ap (λ l. l ++ sent ms) one
            ∙ append_assoc (all_messages a) (sent (m ∷ [])) (sent ms)
            ∙ ap (◌++◌ (all_messages a)) (sym (sent-cons m ms)),
        v'',
      )
]
