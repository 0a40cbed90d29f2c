-- ===== src/Actor/Ticks.antt =====
-- The ticks of an actor of actor/actor.cpp: scheduled, running and done.
use wasm_hot.Base.{
  ℕ, ◌≡◌, refl, ap, sym, ◌∙◌, [], ◌∷◌, ◌++◌, List, Option, none, some, arith, append-nil,
  append_assoc, Option-cases, Bool-cases, subst, inl, inr,
}
use wasm_hot.Bytes.{Bytes}
use wasm_hot.Actor.{
  Actor, ActorMessage, Event, handled, ticked, Task, process, tick, Move, enqueues, schedules,
  begins, handles, ends, move, run, enqueue_message, schedule_tick, take_task, begin_task,
  handle_batch, handle_next, close_task, end_task, is_empty,
}

-- The intervals of the ticks among the calls of an actor, and among tasks.
unfoldable pub ticks : List Event → List ℕ
ticks [] = []
ticks (handled msg ∷ rest) = ticks rest
ticks (ticked interval_ms ∷ rest) = interval_ms ∷ ticks rest

unfoldable pub tick_tasks : List Task → List ℕ
tick_tasks [] = []
tick_tasks (process ∷ rest) = tick_tasks rest
tick_tasks (tick interval_ms ∷ rest) = interval_ms ∷ tick_tasks rest

abbrev pub tick_of : Option Task → List ℕ
tick_of none = []
tick_of (some process) = []
tick_of (some (tick interval_ms)) = interval_ms ∷ []

-- Done, in progress, and waiting on the strand.
abbrev pub all_ticks : Actor → List ℕ
all_ticks a = ticks a.log ++ (tick_of a.running ++ tick_tasks a.tasks)

-- The ticks that a sequence of steps schedules.
unfoldable pub scheduled : List Move → List ℕ
scheduled [] = []
scheduled (schedules interval_ms ∷ rest) = interval_ms ∷ scheduled rest
scheduled (enqueues sender_id payload ∷ rest) = scheduled rest
scheduled (begins ∷ rest) = scheduled rest
scheduled (handles ∷ rest) = scheduled rest
scheduled (ends ∷ rest) = scheduled rest

ticks-append : (xs ys : List Event) → ticks (xs ++ ys) ≡ ticks xs ++ ticks ys
unfolding ticks
ticks-append [] ys = refl
ticks-append (handled msg ∷ rest) ys = ticks-append rest ys
ticks-append (ticked n ∷ rest) ys = ap (◌∷◌ n) (ticks-append rest ys)

pub tick_tasks-append : (xs ys : List Task) → tick_tasks (xs ++ ys) ≡ tick_tasks xs ++ tick_tasks ys
unfolding tick_tasks
tick_tasks-append [] ys = refl
tick_tasks-append (process ∷ rest) ys = tick_tasks-append rest ys
tick_tasks-append (tick n ∷ rest) ys = ap (◌∷◌ n) (tick_tasks-append rest ys)

scheduled-cons :
    (m : Move) (ms : List Move) → scheduled (m ∷ ms) ≡ scheduled (m ∷ []) ++ scheduled ms
unfolding scheduled
scheduled-cons (schedules n) ms = refl
scheduled-cons _ ms = refl

-- More tasks on the strand.
pub all_ticks-tasks :
    (a : Actor) (ts : List Task)
    → all_ticks (record a { tasks = a.tasks ++ ts }) ≡ all_ticks a ++ tick_tasks ts
all_ticks-tasks a ts =
    ap (λ l. ticks a.log ++ (tick_of a.running ++ l)) (tick_tasks-append a.tasks ts)
    ∙ simp append_assoc

same_ticks : (a b : Actor) → all_ticks b ≡ all_ticks a → all_ticks b ≡ all_ticks a ++ []
same_ticks a b h = h ∙ sym (append-nil (all_ticks a))

enqueues-all_ticks :
    (a : Actor) (sender_id : ℕ) (payload : Bytes)
    → all_ticks (enqueue_message a sender_id payload) ≡ all_ticks a ++ []
unfolding enqueue_message tick_tasks
enqueues-all_ticks a sender_id payload = elim (Bool-cases (is_empty a.mailbox)) [
  | inl e ↦ rw e (all_ticks-tasks a (process ∷ []))
  | inr e ↦ rw e (sym (append-nil (all_ticks a)))
]

begins-all_ticks :
    (a b : Actor) (r : Option Task) (ts : List Task)
    → a.running ≡ r
    → a.tasks ≡ ts
    → begin_task a ≡ some b
    → all_ticks b ≡ all_ticks a
unfolding begin_task take_task tick_tasks
begins-all_ticks a b (some t) ts e e' h = absurd (ground arith)
begins-all_ticks a b none [] e e' h = absurd (ground arith)
begins-all_ticks a b none (process ∷ ts) e e' h =
    let log : b.log ≡ a.log = ground arith in
    let now : b.running ≡ some process = ground arith in
    let rest : b.tasks ≡ ts = ground arith in rw (log, now, rest, e, e') refl
begins-all_ticks a b none (tick n ∷ ts) e e' h =
    let log : b.log ≡ a.log = ground arith in
    let now : b.running ≡ some (tick n) = ground arith in
    let rest : b.tasks ≡ ts = ground arith in rw (log, now, rest, e, e') refl

handles-all_ticks :
    (a b : Actor) (r : Option Task) (batch : List ActorMessage)
    → a.running ≡ r
    → a.batch ≡ batch
    → handle_next a ≡ some b
    → all_ticks b ≡ all_ticks a
unfolding handle_next handle_batch ticks
handles-all_ticks a b none batch e e' h = absurd (ground arith)
handles-all_ticks a b (some t) [] e e' h = absurd (ground arith)
handles-all_ticks a b (some t) (msg ∷ rest) e e' h =
    let log : b.log ≡ a.log ++ handled msg ∷ [] = ground arith in
    let same : b.running ≡ a.running = ground arith in
    let same' : b.tasks ≡ a.tasks = ground arith in
    rw (log, same, same', ticks-append a.log (handled msg ∷ []), append-nil (ticks a.log)) refl

ends-all_ticks :
    (a b : Actor) (r : Option Task)
    → a.running ≡ r
    → end_task a ≡ some b
    → all_ticks b ≡ all_ticks a
unfolding end_task close_task ticks
ends-all_ticks a b none e h = absurd (ground arith)
ends-all_ticks a b (some process) e h =
    let log : b.log ≡ a.log = ground arith in
    let idle : b.running ≡ none = ground arith in
    let same : b.tasks ≡ a.tasks = ground arith in rw (log, idle, same, e) refl
ends-all_ticks a b (some (tick n)) e h =
    let log : b.log ≡ a.log ++ ticked n ∷ [] = ground arith in
    let idle : b.running ≡ none = ground arith in
    let same : b.tasks ≡ a.tasks = ground arith in
    rw (log, idle, same, e, ticks-append a.log (ticked n ∷ []))
      (append_assoc (ticks a.log) (n ∷ []) (tick_tasks a.tasks))

move-all_ticks :
    (a b : Actor) (m : Move) → move a m ≡ some b → all_ticks b ≡ all_ticks a ++ scheduled (m ∷ [])
unfolding move scheduled schedule_tick tick_tasks
move-all_ticks a b (enqueues sender_id payload) h =
    let same : enqueue_message a sender_id payload ≡ b = ground arith in
    subst (λ c. all_ticks c ≡ all_ticks a ++ []) same (enqueues-all_ticks a sender_id payload)
move-all_ticks a b (schedules n) h =
    let same : schedule_tick a n ≡ b = ground arith in
    subst (λ c. all_ticks c ≡ all_ticks a ++ n ∷ []) same (all_ticks-tasks a (tick n ∷ []))
move-all_ticks a b begins h = same_ticks a b (begins-all_ticks a b a.running a.tasks refl refl h)
move-all_ticks a b handles h = same_ticks a b (handles-all_ticks a b a.running a.batch refl refl h)
move-all_ticks a b ends h = same_ticks a b (ends-all_ticks a b a.running refl h)

-- After any steps, the ticks that an actor has done, is at and has on its strand are those from
-- before, followed by the ones scheduled meanwhile, in order and once each.
pub run-all_ticks :
    (a b : Actor) (ms : List Move) → run a ms ≡ some b → all_ticks b ≡ all_ticks a ++ scheduled ms
unfolding run scheduled
run-all_ticks a b [] h =
    let same : a ≡ b = cc h in
    subst (λ c. all_ticks c ≡ all_ticks a ++ []) same (sym (append-nil (all_ticks a)))
run-all_ticks a b (m ∷ ms) h = elim (Option-cases (move a m)) [
  | inl e ↦ absurd (ground arith)
  | inr (c, e) ↦
      run-all_ticks c b ms (ground arith)
      ∙ ap (λ l. l ++ scheduled ms) (move-all_ticks a c m e)
      ∙ append_assoc (all_ticks a) (scheduled (m ∷ [])) (scheduled ms)
      ∙ ap (◌++◌ (all_ticks a)) (sym (scheduled-cons m ms))
]
