-- ===== src/Actor/Liveness.antt =====
-- What the strand of an actor of actor/actor.cpp can do alone with the messages that wait.
use wasm_hot.Base.{
  ◌≡◌, inl, inr, refl, ap, sym, ◌∙◌, [], ◌∷◌, ◌++◌, List, Option, none, some, arith, Option-cases,
  append-nil,
}
use wasm_hot.Actor.{
  Actor, ActorMessage, Task, process, tick, Move, enqueues, schedules, begins, handles, ends, move,
  run, handled, ticked, begin_task, handle_next, end_task,
}
use wasm_hot.Actor.Delivery.{messages, sent, all_messages, IsSettled, run-all_messages}
use wasm_hot.Actor.Waking.{IsAwake}

-- Steps of the strand only: no message enters and no tick is scheduled meanwhile.
abbrev pub IsStrand : List Move → Type 0
IsStrand [] = Unit {0}
IsStrand (enqueues sender_id payload ∷ ms) = ⊥
IsStrand (schedules n ∷ ms) = ⊥
IsStrand (begins ∷ ms) = IsStrand ms
IsStrand (handles ∷ ms) = IsStrand ms
IsStrand (ends ∷ ms) = IsStrand ms

IsStrand-append : (ms ns : List Move) → IsStrand ms → IsStrand ns → IsStrand (ms ++ ns)
IsStrand-append [] ns h k = k
IsStrand-append (enqueues sender_id payload ∷ ms) ns h k = absurd h
IsStrand-append (schedules n ∷ ms) ns h k = absurd h
IsStrand-append (begins ∷ ms) ns h k = IsStrand-append ms ns h k
IsStrand-append (handles ∷ ms) ns h k = IsStrand-append ms ns h k
IsStrand-append (ends ∷ ms) ns h k = IsStrand-append ms ns h k

sent-IsStrand : (ms : List Move) → IsStrand ms → sent ms ≡ []
unfolding sent
sent-IsStrand [] h = refl
sent-IsStrand (enqueues sender_id payload ∷ ms) h = absurd h
sent-IsStrand (schedules n ∷ ms) h = absurd h
sent-IsStrand (begins ∷ ms) h = sent-IsStrand ms h
sent-IsStrand (handles ∷ ms) h = sent-IsStrand ms h
sent-IsStrand (ends ∷ ms) h = sent-IsStrand ms h

run-append : (a b : Actor) (ms ns : List Move) → run a ms ≡ some b → run a (ms ++ ns) ≡ run b ns
unfolding run
run-append a b [] ns h = ground arith
run-append a b (m ∷ ms) ns h = elim (Option-cases (move a m)) [
  | inl e ↦ absurd (ground arith)
  | inr (c, e) ↦ rw (e, run) (run-append c b ms ns (ground arith))
]

run-cons :
    (a b c : Actor) (m : Move) (ms : List Move)
    → move a m ≡ some b
    → run b ms ≡ some c
    → run a (m ∷ ms) ≡ some c
unfolding run
run-cons a b c m ms e h = rw (e, run) h

-- The actor is between tasks, with `mailbox` and `tasks` still to go.
abbrev Between : Actor → List ActorMessage → List Task → Type 0
Between a mailbox tasks =
    (a.running ≡ none) × (a.batch ≡ []) × (a.mailbox ≡ mailbox) × (a.tasks ≡ tasks)

-- Some steps of the strand end the task that runs.
finish_task :
    (a : Actor) (t : Task) (batch : List ActorMessage)
    → a.running ≡ some t
    → a.batch ≡ batch
    → (ms : List Move) × (b : Actor) × (run a ms ≡ some b)
      × IsStrand ms
      × Between b a.mailbox a.tasks
unfolding run handle_next end_task
finish_task a process [] e e' =
    (ends ∷ [], record a { running = none }, ground arith, tt, ground arith)
finish_task a (tick n) [] e e' = (
  ends ∷ [],
  record a { running = none; log = a.log ++ ticked n ∷ [] },
  ground arith,
  tt,
  ground arith,
)
finish_task a t (msg ∷ rest) e e' =
    let b = record a { batch = rest; log = a.log ++ handled msg ∷ [] } in
    let (ms, c, ran, quiet, between) = finish_task b t rest e refl in
    (handles ∷ ms, c, run-cons a b c handles ms (ground arith) ran, quiet, between)

drain :
    (tasks : List Task) (a : Actor)
    → a.running ≡ none
    → a.batch ≡ []
    → a.tasks ≡ tasks
    → IsAwake a
    → (ms : List Move) × (b : Actor) × (run a ms ≡ some b) × IsStrand ms × Between b [] []
unfolding run begin_task
drain [] a idle settled e v = ([], a, refl, tt, ground arith)
drain (t ∷ ts) a idle settled e v =
    let b = record a { mailbox = []; tasks = ts; running = some t; batch = a.mailbox } in
    let (ms, c, ran, quiet, between) = finish_task b t a.mailbox refl refl in
    let (ns, d, ran', quiet', between') =
      drain ts c between.0 between.1 between.3 (inl (ground arith)) in
    (
      begins ∷ (ms ++ ns),
      d,
      run-cons a b d begins (ms ++ ns) (ground arith) (run-append b c ms ns ran ∙ ran'),
      IsStrand-append ms ns quiet quiet',
      between',
    )

IsAwake-congr : (a b : Actor) → b.mailbox ≡ a.mailbox → b.tasks ≡ a.tasks → IsAwake a → IsAwake b
IsAwake-congr a b e f v = ground arith

all_handled : (b : Actor) → b.batch ≡ [] → b.mailbox ≡ [] → all_messages b ≡ messages b.log
all_handled b e f = rw (e, f) (append-nil (messages b.log))

-- The task that runs, if there is one, and then all others.
settle :
    (a : Actor) (t : Option Task)
    → a.running ≡ t
    → IsSettled a
    → IsAwake a
    → (ms : List Move) × (b : Actor) × (run a ms ≡ some b) × IsStrand ms × Between b [] []
settle a none e v w = drain a.tasks a e (v e) refl w
settle a (some t) e v w =
    let (ms, b, ran, quiet, between) = finish_task a t a.batch e refl in
    let awake = IsAwake-congr a b between.2 between.3 w in
    let (ns, c, ran', quiet', between') = drain b.tasks b between.0 between.1 refl awake in
    (ms ++ ns, c, run-append a b ms ns ran ∙ ran', IsStrand-append ms ns quiet quiet', between')

-- From every actor that has no batch while it is between tasks, and that has a task for the
-- messages that wait, steps of the strand alone lead to a state in which every message that was
-- sent has been handled, in order and once, no message and no task is left, and none runs.
pub delivers_all :
    (a : Actor)
    → IsSettled a
    → IsAwake a
    → (ms : List Move) × (b : Actor) × (run a ms ≡ some b)
      × IsStrand ms
      × (messages b.log ≡ all_messages a)
      × (b.mailbox ≡ [])
      × (b.tasks ≡ [])
      × (b.running ≡ none)
delivers_all a v w =
    let (ms, b, ran, quiet, between) = settle a a.running refl v w in
    let (all, _) = run-all_messages a b ms v ran in
    (
      ms,
      b,
      ran,
      quiet,
      sym (all_handled b between.1 between.2)
          ∙ all
          ∙ ap (◌++◌ (all_messages a)) (sent-IsStrand ms quiet)
          ∙ append-nil (all_messages a),
      between.2,
      between.3,
      between.0,
    )
