-- ===== src/Main/Loop/Actors.antt =====
-- From the timer of main.cpp to the ticks of an actor: the loop, the runtime and the strand together.
use wasm_hot.Base.{
  ℕ, zero, suc, ◌+◌, ◌*◌, ◌^◌, ◌<◌, ◌≡◌, refl, sym, ap, ◌∙◌, [], ◌∷◌, ◌++◌, List, some, replicate,
  append-nil, nat_key, arith,
}
use wasm_hot.Dict.{find}
use wasm_hot.Actor.{Actor, Move, enqueues, schedules, begins, handles, ends, tick}
use wasm_hot.Actor
use wasm_hot.Actor.Delivery.{messages, all_messages, IsSettled}
use wasm_hot.Actor.Waking.{IsAwake, has_process-append}
use wasm_hot.Actor.Liveness.{IsStrand, delivers_all}
use wasm_hot.Actor.Ticks.{ticks, tick_tasks, all_ticks, all_ticks-tasks, scheduled, run-all_ticks}
use wasm_hot.ActorRuntime.Routing.{count_address, map_actor}
use wasm_hot.PluginInterface.{IPlugin}
use wasm_hot.Modules.History.{IsReady}
use wasm_hot.Main.Loop.{g_interval_ms, Server, Completion, serve}
use wasm_hot.Main.Loop.Running.{ticks_in, dumps_in, with_ticks, pointers, serve_lem}

scheduled-IsStrand : (ms : List Move) → IsStrand ms → scheduled ms ≡ []
unfolding scheduled
scheduled-IsStrand [] h = refl
scheduled-IsStrand (enqueues sender_id payload ∷ ms) h = absurd h
scheduled-IsStrand (schedules n ∷ ms) h = absurd h
scheduled-IsStrand (begins ∷ ms) h = scheduled-IsStrand ms h
scheduled-IsStrand (handles ∷ ms) h = scheduled-IsStrand ms h
scheduled-IsStrand (ends ∷ ms) h = scheduled-IsStrand ms h

tick_tasks-replicate :
    (n interval_ms : ℕ) → tick_tasks (replicate n (tick interval_ms)) ≡ replicate n interval_ms
unfolding tick_tasks
tick_tasks-replicate zero interval_ms = refl
tick_tasks-replicate (suc n) interval_ms = ap (◌∷◌ interval_ms) (tick_tasks-replicate n interval_ms)

with_ticks-IsAwake : (n : ℕ) (a : Actor) → IsAwake a → IsAwake (with_ticks n a)
with_ticks-IsAwake n a v =
    ground (arith, has_process-append a.tasks (replicate n (tick g_interval_ms)))

-- The strand of an actor runs all ticks that it has.
ticks-IsStrand :
    (a : Actor)
    → IsSettled a
    → IsAwake a
    → (ms : List Move) × (b : Actor) × (Actor.run a ms ≡ some b)
      × IsStrand ms
      × (messages b.log ≡ all_messages a)
      × (ticks b.log ≡ all_ticks a)
      × (b.mailbox ≡ [])
      × (b.tasks ≡ [])
unfolding tick_tasks
ticks-IsStrand a v w =
    let (ms, b, ran, quiet, told, empty, done, idle) = delivers_all a v w in
    let left : all_ticks b ≡ ticks b.log = rw (done, idle) (append-nil (ticks b.log)) in
    let all = run-all_ticks a b ms ran in
    (
      ms,
      b,
      ran,
      quiet,
      told,
      sym left
          ∙ all
          ∙ ap (◌++◌ (all_ticks a)) (scheduled-IsStrand ms quiet)
          ∙ append-nil (all_ticks a),
      empty,
      done,
    )

module _ {World Plugin : Type 0} (api : IPlugin World Plugin) where
  -- A server whose factory is set and whose tables are consistent, with an actor that has no batch
  -- while it is between tasks and a task for the messages that wait: after any completions, below
  -- 2 ^ 31 dumps, steps of the actor's strand alone lead to a state in which it has handled all of
  -- its messages, in order, and has ticked once for each tick that it had before and then, for each
  -- id that stands for it, once for each completion of the timer until its first error.
  pub serve-ticks :
      (s : Server Plugin) (cs : List (Completion World)) (q : ℕ) (a : Actor)
      → IsReady api s.modules
      → find q s.runtime.heap ≡ some a
      → IsSettled a
      → IsAwake a
      → s.num + dumps_in s.waiting cs < 2 ^ 31
      → let n = ticks_in s.ticking cs * count_address q (pointers s.runtime) in
        (s' : Server Plugin) × (serve api s cs ≡ some s')
        × (a' : Actor) × (find q s'.runtime.heap ≡ some a')
        × (ms : List Move) × (b : Actor) × (Actor.run a' ms ≡ some b)
        × IsStrand ms
        × (messages b.log ≡ all_messages a)
        × (ticks b.log ≡ all_ticks a ++ replicate n g_interval_ms)
        × (b.mailbox ≡ [])
        × (b.tasks ≡ [])
  serve-ticks s cs q a v here settled awake room =
      let n = ticks_in s.ticking cs * count_address q (pointers s.runtime) in
      let (s', e, heap, _, _, _) = serve_lem api s cs q v room in
      let a' = with_ticks n a in
      let (ms, b, ran, quiet, told, ticked, empty, done) =
        ticks-IsStrand a' settled (with_ticks-IsAwake n a awake) in
      (
        s',
        e,
        a',
        heap ∙ ap (map_actor (with_ticks n)) here,
        ms,
        b,
        ran,
        quiet,
        told,
        ticked
            ∙ all_ticks-tasks a (replicate n (tick g_interval_ms))
            ∙ ap (◌++◌ (all_ticks a)) (tick_tasks-replicate n g_interval_ms),
        empty,
        done,
      )
