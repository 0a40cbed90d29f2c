-- ===== src/Main/Loop.antt =====
-- The handlers of main.cpp that the threads run: the tick of the actors and the two signals.
-- One handler runs at a time. ActorRuntime::Tick takes its snapshot and posts, and the lock of the
-- module manager makes a reload one step, so that handlers of several threads come in some order.
pub mod Completions
pub mod Running
pub mod Actors
use wasm_hot.Base.{
  String, ℕ, ◌+◌, leb, ◌^◌, [], ◌∷◌, ◌++◌, List, Option, none, some, Bool, true, false, not, ◌==◌,
  nat_key, if◌then◌else◌,
}
use wasm_hot.ActorRuntime.{ActorRuntime, tick}
use wasm_hot.PluginInterface.{IPlugin}
use wasm_hot.Modules.{ModuleManager, hot_reload_all}

abbrev pub g_interval_ms : ℕ
g_interval_ms = 16

-- jeprof.<pid>.<seq>.heap
pub record HeapFile : Type 0 where
  pub pid : ℕ
  pub seq : ℕ

pub data LogLine : Type 0 where
  starting_dump starting_reload reload_failed : LogLine
  dump_failed dump_saved : HeapFile → LogLine

-- `ticking` and `waiting`: a wait for the timer, or for a signal, is under way. `num` is the static
-- counter of DumpHeap.
pub record Server (Plugin : Type 0) : Type 0 where
  pub runtime : ActorRuntime
  pub modules : ModuleManager Plugin
  pub pid : ℕ
  pub num : ℕ
  pub ticking : Bool
  pub waiting : Bool
  pub lines : List LogLine

pub data Signal : Type 0 where
  sigusr1 sighup other_signal : Signal

-- A completion of asio with `!ec`. A signal comes with what is outside at its moment: the files and
-- the runtime for a reload, and the answer of mallctl for a dump.
pub data Completion (World : Type 0) : Type 0 where
  timer_completes : Bool → Completion World
  signal_completes : Bool → Signal → (String → World) → ℕ → Completion World

module _ {Plugin : Type 0} where
  -- The two waits that StartActorTickLoop and SetupSignalHandler begin.
  unfoldable pub start_actor_tick_loop : Server Plugin → Server Plugin
  start_actor_tick_loop s = record s { ticking = true }

  unfoldable pub start_signal_wait : Server Plugin → Server Plugin
  start_signal_wait s = record s { waiting = true }

  -- The lambda of StartActorTickLoop.
  unfoldable pub schedule_tick : Server Plugin → Bool → Server Plugin
  schedule_tick s ok =
      let s' = record s { ticking = false } in
      if not ok then s' else record s' { runtime = tick s'.runtime g_interval_ms; ticking = true }

  -- `num.fetch_add(1) + 1` on 32 bits with a sign; `none` is its overflow, at the dump 2 ^ 31.
  unfoldable pub dump_heap : Server Plugin → ℕ → Option (Server Plugin)
  dump_heap s err =
      let file : HeapFile = record { pid = s.pid; seq = s.num + 1 } in
      if leb (2 ^ 31) (s.num + 1)
      then none
      else some (record s {
        num = s.num + 1;
        lines = s.lines ++ (if err == 0 then dump_saved file else dump_failed file) ∷ [];
      })

  -- The end of the branch of SIGHUP.
  unfoldable pub reloaded :
      Server Plugin → Option (Bool × ModuleManager Plugin) → Option (Server Plugin)
  reloaded s none = none
  reloaded s (some (ok, modules)) = some (record s {
    modules = modules;
    lines = if not ok then s.lines ++ reload_failed ∷ [] else s.lines;
  })

module _ {World Plugin : Type 0} (api : IPlugin World Plugin) where
  -- The branches on the signal; `none` is a call through the null pointer to the factory, or the
  -- overflow of a dump.
  unfoldable pub serve_signal :
      Server Plugin → Signal → (String → World) → ℕ → Option (Server Plugin)
  unfolding reloaded dump_heap
  serve_signal s sigusr1 world err =
      dump_heap (record s { lines = s.lines ++ starting_dump ∷ [] }) err
  serve_signal s sighup world err =
      reloaded (record s { lines = s.lines ++ starting_reload ∷ [] })
        (hot_reload_all api world s.modules)
  serve_signal s other_signal world err = some s

  -- The lambda of StartSignalWait.
  unfoldable pub on_signal :
      Server Plugin → Bool → Signal → (String → World) → ℕ → Option (Server Plugin)
  unfolding serve_signal start_signal_wait
  on_signal s ok signal world err =
      let s' = record s { waiting = false } in
      if not ok then some s' else elim (serve_signal s' signal world err) [
        | none ↦ none
        | some s'' ↦ some (start_signal_wait s'')
      ]

  -- A completion comes only for a wait that is under way.
  unfoldable pub complete : Server Plugin → Completion World → Option (Server Plugin)
  unfolding schedule_tick on_signal
  complete s (timer_completes ok) = some (if s.ticking then schedule_tick s ok else s)
  complete s (signal_completes ok signal world err) =
      if s.waiting then on_signal s ok signal world err else some s

  unfoldable pub serve : Server Plugin → List (Completion World) → Option (Server Plugin)
  unfolding complete
  serve s [] = some s
  serve s (c ∷ cs) = elim (complete s c) [ none ↦ none | some s' ↦ serve s' cs ]
