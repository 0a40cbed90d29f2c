-- ===== src/Main/Start/Serving.antt =====
-- What main of main.cpp has started: a server that serves its timer and signals, without modules.
use wasm_hot.Base.{
  ◌^◌, ◌<◌, ◌≡◌, refl, subst, ◌∙◌, [], ◌∷◌, List, none, some, Bool, true, ◌&&◌, Bool-cases, String,
  arith, string_key, inl, inr,
}
use wasm_hot.PluginInterface.{IPlugin}
use wasm_hot.Modules.{ModuleManager, new_manager, initialize, hot_reload_all, reload_each, get}
use wasm_hot.Modules.History.{run, step, run-append, IsReady, ready_now}
use wasm_hot.Modules.Invariant.{new_manager-IsConsistent, initialize-IsConsistent}
use wasm_hot.Dict.{find}
use wasm_hot.Main.Loop.{
  Server, Completion, timer_completes, signal_completes, sigusr1, sighup, other_signal, serve,
}
use wasm_hot.Main.Loop.Completions.{reload_of, waits_on, dumped}
use wasm_hot.Main.Start.Ends.{started_server}
use wasm_hot.Main.Start.Order.{can_start, start-Ends}
use wasm_hot.Main.Loop.Running.{dumps_in, reloads_in, numbers_from, serve_lem}
use wasm_hot.Main.Start.{Outside, new_server, main}

-- Without configurations a reload of all modules changes nothing.
module _ {World Plugin : Type 0} (api : IPlugin World Plugin) where
  reloads_nothing :
      (m : ModuleManager Plugin) (world : String → World)
      → m.configs ≡ []
      → hot_reload_all api world m ≡ some (true, m)
  unfolding hot_reload_all reload_each
  reloads_nothing m world h = rw h refl

  one_keeps :
      (waiting : Bool) (c : Completion World) (m : ModuleManager Plugin)
      → m.configs ≡ []
      → run api m (reload_of waiting c) ≡ some m
  unfolding run step
  one_keeps waiting (timer_completes ok) m h = refl
  one_keeps waiting (signal_completes ok sigusr1 world err) m h =
      elim (Bool-cases (waiting && ok)) [ inl e ↦ rw e refl | inr e ↦ rw e refl ]
  one_keeps waiting (signal_completes ok other_signal world err) m h =
      elim (Bool-cases (waiting && ok)) [ inl e ↦ rw e refl | inr e ↦ rw e refl ]
  one_keeps waiting (signal_completes ok sighup world err) m h = elim (Bool-cases (waiting && ok)) [
    | inl e ↦ rw (e, reloads_nothing m world h, run, step) refl
    | inr e ↦ rw e refl
  ]

  reloads_in-keeps :
      (waiting : Bool) (cs : List (Completion World)) (m : ModuleManager Plugin)
      → m.configs ≡ []
      → run api m (reloads_in waiting cs) ≡ some m
  unfolding reloads_in run step
  reloads_in-keeps waiting [] m h = refl
  reloads_in-keeps waiting (c ∷ cs) m h =
      run-append api m m (reload_of waiting c) (reloads_in (waits_on waiting c) cs)
        (one_keeps waiting c m h)
      ∙ reloads_in-keeps (waits_on waiting c) cs m h

module _ {World Node Plugin SpdLevel : Type 0} (api : IPlugin World Plugin)
    (o : Outside Node Plugin SpdLevel) where
  pub new_server-IsReady : IsReady api (new_server o).modules
  unfolding new_server
  new_server-IsReady = (
    ready_now new_manager o.factory,
    initialize-IsConsistent new_manager o.factory new_manager-IsConsistent,
  )

  new_server-configs : (new_server o).modules.configs ≡ []
  unfolding new_server initialize new_manager
  new_server-configs = refl

  -- Where main can start, its server takes every sequence of completions with fewer than 2 ^ 31
  -- dumps without a fault, the dump files are numbered from 1 on in the order of the dumps, and no
  -- name has a module ever: no code loads one, and so a SIGHUP reloads none.
  pub main-serve :
      (cs : List (Completion World))
      → can_start o o.arguments ≡ true
      → dumps_in true cs < 2 ^ 31
      → (s s' : Server Plugin) × ((main o).server ≡ some s)
        × (serve api s cs ≡ some s')
        × (dumped s'.lines ≡ numbers_from 1 (dumps_in true cs))
        × ((name : String) → get s'.modules name ≡ none)
  unfolding main get new_server initialize new_manager find dumped
  main-serve cs starts room =
      let ends = start-Ends o o.arguments in
      let s = started_server (new_server o) in
      let (s', e, ticked, modules, num, dumps) =
        serve_lem api s cs 0 new_server-IsReady (omega arith) in
      let kept : (new_server o).modules ≡ s'.modules =
        cc (modules, reloads_in-keeps api true cs (new_server o).modules new_server-configs) in
      (
        s,
        s',
        ends.serves starts,
        e,
        dumps,
        λ name. subst (λ (m : ModuleManager Plugin). get m name ≡ none) kept refl,
      )
