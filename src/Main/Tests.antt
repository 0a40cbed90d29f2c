-- ===== src/Main/Tests.antt =====
-- A start from a file with all fields, with plugins that are numbers, and a run of the server.
use wasm_hot.Base.{
  inl, ℕ, ◌≡◌, refl, [], ◌∷◌, List, none, some, Bool, true, false, String, arith, ◌==◌,
  if◌then◌else◌, nat_key, string_key,
}
use wasm_hot.Dict.{find}
use wasm_hot.Actor.{Actor, Move, new_actor}
use wasm_hot.Actor
use wasm_hot.Actor.Delivery.{messages, IsSettled}
use wasm_hot.Actor.Liveness.{IsStrand}
use wasm_hot.Actor.Ticks.{ticks}
use wasm_hot.Main.Loop.Actors.{serve-ticks}
use wasm_hot.PluginInterface.{IPlugin, PluginFactory}
use wasm_hot.Modules.{new_manager, initialize, get}
use wasm_hot.Modules.History.{run, IsReady}
use wasm_hot.Gateway.{Listening}
use wasm_hot.Logging.{FileHelper}
use wasm_hot.Main.Config.{
  ServerConfig, default_config, bad_file, yaml_exception, Read, value, throws, Yaml,
  load_server_config, Loaded,
}
use wasm_hot.Main.Config.Loading.{load_server_config_lem}
use wasm_hot.Main.Loop.{
  Server, sigusr1, sighup, Completion, timer_completes, signal_completes, serve,
}
use wasm_hot.Main.Loop.Running.{ticks_in, dumps_in, reloads_in, with_ticks, numbers_from, serve_lem}
use wasm_hot.Main.Start.{Outside, parsed, completed, terminated, Process, main}
use wasm_hot.Main.Loop.Completions.{dumped}
use wasm_hot.Main.Start.Ends.{is_started, exit_with, IsOrdered}
use wasm_hot.Main.Start.Order.{main_lem}
use wasm_hot.Main.Start.Serving.{main-serve, new_server-IsReady}

-- A file under "good", and every other cannot be opened; a port can only be read where `port` says.
abbrev yaml : Read ℕ → Yaml Bool
yaml port = record {
  load_file = λ path. if path == "good" then value true else throws bad_file;
  as_string = λ node key. value key;
  as_uint16 = λ node key. port;
  as_size = λ node key. value 2;
}

-- The fields before the port are the new ones, and those after it the defaults.
partial : load_server_config (yaml (throws yaml_exception)) "good" default_config ≡ record {
  ok = false;
  config = record default_config { server_name = "server_name"; listen_ip = "listen_ip" };
  message = some "Error: failed to read config field";
}
unfolding load_server_config
partial = refl

load_server_config_lem_example :
    load_server_config (yaml (value 80)) "bad" default_config ≡ record {
      ok = false;
      config = default_config;
      message = some "Error: failed to open config file";
    }
unfolding wasm_hot.Main.Config.catch_message
load_server_config_lem_example = load_server_config_lem (yaml (value 80)) "bad" default_config

-- In the world `true` every plugin starts, and in `false` none.
abbrev numbers : IPlugin Bool ℕ
numbers = record {
  initialize = λ world p. (world, p);
  shutdown = λ p. 0;
  execute = λ p obj s action input output. record {
    ok = true;
    plugin = p;
    obj = obj;
    storage = s;
    output = output;
  };
  clone = λ world p. some p;
}

abbrev factory : PluginFactory ℕ
factory = record { create = λ path version. some version }

abbrev helper : FileHelper
helper = record {
  open_file = λ files name. files;
  write_file = λ files name buffered bytes. (files, buffered);
  flush_file = λ files name buffered. files;
  file_size = λ files name. 0;
}

abbrev listens : Listening
listens = record {
  valid_address = true;
  is_v6 = false;
  open_ok = true;
  v6_only_ok = true;
  bind_ok = true;
  listen_ok = true;
}

abbrev outside : ℕ → Outside Bool ℕ String
outside threads = record {
  arguments = parsed "good";
  yaml = yaml (value 80);
  helper = helper;
  from_str = λ name. name;
  files = [];
  log_filename = "20260101.log";
  logging_throws = false;
  factory = factory;
  io_context_throws = false;
  listening = λ ip port. listens;
  pid = 7;
  signal_set_throws = false;
  reserve_throws = λ n. false;
  threads_available = threads;
}

-- One of two threads cannot be created: the process is terminated.
one_thread : (main (outside 1)).exit ≡ terminated
unfolding main wasm_hot.Gateway.initialize
one_thread = refl

main_lem_example :
    (is_started (main (outside 2)).exit ≡ true)
    × (true ≡ true
        → ((main (outside 2)).threads ≡ (main (outside 2)).config.thread_num)
          × ((main (outside 2)).exit ≡ exit_with (main (outside 2)).config.thread_num))
    × IsOrdered (main (outside 2))
unfolding load_server_config wasm_hot.Gateway.initialize
main_lem_example = main_lem (outside 2)

-- Two ticks, a dump, a reload, and an error of the timer, after which it ticks no more.
abbrev completions : List (Completion Bool)
completions =
    timer_completes true
    ∷ signal_completes true sigusr1 (λ name. true) 0
    ∷ timer_completes true
    ∷ signal_completes true sighup (λ name. true) 0
    ∷ timer_completes false
    ∷ timer_completes true
    ∷ []

main-serve_example :
    (s s' : Server ℕ) × ((main (outside 2)).server ≡ some s)
    × (serve numbers s completions ≡ some s')
    × (dumped s'.lines ≡ numbers_from 1 1)
    × ((name : String) → get s'.modules name ≡ none)
unfolding load_server_config wasm_hot.Gateway.initialize dumps_in
main-serve_example = main-serve numbers (outside 2) completions refl (omega arith)

abbrev running : Server ℕ
running = record {
  runtime = record {
    actors = (1, record { address = 100; actor_id = 1 }) ∷ [];
    heap = (100, new_actor) ∷ [];
  };
  modules = initialize new_manager factory;
  pid = 7;
  num = 0;
  ticking = true;
  waiting = true;
  lines = [];
}

running-IsReady : IsReady numbers running.modules
unfolding initialize wasm_hot.Main.Start.new_server
running-IsReady = new_server-IsReady numbers (outside 2)

serve_lem_example :
    (s' : Server ℕ) × (serve numbers running completions ≡ some s')
    × (find {K = ℕ} 100 s'.runtime.heap ≡ some (with_ticks 2 new_actor))
    × (run numbers running.modules (reloads_in true completions) ≡ some s'.modules)
    × (s'.num ≡ 1)
    × (dumped s'.lines ≡ numbers_from 1 1)
unfolding dumps_in find ticks_in dumped
serve_lem_example = serve_lem numbers running completions 100 running-IsReady (omega arith)

new_actor-IsSettled : IsSettled new_actor
new_actor-IsSettled stopped = refl

serve-ticks_example :
    (s' : Server ℕ) × (serve numbers running completions ≡ some s')
    × (a' : Actor) × (find {K = ℕ} 100 s'.runtime.heap ≡ some a')
    × (ms : List Move) × (b : Actor) × (Actor.run a' ms ≡ some b)
    × IsStrand ms
    × (messages b.log ≡ [])
    × (ticks b.log ≡ 16 ∷ 16 ∷ [])
    × (b.mailbox ≡ [])
    × (b.tasks ≡ [])
unfolding find dumps_in messages ticks wasm_hot.Actor.Ticks.tick_tasks ticks_in
serve-ticks_example =
    serve-ticks numbers running completions 100 new_actor running-IsReady refl new_actor-IsSettled
      (inl refl) (omega arith)
