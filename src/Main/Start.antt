-- ===== src/Main/Start.antt =====
-- main of main.cpp: what it sets up, in which order, and how it ends.
pub mod Ends
pub mod Order
pub mod Serving
use wasm_hot.Base.{
  ℕ, zero, suc, [], ◌∷◌, ◌++◌, List, Option, none, some, Bool, true, false, not, String,
  if◌then◌else◌,
}
use wasm_hot.PluginInterface.{PluginFactory}
use wasm_hot.Modules.{new_manager}
use wasm_hot.Modules
use wasm_hot.Gateway.{Listening}
use wasm_hot.Gateway
use wasm_hot.Logging.{Files, FileHelper, Logger, init_logging}
use wasm_hot.Logging.Throttle.{Level, error, failed, goes_on, check_with_log}
use wasm_hot.Main.Config.{ServerConfig, default_config, Yaml, load_server_config}
use wasm_hot.Main.Loop.{Server, start_actor_tick_loop, start_signal_wait}

-- CLI11_PARSE: the path that was given, or the code that main returns at once.
pub data Parsed : Type 0 where
  parsed : String → Parsed
  stops : ℕ → Parsed

-- The libraries and the system: what they answer, and where they throw.
pub record Outside (Node Plugin SpdLevel : Type 0) : Type 0 where
  pub arguments : Parsed
  pub yaml : Yaml Node
  pub helper : FileHelper
  pub from_str : String → SpdLevel
  pub files : Files
  pub log_filename : String
  pub logging_throws : Bool
  pub factory : PluginFactory Plugin
  pub io_context_throws : Bool
  pub listening : String → ℕ → Listening
  pub pid : ℕ
  pub signal_set_throws : Bool
  pub reserve_throws : ℕ → Bool
  pub threads_available : ℕ

-- Where main is: it has returned a code of the parser, -1 or 0, the process was ended by
-- std::terminate, or it waits in `join` for the threads, which run as long as asio has work.
pub data Exit : Type 0 where
  stopped : ℕ → Exit
  minus_one completed joining terminated : Exit

-- What main has set up. `threads` run the handlers.
pub record Process (Plugin SpdLevel : Type 0) : Type 0 where
  pub exit : Exit
  pub config : ServerConfig
  pub logger : Option (Logger SpdLevel)
  pub server : Option (Server Plugin)
  pub accepting : Bool
  pub threads : ℕ
  pub log_lines : List Level
  pub stderr : List String

abbrev lines_of : Option String → List String
lines_of none = []
lines_of (some message) = message ∷ []

-- The loop that starts the threads: whether all could be created, and how many were.
unfoldable pub create_threads : ℕ → ℕ → ℕ → Bool × ℕ
create_threads zero available created = (true, created)
create_threads (suc n) zero created = (false, created)
create_threads (suc n) (suc available) created = create_threads n available (suc created)

module _ {Plugin SpdLevel : Type 0} where
  -- The clause that catches an exception in main.
  unfoldable pub fatal_error : Process Plugin SpdLevel → Process Plugin SpdLevel
  fatal_error p = record p { exit = minus_one; stderr = p.stderr ++ "Fatal error" ∷ [] }

  -- The threads are joined; without any main returns. A throw unwinds the vector, and the
  -- destructor of a thread that can be joined terminates.
  unfoldable pub run_threads : Process Plugin SpdLevel → Bool × ℕ → Process Plugin SpdLevel
  unfolding fatal_error
  run_threads p (true, zero) = record p { exit = completed; threads = 0 }
  run_threads p (true, suc n) = record p { exit = joining; threads = suc n }
  run_threads p (false, zero) = fatal_error p
  run_threads p (false, suc n) = record p { exit = terminated; threads = suc n }

module _ {Node Plugin SpdLevel : Type 0} (o : Outside Node Plugin SpdLevel) where
  -- From StartActorTickLoop on.
  unfoldable pub start_threads :
      ServerConfig → Server Plugin → Process Plugin SpdLevel → Process Plugin SpdLevel
  unfolding create_threads run_threads fatal_error start_actor_tick_loop start_signal_wait
  start_threads cfg s p =
      let ticking = start_actor_tick_loop s in
      if o.signal_set_throws
      then fatal_error (record p { server = some ticking })
      else (let ready = record p { server = some (start_signal_wait ticking) } in
          if o.reserve_throws cfg.thread_num
          then fatal_error ready
          else run_threads ready (create_threads cfg.thread_num o.threads_available 0))

  -- From Gateway::Initialize on; a failure is logged and answered with -1.
  unfoldable pub start_gateway :
      ServerConfig → Server Plugin → Process Plugin SpdLevel → Process Plugin SpdLevel
  unfolding start_threads check_with_log
  start_gateway cfg s p =
      let opened = Gateway.initialize (o.listening cfg.listen_ip cfg.listen_port) in
      let (lines, returned) = check_with_log error opened.result_ok opened.accepting in
      elim returned [
        | failed ↦ record p { exit = minus_one; log_lines = lines }
        | goes_on accepting ↦ start_threads cfg s (record p { accepting = accepting })
      ]

  -- The default logger, after InitLogging.
  unfoldable pub with_logger : ServerConfig → Process Plugin SpdLevel → Process Plugin SpdLevel
  unfolding init_logging
  with_logger cfg p = record p {
    logger = some (
        init_logging o.helper o.from_str o.files o.log_filename cfg.server_name cfg.log_level
          cfg.flush_log_level cfg.max_file_size cfg.max_rotate_file_num);
  }

  -- The managers, with the factory of the module manager set.
  unfoldable pub new_server : Server Plugin
  new_server = record {
    runtime = record { actors = []; heap = [] };
    modules = Modules.initialize new_manager o.factory;
    pid = o.pid;
    num = 0;
    ticking = false;
    waiting = false;
    lines = [];
  }

  -- From InitLogging on.
  unfoldable pub start_managers : ServerConfig → Process Plugin SpdLevel → Process Plugin SpdLevel
  unfolding fatal_error start_gateway with_logger new_server
  start_managers cfg p =
      if o.logging_throws
      then fatal_error p
      else if o.io_context_throws
      then fatal_error (with_logger cfg p)
      else start_gateway cfg new_server (record (with_logger cfg p) { server = some new_server })

  unfoldable pub start_process : Process Plugin SpdLevel
  start_process = record {
    exit = minus_one;
    config = default_config;
    logger = none;
    server = none;
    accepting = false;
    threads = 0;
    log_lines = [];
    stderr = [];
  }

  -- From the parsed arguments on.
  unfoldable pub start : Parsed → Process Plugin SpdLevel
  unfolding start_process start_managers load_server_config
  start (stops code) = record start_process { exit = stopped code }
  start (parsed config_path) =
      let loaded = load_server_config o.yaml config_path default_config in
      let p = record start_process { config = loaded.config } in
      if not loaded.ok
      then record p {
        exit = minus_one;
        stderr = lines_of loaded.message ++ "Failed to load config" ∷ [];
      }
      else start_managers loaded.config p

  unfoldable pub main : Process Plugin SpdLevel
  unfolding start
  main = start o.arguments
