-- ===== src/Main/Start/Order.antt =====
-- When main of main.cpp gets as far as serving, and what it has set up wherever it ends.
use wasm_hot.Base.{
  ℕ, ◌+◌, ◌≡◌, refl, sym, ap, subst, ◌∙◌, [], ◌∷◌, ◌++◌, none, some, Bool, true, false, not, ◌&&◌,
  leb, min, arith, is_some, Bool-cases, inl, inr,
}
use wasm_hot.Gateway
use wasm_hot.Gateway.Accept.{initialize_lem}
use wasm_hot.Logging.Throttle.{check_with_log}
use wasm_hot.Main.Config.{ServerConfig, default_config, load_server_config}
use wasm_hot.Main.Loop.{Server, start_actor_tick_loop, start_signal_wait}
use wasm_hot.Main.Start.{
  Parsed, parsed, stops, Outside, minus_one, Process, start_threads, start_gateway, start_managers,
  start, with_logger, new_server, lines_of, start_process, main,
}
use wasm_hot.Main.Start.Ends.{
  exit_with, is_started, create_threads_lem, IsOrdered, started_server, Ends, fatal_error-Ends,
  bare-IsOrdered, set_up-IsOrdered, run_threads-IsOrdered, run_threads-exit, run_threads-config,
  run_threads-server,
}

module _ {Node Plugin SpdLevel : Type 0} (o : Outside Node Plugin SpdLevel) where
  abbrev pub can_run : ServerConfig → Bool
  can_run cfg =
      not o.signal_set_throws
      && (not (o.reserve_throws cfg.thread_num) && leb cfg.thread_num o.threads_available)

  abbrev pub can_listen : ServerConfig → Bool
  can_listen cfg = (Gateway.initialize (o.listening cfg.listen_ip cfg.listen_port)).result_ok

  -- Nothing throws, the gateway starts, and as many threads can be created as are configured.
  abbrev pub can_serve : ServerConfig → Bool
  can_serve cfg =
      (not o.logging_throws && not o.io_context_throws) && (can_listen cfg && can_run cfg)

  abbrev pub can_start : Parsed → Bool
  can_start (stops code) = false
  can_start (parsed config_path) =
      let loaded = load_server_config o.yaml config_path default_config in
      loaded.ok && can_serve loaded.config

  start_threads-Ends :
      (cfg : ServerConfig) (s : Server Plugin) (p : Process Plugin SpdLevel)
      → p.config ≡ cfg
      → p.threads ≡ 0
      → is_some p.logger ≡ true
      → p.accepting ≡ true
      → Ends (started_server s) cfg (can_run cfg) (start_threads o cfg s p)
  unfolding start_threads start_actor_tick_loop start_signal_wait
  start_threads-Ends cfg s p c idle logger accepting =
      let n = cfg.thread_num in
      let ticking : Server Plugin = record s { ticking = true } in
      let waiting : Server Plugin = record ticking { waiting = true } in
      let started = started_server s in
      let set = record p { server = some ticking } in
      let ready = record p { server = some waiting } in
      let set_v = set_up-IsOrdered set ticking refl logger idle (λ t. accepting) (λ w. refl) in
      let ready_v = set_up-IsOrdered ready waiting refl logger idle (λ t. accepting) (λ w. refl) in
      elim (Bool-cases o.signal_set_throws) [
        | inl e ↦ rw (e, start_threads) (fatal_error-Ends started cfg set c set_v)
        | inr e ↦ elim (Bool-cases (o.reserve_throws n)) [
          | inl e' ↦ rw (e, e', start_threads) (fatal_error-Ends started cfg ready c ready_v)
          | inr e' ↦
              let r : Bool × ℕ = (leb n o.threads_available, 0 + min n o.threads_available) in
              let (exits, threads, ends) = run_threads-exit ready r in
              let created : r.0 ≡ true → r.1 ≡ n = λ all. ground arith in
              rw (e, e', start_threads, create_threads_lem n o.threads_available 0)
                (record {
                  ordered = run_threads-IsOrdered ready r waiting refl refl ready_v;
                  same_config = run_threads-config ready r ∙ c;
                  exits = exits;
                  serves = λ all. run_threads-server ready r;
                  all_threads = λ all. threads all ∙ created all;
                  ends = λ all. ends all ∙ ap exit_with (created all);
                })
        ]
      ]

  start_gateway-Ends :
      (cfg : ServerConfig) (s : Server Plugin) (p : Process Plugin SpdLevel)
      → p.config ≡ cfg
      → p.threads ≡ 0
      → is_some p.logger ≡ true
      → IsOrdered p
      → Ends (started_server s) cfg (can_listen cfg && can_run cfg) (start_gateway o cfg s p)
  unfolding start_gateway check_with_log
  start_gateway-Ends cfg s p c idle logger v =
      let opened = Gateway.initialize (o.listening cfg.listen_ip cfg.listen_port) in
      let accepts = (initialize_lem (o.listening cfg.listen_ip cfg.listen_port)).1 in
      elim (Bool-cases opened.result_ok) [
        | inr e ↦
            rw (e, start_gateway)
              (record {
                ordered = record {
                  logged = v.logged;
                  managed = v.managed;
                  ticking = v.ticking;
                  waiting = v.waiting;
                  running = v.running;
                };
                same_config = c;
                exits = refl;
                all_threads = λ no. ground arith;
                ends = λ no. absurd (ground arith);
                serves = λ no. absurd (ground arith);
              })
        | inl e ↦
            rw (e, start_gateway)
              (start_threads-Ends cfg s (record p { accepting = opened.accepting }) c idle logger
                (accepts ∙ e))
      ]

  start_managers-Ends :
      (cfg : ServerConfig) (p : Process Plugin SpdLevel)
      → p.config ≡ cfg
      → p.threads ≡ 0
      → p.server ≡ none
      → p.accepting ≡ false
      → Ends (started_server (new_server o)) cfg (can_serve cfg) (start_managers o cfg p)
  unfolding start_managers with_logger new_server
  start_managers-Ends cfg p c idle no_server closed =
      let logged = with_logger o cfg p in
      let started = started_server (new_server o) in
      let served = record logged { server = some (new_server o) } in
      elim (Bool-cases o.logging_throws) [
        | inl e ↦
            rw (e, start_managers)
              (fatal_error-Ends started cfg p c (bare-IsOrdered p idle no_server closed))
        | inr e ↦ elim (Bool-cases o.io_context_throws) [
          | inl e' ↦
              rw (e, e', start_managers)
                (fatal_error-Ends started cfg logged c
                  (bare-IsOrdered logged idle no_server closed))
          | inr e' ↦
              let v =
                set_up-IsOrdered served (new_server o) refl refl idle (λ t. absurd (ground arith))
                  (λ w. w) in
              rw (e, e', start_managers)
                (start_gateway-Ends cfg (new_server o) served c idle refl v)
        ]
      ]

  pub start-Ends :
      (arguments : Parsed)
      → Ends
          (started_server (new_server o))
          (start o arguments).config
          (can_start arguments)
          (start o arguments)
  unfolding start start_process
  start-Ends (stops code) = record {
    ordered = bare-IsOrdered (start o (stops code)) refl refl refl;
    exits = refl;
    all_threads = λ no. ground arith;
    ends = λ no. absurd (ground arith);
    serves = λ no. absurd (ground arith);
    same_config = refl;
  }
  start-Ends (parsed config_path) =
      let loaded = load_server_config o.yaml config_path default_config in
      let p = record (start_process o) { config = loaded.config } in
      let failed_p = record p {
        exit = minus_one;
        stderr = lines_of loaded.message ++ "Failed to load config" ∷ [];
      } in
      elim (Bool-cases loaded.ok) [
        | inr e ↦
            rw (e, start)
              (record {
                ordered = bare-IsOrdered failed_p refl refl refl;
                exits = refl;
                all_threads = λ no. ground arith;
                ends = λ no. absurd (ground arith);
                serves = λ no. absurd (ground arith);
                same_config = refl;
              })
        | inl e ↦
            let ends = start_managers-Ends loaded.config p refl refl refl refl in
            rw (e, start)
              (subst
                (λ k.
                  Ends (started_server (new_server o)) k (can_serve loaded.config)
                    (start_managers o loaded.config p))
                (sym ends.same_config) ends)
      ]

  -- main gets past the loop that creates its threads exactly if the arguments give a file that can
  -- be loaded, nothing throws, the gateway starts and as many threads can be created as are
  -- configured. Then that many run and main waits for them, or, where none is configured, it returns
  -- 0 at once. Wherever main is, the server was made only after the logger, the gateway accepts only
  -- if the server was there, the timer is set only if the gateway accepts, signals are waited for
  -- only if the timer is set, and threads run only if they are.
  pub main_lem :
      (is_started (main o).exit ≡ can_start o.arguments)
      × (can_start o.arguments ≡ true
          → ((main o).threads ≡ (main o).config.thread_num)
            × ((main o).exit ≡ exit_with (main o).config.thread_num))
      × IsOrdered (main o)
  unfolding main
  main_lem =
      let ends = start-Ends o.arguments in
      (ends.exits, λ starts. (ends.all_threads starts, ends.ends starts), ends.ordered)
