-- ===== src/Main/Loop/Completions.antt =====
-- What one completion, of the timer or of a signal, does to a running server.
use wasm_hot.Base.{
  String, leb, ◌==◌, ℕ, ◌+◌, ◌∙◌, append-nil, ◌<◌, ◌^◌, ◌≡◌, refl, sym, ap, subst, [], ◌∷◌, ◌++◌,
  List, map, some, Bool, true, false, not, ◌&&◌, arith, if◌then◌else◌, nat_key, Bool-cases, inl,
  inr,
}
use wasm_hot.ActorRuntime.{tick}
use wasm_hot.PluginInterface.{IPlugin}
use wasm_hot.Modules.{ModuleManager, hot_reload_all}
use wasm_hot.Modules.History.{Call, hot_reloads_all, run, step, IsReady, reload_each-Returns}
use wasm_hot.Main.Loop.{
  start_signal_wait, g_interval_ms, Server, Signal, sigusr1, sighup, other_signal, Completion,
  timer_completes, signal_completes, LogLine, HeapFile, starting_dump, dump_failed, dump_saved,
  starting_reload, reload_failed, reloaded, dump_heap, serve_signal, on_signal, complete, serve,
}
use wasm_hot.Main.Loop

-- Whether the timer ticks, and whether it is set again.
abbrev pub ticks_on : {World : Type 0} → Bool → Completion World → Bool
ticks_on ticking (timer_completes ok) = ticking && ok
ticks_on ticking (signal_completes ok signal world err) = ticking

-- Whether the next signal is waited for.
abbrev pub waits_on : {World : Type 0} → Bool → Completion World → Bool
waits_on waiting (timer_completes ok) = waiting
waits_on waiting (signal_completes ok signal world err) = waiting && ok

abbrev pub is_tick : {World : Type 0} → Bool → Completion World → Bool
is_tick ticking (timer_completes ok) = ticking && ok
is_tick ticking (signal_completes ok signal world err) = false

abbrev pub is_sigusr1 : Signal → Bool
is_sigusr1 sigusr1 = true
is_sigusr1 _ = false

abbrev pub asks_reload :
    {World Plugin : Type 0} → Signal → (String → World) → List ((String → World) × Call Plugin)
asks_reload sighup world = (world, hot_reloads_all) ∷ []
asks_reload _ world = []

abbrev pub is_dump : {World : Type 0} → Bool → Completion World → Bool
is_dump waiting (timer_completes ok) = false
is_dump waiting (signal_completes ok signal world err) = (waiting && ok) && is_sigusr1 signal

abbrev pub reload_of :
    {World Plugin : Type 0} → Bool → Completion World → List ((String → World) × Call Plugin)
reload_of waiting (timer_completes ok) = []
reload_of waiting (signal_completes ok signal world err) =
    if waiting && ok then asks_reload signal world else []

-- The numbers of the dump files that the lines name, in order.
unfoldable pub dumped : List LogLine → List ℕ
dumped [] = []
dumped (starting_dump ∷ rest) = dumped rest
dumped (starting_reload ∷ rest) = dumped rest
dumped (reload_failed ∷ rest) = dumped rest
dumped (dump_failed file ∷ rest) = file.seq ∷ dumped rest
dumped (dump_saved file ∷ rest) = file.seq ∷ dumped rest

dumped-append : (xs ys : List LogLine) → dumped (xs ++ ys) ≡ dumped xs ++ dumped ys
unfolding dumped
dumped-append [] ys = refl
dumped-append (starting_dump ∷ rest) ys = dumped-append rest ys
dumped-append (starting_reload ∷ rest) ys = dumped-append rest ys
dumped-append (reload_failed ∷ rest) ys = dumped-append rest ys
dumped-append (dump_failed file ∷ rest) ys = ap (◌∷◌ file.seq) (dumped-append rest ys)
dumped-append (dump_saved file ∷ rest) ys = ap (◌∷◌ file.seq) (dumped-append rest ys)

one_dump :
    (saved : Bool) (file : HeapFile)
    → dumped ((if saved then dump_saved file else dump_failed file) ∷ []) ≡ file.seq ∷ []
unfolding dumped
one_dump true file = refl
one_dump false file = refl

dump_lines :
    (lines : List LogLine) (saved : Bool) (file : HeapFile)
    → dumped (
        (lines ++ starting_dump ∷ []) ++ (if saved then dump_saved file else dump_failed file) ∷ [])
      ≡ dumped lines ++ file.seq ∷ []
unfolding dumped
dump_lines lines saved file =
    let line = if saved then dump_saved file else dump_failed file in
    dumped-append (lines ++ starting_dump ∷ []) (line ∷ [])
    ∙ ap (λ ns. ns ++ dumped (line ∷ [])) (dumped-append lines (starting_dump ∷ []) ∙ append-nil _)
    ∙ ap (◌++◌ (dumped lines)) (one_dump saved file)

reload_lines :
    (lines : List LogLine) (failed : Bool)
    → let started = lines ++ starting_reload ∷ [] in
      dumped (if failed then started ++ reload_failed ∷ [] else started) ≡ dumped lines ++ []
unfolding dumped
reload_lines lines false = dumped-append lines (starting_reload ∷ [])
reload_lines lines true =
    dumped-append (lines ++ starting_reload ∷ []) (reload_failed ∷ [])
    ∙ append-nil _
    ∙ dumped-append lines (starting_reload ∷ [])

-- A dump, of which there are fewer than 2 ^ 31, is possible.
abbrev pub HasRoom : ℕ → Bool → Type 0
HasRoom num dumps = num + (if dumps then 1 else 0) < 2 ^ 31

module _ {World Plugin : Type 0} (api : IPlugin World Plugin) where
  -- What one completion does.
  pub record Completed (s s' : Server Plugin) (c : Completion World) : Type 0 where
    pub ticking : s'.ticking ≡ ticks_on s.ticking c
    pub waiting : s'.waiting ≡ waits_on s.waiting c
    pub runtime :
        s'.runtime ≡ (if is_tick s.ticking c then tick s.runtime g_interval_ms else s.runtime)
    pub num : s'.num ≡ (if is_dump s.waiting c then s.num + 1 else s.num)
    pub dumps :
        dumped s'.lines ≡ dumped s.lines ++ (if is_dump s.waiting c then (s.num + 1) ∷ [] else [])
    pub modules : run api s.modules (reload_of s.waiting c) ≡ some s'.modules
    pub ready : IsReady api s'.modules

  timer-Completed :
      (s : Server Plugin) (ok : Bool)
      → IsReady api s.modules
      → let c = timer_completes ok in
        (s' : Server Plugin) × (complete api s c ≡ some s') × Completed s s' c
  unfolding complete Loop.schedule_tick run
  timer-Completed s ok v =
      let s' = if s.ticking then Loop.schedule_tick s ok else s in
      let kept : s'.modules ≡ s.modules = ground arith in
      let same_lines : s'.lines ≡ s.lines = ground arith in
      (
        s',
        refl,
        record {
          ticking = ground arith;
          waiting = ground arith;
          runtime = ground arith;
          num = ground arith;
          dumps = ap dumped same_lines ∙ sym (append-nil (dumped s.lines));
          modules = ap some (sym kept);
          ready = subst (IsReady api) (sym kept) v;
        },
      )

  reload_returns :
      (m : ModuleManager Plugin) (world : String → World)
      → IsReady api m
      → (ok : Bool) × (m' : ModuleManager Plugin) × (hot_reload_all api world m ≡ some (ok, m'))
        × (run api m ((world, hot_reloads_all) ∷ []) ≡ some m')
        × IsReady api m'
  unfolding hot_reload_all run step
  reload_returns m world v =
      let (ok, m', e, v') =
        reload_each-Returns api world true m (map (λ entry. entry.1) m.configs) v in
      (ok, m', e, rw (e, run, step) refl, v')

  -- The branches on the signal, from a server without a wait for one.
  record Branched (s s' : Server Plugin) (c : Completion World) : Type 0 where
    pub runtime : s'.runtime ≡ s.runtime
    pub ticking : s'.ticking ≡ s.ticking
    pub num : s'.num ≡ (if is_dump true c then s.num + 1 else s.num)
    pub dumps :
        dumped s'.lines ≡ dumped s.lines ++ (if is_dump true c then (s.num + 1) ∷ [] else [])
    pub modules : run api s.modules (reload_of true c) ≡ some s'.modules
    pub ready : IsReady api s'.modules

  serve_signal-Branched :
      (s : Server Plugin) (signal : Signal) (world : String → World) (err : ℕ)
      → IsReady api s.modules
      → HasRoom s.num (is_sigusr1 signal)
      → (s' : Server Plugin) × (serve_signal api s signal world err ≡ some s')
        × Branched s s' (signal_completes true signal world err)
  unfolding serve_signal dump_heap run reloaded
  serve_signal-Branched s sigusr1 world err v room =
      let file : HeapFile = record { pid = s.pid; seq = s.num + 1 } in
      let small : leb (2 ^ 31) (s.num + 1) ≡ false = ground arith in
      (
        record s {
          num = s.num + 1;
          lines =
              (s.lines ++ starting_dump ∷ [])
              ++ (if err == 0 then dump_saved file else dump_failed file) ∷ [];
        },
        rw (small, dump_heap) refl,
        record {
          runtime = refl;
          ticking = refl;
          num = refl;
          dumps = dump_lines s.lines (err == 0) file;
          modules = refl;
          ready = v;
        },
      )
  serve_signal-Branched s sighup world err v room =
      let (ok, m', e, calls, v') = reload_returns s.modules world v in
      let started : Server Plugin = record s { lines = s.lines ++ starting_reload ∷ [] } in
      let s' : Server Plugin = record started {
        modules = m';
        lines = if not ok then started.lines ++ reload_failed ∷ [] else started.lines;
      } in
      (
        s',
        ap (reloaded started) e,
        record {
          runtime = refl;
          ticking = refl;
          num = refl;
          dumps = reload_lines s.lines (not ok);
          modules = calls;
          ready = v';
        },
      )
  serve_signal-Branched s other_signal world err v room = (
    s,
    refl,
    record {
      runtime = refl;
      ticking = refl;
      num = refl;
      dumps = sym (append-nil (dumped s.lines));
      modules = refl;
      ready = v;
    },
  )

  signal-Completed :
      (s : Server Plugin) (ok : Bool) (signal : Signal) (world : String → World) (err : ℕ)
      → IsReady api s.modules
      → HasRoom s.num (is_dump s.waiting (signal_completes ok signal world err))
      → let c = signal_completes ok signal world err in
        (s' : Server Plugin) × (complete api s c ≡ some s') × Completed s s' c
  unfolding complete on_signal start_signal_wait run
  signal-Completed s ok signal world err v room = elim (Bool-cases s.waiting) [
    | inr idle ↦ (
      s,
      rw (idle, complete) refl,
      record {
        ticking = refl;
        waiting = ground arith;
        runtime = refl;
        num = rw idle refl;
        dumps = rw idle (sym (append-nil (dumped s.lines)));
        modules = rw (idle, run) refl;
        ready = v;
      },
    )
    | inl waits ↦ elim (Bool-cases ok) [
      | inr failed ↦ (
        record s { waiting = false },
        rw (waits, failed, complete, on_signal) refl,
        record {
          ticking = refl;
          waiting = ground arith;
          runtime = refl;
          num = rw (waits, failed) refl;
          dumps = rw (waits, failed) (sym (append-nil (dumped s.lines)));
          modules = rw (waits, failed, run) refl;
          ready = v;
        },
      )
      | inl comes ↦
          let s₀ : Server Plugin = record s { waiting = false } in
          let (s₁, e, served) = serve_signal-Branched s₀ signal world err v (ground arith) in
          (
            record s₁ { waiting = true },
            rw (waits, comes, complete, on_signal) (rw (e, start_signal_wait) refl),
            record {
              ticking = served.ticking;
              waiting = ground arith;
              runtime = served.runtime;
              num = rw (waits, comes) served.num;
              dumps = rw (waits, comes) served.dumps;
              modules = rw (waits, comes) served.modules;
              ready = served.ready;
            },
          )
    ]
  ]

  pub complete-Completed :
      (s : Server Plugin) (c : Completion World)
      → IsReady api s.modules
      → HasRoom s.num (is_dump s.waiting c)
      → (s' : Server Plugin) × (complete api s c ≡ some s') × Completed s s' c
  complete-Completed s (timer_completes ok) v room = timer-Completed s ok v
  complete-Completed s (signal_completes ok signal world err) v room =
      signal-Completed s ok signal world err v room
