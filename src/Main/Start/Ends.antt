-- ===== src/Main/Start/Ends.antt =====
-- The ends of the parts of main of main.cpp, and what is set up there.
use wasm_hot.Base.{
  ℕ, zero, suc, ◌+◌, ◌<◌, ◌≡◌, refl, ap, subst, none, some, Bool, true, false, leb, min, arith,
  is_some,
}
use wasm_hot.Main.Config.{ServerConfig}
use wasm_hot.Main.Loop.{Server}
use wasm_hot.Main.Start.{
  Exit, completed, joining, Process, create_threads, fatal_error, run_threads,
}

-- Whether main has got past the loop that creates its threads.
abbrev pub is_started : Exit → Bool
is_started completed = true
is_started joining = true
is_started _ = false

-- Where it is then.
abbrev pub exit_with : ℕ → Exit
exit_with zero = completed
exit_with (suc n) = joining

pub create_threads_lem :
    (n available created : ℕ)
    → create_threads n available created ≡ (leb n available, created + min n available)
unfolding create_threads
create_threads_lem zero available created = ground arith
create_threads_lem (suc n) zero created = ground arith
create_threads_lem (suc n) (suc available) created =
    ground (arith, create_threads_lem n available (suc created))

-- A server with its timer set that waits for signals.
abbrev pub started_server : {Plugin : Type 0} → Server Plugin → Server Plugin
started_server s = record s { ticking = true; waiting = true }

module _ {Plugin SpdLevel : Type 0} where
  -- What is set up rests on what came before it.
  pub record IsOrdered (p : Process Plugin SpdLevel) : Type 0 where
    pub logged : is_some p.server ≡ true → is_some p.logger ≡ true
    pub managed : p.accepting ≡ true → is_some p.server ≡ true
    pub ticking : (s : Server Plugin) → p.server ≡ some s → s.ticking ≡ true → p.accepting ≡ true
    pub waiting : (s : Server Plugin) → p.server ≡ some s → s.waiting ≡ true → s.ticking ≡ true
    pub running : 0 < p.threads → (s : Server Plugin) × (p.server ≡ some s) × (s.waiting ≡ true)

  fatal_error-IsOrdered : (p : Process Plugin SpdLevel) → IsOrdered p → IsOrdered (fatal_error p)
  unfolding fatal_error
  fatal_error-IsOrdered p v = record {
    logged = v.logged;
    managed = v.managed;
    ticking = v.ticking;
    waiting = v.waiting;
    running = v.running;
  }

  pub run_threads-IsOrdered :
      (p : Process Plugin SpdLevel) (r : Bool × ℕ) (s : Server Plugin)
      → p.server ≡ some s
      → s.waiting ≡ true
      → IsOrdered p
      → IsOrdered (run_threads p r)
  unfolding run_threads
  run_threads-IsOrdered p (true, zero) s h w v = record {
    logged = v.logged;
    managed = v.managed;
    ticking = v.ticking;
    waiting = v.waiting;
    running = λ some_threads. (s, h, w);
  }
  run_threads-IsOrdered p (true, suc n) s h w v = record {
    logged = v.logged;
    managed = v.managed;
    ticking = v.ticking;
    waiting = v.waiting;
    running = λ some_threads. (s, h, w);
  }
  run_threads-IsOrdered p (false, zero) s h w v = fatal_error-IsOrdered p v
  run_threads-IsOrdered p (false, suc n) s h w v = record {
    logged = v.logged;
    managed = v.managed;
    ticking = v.ticking;
    waiting = v.waiting;
    running = λ some_threads. (s, h, w);
  }

  pub run_threads-exit :
      (p : Process Plugin SpdLevel) (r : Bool × ℕ)
      → (is_started (run_threads p r).exit ≡ r.0)
        × (r.0 ≡ true → (run_threads p r).threads ≡ r.1)
        × (r.0 ≡ true → (run_threads p r).exit ≡ exit_with r.1)
  unfolding run_threads fatal_error
  run_threads-exit p (true, zero) = (refl, λ all. refl, λ all. refl)
  run_threads-exit p (true, suc n) = (refl, λ all. refl, λ all. refl)
  run_threads-exit p (false, zero) = (refl, λ all. ground arith, λ all. absurd (ground arith))
  run_threads-exit p (false, suc n) = (refl, λ all. ground arith, λ all. absurd (ground arith))

  pub run_threads-config :
      (p : Process Plugin SpdLevel) (r : Bool × ℕ) → (run_threads p r).config ≡ p.config
  unfolding run_threads fatal_error
  run_threads-config p (true, zero) = refl
  run_threads-config p (true, suc n) = refl
  run_threads-config p (false, zero) = refl
  run_threads-config p (false, suc n) = refl

  -- The result of a part of main: in order, and started, with all threads and the started server,
  -- exactly if `can` says so.
  pub record Ends (started : Server Plugin) (cfg : ServerConfig) (can : Bool)
      (p : Process Plugin SpdLevel) : Type 0 where
    pub ordered : IsOrdered p
    pub exits : is_started p.exit ≡ can
    pub all_threads : can ≡ true → p.threads ≡ cfg.thread_num
    pub ends : can ≡ true → p.exit ≡ exit_with cfg.thread_num
    pub same_config : p.config ≡ cfg
    pub serves : can ≡ true → p.server ≡ some started

  pub fatal_error-Ends :
      (started : Server Plugin) (cfg : ServerConfig) (p : Process Plugin SpdLevel)
      → p.config ≡ cfg
      → IsOrdered p
      → Ends started cfg false (fatal_error p)
  unfolding fatal_error
  fatal_error-Ends started cfg p c v = record {
    same_config = c;
    ordered = fatal_error-IsOrdered p v;
    exits = refl;
    all_threads = λ no. ground arith;
    ends = λ no. absurd (ground arith);
    serves = λ no. absurd (ground arith);
  }

  pub run_threads-server :
      (p : Process Plugin SpdLevel) (r : Bool × ℕ) → (run_threads p r).server ≡ p.server
  unfolding run_threads fatal_error
  run_threads-server p (true, zero) = refl
  run_threads-server p (true, suc n) = refl
  run_threads-server p (false, zero) = refl
  run_threads-server p (false, suc n) = refl

  pub bare-IsOrdered :
      (p : Process Plugin SpdLevel)
      → p.threads ≡ 0
      → p.server ≡ none
      → p.accepting ≡ false
      → IsOrdered p
  bare-IsOrdered p idle no_server closed = record {
    logged = λ h. absurd (ground arith);
    managed = λ h. absurd (ground arith);
    ticking = λ s h t. absurd (ground arith);
    waiting = λ s h w. absurd (ground arith);
    running = λ some_threads. absurd (omega arith);
  }

  -- A process with a logger and a server on which the timer is set only if the gateway accepts.
  pub set_up-IsOrdered :
      (p : Process Plugin SpdLevel) (s : Server Plugin)
      → p.server ≡ some s
      → is_some p.logger ≡ true
      → p.threads ≡ 0
      → (s.ticking ≡ true → p.accepting ≡ true)
      → (s.waiting ≡ true → s.ticking ≡ true)
      → IsOrdered p
  set_up-IsOrdered p s h logger idle ticking waiting = record {
    logged = λ some_server. logger;
    managed = λ accepts. ap is_some h;
    ticking = λ s' h'.
        let same : s ≡ s' = cc (h, h') in
        subst (λ (t : Server Plugin). t.ticking ≡ true → p.accepting ≡ true) same ticking;
    waiting = λ s' h'.
        let same : s ≡ s' = cc (h, h') in
        subst (λ (t : Server Plugin). t.waiting ≡ true → t.ticking ≡ true) same waiting;
    running = λ some_threads. absurd (omega arith);
  }
