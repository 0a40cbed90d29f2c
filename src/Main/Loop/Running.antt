-- ===== src/Main/Loop/Running.antt =====
-- What a running server does with the completions of its timer and of its signals.
use wasm_hot.Base.{
  String, ℕ, zero, suc, ◌+◌, ◌*◌, ◌^◌, ◌<◌, ◌≡◌, refl, sym, ap, fun_ext, append-nil, append_assoc,
  ◌++◌, ◌*◌, subst, ◌∙◌, [], ◌∷◌, ◌++◌, List, map, Option, none, some, Bool, true, false, replicate,
  arith, append-nil, append_assoc, if◌then◌else◌, nat_key,
}
use wasm_hot.Dict.{find}
use wasm_hot.Actor.{Actor, Task, schedule_tick}
use wasm_hot.Actor
use wasm_hot.ActorRuntime.{ActorPtr, ActorRuntime, tick}
use wasm_hot.ActorRuntime.Routing.{count_address, map_actor, times, tick_lem}
use wasm_hot.PluginInterface.{IPlugin}
use wasm_hot.Modules.History.{Call, run, run-append, IsReady}
use wasm_hot.Main.Loop.{g_interval_ms, Server, Completion, serve}
use wasm_hot.Main.Loop.Completions.{
  ticks_on, waits_on, is_tick, is_dump, reload_of, complete-Completed, dumped, HasRoom,
}

-- The ticks, dumps and reloads among the completions: each kind ends with the first error of its
-- own wait.
module _ {World : Type 0} where
  unfoldable pub ticks_in : Bool → List (Completion World) → ℕ
  ticks_in ticking [] = 0
  ticks_in ticking (c ∷ cs) =
      let rest = ticks_in (ticks_on ticking c) cs in if is_tick ticking c then suc rest else rest

  unfoldable pub dumps_in : Bool → List (Completion World) → ℕ
  dumps_in waiting [] = 0
  dumps_in waiting (c ∷ cs) =
      let rest = dumps_in (waits_on waiting c) cs in if is_dump waiting c then suc rest else rest

  unfoldable pub reloads_in :
      {Plugin : Type 0} → Bool → List (Completion World) → List ((String → World) × Call Plugin)
  reloads_in waiting [] = []
  reloads_in waiting (c ∷ cs) = reload_of waiting c ++ reloads_in (waits_on waiting c) cs

-- So many ticks of the runtime.
abbrev pub tick_times : ℕ → ActorRuntime → ActorRuntime
tick_times zero rt = rt
tick_times (suc n) rt = tick_times n (tick rt g_interval_ms)

-- An actor with so many ticks of the loop behind its tasks.
abbrev pub with_ticks : ℕ → Actor → Actor
with_ticks n a = record a { tasks = a.tasks ++ replicate n (Actor.tick g_interval_ms) }

abbrev pub pointers : ActorRuntime → List ActorPtr
pointers rt = map (λ entry. entry.1) rt.actors

replicate-add :
    {A : Type 0} (m n : ℕ) (a : A) → replicate m a ++ replicate n a ≡ replicate (m + n) a
replicate-add zero n a = let same : n ≡ 0 + n = omega arith in ap (λ k. replicate k a) same
replicate-add (suc m) n a =
    let one_more : suc (m + n) ≡ suc m + n = omega arith in
    ap (◌∷◌ a) (replicate-add m n a) ∙ ap (λ k. replicate k a) one_more

with_ticks-with_ticks : (m n : ℕ) (a : Actor) → with_ticks n (with_ticks m a) ≡ with_ticks (m + n) a
with_ticks-with_ticks m n a =
    let t = Actor.tick g_interval_ms in
    ap (λ ts. record a { tasks = ts })
      (append_assoc a.tasks (replicate m t) (replicate n t)
        ∙ ap (◌++◌ a.tasks) (replicate-add m n t))

times-with_ticks :
    (n : ℕ) (a : Actor) → times n (λ b. schedule_tick b g_interval_ms) a ≡ with_ticks n a
unfolding schedule_tick
times-with_ticks zero a = ap (λ ts. record a { tasks = ts }) (sym (append-nil a.tasks))
times-with_ticks (suc n) a =
    let count : 1 + n ≡ suc n = omega arith in
    times-with_ticks n (schedule_tick a g_interval_ms)
    ∙ with_ticks-with_ticks 1 n a
    ∙ ap (λ k. with_ticks k a) count

map_actor-with_ticks :
    (m n : ℕ) (o : Option Actor)
    → map_actor (with_ticks n) (map_actor (with_ticks m) o) ≡ map_actor (with_ticks (m + n)) o
map_actor-with_ticks m n none = refl
map_actor-with_ticks m n (some a) = ap some (with_ticks-with_ticks m n a)

map_actor-zero : (o : Option Actor) → o ≡ map_actor (with_ticks 0) o
map_actor-zero none = refl
map_actor-zero (some a) = ap some (times-with_ticks 0 a)

find-tick_times :
    (n q : ℕ) (rt : ActorRuntime)
    → find q (tick_times n rt).heap
      ≡ map_actor (with_ticks (n * count_address q (pointers rt))) (find q rt.heap)
unfolding tick
find-tick_times zero q rt =
    let none_yet : 0 ≡ 0 * count_address q (pointers rt) = omega arith in
    map_actor-zero (find q rt.heap) ∙ ap (λ k. map_actor (with_ticks k) (find q rt.heap)) none_yet
find-tick_times (suc n) q rt =
    let ids = count_address q (pointers rt) in
    let all : ids + n * ids ≡ suc n * ids = omega arith in
    find-tick_times n q (tick rt g_interval_ms)
    ∙ ap (map_actor (with_ticks (n * ids))) (
        tick_lem rt g_interval_ms q
        ∙ ap (λ f. map_actor f (find q rt.heap)) (fun_ext (times-with_ticks ids)))
    ∙ map_actor-with_ticks ids (n * ids) (find q rt.heap)
    ∙ ap (λ k. map_actor (with_ticks k) (find q rt.heap)) all

tick_times_step :
    (ticked : Bool) (n : ℕ) (rt rt' : ActorRuntime)
    → rt' ≡ (if ticked then tick rt g_interval_ms else rt)
    → tick_times n rt' ≡ tick_times (if ticked then suc n else n) rt
tick_times_step true n rt rt' h = ap (tick_times n) h
tick_times_step false n rt rt' h = ap (tick_times n) h

num_step :
    (dumped_now : Bool) (n num num' num'' : ℕ)
    → num' ≡ (if dumped_now then num + 1 else num)
    → num'' ≡ num' + n
    → num'' ≡ num + (if dumped_now then suc n else n)
num_step true n num num' num'' h k = omega arith
num_step false n num num' num'' h k = omega arith

-- `n` numbers from `first` on.
unfoldable pub numbers_from : ℕ → ℕ → List ℕ
numbers_from first zero = []
numbers_from first (suc n) = first ∷ numbers_from (suc first) n

numbers_step :
    (dumped_now : Bool) (n num num' : ℕ)
    → num' ≡ (if dumped_now then num + 1 else num)
    → (if dumped_now then (num + 1) ∷ [] else []) ++ numbers_from (suc num') n
      ≡ numbers_from (suc num) (if dumped_now then suc n else n)
unfolding numbers_from
numbers_step true n num num' h =
    let next : suc num' ≡ suc (suc num) = omega arith in
    let first : num + 1 ≡ suc num = omega arith in
    ap (λ k. k ∷ numbers_from (suc num') n) first ∙ ap (λ k. suc num ∷ numbers_from k n) next
numbers_step false n num num' h = ap (λ k. numbers_from (suc k) n) h

room_now :
    (dumped_now : Bool) (n num : ℕ)
    → num + (if dumped_now then suc n else n) < 2 ^ 31
    → HasRoom num dumped_now
room_now true n num h = omega arith
room_now false n num h = omega arith

room_later :
    (dumped_now : Bool) (n num num' : ℕ)
    → num' ≡ (if dumped_now then num + 1 else num)
    → num + (if dumped_now then suc n else n) < 2 ^ 31
    → num' + n < 2 ^ 31
room_later true n num num' e h = omega arith
room_later false n num num' e h = omega arith

module _ {World Plugin : Type 0} (api : IPlugin World Plugin) where
  -- What a sequence of completions does.
  record Served (s s' : Server Plugin) (cs : List (Completion World)) : Type 0 where
    pub runtime : s'.runtime ≡ tick_times (ticks_in s.ticking cs) s.runtime
    pub num : s'.num ≡ s.num + dumps_in s.waiting cs
    pub dumps : dumped s'.lines ≡ dumped s.lines ++ numbers_from (suc s.num) (dumps_in s.waiting cs)
    pub modules : run api s.modules (reloads_in s.waiting cs) ≡ some s'.modules
    pub ready : IsReady api s'.modules

  serve-Served :
      (s : Server Plugin) (cs : List (Completion World))
      → IsReady api s.modules
      → s.num + dumps_in s.waiting cs < 2 ^ 31
      → (s' : Server Plugin) × (serve api s cs ≡ some s') × Served s s' cs
  unfolding serve ticks_in dumps_in reloads_in run numbers_from
  serve-Served s [] v room = (
    s,
    refl,
    record {
      runtime = refl;
      num = omega arith;
      dumps = sym (append-nil (dumped s.lines));
      modules = refl;
      ready = v;
    },
  )
  serve-Served s (c ∷ cs) v room =
      let now = is_dump s.waiting c in
      let later = dumps_in (waits_on s.waiting c) cs in
      let (s₁, e, one) = complete-Completed api s c v (room_now now later s.num room) in
      let left : s₁.num + dumps_in s₁.waiting cs < 2 ^ 31 =
        subst (λ w. s₁.num + dumps_in w cs < 2 ^ 31) (sym one.waiting)
          (room_later now later s.num s₁.num one.num room) in
      let (s₂, e', rest) = serve-Served s₁ cs one.ready left in
      let ticks = ticks_in (ticks_on s.ticking c) cs in
      let rest_num : s₂.num ≡ s₁.num + later =
        subst (λ w. s₂.num ≡ s₁.num + dumps_in w cs) one.waiting rest.num in
      (
        s₂,
        rw (e, serve) e',
        record {
          runtime =
              rest.runtime
              ∙ ap (λ b. tick_times (ticks_in b cs) s₁.runtime) one.ticking
              ∙ tick_times_step (is_tick s.ticking c) ticks s.runtime s₁.runtime one.runtime;
          num = num_step now later s.num s₁.num s₂.num one.num rest_num;
          dumps =
              rest.dumps
              ∙ ap (λ w. dumped s₁.lines ++ numbers_from (suc s₁.num) (dumps_in w cs)) one.waiting
              ∙ ap (λ ns. ns ++ numbers_from (suc s₁.num) later) one.dumps
              ∙ append_assoc (dumped s.lines) (if now then (s.num + 1) ∷ [] else [])
                  (numbers_from (suc s₁.num) later)
              ∙ ap (◌++◌ (dumped s.lines)) (numbers_step now later s.num s₁.num one.num);
          modules =
              run-append api s.modules s₁.modules (reload_of s.waiting c)
                (reloads_in (waits_on s.waiting c) cs) one.modules
              ∙ ap (λ b. run api s₁.modules (reloads_in b cs)) (sym one.waiting)
              ∙ rest.modules;
          ready = rest.ready;
        },
      )

  -- A server whose factory is set and whose tables are consistent never faults, whatever completes,
  -- as long as its dumps, with those before, are fewer than 2 ^ 31. Until the first error of the
  -- timer, each of its completions puts one tick behind the tasks of an actor for every id that
  -- stands for it. Until the first error of the signals, each SIGHUP reloads all modules, and each
  -- SIGUSR1 writes or fails to write a dump file with the next number, which is one more than the
  -- count of dumps before; nothing else changes the modules or names a dump file.
  pub serve_lem :
      (s : Server Plugin) (cs : List (Completion World)) (q : ℕ)
      → IsReady api s.modules
      → s.num + dumps_in s.waiting cs < 2 ^ 31
      → let ticks = ticks_in s.ticking cs * count_address q (pointers s.runtime) in
        let dumps = dumps_in s.waiting cs in
        (s' : Server Plugin) × (serve api s cs ≡ some s')
        × (find q s'.runtime.heap ≡ map_actor (with_ticks ticks) (find q s.runtime.heap))
        × (run api s.modules (reloads_in s.waiting cs) ≡ some s'.modules)
        × (s'.num ≡ s.num + dumps)
        × (dumped s'.lines ≡ dumped s.lines ++ numbers_from (suc s.num) dumps)
  serve_lem s cs q v room =
      let (s', e, served) = serve-Served s cs v room in
      (
        s',
        e,
        ap (λ (rt : ActorRuntime). find q rt.heap) served.runtime
            ∙ find-tick_times (ticks_in s.ticking cs) q s.runtime,
        served.modules,
        served.num,
        served.dumps,
      )
