-- ===== src/Modules/Alive/Histories.antt =====
-- The plugins of modules in every history of calls of core/module_manager.cpp.
use wasm_hot.Base.{
  ℕ, ◌≡◌, refl, subst, inl, inr, [], ◌∷◌, List, map, Option, none, some, Bool, true, ◌&&◌, String,
  arith, Option-cases, nat_key, string_key,
}
use wasm_hot.Dict.{find}
use wasm_hot.PluginInterface.{IPlugin, PluginFactory}
use wasm_hot.Modules.{
  ModuleConfig, ModuleManager, Prepared, no_factory, refused, ready, new_manager, initialize,
  install, save_previous, rollback, unload, prepare, load, hot_reload, reload_each, hot_reload_all,
}
use wasm_hot.Modules.Pointers.{slot}
use wasm_hot.Modules.History.{
  Call, initializes, loads, hot_reloads, hot_reloads_all, rolls_back, unloads, step, run,
  run-IsConsistent, dropped,
}
use wasm_hot.Modules.Alive.{
  Leads, IsAlive, install-IsAlive, reload-IsAlive, rollback-IsAlive, unload-IsAlive, prepare-Ready,
}

module _ {World Plugin : Type 0} (api : IPlugin World Plugin) (Ready : Plugin → Type 0)
    (starts : (world : World) (p : Plugin)
      → (api.initialize world p).0 ≡ true
      → Ready (api.initialize world p).1) where
  abbrev Alive : ModuleManager Plugin → Type 0
  Alive m = IsAlive api Ready starts m

  module _ (world : String → World) where
    -- The states after Load and HotReload, from what `prepare` says.
    load-IsAlive :
        (m m' : ModuleManager Plugin) (c : ModuleConfig) (ok : Bool) (d : Prepared Plugin)
        → prepare api world m c ≡ d
        → load api world m c ≡ some (ok, m')
        → Alive m
        → Alive m'
    unfolding load
    load-IsAlive m m' c ok no_factory e h v = absurd (ground arith)
    load-IsAlive m m' c ok refused e h v = let same : m ≡ m' = ground arith in subst Alive same v
    load-IsAlive m m' c ok (ready p) e h v =
        let same : install m c p ≡ m' = ground arith in
        subst Alive same
          (install-IsAlive api Ready starts m c p (prepare-Ready api Ready starts world m c p e) v)

    hot_reload-IsAlive :
        (m m' : ModuleManager Plugin) (c : ModuleConfig) (ok : Bool) (d : Prepared Plugin)
        → prepare api world m c ≡ d
        → hot_reload api world m c ≡ some (ok, m')
        → Alive m
        → Alive m'
    unfolding hot_reload
    hot_reload-IsAlive m m' c ok no_factory e h v = absurd (ground arith)
    hot_reload-IsAlive m m' c ok refused e h v =
        let same : m ≡ m' = ground arith in subst Alive same v
    hot_reload-IsAlive m m' c ok (ready p) e h v =
        let same : install (save_previous m c.name) c p ≡ m' = ground arith in
        subst Alive same
          (reload-IsAlive api Ready starts m c p (prepare-Ready api Ready starts world m c p e) v)

    reload_each-IsAlive :
        (cs : List ModuleConfig) (m m' : ModuleManager Plugin) (all_ok ok : Bool)
        → reload_each api world all_ok m cs ≡ some (ok, m')
        → Alive m
        → Alive m'
    unfolding reload_each
    reload_each-IsAlive [] m m' all_ok ok h v =
        let same : m ≡ m' = ground arith in subst Alive same v
    reload_each-IsAlive (c ∷ cs) m m' all_ok ok h v =
        elim (Option-cases (hot_reload api world m c)) [
          | inl e ↦ absurd (ground arith)
          | inr ((ok₁, m₁), e) ↦
              reload_each-IsAlive cs m₁ m' (all_ok && ok₁) ok (ground arith)
                (hot_reload-IsAlive m m₁ c ok₁ (prepare api world m c) refl e v)
        ]

  dropped-some :
      (r : Option (Bool × ModuleManager Plugin)) (m : ModuleManager Plugin)
      → dropped r ≡ some m
      → (ok : Bool) × (r ≡ some (ok, m))
  dropped-some none m h = absurd (ground arith)
  dropped-some (some (ok, k)) m h = (ok, ground arith)

  initialize-IsAlive :
      (m : ModuleManager Plugin) (factory : PluginFactory Plugin)
      → Alive m
      → Alive (initialize m factory)
  unfolding initialize
  initialize-IsAlive m factory v = record {
    apart = record { older = v.apart.older; apart = v.apart.apart };
    leads = v.leads;
  }

  new_manager-IsAlive : Alive new_manager
  unfolding new_manager find
  new_manager-IsAlive = record {
    apart = record {
      older = λ b q r h. absurd (ground arith);
      apart = λ b c q t r h k. absurd (ground arith);
    };
    leads = λ b q r h. absurd (ground arith);
  }

  step-IsAlive :
      (m m' : ModuleManager Plugin) (c : (String → World) × Call Plugin)
      → step api m c ≡ some m'
      → Alive m
      → Alive m'
  unfolding step hot_reload_all
  step-IsAlive m m' (world, initializes factory) h v =
      let same : initialize m factory ≡ m' = ground arith in
      subst Alive same (initialize-IsAlive m factory v)
  step-IsAlive m m' (world, loads c) h v =
      let (ok, e) = dropped-some (load api world m c) m' h in
      load-IsAlive world m m' c ok (prepare api world m c) refl e v
  step-IsAlive m m' (world, hot_reloads c) h v =
      let (ok, e) = dropped-some (hot_reload api world m c) m' h in
      hot_reload-IsAlive world m m' c ok (prepare api world m c) refl e v
  step-IsAlive m m' (world, hot_reloads_all) h v =
      let (ok, e) = dropped-some (hot_reload_all api world m) m' h in
      reload_each-IsAlive world (map (λ entry. entry.1) m.configs) m m' true ok e v
  step-IsAlive m m' (world, rolls_back name) h v =
      let same : rollback m name ≡ m' = ground arith in
      subst Alive same (rollback-IsAlive api Ready starts m name v)
  step-IsAlive m m' (world, unloads name) h v =
      let same : unload api world m name ≡ m' = ground arith in
      subst Alive same (unload-IsAlive api Ready starts world m name v)

  run-IsAlive :
      (m m' : ModuleManager Plugin) (cs : List ((String → World) × Call Plugin))
      → run api m cs ≡ some m'
      → Alive m
      → Alive m'
  unfolding run
  run-IsAlive m m' [] h v = let same : m ≡ m' = ground arith in subst Alive same v
  run-IsAlive m m' (c ∷ cs) h v = elim (Option-cases (step api m c)) [
    | inl e ↦ absurd (ground arith)
    | inr (k, e) ↦ run-IsAlive k m' cs (ground arith) (step-IsAlive m k c e v)
  ]

  -- Where a plugin is ready whenever its Initialize has answered true, every history of calls of a
  -- manager whose factory is set ends with each loaded and each saved module pointing to a plugin
  -- that is ready: none has been shut down under its name or another.
  pub run-Leads :
      (factory : PluginFactory Plugin) (cs : List ((String → World) × Call Plugin))
      → (m : ModuleManager Plugin) × (run api (initialize new_manager factory) cs ≡ some m)
        × ((loaded : Bool) (name : String) (ref : ℕ)
            → slot m loaded name ≡ some ref
            → Leads api Ready starts m ref)
  run-Leads factory cs =
      let (m, e, consistent) = run-IsConsistent api factory cs in
      let start = initialize-IsAlive new_manager factory new_manager-IsAlive in
      (m, e, (run-IsAlive (initialize new_manager factory) m cs e start).leads)
