-- ===== src/Modules/History.antt =====
-- Histories of calls of the module manager, as main.cpp and its signal handler make them.
use wasm_hot.Base.{
  ◌≡◌, refl, ap, ◌⊎◌, inl, inr, [], ◌∷◌, ◌++◌, List, map, Option, none, some, Bool, true, false,
  ◌&&◌, String, arith, is_some, Option-cases, Bool-cases,
}
use wasm_hot.PluginInterface.{IPlugin, PluginFactory}
use wasm_hot.Modules.{
  ModuleConfig, ModuleManager, refused, ready, new_manager, initialize, install, save_previous,
  rollback, prepare, load, hot_reload, reload_each, hot_reload_all, unload,
}
use wasm_hot.Modules.Invariant.{
  IsConsistent, new_manager-IsConsistent, initialize-IsConsistent, install-IsConsistent,
  save_previous-IsConsistent, rollback-IsConsistent, unload-IsConsistent,
}

pub data Call (Plugin : Type 0) : Type 0 where
  initializes : PluginFactory Plugin → Call Plugin
  loads hot_reloads : ModuleConfig → Call Plugin
  hot_reloads_all : Call Plugin
  rolls_back unloads : String → Call Plugin

abbrev pub dropped : {M : Type 0} → Option (Bool × M) → Option M
dropped none = none
dropped (some (ok, m)) = some m

-- The factory stays set.
module _ {Plugin : Type 0} (m : ModuleManager Plugin) where
  pub ready_now : (factory : PluginFactory Plugin) → is_some (initialize m factory).factory ≡ true
  unfolding initialize
  ready_now factory = refl

  installed :
      (c : ModuleConfig) (p : Plugin)
      → is_some m.factory ≡ true
      → is_some (install m c p).factory ≡ true
  unfolding install
  installed c p h = h

  saved : (name : String) → is_some m.factory ≡ true → is_some (save_previous m name).factory ≡ true
  unfolding save_previous
  saved name h = ground arith

  rolled : (name : String) → is_some m.factory ≡ true → is_some (rollback m name).factory ≡ true
  unfolding rollback
  rolled name h = ground arith

module _ {World Plugin : Type 0} (api : IPlugin World Plugin) where
  -- One call, in the world of its moment.
  unfoldable pub step :
      ModuleManager Plugin → (String → World) × Call Plugin → Option (ModuleManager Plugin)
  step m (world, initializes factory) = some (initialize m factory)
  step m (world, loads config) = dropped (load api world m config)
  step m (world, hot_reloads config) = dropped (hot_reload api world m config)
  step m (world, hot_reloads_all) = dropped (hot_reload_all api world m)
  step m (world, rolls_back name) = some (rollback m name)
  step m (world, unloads name) = some (unload api world m name)

  unfoldable pub run :
      ModuleManager Plugin → List ((String → World) × Call Plugin) → Option (ModuleManager Plugin)
  run m [] = some m
  run m (c ∷ cs) = elim (step m c) [ none ↦ none | some m' ↦ run m' cs ]

  pub run-append :
      (m m' : ModuleManager Plugin) (cs ds : List ((String → World) × Call Plugin))
      → run m cs ≡ some m'
      → run m (cs ++ ds) ≡ run m' ds
  unfolding run
  run-append m m' [] ds h = let same : m ≡ m' = cc h in ap (λ k. run k ds) same
  run-append m m' (c ∷ cs) ds h = elim (Option-cases (step m c)) [
    | inl e ↦ absurd (ground arith)
    | inr (k, e) ↦ rw (e, run) (run-append k m' cs ds (ground arith))
  ]

  abbrev pub IsReady : ModuleManager Plugin → Type 0
  IsReady m = (is_some m.factory ≡ true) × IsConsistent m

  abbrev pub Returns : Option (Bool × ModuleManager Plugin) → Type 0
  Returns r = (ok : Bool) × (m : ModuleManager Plugin) × (r ≡ some (ok, m)) × IsReady m

  module _ (world : String → World) where
    unloaded :
        (m : ModuleManager Plugin) (name : String)
        → is_some m.factory ≡ true
        → is_some (unload api world m name).factory ≡ true
    unfolding unload
    unloaded m name h = ground arith

    prepare-cases :
        (m : ModuleManager Plugin) (c : ModuleConfig)
        → is_some m.factory ≡ true
        → (prepare api world m c ≡ refused) ⊎ ((p : Plugin) × (prepare api world m c ≡ ready p))
    unfolding prepare
    prepare-cases m c h = elim (Option-cases m.factory) [
      | inl e ↦ absurd (ground arith)
      | inr (factory, e) ↦ elim (Option-cases (factory.create c.path c.schema_version)) [
        | inl e' ↦ inl (ground arith)
        | inr (p, e') ↦ elim (Bool-cases (api.initialize (world c.name) p).0) [
          | inl ok ↦ inr ((api.initialize (world c.name) p).1, ground arith)
          | inr bad ↦ inl (ground arith)
        ]
      ]
    ]

    load-Returns :
        (m : ModuleManager Plugin) (c : ModuleConfig) → IsReady m → Returns (load api world m c)
    unfolding load
    load-Returns m c v = elim (prepare-cases m c v.0) [
      | inl e ↦ (false, m, rw (e, load), v)
      | inr (p, e) ↦
          (true, install m c p, rw (e, load), (installed m c p v.0, install-IsConsistent m c p v.1))
    ]

    hot_reload-Returns :
        (m : ModuleManager Plugin) (c : ModuleConfig)
        → IsReady m
        → Returns (hot_reload api world m c)
    unfolding hot_reload
    hot_reload-Returns m c v = elim (prepare-cases m c v.0) [
      | inl e ↦ (false, m, rw (e, hot_reload), v)
      | inr (p, e) ↦
          let old = save_previous m c.name in
          (
            true,
            install old c p,
            rw (e, hot_reload),
            (
              installed old c p (saved m c.name v.0),
              install-IsConsistent old c p (save_previous-IsConsistent m c.name v.1),
            ),
          )
    ]

    pub reload_each-Returns :
        (ok : Bool) (m : ModuleManager Plugin) (cs : List ModuleConfig)
        → IsReady m
        → Returns (reload_each api world ok m cs)
    unfolding reload_each
    reload_each-Returns ok m [] v = (ok, m, refl, v)
    reload_each-Returns ok m (c ∷ cs) v =
        let (ok', m', e, v') = hot_reload-Returns m c v in
        rw (e, reload_each) (reload_each-Returns (ok && ok') m' cs v')

  pub step-IsReady :
      (m : ModuleManager Plugin) (c : (String → World) × Call Plugin)
      → IsReady m
      → (m' : ModuleManager Plugin) × (step m c ≡ some m') × IsReady m'
  unfolding step hot_reload_all
  step-IsReady m (world, initializes factory) v =
      (initialize m factory, refl, (ready_now m factory, initialize-IsConsistent m factory v.1))
  step-IsReady m (world, loads c) v =
      let (ok, m', e, v') = load-Returns world m c v in (m', ap dropped e, v')
  step-IsReady m (world, hot_reloads c) v =
      let (ok, m', e, v') = hot_reload-Returns world m c v in (m', ap dropped e, v')
  step-IsReady m (world, hot_reloads_all) v =
      let (ok, m', e, v') = reload_each-Returns world true m (map (λ entry. entry.1) m.configs) v in
      (m', ap dropped e, v')
  step-IsReady m (world, rolls_back name) v =
      (rollback m name, refl, (rolled m name v.0, rollback-IsConsistent m name v.1))
  step-IsReady m (world, unloads name) v = (
    unload api world m name,
    refl,
    (unloaded world m name v.0, unload-IsConsistent api world m name v.1),
  )

  run-IsReady :
      (m : ModuleManager Plugin) (cs : List ((String → World) × Call Plugin))
      → IsReady m
      → (m' : ModuleManager Plugin) × (run m cs ≡ some m') × IsReady m'
  unfolding run
  run-IsReady m [] v = (m, refl, v)
  run-IsReady m (c ∷ cs) v =
      let (m', e, v') = step-IsReady m c v in
      let (m'', e', v'') = run-IsReady m' cs v' in (m'', rw (e, run) e', v'')

  -- Once the factory is set, every history of calls runs to its end without a call through a null
  -- pointer, and the tables are consistent afterwards.
  pub run-IsConsistent :
      (factory : PluginFactory Plugin) (cs : List ((String → World) × Call Plugin))
      → (m : ModuleManager Plugin) × (run (initialize new_manager factory) cs ≡ some m)
        × IsConsistent m
  run-IsConsistent factory cs =
      let (m, e, v) = run-IsReady (initialize new_manager factory) cs (
        ready_now new_manager factory,
        initialize-IsConsistent new_manager factory new_manager-IsConsistent,
      ) in
      (m, e, v.1)
