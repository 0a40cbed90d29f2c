-- ===== src/Modules/Reload.antt =====
-- Hot reload and rollback of one module, and the reload of all.
use text.Mathlib.TextEquality.{eq_iff}
use text.Mathlib.TextPositions.{eq_refl}
use wasm_hot.Base.{
  ℕ, ◌≡◌, ◌≢◌, ◌∙◌, ap, refl, subst, sym, ◌⊎◌, inl, inr, Option, none, some, Bool, true, false,
  ◌&&◌, ◌==◌, String, if◌then◌else◌, arith, is_some, Option-cases, nat_key, string_key,
}
use wasm_hot.Dict.{find, find-assign}
use wasm_hot.PluginInterface.{IPlugin, PluginFactory}
use wasm_hot.Modules.{
  ModuleConfig, ModuleManager, Prepared, no_factory, refused, ready, get, get_loaded_schema_version,
  install, save_previous, rollback, prepare, load, hot_reload,
}

module _ {Plugin : Type 0} (m : ModuleManager Plugin) (c : ModuleConfig) (p : Plugin) where
  abbrev after : ModuleManager Plugin
  after = install (save_previous m c.name) c p

  -- The tables at a name after the two writes of a reload.
  abbrev Tables : ModuleManager Plugin → String → Type 0
  Tables m' q =
      (get m' q ≡ (if c.name == q then some m.next_ref else get m q))
      × (get_loaded_schema_version m' q
          ≡ (if c.name == q then c.schema_version else get_loaded_schema_version m q))
      × (find q m'.previous_modules
          ≡ (if c.name == q && is_some (get m q) then get m q else find q m.previous_modules))
      × (find q m'.configs ≡ (if c.name == q then some c else find q m.configs))

  after-Tables : (q : String) → Tables after q
  unfolding get get_loaded_schema_version install save_previous
  after-Tables q = elim (Option-cases (find c.name m.modules)) [
    | inl e ↦ ground (
      arith,
      find-assign c.name q m.next_ref m.modules,
      find-assign c.name q c.schema_version m.schema_versions,
      find-assign c.name q c m.configs,
      eq_iff c.name q,
    )
    | inr (ref, e) ↦ ground (
      arith,
      find-assign c.name q m.next_ref m.modules,
      find-assign c.name q c.schema_version m.schema_versions,
      find-assign c.name q c m.configs,
      find-assign c.name q ref m.previous_modules,
      eq_iff c.name q,
    )
  ]

  find-after :
      (ref : ℕ)
      → find ref after.plugins ≡ (if m.next_ref == ref then some p else find ref m.plugins)
  unfolding install save_previous
  find-after ref = elim (Option-cases (find c.name m.modules)) [
    | inl e ↦ rw (e, save_previous) (find-assign m.next_ref ref p m.plugins)
    | inr (old, e) ↦ rw (e, save_previous) (find-assign m.next_ref ref p m.plugins)
  ]

module _ {World Plugin : Type 0} (api : IPlugin World Plugin) (world : String → World) where
  module _ (m m' : ModuleManager Plugin) (c : ModuleConfig) where
    -- A load or a reload that answers false has changed nothing.
    pub refused_changes_nothing :
        (load api world m c ≡ some (false, m')) ⊎ (hot_reload api world m c ≡ some (false, m'))
        → m' ≡ m
    unfolding load hot_reload
    refused_changes_nothing h = ground arith

    -- The plugin that the factory has made and that has started.
    abbrev pub Starts : Plugin → Type 0
    Starts p =
        (factory : PluginFactory Plugin) × (made : Plugin) × (m.factory ≡ some factory)
        × (factory.create c.path c.schema_version ≡ some made)
        × (api.initialize (world c.name) made ≡ (true, p))

    prepare-Starts : (p : Plugin) → prepare api world m c ≡ ready p → Starts p
    unfolding prepare
    prepare-Starts p h = elim (Option-cases m.factory) [
      | inl e ↦ absurd (ground arith)
      | inr (factory, e) ↦ elim (Option-cases (factory.create c.path c.schema_version)) [
        | inl e' ↦ absurd (ground arith)
        | inr (made, e') ↦
            let ok : (api.initialize (world c.name) made).0 ≡ true = ground arith in
            let same : (api.initialize (world c.name) made).1 ≡ p = ground arith in
            (factory, made, e, e', λ i. (ok i, same i))
      ]
    ]

    reloaded :
        hot_reload api world m c ≡ some (true, m') → (p : Plugin) × Starts p × (m' ≡ after m c p)
    unfolding hot_reload
    reloaded h = of_prepared (prepare api world m c) refl h
      where
        of_prepared :
            (r : Prepared Plugin)
            → prepare api world m c ≡ r
            → ◌≡◌ {A = Option (Bool × ModuleManager Plugin)}
                (elim r [
                  | no_factory ↦ none
                  | refused ↦ some (false, m)
                  | ready plugin ↦ some (true, install (save_previous m c.name) c plugin)
                ])
                (some (true, m'))
            → (p : Plugin) × Starts p × (m' ≡ after m c p)
        of_prepared no_factory e k = absurd (ground arith)
        of_prepared refused e k = absurd (ground arith)
        of_prepared (ready p) e k = (p, prepare-Starts p e, ground arith)

    module _ (done : hot_reload api world m c ≡ some (true, m')) where
      -- After a reload that answers true, the factory has made a plugin for the path and version of
      -- the configuration, it has started, and it is the one that the name points to; all plugins
      -- from before are still there. The name has the new version and configuration, the module that
      -- was loaded before is saved, and other names have what they had.
      pub hot_reload_lem :
          (p : Plugin) × Starts p
          × (find m.next_ref m'.plugins ≡ some p)
          × ((ref : ℕ) → ref ≢ m.next_ref → find ref m'.plugins ≡ find ref m.plugins)
          × ((q : String)
              → (get m' q ≡ (if c.name == q then some m.next_ref else get m q))
                × (get_loaded_schema_version m' q
                    ≡ (if c.name == q then c.schema_version else get_loaded_schema_version m q))
                × (find q m'.previous_modules ≡ (
                    if c.name == q && is_some (get m q)
                    then get m q
                    else find q m.previous_modules))
                × (find q m'.configs ≡ (if c.name == q then some c else find q m.configs)))
      hot_reload_lem =
          let (p, starts, e) = reloaded done in
          let plugins = ap (λ (n : ModuleManager Plugin). n.plugins) e in
          (
            p,
            starts,
            ap (find m.next_ref) plugins ∙ find-after m c p m.next_ref ∙ ground arith,
            λ ref other. ap (find ref) plugins ∙ find-after m c p ref ∙ ground arith,
            λ q. subst (λ n. Tables m c p n q) (sym e) (after-Tables m c p q),
          )

      -- A rollback after the reload of a loaded module brings the old plugin back, but the version
      -- that it reports is the one of the configuration that was rolled back.
      pub rollback-hot_reload :
          (old : ℕ)
          → get m c.name ≡ some old
          → (get (rollback m' c.name) c.name ≡ some old)
            × (get_loaded_schema_version (rollback m' c.name) c.name ≡ c.schema_version)
      unfolding get get_loaded_schema_version rollback
      rollback-hot_reload old loaded =
          let (now, version, kept, configured) = hot_reload_lem.4 c.name in
          let same = eq_refl c.name in
          let was : find c.name m'.previous_modules ≡ some old = ground arith in
          let is : find c.name m'.configs ≡ some c = ground arith in
          ground (
            arith,
            find-assign c.name c.name old m'.modules,
            find-assign c.name c.name c.schema_version m'.schema_versions,
          )
