-- ===== src/Modules/Alive.antt =====
-- The plugins that the loaded and the saved modules of core/module_manager.cpp point to.
pub mod Histories
use text.Mathlib.TextEquality.{eq_iff}
use wasm_hot.Base.{
  ℕ, ◌+◌, ◌<◌, ◌≡◌, ◌≢◌, refl, sym, subst, ap, ◌∙◌, ◌⊎◌, inl, inr, [], ◌∷◌, List, map, Option, none,
  some, Bool, true, false, ◌&&◌, ◌==◌, String, arith, is_some, if◌then◌else◌, Option-cases,
  Bool-cases, nat_key, string_key,
}
use wasm_hot.Dict.{Dict, find, assign, erase, find-assign, find-erase}
use wasm_hot.PluginInterface.{IPlugin, PluginFactory}
use wasm_hot.Modules.{
  ModuleConfig, ModuleManager, Prepared, no_factory, refused, ready, new_manager, initialize,
  install, save_previous, rollback, unload, unload_module, shutdown_at, prepare, started, created,
  load, hot_reload, reload_each, hot_reload_all, get,
}
use wasm_hot.Modules.Pointers.{
  slot, slot-install, slot-reload, slot-rollback, slot-unload, IsApart, install-IsApart,
  reload-IsApart, rollback-IsApart, unload-IsApart,
}
use wasm_hot.Modules.History.{
  Call, initializes, loads, hot_reloads, hot_reloads_all, rolls_back, unloads, step, run,
  run-IsConsistent,
}

module _ {World Plugin : Type 0} (api : IPlugin World Plugin) (Ready : Plugin → Type 0)
    (starts : (world : World) (p : Plugin)
      → (api.initialize world p).0 ≡ true
      → Ready (api.initialize world p).1) where
  -- The pointer leads to a plugin that is ready.
  abbrev pub Leads : ModuleManager Plugin → ℕ → Type 0
  Leads m r = (p : Plugin) × (find r m.plugins ≡ some p) × Ready p

  pub record IsAlive (m : ModuleManager Plugin) : Type 0 where
    pub apart : IsApart m
    pub leads : (b : Bool) (q : String) (r : ℕ) → slot m b q ≡ some r → Leads m r

  Leads-install :
      (m : ModuleManager Plugin) (c : ModuleConfig) (p : Plugin) (r : ℕ)
      → r < m.next_ref
      → Leads m r
      → Leads (install m c p) r
  unfolding install
  Leads-install m c p r old (q, e, v) = (q, ground (arith, find-assign m.next_ref r p m.plugins), v)

  Leads-new :
      (m : ModuleManager Plugin) (c : ModuleConfig) (p : Plugin)
      → Ready p
      → Leads (install m c p) m.next_ref
  unfolding install
  Leads-new m c p v = (p, ground (arith, find-assign m.next_ref m.next_ref p m.plugins), v)

  pub install-IsAlive :
      (m : ModuleManager Plugin) (c : ModuleConfig) (p : Plugin)
      → Ready p
      → IsAlive m
      → IsAlive (install m c p)
  install-IsAlive m c p ready_p v = record {
    apart = install-IsApart m c p v.apart;
    leads = λ b q r h. elim (Bool-cases (b && (c.name == q))) [
      | inl new ↦
          let here : m.next_ref ≡ r = ground (arith, slot-install m b q c p) in
          subst (Leads (install m c p)) here (Leads-new m c p ready_p)
      | inr other ↦
          let there : slot m b q ≡ some r = ground (arith, slot-install m b q c p) in
          Leads-install m c p r (v.apart.older b q r there) (v.leads b q r there)
    ];
  }

  pub prepare-Ready :
      (world : String → World) (m : ModuleManager Plugin) (c : ModuleConfig) (p : Plugin)
      → prepare api world m c ≡ ready p
      → Ready p
  unfolding prepare
  prepare-Ready world m c p h = elim (Option-cases m.factory) [
    | inl e ↦ absurd (ground arith)
    | inr (factory, e) ↦ elim (Option-cases (factory.create c.path c.schema_version)) [
      | inl e' ↦ absurd (ground arith)
      | inr (q, e') ↦
          let ok : (api.initialize (world c.name) q).0 ≡ true = ground arith in
          let same : (api.initialize (world c.name) q).1 ≡ p = ground arith in
          subst Ready same (starts (world c.name) q ok)
    ]
  ]

  reload_source :
      (m : ModuleManager Plugin) (c : ModuleConfig) (p : Plugin) (b : Bool) (q : String) (r : ℕ)
      → slot (install (save_previous m c.name) c p) b q ≡ some r
      → (m.next_ref ≡ r) ⊎ ((d : Bool) × (slot m d q ≡ some r))
  reload_source m c p b q r h = elim (Bool-cases (c.name == q)) [
    | inr other ↦ inr (b, ground (arith, slot-reload m b q c p))
    | inl same ↦ elim (Bool-cases b) [
      | inl new ↦ inl (ground (arith, slot-reload m b q c p))
      | inr saved ↦ elim (Option-cases (slot m true q)) [
        | inl e ↦ inr (false, ground (arith, slot-reload m b q c p))
        | inr (k, e) ↦ inr (true, ground (arith, slot-reload m b q c p))
      ]
    ]
  ]

  save_previous_lem :
      (m : ModuleManager Plugin) (name : String)
      → ((save_previous m name).plugins ≡ m.plugins)
        × ((save_previous m name).next_ref ≡ m.next_ref)
  unfolding save_previous
  save_previous_lem m name = ground arith

  pub reload-IsAlive :
      (m : ModuleManager Plugin) (c : ModuleConfig) (p : Plugin)
      → Ready p
      → IsAlive m
      → IsAlive (install (save_previous m c.name) c p)
  reload-IsAlive m c p ready_p v =
      let saved = save_previous m c.name in
      let (plugins, next) = save_previous_lem m c.name in
      record {
        apart = reload-IsApart m c p v.apart;
        leads = λ b q r h. elim (reload_source m c p b q r h) [
          | inl new ↦ subst (Leads (install saved c p)) (next ∙ new) (Leads-new saved c p ready_p)
          | inr (d, old) ↦
              let below = v.apart.older d q r old in
              let (k, e, ready_k) = v.leads d q r old in
              Leads-install saved c p r (omega arith)
                (k, ap (λ (l : Dict ℕ Plugin). find r l) plugins ∙ e, ready_k)
        ];
      }

  rollback_source :
      (m : ModuleManager Plugin) (name : String) (r₀ : ℕ) (b : Bool) (q : String) (r : ℕ)
      → find name m.previous_modules ≡ some r₀
      → slot (rollback m name) b q ≡ some r
      → (d : Bool) × (slot m d q ≡ some r)
  rollback_source m name r₀ b q r e h = elim (Bool-cases (name == q)) [
    | inr other ↦ (b, ground (arith, slot-rollback m b q name r₀ e))
    | inl same ↦ elim (Bool-cases b) [
      | inl back ↦ (false, ground (arith, slot-rollback m b q name r₀ e, eq_iff name q))
      | inr gone ↦ absurd (ground (arith, slot-rollback m b q name r₀ e))
    ]
  ]

  pub rollback-IsAlive :
      (m : ModuleManager Plugin) (name : String) → IsAlive m → IsAlive (rollback m name)
  unfolding rollback
  rollback-IsAlive m name v = elim (Option-cases (find name m.previous_modules)) [
    | inl e ↦ let same : rollback m name ≡ m = rw (e, rollback) refl in subst IsAlive (sym same) v
    | inr (r₀, e) ↦
        let plugins : (rollback m name).plugins ≡ m.plugins = ground arith in
        record {
          apart = rollback-IsApart m name v.apart;
          leads = λ b q r h.
              let (d, old) = rollback_source m name r₀ b q r e h in
              let (k, e', ready_k) = v.leads d q r old in
              (k, ap (λ (l : Dict ℕ Plugin). find r l) plugins ∙ e', ready_k);
        }
  ]

  module _ (world : String → World) where
    -- The call of Shutdown reaches no other plugin.
    find-shutdown_at :
        (ref r : ℕ) (plugins : Dict ℕ Plugin)
        → ref ≢ r
        → find r (shutdown_at api world ref plugins) ≡ find r plugins
    unfolding shutdown_at
    find-shutdown_at ref r plugins apart = elim (Option-cases (find ref plugins)) [
      | inl e ↦ ground arith
      | inr (p, e) ↦ ground (arith, find-assign ref r (api.shutdown p) plugins)
    ]

    pub unload-IsAlive :
        (m : ModuleManager Plugin) (name : String) → IsAlive m → IsAlive (unload api world m name)
    unfolding unload unload_module
    unload-IsAlive m name v = record {
      apart = unload-IsApart api world m name v.apart;
      leads = λ b q r h.
          let old : slot m b q ≡ some r = ground (arith, slot-unload api world m b q name) in
          let elsewhere : name ≢ q =
            λ same. ground (arith, slot-unload api world m b q name, eq_iff name q) in
          let (p, e, ready_p) = v.leads b q r old in
          let kept : find r (unload api world m name).plugins ≡ find r m.plugins =
            elim (Option-cases (find name m.modules)) [
              | inl none_there ↦ ground arith
              | inr (ref, there) ↦
                  let apart : ref ≢ r = λ same.
                    elsewhere
                      (v.apart.apart true b name q ref there (old ∙ ap some (sym same))).1 in
                  ground (arith, find-shutdown_at ref r m.plugins apart)
            ] in
          (p, kept ∙ e, ready_p);
    }
