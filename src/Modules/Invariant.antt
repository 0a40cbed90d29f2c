-- ===== src/Modules/Invariant.antt =====
-- The four tables of the module manager beside each other, under each of its operations.
use text.Mathlib.TextEquality.{eq_iff}
use wasm_hot.Base.{
  ℕ, ◌≡◌, inl, inr, Option, none, some, true, String, arith, is_some, nat_key, string_key,
  Option-cases,
}
use wasm_hot.Dict.{find, find-assign, find-erase}
use wasm_hot.PluginInterface.{IPlugin, PluginFactory}
use wasm_hot.Modules.{
  ModuleConfig, ModuleManager, new_manager, initialize, install, save_previous, rollback, unload,
}

abbrev pub version_of : Option ModuleConfig → Option ℕ
version_of none = none
version_of (some config) = some config.schema_version

module _ {Plugin : Type 0} where
  -- At one name: a module is loaded exactly if it is configured, its recorded version is the
  -- configured one, and a saved module belongs to a loaded one.
  pub record ConsistentAt (m : ModuleManager Plugin) (q : String) : Type 0 where
    pub configured : is_some (find q m.modules) ≡ is_some (find q m.configs)
    pub versioned : find q m.schema_versions ≡ version_of (find q m.configs)
    pub saved : is_some (find q m.previous_modules) ≡ true → is_some (find q m.modules) ≡ true

  abbrev pub IsConsistent : ModuleManager Plugin → Type 0
  IsConsistent m = (q : String) → ConsistentAt m q

  pub new_manager-IsConsistent : IsConsistent new_manager
  unfolding new_manager find
  new_manager-IsConsistent q = ground arith

  pub initialize-IsConsistent :
      (m : ModuleManager Plugin) (factory : PluginFactory Plugin)
      → IsConsistent m
      → IsConsistent (initialize m factory)
  unfolding initialize
  initialize-IsConsistent m factory v q = let at = v q in ground arith

  module _ (m : ModuleManager Plugin) where
    pub install-IsConsistent :
        (c : ModuleConfig) (p : Plugin) → IsConsistent m → IsConsistent (install m c p)
    unfolding install
    install-IsConsistent c p v q =
        let at = v q in
        ground (
          arith,
          find-assign c.name q m.next_ref m.modules,
          find-assign c.name q c m.configs,
          find-assign c.name q c.schema_version m.schema_versions,
        )

    pub save_previous-IsConsistent :
        (name : String) → IsConsistent m → IsConsistent (save_previous m name)
    unfolding save_previous
    save_previous-IsConsistent name v q = elim (Option-cases (find name m.modules)) [
      | inl e ↦ let at = v q in ground arith
      | inr (ref, e) ↦
          let at = v q in ground (arith, find-assign name q ref m.previous_modules, eq_iff name q)
    ]

    pub rollback-IsConsistent : (name : String) → IsConsistent m → IsConsistent (rollback m name)
    unfolding rollback
    rollback-IsConsistent name v q = elim (Option-cases (find name m.previous_modules)) [
      | inl e ↦ let at = v q in ground arith
      | inr (ref, e) ↦ elim (Option-cases (find name m.configs)) [
        | inl e' ↦ let at = v name in absurd (ground arith)
        | inr (c, e') ↦
            let at = v q in
            ground (
              arith,
              find-assign name q ref m.modules,
              find-erase name q m.previous_modules,
              find-assign name q c.schema_version m.schema_versions,
              eq_iff name q,
            )
      ]
    ]

module _ {World Plugin : Type 0} (api : IPlugin World Plugin) (world : String → World) where
  module _ (m : ModuleManager Plugin) where
    pub unload-IsConsistent :
        (name : String) → IsConsistent m → IsConsistent (unload api world m name)
    unfolding unload
    unload-IsConsistent name v q = elim (Option-cases (find name m.modules)) [
      | inl e ↦
          let at = v q in
          ground (
            arith,
            find-erase name q m.previous_modules,
            find-erase name q m.configs,
            find-erase name q m.schema_versions,
            eq_iff name q,
          )
      | inr (ref, e) ↦
          let at = v q in
          ground (
            arith,
            find-erase name q m.modules,
            find-erase name q m.previous_modules,
            find-erase name q m.configs,
            find-erase name q m.schema_versions,
            eq_iff name q,
          )
    ]
