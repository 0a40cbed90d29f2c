-- ===== src/Modules.antt =====
-- core/module_manager.h and core/module_manager.cpp: the loaded modules, reload and rollback.
-- A shared_ptr is a number, and `plugins` holds the plugin that it points to. A plugin that nothing
-- points to any more stays in the table; its destructor is no step here.
pub mod Invariant
pub mod History
pub mod Reload
pub mod ReloadAll
pub mod Pointers
pub mod Alive
mod Tests
use wasm_hot.Base.{
  ℕ, ◌+◌, [], ◌∷◌, List, map, Option, none, some, Bool, true, false, ◌&&◌, String, if◌then◌else◌,
  nat_key, string_key,
}
use wasm_hot.Dict.{Dict, find, assign, erase}
use wasm_hot.PluginInterface.{IPlugin, PluginFactory}

pub record ModuleConfig : Type 0 where
  pub name : String
  pub path : String
  pub schema_version : ℕ

pub record ModuleManager (Plugin : Type 0) : Type 0 where
  pub factory : Option (PluginFactory Plugin)
  pub modules : Dict String ℕ
  pub previous_modules : Dict String ℕ
  pub configs : Dict String ModuleConfig
  pub schema_versions : Dict String ℕ
  pub plugins : Dict ℕ Plugin
  pub next_ref : ℕ

module _ {Plugin : Type 0} where
  -- The manager as its constructor leaves it.
  unfoldable pub new_manager : ModuleManager Plugin
  new_manager = record {
    factory = none;
    modules = [];
    previous_modules = [];
    configs = [];
    schema_versions = [];
    plugins = [];
    next_ref = 0;
  }

  unfoldable pub initialize : ModuleManager Plugin → PluginFactory Plugin → ModuleManager Plugin
  initialize m factory = record m { factory = some factory }

  unfoldable pub get : ModuleManager Plugin → String → Option ℕ
  get m name = find name m.modules

  unfoldable pub get_loaded_schema_version : ModuleManager Plugin → String → ℕ
  get_loaded_schema_version m name = elim (find name m.schema_versions) [
    | none ↦ 0
    | some version ↦ version
  ]

  -- The last three writes of `Load` and of `HotReload`.
  unfoldable pub install : ModuleManager Plugin → ModuleConfig → Plugin → ModuleManager Plugin
  install m config plugin = record m {
    modules = assign config.name m.next_ref m.modules;
    configs = assign config.name config m.configs;
    schema_versions = assign config.name config.schema_version m.schema_versions;
    plugins = assign m.next_ref plugin m.plugins;
    next_ref = m.next_ref + 1;
  }

  -- previous_modules_[name] = std::move(it->second), if the module is there
  unfoldable pub save_previous : ModuleManager Plugin → String → ModuleManager Plugin
  save_previous m name = elim (find name m.modules) [
    | none ↦ m
    | some ref ↦ record m { previous_modules = assign name ref m.previous_modules }
  ]

  -- The version that `Rollback` records: that of the configuration, if there is one.
  unfoldable pub version_after_rollback : ModuleManager Plugin → String → Dict String ℕ
  version_after_rollback m name = elim (find name m.configs) [
    | none ↦ m.schema_versions
    | some config ↦ assign name config.schema_version m.schema_versions
  ]

  unfoldable pub rollback : ModuleManager Plugin → String → ModuleManager Plugin
  unfolding version_after_rollback
  rollback m name = elim (find name m.previous_modules) [
    | none ↦ m
    | some ref ↦ record m {
      modules = assign name ref m.modules;
      previous_modules = erase name m.previous_modules;
      schema_versions = version_after_rollback m name;
    }
  ]

-- The start of `Load` and `HotReload`. `no_factory` is a call through a null pointer.
pub data Prepared (Plugin : Type 0) : Type 0 where
  no_factory : Prepared Plugin
  refused : Prepared Plugin
  ready : Plugin → Prepared Plugin

-- Each module that starts in a call has its own answers from outside, under its name.
module _ {World Plugin : Type 0} (api : IPlugin World Plugin) (worlds : String → World) where
  started : Bool × Plugin → Prepared Plugin
  started (ok, plugin) = if ok then ready plugin else refused

  created : String → Option Plugin → Prepared Plugin
  unfolding started
  created name none = refused
  created name (some plugin) = started (api.initialize (worlds name) plugin)

  unfoldable pub prepare : ModuleManager Plugin → ModuleConfig → Prepared Plugin
  unfolding created
  prepare m config = elim m.factory [
    | none ↦ no_factory
    | some factory ↦ created config.name (factory.create config.path config.schema_version)
  ]

  -- `none` is the null pointer's fault.
  unfoldable pub load : ModuleManager Plugin → ModuleConfig → Option (Bool × ModuleManager Plugin)
  load m config = elim (prepare m config) [
    | no_factory ↦ none
    | refused ↦ some (false, m)
    | ready plugin ↦ some (true, install m config plugin)
  ]

  unfoldable pub hot_reload :
      ModuleManager Plugin → ModuleConfig → Option (Bool × ModuleManager Plugin)
  hot_reload m config = elim (prepare m config) [
    | no_factory ↦ none
    | refused ↦ some (false, m)
    | ready plugin ↦ some (true, install (save_previous m config.name) config plugin)
  ]

  -- The loop of `HotReloadAll` over its copy of the configurations.
  unfoldable pub reload_each :
      Bool → ModuleManager Plugin → List ModuleConfig → Option (Bool × ModuleManager Plugin)
  reload_each all_ok m [] = some (all_ok, m)
  reload_each all_ok m (config ∷ rest) = elim (hot_reload m config) [
    | none ↦ none
    | some (ok, m') ↦ reload_each (all_ok && ok) m' rest
  ]

  unfoldable pub hot_reload_all : ModuleManager Plugin → Option (Bool × ModuleManager Plugin)
  hot_reload_all m = reload_each true m (map (λ entry. entry.1) m.configs)

  -- it->second->Shutdown(), on the plugin that the pointer points to
  unfoldable pub shutdown_at : ℕ → Dict ℕ Plugin → Dict ℕ Plugin
  shutdown_at ref plugins = elim (find ref plugins) [
    | none ↦ plugins
    | some plugin ↦ assign ref (api.shutdown plugin) plugins
  ]

  unfoldable pub unload_module : ModuleManager Plugin → String → ModuleManager Plugin
  unfolding shutdown_at
  unload_module m name = elim (find name m.modules) [
    | none ↦ m
    | some ref ↦ record m { modules = erase name m.modules; plugins = shutdown_at ref m.plugins }
  ]

  unfoldable pub unload : ModuleManager Plugin → String → ModuleManager Plugin
  unfolding unload_module
  unload m name =
      let m' = unload_module m name in
      record m' {
        previous_modules = erase name m'.previous_modules;
        configs = erase name m'.configs;
        schema_versions = erase name m'.schema_versions;
      }
