-- ===== src/Modules/Tests.antt =====
-- A module's life in the manager, with plugins that are numbers.
use wasm_hot.Base.{
  ◌≢◌, ◌&&◌, ◌==◌, is_some, if◌then◌else◌, String, nat_key, string_key, ℕ, ◌≡◌, refl, [], ◌∷◌, List,
  none, some, Bool, true, false, if◌then◌else◌,
}
use wasm_hot.Dict.{Dict, find}
use wasm_hot.PluginInterface.{IPlugin, PluginFactory}
use wasm_hot.Modules.{
  ModuleConfig, ModuleManager, new_manager, initialize, get, get_loaded_schema_version, install,
  save_previous, rollback, load, hot_reload, hot_reload_all, unload,
}
use wasm_hot.Modules.Invariant.{IsConsistent}
use wasm_hot.Modules.History.{
  Call, loads, hot_reloads, hot_reloads_all, rolls_back, unloads, run, run-IsConsistent,
}
use wasm_hot.Modules.Reload.{Starts, hot_reload_lem, rollback-hot_reload}
use wasm_hot.Modules.ReloadAll.{all_start, Outcome, hot_reload_all_lem}

-- In the world `true` every plugin starts, and in `false` none.
abbrev numbers : IPlugin Bool ℕ
numbers = record {
  initialize = λ world p. (world, p);
  shutdown = λ p. 0;
  execute = λ p obj s action input output. record {
    ok = true;
    plugin = p;
    obj = obj;
    storage = s;
    output = output;
  };
  clone = λ world p. if world then some p else none;
}

abbrev factory : PluginFactory ℕ
factory = record { create = λ path version. some version }

abbrev room : ℕ → ModuleConfig
room version = record { name = "room"; path = "room.wasm"; schema_version = version }

abbrev one_loaded : ModuleManager ℕ
one_loaded = record {
  factory = some factory;
  modules = ("room", 0) ∷ [];
  previous_modules = [];
  configs = ("room", room 1) ∷ [];
  schema_versions = ("room", 1) ∷ [];
  plugins = (0, 1) ∷ [];
  next_ref = 1;
}

abbrev two_loaded : ModuleManager ℕ
two_loaded = record {
  factory = some factory;
  modules = ("room", 1) ∷ [];
  previous_modules = ("room", 0) ∷ [];
  configs = ("room", room 2) ∷ [];
  schema_versions = ("room", 2) ∷ [];
  plugins = (0, 1) ∷ (1, 2) ∷ [];
  next_ref = 2;
}

-- Every module can start, and none can.
abbrev up : String → Bool
up name = true

abbrev down : String → Bool
down name = false

loads_one : load numbers up (initialize new_manager factory) (room 1) ≡ some (true, one_loaded)
unfolding load wasm_hot.Modules.prepare initialize install wasm_hot.Dict.assign new_manager
loads_one = refl

reloads : hot_reload numbers up one_loaded (room 2) ≡ some (true, two_loaded)
unfolding hot_reload wasm_hot.Modules.prepare install save_previous wasm_hot.Dict.assign find
reloads = refl

refuses : hot_reload numbers down one_loaded (room 2) ≡ some (false, one_loaded)
unfolding hot_reload wasm_hot.Modules.prepare
refuses = refl

reloads_all : hot_reload_all numbers down one_loaded ≡ some (false, one_loaded)
unfolding hot_reload_all wasm_hot.Modules.reload_each hot_reload wasm_hot.Modules.prepare
reloads_all = refl

abbrev history : List ((String → Bool) × Call ℕ)
history =
    (up, loads (room 1))
    ∷ (down, hot_reloads (room 2))
    ∷ (up, hot_reloads (room 2))
    ∷ (up, hot_reloads_all)
    ∷ (up, rolls_back "room")
    ∷ (up, unloads "room")
    ∷ []

run-IsConsistent_example :
    (m : ModuleManager ℕ) × (run numbers (initialize new_manager factory) history ≡ some m)
    × IsConsistent m
run-IsConsistent_example = run-IsConsistent numbers factory history

hot_reload_lem_example :
    (p : ℕ) × Starts numbers up one_loaded two_loaded (room 2) p
    × (find {K = ℕ} 1 two_loaded.plugins ≡ some p)
    × ((ref : ℕ) → ref ≢ 1 → find ref two_loaded.plugins ≡ find ref one_loaded.plugins)
    × ((q : String)
        → (get two_loaded q ≡ (if "room" == q then some 1 else get one_loaded q))
          × (get_loaded_schema_version two_loaded q
              ≡ (if "room" == q then 2 else get_loaded_schema_version one_loaded q))
          × (find q two_loaded.previous_modules ≡ (
              if "room" == q && is_some (get one_loaded q)
              then get one_loaded q
              else find q one_loaded.previous_modules))
          × (find q two_loaded.configs
              ≡ (if "room" == q then some (room 2) else find q one_loaded.configs)))
hot_reload_lem_example = hot_reload_lem numbers up one_loaded two_loaded (room 2) reloads

is_loaded : get one_loaded "room" ≡ some 0
unfolding get find
is_loaded = refl

-- The plugin of version 1 is back, and the version that is reported is 2.
rollback-hot_reload_example :
    (get (rollback two_loaded "room") "room" ≡ some 0)
    × (get_loaded_schema_version (rollback two_loaded "room") "room" ≡ 2)
rollback-hot_reload_example =
    rollback-hot_reload numbers up one_loaded two_loaded (room 2) reloads 0 is_loaded

hot_reload_all_lem_example :
    (false ≡ all_start numbers down one_loaded (room 1 ∷ []))
    × Outcome numbers down one_loaded one_loaded "room" (room 1 ∷ [])
hot_reload_all_lem_example =
    hot_reload_all_lem numbers down one_loaded one_loaded false "room" reloads_all
