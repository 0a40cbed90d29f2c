-- ===== src/RoomActor/Clones.antt =====
-- The plugins that an actor starts with.
use text.Mathlib.TextEquality.{eq_iff}
use wasm_hot.Base.{
  ℕ, ◌≡◌, refl, inl, inr, [], ◌∷◌, List, Option, none, some, Bool, false, String, arith,
  Option-cases, is_some, ◌==◌, ◌||◌, ◌&&◌, nat_key, string_key, if◌then◌else◌,
}
use wasm_hot.Dict.{Dict, find, find-assign}
use wasm_hot.PluginInterface.{IPlugin}
use wasm_hot.Modules.{ModuleManager}
use wasm_hot.RoomActor.{loaded_plugin, clone_module, clone_modules, new_actor_with_object}

abbrev pub contains : String → List String → Bool
contains q [] = false
contains q (name ∷ names) = name == q || contains q names

module _ {World Plugin : Type 0} (api : IPlugin World Plugin) (world : World)
    (modules : ModuleManager Plugin) where
  -- A clone of the plugin that is loaded under a name, if there is one and it can be cloned.
  abbrev pub clone_of : String → Option Plugin
  clone_of name = elim (loaded_plugin modules name) [
    | none ↦ none
    | some plugin ↦ api.clone world plugin
  ]

  find-clone_module :
      (name q : String) (plugins : Dict String Plugin)
      → find q (clone_module api world modules name plugins)
        ≡ (if name == q && is_some (clone_of q) then clone_of q else find q plugins)
  unfolding clone_module
  find-clone_module name q plugins = elim (Option-cases (loaded_plugin modules name)) [
    | inl e ↦ ground (arith, eq_iff name q)
    | inr (plugin, e) ↦ elim (Option-cases (api.clone world plugin)) [
      | inl e' ↦ ground (arith, eq_iff name q)
      | inr (cloned, e') ↦ ground (arith, eq_iff name q, find-assign name q cloned plugins)
    ]
  ]

  find-clone_modules :
      (names : List String) (q : String) (plugins : Dict String Plugin)
      → find q (clone_modules api world modules names plugins)
        ≡ (if contains q names && is_some (clone_of q) then clone_of q else find q plugins)
  unfolding clone_modules
  find-clone_modules [] q plugins = refl
  find-clone_modules (name ∷ names) q plugins = ground (
    arith,
    find-clone_modules names q (clone_module api world modules name plugins),
    find-clone_module name q plugins,
  )

  -- A new actor has, under exactly the names that it asks for, its own clone of the module loaded
  -- there, where one is loaded and can be cloned.
  pub find-new_actor_with_object :
      (object_id : ℕ) (names : List String) (q : String)
      → find q (new_actor_with_object api world modules object_id names).plugins
        ≡ (if contains q names then clone_of q else none)
  unfolding new_actor_with_object find
  find-new_actor_with_object object_id names q = ground (arith, find-clone_modules names q [])
