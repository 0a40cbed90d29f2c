-- ===== src/RoomActor.antt =====
-- ActorWithObject of actor/actor.h and actor/actor.cpp, and actor/room_actor.h and room_actor.cpp.
-- The actor's plugins are its own clones; the plugin and the module manager come by their interfaces.
pub mod Invoke
pub mod Clones
pub mod Served
mod Tests
use wasm_hot.Base.{
  ℕ, ◌%◌, ◌^◌, [], ◌∷◌, List, Option, none, some, Bool, true, false, not, String, nat_key,
  string_key, if◌then◌else◌,
}
use wasm_hot.Bytes.{Bytes, to_le}
use wasm_hot.Dict.{Dict, find, assign}
use wasm_hot.Storage.{ComponentStorage}
use wasm_hot.Object.{GameObject, apply_output_delta}
use wasm_hot.Registry.{ObjectRegistry, get}
use wasm_hot.PluginInterface.{IPlugin, Executed}
use wasm_hot.Modules.{ModuleManager}
use wasm_hot.Modules
use wasm_hot.Actor.{Event, handled, ticked}

pub record ActorWithObject (Plugin : Type 0) : Type 0 where
  pub object_id : ℕ
  pub plugins : Dict String Plugin

-- What a call of a module leaves: the actor with its plugin, the storage, and whether the output was
-- refused, which the code logs as a warning.
pub record Invoked (Plugin : Type 0) : Type 0 where
  pub actor : ActorWithObject Plugin
  pub storage : ComponentStorage
  pub warned : Bool

-- The end of the callback in InvokeModule, after Execute.
unfoldable pub apply_result :
    {Plugin : Type 0} → ActorWithObject Plugin → String → Executed Plugin → Invoked Plugin
apply_result actor module_name r =
    let actor' = record actor { plugins = assign module_name r.plugin actor.plugins } in
    if r.ok
    then (let (applied, s) = apply_output_delta r.obj r.storage r.output in
        record { actor = actor'; storage = s; warned = not applied })
    else record { actor = actor'; storage = r.storage; warned = false }

-- The plugin that `modules->Get(name)` points to.
unfoldable pub loaded_plugin : {Plugin : Type 0} → ModuleManager Plugin → String → Option Plugin
loaded_plugin modules name = elim (Modules.get modules name) [
  | none ↦ none
  | some ref ↦ find ref modules.plugins
]

module _ {World Plugin : Type 0} (api : IPlugin World Plugin) where
  -- One round of the constructor's loop.
  unfoldable pub clone_module :
      World → ModuleManager Plugin → String → Dict String Plugin → Dict String Plugin
  unfolding loaded_plugin
  clone_module world modules name plugins = elim (loaded_plugin modules name) [
    | none ↦ plugins
    | some plugin ↦ elim (api.clone world plugin) [
      | none ↦ plugins
      | some cloned ↦ assign name cloned plugins
    ]
  ]

  unfoldable pub clone_modules :
      World → ModuleManager Plugin → List String → Dict String Plugin → Dict String Plugin
  clone_modules world modules [] plugins = plugins
  clone_modules world modules (name ∷ names) plugins =
      clone_modules world modules names (clone_module world modules name plugins)

  -- ActorWithObject(io, object_id, module_names)
  unfoldable pub new_actor_with_object :
      World → ModuleManager Plugin → ℕ → List String → ActorWithObject Plugin
  new_actor_with_object world modules object_id module_names = record {
    object_id = object_id;
    plugins = clone_modules world modules module_names [];
  }

  -- The callback that InvokeModule gives to ObjectRegistry::Get.
  unfoldable pub call_on :
      ActorWithObject Plugin
      → ComponentStorage
      → String
      → Plugin
      → String
      → Bytes
      → Option GameObject
      → Invoked Plugin
  unfolding apply_result
  call_on actor s module_name plugin action input none = record {
    actor = actor;
    storage = s;
    warned = false;
  }
  call_on actor s module_name plugin action input (some obj) =
      apply_result actor module_name (api.execute plugin obj s action input [])

  unfoldable pub invoke_module :
      ObjectRegistry
      → ActorWithObject Plugin
      → ComponentStorage
      → String
      → String
      → Bytes
      → Invoked Plugin
  unfolding call_on
  invoke_module registry actor s module_name action input = elim (find module_name actor.plugins) [
    | none ↦ record { actor = actor; storage = s; warned = false }
    | some plugin ↦ get registry actor.object_id (call_on actor s module_name plugin action input)
  ]

  -- RoomActor(io, id, object_id)
  unfoldable pub new_room_actor : World → ModuleManager Plugin → ℕ → ActorWithObject Plugin
  unfolding new_actor_with_object
  new_room_actor world modules object_id =
      new_actor_with_object world modules object_id ("room" ∷ [])

  -- RoomActor::Tick and RoomActor::HandleMessage, for one call of the actor.
  unfoldable pub perform :
      ObjectRegistry → ActorWithObject Plugin → ComponentStorage → Event → Invoked Plugin
  perform registry actor s (ticked interval_ms) =
      invoke_module registry actor s "room" "tick" (to_le 8 interval_ms)
  perform registry actor s (handled msg) =
      invoke_module registry actor s "room" "handle_message" msg.payload
