-- ===== src/Plugin/Backend/Tests.antt =====
-- WasmEdge plugins behind the interface, with a VM that is a number and a memory of no interest.
use wasm_hot.Base.{
  ◌⊎◌, ℕ, ◌≡◌, refl, [], ◌∷◌, ◌++◌, List, none, some, Bool, true, false, String, nat_key,
  string_key,
}
use wasm_hot.Dict.{find}
use wasm_hot.Bytes.{Bytes}
use wasm_hot.Registry.{ObjectRegistry, new_registry}
use wasm_hot.Storage.{ComponentStorage}
use wasm_hot.Actor.{Event, ticked, handled}
use wasm_hot.RoomActor.{new_room_actor}
use wasm_hot.Plugin.Backend.Rooms.{HasNone, HasUp, perform_all, room_lem}
use wasm_hot.Modules.{load, ModuleConfig, ModuleManager, new_manager, initialize}
use wasm_hot.Modules.History.{Call, loads, hot_reloads, hot_reloads_all, rolls_back, run}
use wasm_hot.Modules.Pointers.{slot}
use wasm_hot.Plugin.{
  Resource, vm_context, host_instance, WasmEdgePlugin, Startup, new_plugin, start, shutdown, clone,
}
use wasm_hot.Plugin
use wasm_hot.Plugin.Resources.{holds}
use wasm_hot.Plugin.Execute.{Runtime}
use wasm_hot.Plugin.Execute.Bounds.{IsUp}
use wasm_hot.Plugin.Backend.{started_state, backend, held_by, start_lem, backend_lem}
use wasm_hot.Plugin.Backend.Owned.{OwnedPlugin, owned_backend, owned_factory}
use wasm_hot.Plugin.Backend.Loaded.{run-IsUp}

abbrev rt : Runtime ℕ Bytes
rt = record {
  memory_api = record { set_data = λ m bytes offset. none; get_data = λ m offset n. none };
  city_hash = λ action. 1;
  vm_execute = λ vm host m s func args. record {
    ok = true;
    ret = 0;
    instance_state = vm.instance_state;
    memory = λ mem. mem;
    storage = s;
  };
}

-- A start at the given addresses, and one whose module cannot be instantiated.
abbrev good : ℕ → Startup ℕ Bytes
good n = record {
  vm_create = some (record { address = n; instance_state = 0 });
  host_module_create = some n;
  load_wasm = true;
  validate = true;
  register_module = true;
  instantiate = true;
  find_memory = none;
}

abbrev bad : Startup ℕ Bytes
bad = record (good 9) { instantiate = false }

abbrev fresh : WasmEdgePlugin ℕ Bytes
fresh = record { state = none; path = "room.wasm"; schema_version = 3; initialized = false }

abbrev others : List Resource
others = vm_context 7 ∷ []

start_lem_run :
    start (good 1) fresh others
    ≡ some (record {
      ok = true;
      plugin = record fresh { state = started_state (good 1); initialized = true };
      live = host_instance 1 ∷ vm_context 1 ∷ others;
    })
start_lem_run = start_lem (good 1) fresh others refl

backend_lem_run :
    let (ok, p') = (backend rt).initialize (good 1) fresh in
    let made = (backend rt).clone (good 1) fresh in
    (Plugin.initialize (good 1) fresh (holds fresh ++ others)
      ≡ some (record { ok = ok; plugin = p'; live = holds p' ++ others }))
    × (shutdown fresh (holds fresh ++ others)
        ≡ some (record { ok = true; plugin = (backend rt).shutdown fresh; live = others }))
    × (clone (good 1) fresh others ≡ some (made, held_by made ++ others))
backend_lem_run = backend_lem rt (good 1) fresh others tt

abbrev room_module : ℕ → ModuleConfig
room_module version = record { name = "room"; path = "room.wasm"; schema_version = version }

abbrev history : List ((String → Startup ℕ Bytes) × Call (OwnedPlugin ℕ Bytes))
history =
    (λ name. bad, loads (room_module 1))
    ∷ (λ name. good 1, loads (room_module 1))
    ∷ (λ name. good 2, hot_reloads (room_module 2))
    ∷ (λ name. bad, hot_reloads_all)
    ∷ (λ name. bad, rolls_back "room")
    ∷ []

run-IsUp_example :
    (m : ModuleManager (OwnedPlugin ℕ Bytes)) × (run
        (owned_backend rt)
        (initialize new_manager owned_factory)
        history
      ≡ some m)
    × ((loaded : Bool) (name : String) (ref : ℕ)
        → slot m loaded name ≡ some ref
        → (p : OwnedPlugin ℕ Bytes) × (find ref m.plugins ≡ some p) × IsUp p.plugin)
run-IsUp_example = run-IsUp rt history

-- A manager whose room module is up, and calls of a room of it: one for a registered object, and one
-- for an object that is gone by then.
abbrev modules : ModuleManager (OwnedPlugin ℕ Bytes)
modules =
    elim (load (owned_backend rt) (λ name. good 1) (initialize new_manager owned_factory)
      (room_module 1)) [ none ↦ new_manager | some (ok, m) ↦ m ]

abbrev registry : ObjectRegistry
registry = record {
  objects = (5, record { schema_version = 1; object_type = 7; object_id = 5 }) ∷ [];
  attached = true;
}

abbrev empty : ComponentStorage
empty = record { store = [] }

abbrev calls : List (ObjectRegistry × ComponentStorage × Event)
calls =
    (registry, empty, ticked 50)
    ∷ (new_registry, empty, handled (record { sender_id = 3; payload = 1 ∷ [] }))
    ∷ []

room_lem_example :
    let room = new_room_actor (owned_backend rt) (good 4) modules 5 in
    let room' = perform_all rt room calls in
    ((HasNone rt room) × (HasNone rt room')) ⊎ ((HasUp rt room) × (HasUp rt room'))
room_lem_example = room_lem rt (good 4) modules 5 calls
