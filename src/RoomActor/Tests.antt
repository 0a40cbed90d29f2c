-- ===== src/RoomActor/Tests.antt =====
-- A room whose module answers with its input as a delta.
use wasm_hot.Base.{
  nat_key, string_key, ◌≡◌, refl, [], ◌∷◌, none, some, Bool, true, false, arith, if◌then◌else◌,
}
use wasm_hot.Bytes.{Bytes}
use wasm_hot.Dict.{find}
use wasm_hot.Storage.{ComponentStorage, write}
use wasm_hot.Object.{GameObject}
use wasm_hot.Object.Delta.{encode_delta}
use wasm_hot.PluginInterface.{IPlugin, Executed}
use wasm_hot.Registry.{ObjectRegistry}
use wasm_hot.Registry.Objects.{seen}
use wasm_hot.Modules.{ModuleManager}
use wasm_hot.RoomActor.{ActorWithObject, new_actor_with_object, invoke_module, loaded_plugin}
use wasm_hot.RoomActor.Invoke.{invoke_module-encode_delta, invoke_module_short}
use wasm_hot.RoomActor.Clones.{clone_of, find-new_actor_with_object}

-- `true` answers with component 1, and `false` with nothing.
abbrev answers : IPlugin Bool Bool
answers = record {
  initialize = λ world p. (world, p);
  shutdown = λ p. p;
  execute = λ p obj s action input output. record {
    ok = true;
    plugin = p;
    obj = obj;
    storage = s;
    output = if p then encode_delta 1 input else [];
  };
  clone = λ world p. if world then some p else none;
}

abbrev room_view : GameObject
room_view = record {
  header = record { schema_version = 1; object_type = 7; object_id = 5 };
  attached = true;
}

abbrev registry : ObjectRegistry
registry = record { objects = (5, room_view.header) ∷ []; attached = true }

abbrev empty : ComponentStorage
empty = record { store = [] }

abbrev room : Bool → ActorWithObject Bool
room answering = record { object_id = 5; plugins = ("room", answering) ∷ [] }

has : (b : Bool) → find "room" (room b).plugins ≡ some b
unfolding find
has b = refl

sees : seen registry 5 ≡ some room_view
unfolding wasm_hot.Registry.get find
sees = refl

abbrev answered : Bytes → Executed Bool
answered output = record {
  ok = true;
  plugin = true;
  obj = room_view;
  storage = empty;
  output = output;
}

invoke_module-encode_delta_run :
    ((invoke_module answers registry (room true) empty "room" "tick" (9 ∷ [])).storage
      ≡ write empty 5 1 (9 ∷ []))
    × ((invoke_module answers registry (room true) empty "room" "tick" (9 ∷ [])).warned ≡ false)
invoke_module-encode_delta_run =
    invoke_module-encode_delta answers registry (room true) empty "room" "tick" (9 ∷ []) true
      room_view (has true) sees (answered (encode_delta 1 (9 ∷ []))) refl 1 (9 ∷ []) refl refl refl
      (omega arith)

-- A module with nothing to say is warned about.
invoke_module_short_run :
    ((invoke_module answers registry (room false) empty "room" "tick" (9 ∷ [])).storage ≡ empty)
    × ((invoke_module answers registry (room false) empty "room" "tick" (9 ∷ [])).warned ≡ true)
invoke_module_short_run =
    invoke_module_short answers registry (room false) empty "room" "tick" (9 ∷ []) false room_view
      (has false) sees (record (answered []) { plugin = false }) refl refl (omega arith)

abbrev modules : ModuleManager Bool
modules = record {
  factory = none;
  modules = ("room", 0) ∷ [];
  previous_modules = [];
  configs = [];
  schema_versions = [];
  plugins = (0, true) ∷ [];
  next_ref = 1;
}

find-new_actor_with_object_run :
    find "room" (new_actor_with_object answers true modules 5 ("chat" ∷ "room" ∷ [])).plugins
    ≡ clone_of answers true modules "room"
find-new_actor_with_object_run =
    find-new_actor_with_object answers true modules 5 ("chat" ∷ "room" ∷ []) "room"

cloned : clone_of answers true modules "room" ≡ some true
unfolding loaded_plugin wasm_hot.Modules.get find
cloned = refl
