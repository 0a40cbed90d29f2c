-- ===== src/Plugin/Tests.antt =====
-- Lives of plugins, host calls and calls of wasm code, at concrete answers of WasmEdge.
use wasm_hot.Base.{
  ℕ, zero, suc, ◌+◌, ◌≤◌, ◌≡◌, ◌⊎◌, refl, [], ◌∷◌, ◌++◌, List, none, some, true, false, arith, leb,
  if◌then◌else◌, length, take, drop, length-append, length-drop, take-append, drop-append,
}
use wasm_hot.Bytes.{Bytes}
use wasm_hot.Storage.{ComponentStorage}
use wasm_hot.Storage.Lookup.{component}
use wasm_hot.Object.{GameObject}
use wasm_hot.Plugin.{
  Resource, vm_context, host_instance, delete, VmContext, WasmEdgeState, WasmEdgePlugin, Startup,
  Started, new_plugin, initialize, shutdown, clone,
}
use wasm_hot.Plugin.Resources.{holds, IsOwner, Balanced, initialize-Balanced, clone-Balanced}
use wasm_hot.Plugin.Lifetime.{
  initializes, clones, executes, shuts_down, LifeCall, lifetime, lifetime_lem,
}
use wasm_hot.Plugin.Memory.{MemoryApi, MemoryLaws}
use wasm_hot.Plugin.Host.{HostContext, HostResult, host_get_component, host_set_component, copy_in}
use wasm_hot.Plugin.Host.Transfer.{host_set_component_lem, host_get_component-host_set_component}
use wasm_hot.Plugin.Execute.{
  Runtime, Called, put_input, execute, input_offset, output_offset, output_cap,
}
use wasm_hot.Plugin.Execute.Bounds.{IsUp, execute_lem}

-- A memory that is its bytes.
abbrev linear : MemoryApi Bytes
linear = record {
  set_data = λ m bytes offset.
      if leb (offset + length bytes) (length m)
      then some (take offset m ++ (bytes ++ drop (offset + length bytes) m))
      else none;
  get_data =
      λ m offset n. if leb (offset + n) (length m) then some (take n (drop offset m)) else none;
}

length-take : (n : ℕ) (xs : Bytes) → n ≤ length xs → length (take n xs) ≡ n
length-take zero xs h = refl
length-take (suc n) [] h = absurd (omega arith)
length-take (suc n) (x ∷ xs) h = omega (arith, length-take n xs)

linear-length :
    (m : Bytes) (offset n : ℕ) (bytes : Bytes)
    → linear.get_data m offset n ≡ some bytes
    → length bytes ≡ n
linear-length m offset n bytes h =
    ground (arith, length-take n (drop offset m), length-drop offset m)

linear-read_back :
    (m m' : Bytes) (offset : ℕ) (bytes : Bytes)
    → linear.set_data m bytes offset ≡ some m'
    → linear.get_data m' offset (length bytes) ≡ some bytes
linear-read_back m m' offset bytes h =
    let tail = drop (offset + length bytes) m in
    ground (
      arith,
      length-take offset m,
      drop-append (take offset m) (bytes ++ tail) offset,
      take-append bytes tail (length bytes) refl,
      length-append (take offset m) (bytes ++ tail),
      length-append bytes tail,
    )

linear_laws : MemoryLaws linear
linear_laws = record { length-get_data = linear-length; get_data-set_data = linear-read_back }

-- A start in which everything goes well, and one whose module does not validate.
abbrev good : Startup ℕ Bytes
good = record {
  vm_create = some (record { address = 1; instance_state = 0 });
  host_module_create = some 2;
  load_wasm = true;
  validate = true;
  register_module = true;
  instantiate = true;
  find_memory = some (0 ∷ 0 ∷ 0 ∷ 0 ∷ 0 ∷ 0 ∷ 0 ∷ 0 ∷ []);
}

abbrev invalid : Startup ℕ Bytes
invalid = record good { validate = false }

abbrev fresh : WasmEdgePlugin ℕ Bytes
fresh = record { state = none; path = "room.wasm"; schema_version = 3; initialized = false }

abbrev up : WasmEdgePlugin ℕ Bytes
up = record fresh {
  state = some (record {
    vm = good.vm_create;
    memory = good.find_memory;
    host_module = good.host_module_create;
  });
  initialized = true;
}

-- Some other plugin's context.
abbrev others : List Resource
others = vm_context 7 ∷ []

starts :
    initialize good fresh others
    ≡ some (record { ok = true; plugin = up; live = host_instance 2 ∷ vm_context 1 ∷ others })
unfolding initialize
starts = refl

does_not_start :
    initialize invalid fresh others ≡ some (record { ok = false; plugin = fresh; live = others })
unfolding initialize delete
does_not_start = refl

initialize-Balanced_run : Balanced others (initialize invalid fresh (holds fresh ++ others))
initialize-Balanced_run = initialize-Balanced invalid fresh others tt

clone-Balanced_run :
    ((made : WasmEdgePlugin ℕ Bytes) × (clone good up others
        ≡ some (some made, holds made ++ others))
      × (made.initialized ≡ true)
      × IsOwner made)
    ⊎ (clone good up others ≡ some (none, others))
clone-Balanced_run = clone-Balanced good up others

-- A failed start, two starts, two ends.
abbrev empty : ComponentStorage
empty = record { store = [] }

abbrev ctx : HostContext
ctx = record { attached = true; object_id = 5 }

abbrev memory : Bytes
memory = 1 ∷ 2 ∷ 3 ∷ 0 ∷ 0 ∷ 0 ∷ 0 ∷ 0 ∷ []

abbrev stored : HostResult Bytes
stored = host_set_component linear ctx (some memory) empty 5 1 0 3

host_set_component_lem_run :
    ((stored.out ≡ 0) × (stored.storage ≡ empty))
    ⊎ ((stored.out ≡ 1)
        × (bytes : Bytes) × (copy_in linear (some memory) 0 3 ≡ some bytes)
        × (component stored.storage 5 1 ≡ some bytes))
host_set_component_lem_run = host_set_component_lem linear ctx empty (some memory) 5 1 0 3 5 1

abbrev written : ComponentStorage
written = (host_set_component linear ctx (some memory) empty 5 1 0 3).storage

host_get_component-host_set_component_example :
    (host_get_component linear ctx (some memory) written 5 1 4 8
      ≡ record { out = 3; memory = some (1 ∷ 2 ∷ 3 ∷ 0 ∷ 1 ∷ 2 ∷ 3 ∷ 0 ∷ []); storage = written })
    × (linear.get_data (1 ∷ 2 ∷ 3 ∷ 0 ∷ 1 ∷ 2 ∷ 3 ∷ 0 ∷ []) 4 3 ≡ some (1 ∷ 2 ∷ 3 ∷ []))
host_get_component-host_set_component_example =
    host_get_component-host_set_component linear ctx empty memory
      (1 ∷ 2 ∷ 3 ∷ 0 ∷ 1 ∷ 2 ∷ 3 ∷ 0 ∷ []) 5 1 0 4 3 8 (1 ∷ 2 ∷ 3 ∷ []) linear_laws refl
      (omega arith) (omega arith) (omega arith) refl refl

-- Wasm code that returns the length of its input, and leaves the memory as it is.
abbrev echoes : Runtime ℕ Bytes
echoes = record {
  memory_api = linear;
  city_hash = λ action. 1;
  vm_execute = λ vm host m s func args. record {
    ok = true;
    ret = 0;
    instance_state = vm.instance_state;
    memory = λ mem. mem;
    storage = s;
  };
}

abbrev room : GameObject
room = record {
  header = record { schema_version = 3; object_type = 7; object_id = 5 };
  attached = true;
}

abbrev life : List (LifeCall ℕ Bytes)
life =
    initializes invalid
    ∷ initializes good
    ∷ initializes good
    ∷ clones good
    ∷ executes room empty "tick" [] []
    ∷ clones invalid
    ∷ shuts_down
    ∷ shuts_down
    ∷ initializes good
    ∷ []

lifetime_lem_example : lifetime echoes life (new_plugin "room.wasm" 3) others ≡ some others
lifetime_lem_example = lifetime_lem echoes life "room.wasm" 3 others

put : put_input echoes (some memory) (8 ∷ 9 ∷ []) ≡ some (some (8 ∷ 9 ∷ 3 ∷ 0 ∷ 0 ∷ 0 ∷ 0 ∷ 0 ∷ []))
unfolding put_input
put = refl

execute_lem_example :
    (((execute echoes up room empty "tick" (8 ∷ 9 ∷ []) []).ok ≡ false)
      ⊎ (IsUp up
          × (length (execute echoes up room empty "tick" (8 ∷ 9 ∷ []) []).output ≤ output_cap)))
    × ((execute echoes up room empty "tick" (8 ∷ 9 ∷ []) []).obj ≡ room)
execute_lem_example = execute_lem echoes linear_laws up room empty "tick" (8 ∷ 9 ∷ []) []

-- It does run.
it_runs : (execute echoes up room empty "tick" (8 ∷ 9 ∷ []) []).ok ≡ true
unfolding execute put_input wasm_hot.Plugin.Execute.take_output
it_runs = refl
