-- ===== src/Plugin/Execute.antt =====
-- WasmEdgePlugin::Execute: the input goes to offset 0 of the memory, the output comes from 4096.
-- The run of the wasm code and CityHash64 are parameters; an i32 or i64 is its bit pattern.
pub mod Bounds
pub mod Owners
use wasm_hot.Base.{
  ℕ, ◌+◌, ◌%◌, ◌^◌, [], ◌∷◌, ◌++◌, List, Option, none, some, Bool, true, false, not, ◌||◌, ◌==◌,
  nat_key, ltb, leb, String, if◌then◌else◌, length, take, replicate,
}
use wasm_hot.Bytes.{Bytes}
use wasm_hot.Storage.{ComponentStorage}
use wasm_hot.Object.{GameObject}
use wasm_hot.PluginInterface.{Executed}
use wasm_hot.Plugin.{VmContext, WasmEdgeState, WasmEdgePlugin}
use wasm_hot.Plugin.Memory.{MemoryApi}
use wasm_hot.Plugin.Host.{HostContext}

abbrev pub input_offset : ℕ
input_offset = 0

abbrev pub output_offset : ℕ
output_offset = 4096

abbrev pub output_cap : ℕ
output_cap = 4096

-- What WasmEdge_VMExecute leaves: whether it is OK, the i32 that is returned, what is in the instance
-- and in its memory, and, through the host functions, the storage. The pointers to the context and to
-- the memory stay those of the plugin's state.
pub record Called (Vm Mem : Type 0) : Type 0 where
  pub ok : Bool
  pub ret : ℕ
  pub instance_state : Vm
  pub memory : Mem → Mem
  pub storage : ComponentStorage

-- The memory behind the pointer, after the call.
abbrev pub memory_after : {Vm Mem : Type 0} → Called Vm Mem → Option Mem → Option Mem
memory_after c none = none
memory_after c (some mem) = some (c.memory mem)

-- The parts of the run that are not in the sources.
pub record Runtime (Vm Mem : Type 0) : Type 0 where
  pub memory_api : MemoryApi Mem
  pub city_hash : String → ℕ
  pub vm_execute :
      VmContext Vm → HostContext → Option Mem → ComponentStorage → String → List ℕ → Called Vm Mem

-- std::vector::resize
abbrev pub resize : ℕ → Bytes → Bytes
resize n bytes = take n (bytes ++ replicate n 0)

-- The thread-local g_host_ctx, as Execute sets it before the call.
abbrev pub host_context : GameObject → HostContext
host_context obj = record { attached = obj.attached; object_id = obj.header.object_id }

module _ {Vm Mem : Type 0} (rt : Runtime Vm Mem) where
  -- The memory with the input in it; `none` where `Execute` returns false.
  unfoldable pub put_input : Option Mem → Bytes → Option (Option Mem)
  put_input none input = some none
  put_input (some mem) [] = some (some mem)
  put_input (some mem) (b ∷ bs) =
      if ltb output_offset (length (b ∷ bs))
      then none
      else elim (rt.memory_api.set_data mem (b ∷ bs) input_offset) [
        | none ↦ none
        | some mem' ↦ some (some mem')
      ]

  -- The output of `ret_len` bytes, from the memory if there is one.
  unfoldable pub fetch : Option Mem → ℕ → Bytes → Bool × Bytes
  fetch none ret_len output = (true, [])
  fetch (some mem) ret_len output = elim (rt.memory_api.get_data mem output_offset ret_len) [
    | none ↦ (false, resize ret_len output)
    | some bytes ↦ (true, bytes)
  ]

  -- The tests on the returned length, and the copy of the output.
  unfoldable pub take_output : Called Vm Mem → Option Mem → Bytes → Bool × Bytes
  unfolding fetch
  take_output c memory output =
      if not c.ok
      then (false, output)
      else if leb (2 ^ 31) c.ret
      then (false, output)
      else if ltb 0 c.ret
      then (if ltb output_cap c.ret then (false, output) else fetch memory c.ret output)
      else (true, [])

  unfoldable pub params : String → Bytes → List ℕ
  params action input =
      (rt.city_hash action % 2 ^ 64)
      ∷ input_offset
      ∷ (length input % 2 ^ 32)
      ∷ output_offset
      ∷ output_cap
      ∷ []

  abbrev pub unchanged :
      WasmEdgePlugin Vm Mem
      → GameObject
      → ComponentStorage
      → Bytes
      → Executed (WasmEdgePlugin Vm Mem)
  unchanged p obj s output = record {
    ok = false;
    plugin = p;
    obj = obj;
    storage = s;
    output = output;
  }

  -- The call itself, with the contexts at hand.
  unfoldable pub run_wasm :
      WasmEdgePlugin Vm Mem
      → WasmEdgeState Vm Mem
      → VmContext Vm
      → GameObject
      → ComponentStorage
      → String
      → Bytes
      → Bytes
      → Executed (WasmEdgePlugin Vm Mem)
  run_wasm p st vm obj s action input output = elim (put_input st.memory input) [
    | none ↦ unchanged p obj s output
    | some memory ↦
        let c = rt.vm_execute vm (host_context obj) memory s "execute" (params action input) in
        let left = memory_after c memory in
        let (ok, bytes) = take_output c left output in
        record {
          ok = ok;
          plugin = record p {
            state = some (record st {
              vm = some (record vm { instance_state = c.instance_state });
              memory = left;
            });
          };
          obj = obj;
          storage = c.storage;
          output = bytes;
        }
  ]

  unfoldable pub with_state :
      WasmEdgePlugin Vm Mem
      → WasmEdgeState Vm Mem
      → GameObject
      → ComponentStorage
      → String
      → Bytes
      → Bytes
      → Executed (WasmEdgePlugin Vm Mem)
  unfolding run_wasm
  with_state p st obj s action input output = elim st.vm [
    | none ↦ unchanged p obj s output
    | some vm ↦ run_wasm p st vm obj s action input output
  ]

  unfoldable pub execute :
      WasmEdgePlugin Vm Mem
      → GameObject
      → ComponentStorage
      → String
      → Bytes
      → Bytes
      → Executed (WasmEdgePlugin Vm Mem)
  unfolding with_state
  execute p obj s action input output =
      if not p.initialized then unchanged p obj s output else elim p.state [
        | none ↦ unchanged p obj s output
        | some st ↦ with_state p st obj s action input output
      ]
