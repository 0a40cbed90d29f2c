-- ===== src/Plugin.antt =====
-- plugin/wasmedge_plugin.h and plugin/wasmedge_plugin.cpp: plugins that run on WasmEdge.
-- This file has the life of a plugin; `Plugin.Host` has the functions that wasm code calls, and
-- `Plugin.Execute` has the call of wasm code.
pub mod Memory
pub mod Host
pub mod Execute
pub mod Resources
pub mod Lifetime
pub mod Backend
mod Tests
use wasm_hot.Base.{
  ℕ, [], ◌∷◌, List, Option, none, some, Bool, true, false, not, ◌==◌, nat_key, String,
  if◌then◌else◌,
}

-- What WasmEdge has handed out and not yet been told to delete.
pub data Resource : Type 0 where
  vm_context host_instance : ℕ → Resource

abbrev pub same_resource : Resource → Resource → Bool
same_resource (vm_context a) (vm_context b) = a == b
same_resource (host_instance a) (host_instance b) = a == b
same_resource (vm_context a) (host_instance b) = false
same_resource (host_instance a) (vm_context b) = false

-- A delete of what is not there is a double free, `none`.
pub delete : Resource → List Resource → Option (List Resource)
delete r [] = none
delete r (q ∷ live) = elim (same_resource q r) [
  | true ↦ some live
  | false ↦ elim (delete r live) [ none ↦ none | some live' ↦ some (q ∷ live') ]
]

-- A WasmEdge_VMContext: its address, and the instance that runs in it.
pub record VmContext (Vm : Type 0) : Type 0 where
  pub address : ℕ
  pub instance_state : Vm

pub record WasmEdgeState (Vm Mem : Type 0) : Type 0 where
  pub vm : Option (VmContext Vm)
  pub memory : Option Mem
  pub host_module : Option ℕ

pub record WasmEdgePlugin (Vm Mem : Type 0) : Type 0 where
  pub state : Option (WasmEdgeState Vm Mem)
  pub path : String
  pub schema_version : ℕ
  pub initialized : Bool

-- The answers of WasmEdge while one plugin starts: the new contexts, null or not, the results of
-- the four calls that can fail, and the exported memory.
pub record Startup (Vm Mem : Type 0) : Type 0 where
  pub vm_create : Option (VmContext Vm)
  pub host_module_create : Option ℕ
  pub load_wasm : Bool
  pub validate : Bool
  pub register_module : Bool
  pub instantiate : Bool
  pub find_memory : Option Mem

-- What `Initialize` and `Shutdown` leave.
pub record Started (Vm Mem : Type 0) : Type 0 where
  pub ok : Bool
  pub plugin : WasmEdgePlugin Vm Mem
  pub live : List Resource

delete_vm : {Vm : Type 0} → Option (VmContext Vm) → List Resource → Option (List Resource)
delete_vm none live = some live
delete_vm (some vm) live = delete (vm_context vm.address) live

delete_host : Option ℕ → List Resource → Option (List Resource)
delete_host none live = some live
delete_host (some host) live = delete (host_instance host) live

module _ {Vm Mem : Type 0} where
  -- WasmEdgePlugin(path, schema_version)
  unfoldable pub new_plugin : String → ℕ → WasmEdgePlugin Vm Mem
  new_plugin path version = record {
    state = none;
    path = path;
    schema_version = version;
    initialized = false;
  }

  abbrev fail_with : WasmEdgePlugin Vm Mem → List Resource → Started Vm Mem
  fail_with p live = record { ok = false; plugin = record p { state = none }; live = live }

  -- WasmEdge_VMDelete, state_.reset(), return false
  abort_vm : WasmEdgePlugin Vm Mem → VmContext Vm → List Resource → Option (Started Vm Mem)
  abort_vm p vm live = elim (delete (vm_context vm.address) live) [
    | none ↦ none
    | some live' ↦ some (fail_with p live')
  ]

  -- The same after WasmEdge_ModuleInstanceDelete.
  abort_all : WasmEdgePlugin Vm Mem → VmContext Vm → ℕ → List Resource → Option (Started Vm Mem)
  unfolding abort_vm
  abort_all p vm host live = elim (delete (host_instance host) live) [
    | none ↦ none
    | some live' ↦ abort_vm p vm live'
  ]

  -- The four calls that need both contexts, and the end of `Initialize`.
  bring_up :
      Startup Vm Mem
      → WasmEdgePlugin Vm Mem
      → VmContext Vm
      → ℕ
      → List Resource
      → Option (Started Vm Mem)
  unfolding abort_all
  bring_up up p vm host live =
      if not up.load_wasm
      then abort_all p vm host live
      else if not up.validate
      then abort_all p vm host live
      else if not up.register_module
      then abort_all p vm host live
      else if not up.instantiate
      then abort_all p vm host live
      else some (record {
        ok = true;
        plugin = record p {
          state = some (record { vm = some vm; memory = up.find_memory; host_module = some host });
          initialized = true;
        };
        live = live;
      })

  with_vm :
      Startup Vm Mem
      → WasmEdgePlugin Vm Mem
      → VmContext Vm
      → List Resource
      → Option (Started Vm Mem)
  unfolding bring_up
  with_vm up p vm live = elim up.host_module_create [
    | none ↦ abort_vm p vm live
    | some host ↦ bring_up up p vm host (host_instance host ∷ live)
  ]

  pub start : Startup Vm Mem → WasmEdgePlugin Vm Mem → List Resource → Option (Started Vm Mem)
  unfolding with_vm
  start up p live = elim up.vm_create [
    | none ↦ some (fail_with p live)
    | some vm ↦ with_vm up p vm (vm_context vm.address ∷ live)
  ]

  pub initialize : Startup Vm Mem → WasmEdgePlugin Vm Mem → List Resource → Option (Started Vm Mem)
  unfolding start
  initialize up p live =
      if p.initialized
      then some (record { ok = true; plugin = p; live = live })
      else start up p live

  -- The two deletes of `ShutdownImpl`, in its order.
  unfoldable pub release : WasmEdgeState Vm Mem → List Resource → Option (List Resource)
  unfolding delete_vm delete_host
  release st live = elim (delete_vm st.vm live) [
    | none ↦ none
    | some live' ↦ delete_host st.host_module live'
  ]

  abbrev pub cleared : WasmEdgeState Vm Mem
  cleared = record { vm = none; memory = none; host_module = none }

  -- ShutdownImpl, which `Shutdown` and the destructor call.
  pub shutdown : WasmEdgePlugin Vm Mem → List Resource → Option (Started Vm Mem)
  unfolding release
  shutdown p live = elim p.state [
    | none ↦ some (record { ok = true; plugin = record p { initialized = false }; live = live })
    | some st ↦ elim (release st live) [
      | none ↦ none
      | some live' ↦ some (record {
        ok = true;
        plugin = record p { state = some cleared; initialized = false };
        live = live';
      })
    ]
  ]

  -- Clone: the null pointer is `none`. A copy that does not start is destroyed at once.
  pub clone :
      Startup Vm Mem
      → WasmEdgePlugin Vm Mem
      → List Resource
      → Option (Option (WasmEdgePlugin Vm Mem) × List Resource)
  clone up p live = elim (initialize up (new_plugin p.path p.schema_version) live) [
    | none ↦ none
    | some r ↦ elim r.ok [
      | true ↦ some (some r.plugin, r.live)
      | false ↦ elim (shutdown r.plugin r.live) [ none ↦ none | some q ↦ some (none, q.live) ]
    ]
  ]

  -- WasmEdgePluginFactory::Create
  pub create : String → ℕ → Option (WasmEdgePlugin Vm Mem)
  create path version = some (new_plugin path version)
