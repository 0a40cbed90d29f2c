-- ===== src/Plugin/Backend.antt =====
-- WasmEdgePlugin of plugin/wasmedge_plugin.h as the IPlugin that the module manager and actors use.
-- The contexts of a plugin are its own, so that what a call does to it depends on no other's.
pub mod Owned
pub mod Loaded
pub mod Rooms
mod Tests
mod Samples
use wasm_hot.Base.{
  ℕ, ◌≡◌, refl, sym, ap, append-nil, ◌∙◌, [], ◌∷◌, ◌++◌, List, Option, none, some, Bool, true,
  false, not, ◌&&◌, String, nat_key, arith, is_some, if◌then◌else◌, Option-cases, Bool-cases, inl,
  inr,
}
use wasm_hot.PluginInterface.{IPlugin, PluginFactory}
use wasm_hot.Plugin.{
  Resource, vm_context, host_instance, delete, VmContext, WasmEdgeState, WasmEdgePlugin, Startup,
  Started, initialize, start, with_vm, bring_up, abort_vm, abort_all, shutdown, release, cleared,
  clone, create, new_plugin,
}
use wasm_hot.Plugin.Resources.{holds, IsOwner, idle_holds, release_all}
use wasm_hot.Plugin.Execute.{Runtime, execute}

module _ {Vm Mem : Type 0} where
  -- The state that a start leaves: both contexts, if both are made and all four calls succeed.
  abbrev pub started_state : Startup Vm Mem → Option (WasmEdgeState Vm Mem)
  started_state up = elim up.vm_create [
    | none ↦ none
    | some vm ↦ elim up.host_module_create [
      | none ↦ none
      | some host ↦
          if up.load_wasm && (up.validate && (up.register_module && up.instantiate))
          then some (record { vm = some vm; memory = up.find_memory; host_module = some host })
          else none
    ]
  ]

  -- Initialize of a plugin that is not initialised succeeds exactly if WasmEdge makes both contexts
  -- and all four calls succeed; what else is live plays no part.
  pub start_lem :
      (up : Startup Vm Mem) (p : WasmEdgePlugin Vm Mem) (rest : List Resource)
      → p.initialized ≡ false
      → let st = started_state up in
        let p' = record p { state = st; initialized = is_some st } in
        start up p rest ≡ some (record { ok = is_some st; plugin = p'; live = holds p' ++ rest })
  unfolding start with_vm bring_up abort_vm abort_all delete
  start_lem up p rest h = elim (Option-cases up.vm_create) [
    | inl e ↦ ground arith
    | inr (vm, e) ↦ elim (Option-cases up.host_module_create) [
      | inl e' ↦ ground arith
      | inr (host, e') ↦ ground arith
    ]
  ]

  -- The three operations on a plugin's own contexts.
  unfoldable pub initialize_alone :
      Startup Vm Mem → WasmEdgePlugin Vm Mem → Bool × WasmEdgePlugin Vm Mem
  initialize_alone up p = elim (initialize up p (holds p)) [
    | none ↦ (false, p)
    | some r ↦ (r.ok, r.plugin)
  ]

  unfoldable pub shutdown_alone : WasmEdgePlugin Vm Mem → WasmEdgePlugin Vm Mem
  shutdown_alone p = elim (shutdown p (holds p)) [ none ↦ p | some r ↦ r.plugin ]

  unfoldable pub clone_alone :
      Startup Vm Mem → WasmEdgePlugin Vm Mem → Option (WasmEdgePlugin Vm Mem)
  clone_alone up p = elim (clone up p []) [ none ↦ none | some (made, live) ↦ made ]

  -- WasmEdgePlugin : public IPlugin. What is outside when it starts are the answers of WasmEdge.
  abbrev pub backend : Runtime Vm Mem → IPlugin (Startup Vm Mem) (WasmEdgePlugin Vm Mem)
  backend rt = record {
    initialize = initialize_alone;
    shutdown = shutdown_alone;
    execute = execute rt;
    clone = clone_alone;
  }

  -- WasmEdgePluginFactory
  abbrev pub backend_factory : PluginFactory (WasmEdgePlugin Vm Mem)
  backend_factory = record { create = create }

  abbrev pub held_by : Option (WasmEdgePlugin Vm Mem) → List Resource
  held_by none = []
  held_by (some p) = holds p

  initialize-backend :
      (up : Startup Vm Mem) (p : WasmEdgePlugin Vm Mem) (rest : List Resource)
      → IsOwner p
      → let (ok, p') = initialize_alone up p in
        initialize up p (holds p ++ rest)
        ≡ some (record { ok = ok; plugin = p'; live = holds p' ++ rest })
  unfolding initialize initialize_alone
  initialize-backend up p rest v = elim (Bool-cases p.initialized) [
    | inl on ↦ ground arith
    | inr off ↦
        let none_held = idle_holds p off v in
        ground (arith, start_lem up p rest off, start_lem up p [] off)
  ]

  shutdown-backend :
      (p : WasmEdgePlugin Vm Mem) (rest : List Resource)
      → shutdown p (holds p ++ rest)
        ≡ some (record { ok = true; plugin = shutdown_alone p; live = rest })
  unfolding shutdown shutdown_alone
  shutdown-backend p rest = elim (Option-cases p.state) [
    | inl e ↦ ground arith
    | inr (st, e) ↦ ground (arith, release_all st rest, release_all st [], append-nil (holds p))
  ]

  -- A new plugin with the state of a start.
  abbrev with_state : WasmEdgePlugin Vm Mem → Option (WasmEdgeState Vm Mem) → WasmEdgePlugin Vm Mem
  with_state p st = record {
    state = st;
    path = p.path;
    schema_version = p.schema_version;
    initialized = is_some st;
  }

  initialize-new_plugin :
      (up : Startup Vm Mem) (p : WasmEdgePlugin Vm Mem) (rest : List Resource)
      (st : Option (WasmEdgeState Vm Mem))
      → started_state up ≡ st
      → initialize up (new_plugin p.path p.schema_version) rest
        ≡ some (record {
          ok = is_some st;
          plugin = with_state p st;
          live = holds (with_state p st) ++ rest;
        })
  unfolding initialize new_plugin
  initialize-new_plugin up p rest st e =
      start_lem up (new_plugin p.path p.schema_version) rest refl
      ∙ ap
          (λ (k : Option (WasmEdgeState Vm Mem)). some (record {
            ok = is_some k;
            plugin = with_state p k;
            live = holds (with_state p k) ++ rest;
          }))
          e

  abbrev made_with :
      WasmEdgePlugin Vm Mem → Option (WasmEdgeState Vm Mem) → Option (WasmEdgePlugin Vm Mem)
  made_with p none = none
  made_with p (some st) = some (with_state p (some st))

  clone_made :
      (up : Startup Vm Mem) (p : WasmEdgePlugin Vm Mem) (rest : List Resource)
      (st : Option (WasmEdgeState Vm Mem))
      → started_state up ≡ st
      → clone up p rest ≡ some (made_with p st, held_by (made_with p st) ++ rest)
  unfolding clone shutdown
  clone_made up p rest none e = rw (initialize-new_plugin up p rest none e, clone) refl
  clone_made up p rest (some st) e = rw (initialize-new_plugin up p rest (some st) e, clone) refl

  clone-backend :
      (up : Startup Vm Mem) (p : WasmEdgePlugin Vm Mem) (rest : List Resource)
      → clone up p rest ≡ some (clone_alone up p, held_by (clone_alone up p) ++ rest)
  unfolding clone_alone
  clone-backend up p rest =
      let st = started_state up in
      let alone : clone_alone up p ≡ made_with p st =
        ap (λ o. elim o [ none ↦ none | some (made, live) ↦ made ]) (clone_made up p [] st refl) in
      clone_made up p rest st refl ∙ ap (λ made. some (made, held_by made ++ rest)) (sym alone)

  -- The operations of the interface are those of the plugin, whatever other contexts are live: a
  -- plugin that holds both contexts if it is initialised, and none if not, answers and becomes what
  -- the interface says, no context is deleted twice, and those of others stay live.
  pub backend_lem :
      (rt : Runtime Vm Mem) (up : Startup Vm Mem) (p : WasmEdgePlugin Vm Mem) (rest : List Resource)
      → IsOwner p
      → let api = backend rt in
        let (ok, p') = api.initialize up p in
        let made = api.clone up p in
        (initialize up p (holds p ++ rest)
          ≡ some (record { ok = ok; plugin = p'; live = holds p' ++ rest }))
        × (shutdown p (holds p ++ rest)
            ≡ some (record { ok = true; plugin = api.shutdown p; live = rest }))
        × (clone up p rest ≡ some (made, held_by made ++ rest))
  backend_lem rt up p rest v =
      (initialize-backend up p rest v, shutdown-backend p rest, clone-backend up p rest)
