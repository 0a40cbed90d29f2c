-- ===== src/Plugin/Backend/Loaded.antt =====
-- The WasmEdge plugins of plugin/wasmedge_plugin.cpp that core/module_manager.cpp has loaded.
use wasm_hot.Base.{
  ℕ, ◌≡◌, refl, sym, ◌∙◌, [], List, Option, none, some, Bool, true, false, String, arith, nat_key,
  string_key,
}
use wasm_hot.Dict.{find}
use wasm_hot.Modules.{ModuleManager, new_manager, initialize}
use wasm_hot.Modules.History.{Call, run}
use wasm_hot.Modules.Alive.Histories.{run-Leads}
use wasm_hot.Modules.Pointers.{slot}
use wasm_hot.Plugin.{WasmEdgeState, WasmEdgePlugin, Startup}
use wasm_hot.Plugin.Resources.{Owned, initialize-Balanced}
use wasm_hot.Plugin.Execute.{Runtime}
use wasm_hot.Plugin.Execute.Bounds.{IsUp}
use wasm_hot.Plugin.Backend.Owned.{OwnedPlugin, initialize_owned, owned_backend, owned_factory}

module _ {Vm Mem : Type 0} where
  pub owner-IsUp :
      (p : WasmEdgePlugin Vm Mem) (on : Bool) (state : Option (WasmEdgeState Vm Mem))
      → p.initialized ≡ on
      → p.state ≡ state
      → on ≡ true
      → Owned on state
      → IsUp p
  owner-IsUp p true none e e' h v = absurd v
  owner-IsUp p true (some st) e e' h v = (e, st, e', v.0)
  owner-IsUp p false state e e' h v = absurd (ground arith)

  initialize-IsUp :
      (up : Startup Vm Mem) (p : OwnedPlugin Vm Mem)
      → (initialize_owned up p).0 ≡ true
      → IsUp (initialize_owned up p).1.plugin
  unfolding initialize_owned
  initialize-IsUp up p h =
      let (r, e, live, owner, ok) = initialize-Balanced up p.plugin [] p.owner in
      owner-IsUp r.plugin r.plugin.initialized r.plugin.state refl refl (sym ok ∙ h) owner

  -- Whatever calls a module manager with the WasmEdge factory gets, and whatever WasmEdge answers
  -- meanwhile, each loaded module and each saved one is a plugin that is up: initialised, with both
  -- of its contexts, and not shut down.
  pub run-IsUp :
      (rt : Runtime Vm Mem) (cs : List ((String → Startup Vm Mem) × Call (OwnedPlugin Vm Mem)))
      → (m : ModuleManager (OwnedPlugin Vm Mem)) × (run
            (owned_backend rt)
            (initialize new_manager owned_factory)
            cs
          ≡ some m)
        × ((loaded : Bool) (name : String) (ref : ℕ)
            → slot m loaded name ≡ some ref
            → (p : OwnedPlugin Vm Mem) × (find ref m.plugins ≡ some p) × IsUp p.plugin)
  run-IsUp rt cs =
      run-Leads (owned_backend rt) (λ p. IsUp p.plugin) initialize-IsUp owned_factory cs
