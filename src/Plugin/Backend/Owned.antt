-- ===== src/Plugin/Backend/Owned.antt =====
-- Plugins of plugin/wasmedge_plugin.cpp that come with the proof that their contexts are in order.
-- No operation of the interface can make another, so that the type itself carries the invariant.
use wasm_hot.Base.{
  ◌≡◌, ◌++◌, ◌⊎◌, inl, inr, ℕ, ◌≡◌, inl, inr, [], Option, none, some, Bool, true, String,
}
use wasm_hot.Bytes.{Bytes}
use wasm_hot.Storage.{ComponentStorage}
use wasm_hot.Object.{GameObject}
use wasm_hot.PluginInterface.{IPlugin, PluginFactory, Executed}
use wasm_hot.Plugin.{clone, WasmEdgePlugin, Startup, new_plugin}
use wasm_hot.Plugin.Resources.{
  holds, IsOwner, initialize-Balanced, shutdown-Balanced, clone-Balanced,
}
use wasm_hot.Plugin.Execute.Owners.{execute-Holds}
use wasm_hot.Plugin.Execute.{Runtime, execute}

-- A WasmEdgePlugin with the proof that it holds both contexts if it is initialised, and else none.
pub record OwnedPlugin (Vm Mem : Type 0) : Type 0 where
  pub plugin : WasmEdgePlugin Vm Mem
  pub owner : IsOwner plugin

module _ {Vm Mem : Type 0} where
  unfoldable pub initialize_owned : Startup Vm Mem → OwnedPlugin Vm Mem → Bool × OwnedPlugin Vm Mem
  initialize_owned up p =
      let (r, e, live, owner, ok) = initialize-Balanced up p.plugin [] p.owner in
      (r.ok, record { plugin = r.plugin; owner = owner })

  unfoldable pub shutdown_owned : OwnedPlugin Vm Mem → OwnedPlugin Vm Mem
  shutdown_owned p =
      let (r, e, live, held, owner, off) = shutdown-Balanced p.plugin [] in
      record { plugin = r.plugin; owner = owner }

  -- The plugin of a clone that is made, with the proof that comes with it.
  abbrev pub made_owned :
      (up : Startup Vm Mem) (p : WasmEdgePlugin Vm Mem)
      → ((made : WasmEdgePlugin Vm Mem) × (clone up p [] ≡ some (some made, holds made ++ []))
          × (made.initialized ≡ true)
          × IsOwner made)
        ⊎ (clone up p [] ≡ some (none, []))
      → Option (OwnedPlugin Vm Mem)
  made_owned up p (inl (made, e, on, owner)) = some (record { plugin = made; owner = owner })
  made_owned up p (inr refused) = none

  unfoldable pub clone_owned : Startup Vm Mem → OwnedPlugin Vm Mem → Option (OwnedPlugin Vm Mem)
  clone_owned up p = made_owned up p.plugin (clone-Balanced up p.plugin [])

  unfoldable pub execute_owned :
      Runtime Vm Mem
      → OwnedPlugin Vm Mem
      → GameObject
      → ComponentStorage
      → String
      → Bytes
      → Bytes
      → Executed (OwnedPlugin Vm Mem)
  execute_owned rt p obj s action input output =
      let r = execute rt p.plugin obj s action input output in
      record {
        ok = r.ok;
        plugin = record {
          plugin = r.plugin;
          owner = (execute-Holds rt p.plugin obj s action input output p.owner).0;
        };
        obj = r.obj;
        storage = r.storage;
        output = r.output;
      }

  abbrev pub owned_backend : Runtime Vm Mem → IPlugin (Startup Vm Mem) (OwnedPlugin Vm Mem)
  owned_backend rt = record {
    initialize = initialize_owned;
    shutdown = shutdown_owned;
    execute = execute_owned rt;
    clone = clone_owned;
  }

  unfoldable pub create_owned : String → ℕ → Option (OwnedPlugin Vm Mem)
  unfolding new_plugin
  create_owned path version = some (record { plugin = new_plugin path version; owner = tt })

  -- WasmEdgePluginFactory
  abbrev pub owned_factory : PluginFactory (OwnedPlugin Vm Mem)
  owned_factory = record { create = create_owned }
