-- ===== src/Plugin/Lifetime.antt =====
-- A plugin of plugin/wasmedge_plugin.cpp from its constructor to its destructor.
use wasm_hot.Base.{ℕ, String, ◌≡◌, sym, ap, ◌∙◌, inl, inr, [], ◌∷◌, ◌++◌, List, Option, none, some}
use wasm_hot.Bytes.{Bytes}
use wasm_hot.Storage.{ComponentStorage}
use wasm_hot.Object.{GameObject}
use wasm_hot.Plugin.{
  Resource, WasmEdgePlugin, Startup, Started, initialize, shutdown, clone, new_plugin,
}
use wasm_hot.Plugin.Execute.{Runtime, execute}
use wasm_hot.Plugin.Execute.Owners.{execute-Holds}
use wasm_hot.Plugin.Resources.{
  holds, IsOwner, initialize-Balanced, shutdown-Balanced, clone-Balanced,
}

-- Calls on one plugin, in any order. A clone that is made is destroyed by its owner at some time, here
-- before the next call.
pub data LifeCall (Vm Mem : Type 0) : Type 0 where
  initializes clones : Startup Vm Mem → LifeCall Vm Mem
  executes : GameObject → ComponentStorage → String → Bytes → Bytes → LifeCall Vm Mem
  shuts_down : LifeCall Vm Mem

module _ {Vm Mem : Type 0} (rt : Runtime Vm Mem) where
  -- The destructor.
  pub destroyed : WasmEdgePlugin Vm Mem → List Resource → Option (List Resource)
  destroyed p live = elim (shutdown p live) [ none ↦ none | some r ↦ some r.live ]

  destroyed_clone : Option (Option (WasmEdgePlugin Vm Mem) × List Resource) → Option (List Resource)
  unfolding destroyed
  destroyed_clone none = none
  destroyed_clone (some (none, live)) = some live
  destroyed_clone (some (some made, live)) = destroyed made live

  left_by : Option (Started Vm Mem) → Option (WasmEdgePlugin Vm Mem × List Resource)
  left_by none = none
  left_by (some r) = some (r.plugin, r.live)

  with_plugin :
      WasmEdgePlugin Vm Mem
      → Option (List Resource)
      → Option (WasmEdgePlugin Vm Mem × List Resource)
  with_plugin p none = none
  with_plugin p (some live) = some (p, live)

  pub live_step :
      LifeCall Vm Mem
      → WasmEdgePlugin Vm Mem
      → List Resource
      → Option (WasmEdgePlugin Vm Mem × List Resource)
  unfolding left_by with_plugin destroyed_clone
  live_step (initializes up) p live = left_by (initialize up p live)
  live_step (clones up) p live = with_plugin p (destroyed_clone (clone up p live))
  live_step (executes obj s action input output) p live =
      some ((execute rt p obj s action input output).plugin, live)
  live_step shuts_down p live = left_by (shutdown p live)

  -- The calls in turn, and then the destructor.
  pub lifetime :
      List (LifeCall Vm Mem) → WasmEdgePlugin Vm Mem → List Resource → Option (List Resource)
  unfolding destroyed
  lifetime [] p live = destroyed p live
  lifetime (c ∷ cs) p live = elim (live_step c p live) [
    | none ↦ none
    | some (p', live') ↦ lifetime cs p' live'
  ]

  destroyed-holds :
      (p : WasmEdgePlugin Vm Mem) (rest : List Resource) → destroyed p (holds p ++ rest) ≡ some rest
  unfolding destroyed
  destroyed-holds p rest =
      let (r, e, live, held, owner, off) = shutdown-Balanced p rest in rw (e, destroyed, live)

  -- A call leaves the plugin in order, and what it holds in front of all else that was live.
  live_step_lem :
      (c : LifeCall Vm Mem) (p : WasmEdgePlugin Vm Mem) (rest : List Resource)
      → IsOwner p
      → (p' : WasmEdgePlugin Vm Mem) × (live_step c p (holds p ++ rest)
          ≡ some (p', holds p' ++ rest))
        × IsOwner p'
  unfolding live_step left_by destroyed_clone with_plugin
  live_step_lem (initializes up) p rest v =
      let (r, e, live, owner, _) = initialize-Balanced up p rest v in
      (r.plugin, ap left_by e ∙ ap (λ l. some (r.plugin, l)) live, owner)
  live_step_lem (clones up) p rest v = elim (clone-Balanced up p (holds p ++ rest)) [
    | inr refused ↦ (p, ap (λ o. with_plugin p (destroyed_clone o)) refused, v)
    | inl (made, e, on, owner) ↦ (
      p,
      ap (λ o. with_plugin p (destroyed_clone o)) e
          ∙ ap (with_plugin p) (destroyed-holds made (holds p ++ rest)),
      v,
    )
  ]
  live_step_lem (executes obj s action input output) p rest v =
      let (owner, same) = execute-Holds rt p obj s action input output v in
      let p' = (execute rt p obj s action input output).plugin in
      (p', ap (λ l. some (p', l ++ rest)) (sym same), owner)
  live_step_lem shuts_down p rest v =
      let (r, e, live, held, owner, off) = shutdown-Balanced p rest in
      (
        r.plugin,
        ap left_by e
            ∙ ap (λ l. some (r.plugin, l)) live
            ∙ ap (λ l. some (r.plugin, l ++ rest)) (sym held),
        owner,
      )

  lifetime-holds :
      (cs : List (LifeCall Vm Mem)) (p : WasmEdgePlugin Vm Mem) (rest : List Resource)
      → IsOwner p
      → lifetime cs p (holds p ++ rest) ≡ some rest
  unfolding lifetime
  lifetime-holds [] p rest v = destroyed-holds p rest
  lifetime-holds (c ∷ cs) p rest v =
      let (p', e, owner) = live_step_lem c p rest v in
      rw (e, lifetime) (lifetime-holds cs p' rest owner)

  -- Whatever calls of Initialize, Execute, Clone and Shutdown a new plugin gets, where each clone is
  -- destroyed before the next call, and whatever WasmEdge answers: once the plugin is destroyed,
  -- exactly the contexts that were live before it are live, and none was deleted twice on the way.
  pub lifetime_lem :
      (cs : List (LifeCall Vm Mem)) (path : String) (version : ℕ) (rest : List Resource)
      → lifetime cs (new_plugin path version) rest ≡ some rest
  unfolding new_plugin
  lifetime_lem cs path version rest = lifetime-holds cs (new_plugin path version) rest tt
