-- ===== src/Plugin/Execute/Owners.antt =====
-- WasmEdgePlugin::Execute and the contexts of the plugin, which it neither makes nor deletes.
use wasm_hot.Base.{
  ◌≡◌, inl, inr, refl, subst, sym, ap, ◌∙◌, Option, none, some, Bool, true, false, not, String,
  arith, Option-cases, if_both,
}
use wasm_hot.Bytes.{Bytes}
use wasm_hot.Storage.{ComponentStorage}
use wasm_hot.Object.{GameObject}
use wasm_hot.PluginInterface.{Executed}
use wasm_hot.Plugin.{VmContext, WasmEdgeState, WasmEdgePlugin}
use wasm_hot.Plugin.Resources.{holds, IsOwner, Owned, state_part}
use wasm_hot.Plugin.Execute.{
  memory_after, Runtime, put_input, params, host_context, run_wasm, with_state, unchanged, execute,
}

module _ {Vm Mem : Type 0} where
  -- The plugin `q` holds the contexts that `p` holds, and holds them as it should.
  abbrev pub Holds : WasmEdgePlugin Vm Mem → WasmEdgePlugin Vm Mem → Type 0
  Holds p q = IsOwner q × (holds q ≡ holds p)

  -- The contexts of a state after a call of its instance are as before.
  Owned-called :
      (on : Bool) (st : WasmEdgeState Vm Mem) (vm : VmContext Vm) (now : Vm) (memory : Option Mem)
      → st.vm ≡ some vm
      → Owned on (some st)
      → let st' : WasmEdgeState Vm Mem = record st {
        vm = some (record vm { instance_state = now });
        memory = memory;
      } in
        Owned on (some st') × (state_part (some st') ≡ state_part (some st))
  Owned-called true st vm now memory e v = ((refl, v.1), rw e refl)
  Owned-called false st vm now memory e v = absurd (ground arith)

  module _ (rt : Runtime Vm Mem) (p : WasmEdgePlugin Vm Mem) (obj : GameObject)
      (s : ComponentStorage) (action : String) (input output : Bytes) (v : IsOwner p) where
    run_wasm-Holds :
        (st : WasmEdgeState Vm Mem) (vm : VmContext Vm)
        → p.state ≡ some st
        → st.vm ≡ some vm
        → Holds p (run_wasm rt p st vm obj s action input output).plugin
    unfolding run_wasm
    run_wasm-Holds st vm e e' = elim (Option-cases (put_input rt st.memory input)) [
      | inl refused ↦ rw (refused, run_wasm) (v, refl)
      | inr (memory, put) ↦
          let c = rt.vm_execute vm (host_context obj) memory s "execute" (params rt action input) in
          let (owned, same) =
            Owned-called p.initialized st vm c.instance_state (memory_after c memory) e'
              (subst (Owned p.initialized) e v) in
          rw (put, run_wasm) (owned, same ∙ ap state_part (sym e))
    ]

    with_state-Holds :
        (st : WasmEdgeState Vm Mem) (vm : Option (VmContext Vm))
        → p.state ≡ some st
        → st.vm ≡ vm
        → Holds p (with_state rt p st obj s action input output).plugin
    unfolding with_state
    with_state-Holds st none e e' = rw (e', with_state) (v, refl)
    with_state-Holds st (some vm) e e' = rw (e', with_state) (run_wasm-Holds st vm e e')

    at_state :
        (o : Option (WasmEdgeState Vm Mem))
        → p.state ≡ o
        → let r : Executed (WasmEdgePlugin Vm Mem) = elim o [
          | none ↦ unchanged rt p obj s output
          | some st ↦ with_state rt p st obj s action input output
        ] in
          Holds p r.plugin
    at_state none e = (v, refl)
    at_state (some st) e = with_state-Holds st st.vm e refl

    pub execute-Holds : Holds p (execute rt p obj s action input output).plugin
    unfolding execute
    execute-Holds =
        if_both (λ (r : Executed (WasmEdgePlugin Vm Mem)). Holds p r.plugin) (not p.initialized)
          (v, refl) (at_state p.state refl)
