-- ===== src/Plugin/Resources.antt =====
-- The WasmEdge contexts that are live on the paths through Initialize, ShutdownImpl and Clone.
use wasm_hot.Base.{
  ℕ, ◌⊎◌, ◌≡◌, refl, sym, ◌∙◌, [], ◌∷◌, ◌++◌, List, Option, none, some, Bool, true, false, not,
  nat_key, arith, is_some, Option-cases, Bool-cases, inl, inr, if_both,
}
use wasm_hot.Plugin.{
  Resource, vm_context, host_instance, delete, VmContext, WasmEdgeState, WasmEdgePlugin, Startup,
  Started, initialize, start, with_vm, bring_up, abort_vm, abort_all, shutdown, release, cleared,
  new_plugin, clone,
}

abbrev vm_part : {Vm : Type 0} → Option (VmContext Vm) → List Resource
vm_part none = []
vm_part (some vm) = vm_context vm.address ∷ []

abbrev host_part : Option ℕ → List Resource
host_part none = []
host_part (some host) = host_instance host ∷ []

module _ {Vm Mem : Type 0} where
  abbrev pub state_part : Option (WasmEdgeState Vm Mem) → List Resource
  state_part none = []
  state_part (some st) = host_part st.host_module ++ vm_part st.vm

  abbrev pub holds : WasmEdgePlugin Vm Mem → List Resource
  holds p = state_part p.state

  abbrev pub Owned : Bool → Option (WasmEdgeState Vm Mem) → Type 0
  Owned true none = ⊥
  Owned true (some st) = (is_some st.vm ≡ true) × (is_some st.host_module ≡ true)
  Owned false none = Unit {0}
  Owned false (some st) = (st.vm ≡ none) × (st.host_module ≡ none)

  -- An initialised plugin holds both contexts, and one that is not holds none.
  abbrev pub IsOwner : WasmEdgePlugin Vm Mem → Type 0
  IsOwner p = Owned p.initialized p.state

  -- A result that is no fault, and in which the plugin's contexts and `rest` are what is live.
  abbrev pub Balanced : List Resource → Option (Started Vm Mem) → Type 0
  Balanced rest result =
      (r : Started Vm Mem) × (result ≡ some r)
      × (r.live ≡ holds r.plugin ++ rest)
      × IsOwner r.plugin
      × (r.ok ≡ r.plugin.initialized)

  disowned : (p : WasmEdgePlugin Vm Mem) → p.initialized ≡ false → Owned p.initialized none
  disowned p h = rw h tt

  abort_all-Balanced :
      (p : WasmEdgePlugin Vm Mem) (vm : VmContext Vm) (host : ℕ) (rest : List Resource)
      → p.initialized ≡ false
      → Balanced rest (abort_all p vm host (host_instance host ∷ vm_context vm.address ∷ rest))
  unfolding abort_all delete
  abort_all-Balanced p vm host rest h = (
    record { ok = false; plugin = record p { state = none }; live = rest },
    ground arith,
    refl,
    disowned p h,
    ground arith,
  )

  abbrev running : Startup Vm Mem → WasmEdgePlugin Vm Mem → VmContext Vm → ℕ → WasmEdgePlugin Vm Mem
  running up p vm host = record p {
    state = some (record { vm = some vm; memory = up.find_memory; host_module = some host });
    initialized = true;
  }

  bring_up-Balanced :
      (up : Startup Vm Mem) (p : WasmEdgePlugin Vm Mem) (vm : VmContext Vm) (host : ℕ)
      (rest : List Resource)
      → p.initialized ≡ false
      → Balanced rest (bring_up up p vm host (host_instance host ∷ vm_context vm.address ∷ rest))
  unfolding bring_up
  bring_up-Balanced up p vm host rest h =
      let B = Balanced rest in
      let aborts = abort_all-Balanced p vm host rest h in
      if_both B (not up.load_wasm) aborts (
        if_both B (not up.validate) aborts (
          if_both B (not up.register_module) aborts (
            if_both B (not up.instantiate) aborts (
              record {
                ok = true;
                plugin = running up p vm host;
                live = host_instance host ∷ vm_context vm.address ∷ rest;
              },
              refl,
              refl,
              (refl, refl),
              refl,
            ))))

  abort_vm-Balanced :
      (p : WasmEdgePlugin Vm Mem) (vm : VmContext Vm) (rest : List Resource)
      → p.initialized ≡ false
      → Balanced rest (abort_vm p vm (vm_context vm.address ∷ rest))
  unfolding abort_vm delete
  abort_vm-Balanced p vm rest h = (
    record { ok = false; plugin = record p { state = none }; live = rest },
    ground arith,
    refl,
    disowned p h,
    ground arith,
  )

  start-Balanced :
      (up : Startup Vm Mem) (p : WasmEdgePlugin Vm Mem) (rest : List Resource)
      → p.initialized ≡ false
      → Balanced rest (start up p rest)
  unfolding start
  start-Balanced up p rest h = elim (Option-cases up.vm_create) [
    | inl e ↦
        rw (e, start)
          (
            record { ok = false; plugin = record p { state = none }; live = rest },
            refl,
            refl,
            disowned p h,
            ground arith,
          )
    | inr (vm, e) ↦ elim (Option-cases up.host_module_create) [
      | inl e' ↦ rw (e, start, e', with_vm) (abort_vm-Balanced p vm rest h)
      | inr (host, e') ↦ rw (e, start, e', with_vm) (bring_up-Balanced up p vm host rest h)
    ]
  ]

  nothing_held :
      (b : Bool) (st : Option (WasmEdgeState Vm Mem)) → Owned b st → b ≡ false → state_part st ≡ []
  nothing_held true st v h = absurd (ground arith)
  nothing_held false none v h = refl
  nothing_held false (some st) v h = rw (v.0, v.1)

  pub idle_holds : (p : WasmEdgePlugin Vm Mem) → p.initialized ≡ false → IsOwner p → holds p ≡ []
  idle_holds p h v = nothing_held p.initialized p.state v h

  -- Initialize of a plugin that holds both contexts if it is initialised and none if it is not
  -- never deletes a context twice. Afterwards exactly the contexts that the plugin holds are live
  -- besides those that were live before, on success and on every failure, and the plugin is
  -- initialised exactly if the answer is true.
  pub initialize-Balanced :
      (up : Startup Vm Mem) (p : WasmEdgePlugin Vm Mem) (rest : List Resource)
      → IsOwner p
      → Balanced rest (initialize up p (holds p ++ rest))
  unfolding initialize
  initialize-Balanced up p rest v = elim (Bool-cases p.initialized) [
    | inl on ↦ (
      record { ok = true; plugin = p; live = holds p ++ rest },
      ground arith,
      refl,
      v,
      ground arith,
    )
    | inr off ↦
        let (r, e, live, owner, ok) = start-Balanced up p rest off in
        let none_held = idle_holds p off v in (r, ground arith, live, owner, ok)
  ]

  pub release_all :
      (st : WasmEdgeState Vm Mem) (rest : List Resource)
      → release st ((host_part st.host_module ++ vm_part st.vm) ++ rest) ≡ some rest
  unfolding release delete
  release_all st rest = elim (Option-cases st.vm) [
    | inl e ↦ elim (Option-cases st.host_module) [
      | inl e' ↦ ground arith
      | inr (host, e') ↦ ground arith
    ]
    | inr (vm, e) ↦ elim (Option-cases st.host_module) [
      | inl e' ↦ ground arith
      | inr (host, e') ↦ ground arith
    ]
  ]

  -- Shutdown never deletes a context twice, and leaves a plugin that holds nothing.
  pub shutdown-Balanced :
      (p : WasmEdgePlugin Vm Mem) (rest : List Resource)
      → (r : Started Vm Mem) × (shutdown p (holds p ++ rest) ≡ some r)
        × (r.live ≡ rest)
        × (holds r.plugin ≡ [])
        × IsOwner r.plugin
        × (r.plugin.initialized ≡ false)
  unfolding shutdown delete
  shutdown-Balanced p rest = elim (Option-cases p.state) [
    | inl e ↦ (
      record { ok = true; plugin = record p { initialized = false }; live = rest },
      ground arith,
      refl,
      rw e,
      rw e tt,
      refl,
    )
    | inr (st, e) ↦ (
      record {
        ok = true;
        plugin = record p { state = some cleared; initialized = false };
        live = rest;
      },
      ground (arith, release_all st rest),
      refl,
      refl,
      (refl, refl),
      refl,
    )
  ]

  new_plugin-IsOwner : (p : WasmEdgePlugin Vm Mem) → IsOwner (new_plugin p.path p.schema_version)
  unfolding new_plugin
  new_plugin-IsOwner p = tt

  -- A clone starts alone: if it is made it is initialised and holds its own contexts, besides those
  -- that were live; if not, exactly those are live.
  pub clone-Balanced :
      (up : Startup Vm Mem) (p : WasmEdgePlugin Vm Mem) (rest : List Resource)
      → ((made : WasmEdgePlugin Vm Mem) × (clone up p rest ≡ some (some made, holds made ++ rest))
          × (made.initialized ≡ true)
          × IsOwner made)
        ⊎ (clone up p rest ≡ some (none, rest))
  unfolding clone new_plugin
  clone-Balanced up p rest =
      let fresh = new_plugin p.path p.schema_version in
      let (r, e, live, owner, ok) = initialize-Balanced up fresh rest (new_plugin-IsOwner p) in
      let (q, e', live', held, owner', off) = shutdown-Balanced r.plugin rest in
      elim (Bool-cases r.ok) [
        | inl made ↦ inl (r.plugin, ground arith, sym ok ∙ made, owner)
        | inr refused ↦ inr (ground arith)
      ]
