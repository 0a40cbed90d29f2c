-- ===== src/Plugin/Execute/Bounds.antt =====
-- The two areas of the memory that Execute uses, and when it answers true.
use wasm_hot.Base.{
  ◌⊎◌, false, ℕ, ◌+◌, ◌≤◌, ◌≡◌, inl, inr, ◌∷◌, Option, none, some, true, arith, String, length,
  is_some, Option-cases, Bool-cases,
}
use wasm_hot.Bytes.{Bytes}
use wasm_hot.Storage.{ComponentStorage}
use wasm_hot.Object.{GameObject}
use wasm_hot.Plugin.{VmContext, WasmEdgeState, WasmEdgePlugin}
use wasm_hot.Plugin.Memory.{MemoryLaws}
use wasm_hot.Plugin.Execute.{
  memory_after, Runtime, Called, put_input, fetch, take_output, params, run_wasm, execute,
  output_offset, output_cap, input_offset, host_context,
}

-- The plugin has been initialised and not shut down since.
abbrev pub IsUp : {Vm Mem : Type 0} → WasmEdgePlugin Vm Mem → Type 0
IsUp p =
    (p.initialized ≡ true) × (st : WasmEdgeState _ _) × (p.state ≡ some st) × (is_some st.vm ≡ true)

module _ {Vm Mem : Type 0} (rt : Runtime Vm Mem) (laws : MemoryLaws rt.memory_api) where
  -- Input that is put into a memory lies in front of the output area and can be read back.
  pub put_input_lem :
      (mem : Mem) (b : ℕ) (bs : Bytes) (memory : Option Mem)
      → put_input rt (some mem) (b ∷ bs) ≡ some memory
      → (mem' : Mem) × (memory ≡ some mem')
        × (input_offset + length (b ∷ bs) ≤ output_offset)
        × (rt.memory_api.get_data mem' input_offset (length (b ∷ bs)) ≡ some (b ∷ bs))
  unfolding put_input
  put_input_lem mem b bs memory h = elim (Option-cases (rt.memory_api.set_data mem (b ∷ bs) 0)) [
    | inl e ↦ absurd (ground arith)
    | inr (mem', e) ↦
        (mem', ground arith, ground arith, laws.get_data-set_data mem mem' 0 (b ∷ bs) e)
  ]

  fetch-le :
      (memory : Option Mem) (n : ℕ) (output : Bytes)
      → n ≤ output_cap
      → (fetch rt memory n output).0 ≡ true
      → length (fetch rt memory n output).1 ≤ output_cap
  unfolding fetch
  fetch-le none n output h k = omega arith
  fetch-le (some mem) n output h k =
      elim (Option-cases (rt.memory_api.get_data mem output_offset n)) [
        | inl e ↦ absurd (ground arith)
        | inr (bytes, e) ↦ ground (arith, laws.length-get_data mem output_offset n bytes e)
      ]

  take_output-le :
      (c : Called Vm Mem) (memory : Option Mem) (output : Bytes)
      → (take_output rt c memory output).0 ≡ true
      → length (take_output rt c memory output).1 ≤ output_cap
  unfolding take_output
  take_output-le c memory output h = ground (arith, fetch-le memory c.ret output)

  run_wasm_lem :
      (p : WasmEdgePlugin Vm Mem) (st : WasmEdgeState Vm Mem) (vm : VmContext Vm) (obj : GameObject)
      (s : ComponentStorage) (action : String) (input output : Bytes)
      → let r = run_wasm rt p st vm obj s action input output in
        (r.ok ≡ true → length r.output ≤ output_cap) × (r.obj ≡ obj)
  unfolding run_wasm
  run_wasm_lem p st vm obj s action input output =
      elim (Option-cases (put_input rt st.memory input)) [
        | inl e ↦ ((λ ok. absurd (ground arith)), ground arith)
        | inr (memory, e) ↦
            let c =
              rt.vm_execute vm (host_context obj) memory s "execute" (params rt action input) in
            ((λ ok. ground (arith, take_output-le c (memory_after c memory) output)), ground arith)
      ]

  -- With memories that obey their laws, Execute answers false, or the plugin is up and the output
  -- has at most 4096 bytes; it never changes the view of the object.
  pub execute_lem :
      (p : WasmEdgePlugin Vm Mem) (obj : GameObject) (s : ComponentStorage) (action : String)
      (input output : Bytes)
      → let r = execute rt p obj s action input output in
        ((r.ok ≡ false) ⊎ (IsUp p × (length r.output ≤ output_cap))) × (r.obj ≡ obj)
  unfolding execute
  execute_lem p obj s action input output = elim (Bool-cases p.initialized) [
    | inr off ↦ (inl (ground arith), ground arith)
    | inl on ↦ elim (Option-cases p.state) [
      | inl e ↦ (inl (ground arith), ground arith)
      | inr (st, e) ↦ elim (Option-cases st.vm) [
        | inl e' ↦ (inl (ground arith), ground arith)
        | inr (vm, e') ↦
            let (bounded, same) = run_wasm_lem p st vm obj s action input output in
            elim (Bool-cases (run_wasm rt p st vm obj s action input output).ok) [
              | inl ok ↦
                  let short = bounded ok in
                  (inr ((on, st, e, ground arith), ground arith), ground arith)
              | inr bad ↦ (inl (ground arith), ground arith)
            ]
      ]
    ]
  ]
