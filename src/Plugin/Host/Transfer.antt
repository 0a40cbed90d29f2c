-- ===== src/Plugin/Host/Transfer.antt =====
-- Reads and writes of components through the host functions of plugin/wasmedge_plugin.cpp.
use wasm_hot.Base.{
  ℕ, ◌%◌, ◌^◌, ◌≤◌, ◌<◌, ◌≡◌, refl, ap, subst, ◌∙◌, ◌⊎◌, [], ◌∷◌, List, Option, some, true, ◌==◌,
  ◌&&◌, nat_key, arith, if◌then◌else◌, length, take, Option-cases, Bool-cases, inl, inr,
}
use wasm_hot.Bytes.{Bytes}
use wasm_hot.Storage.{ComponentStorage, write}
use wasm_hot.Storage.Lookup.{component, component-write, read_lem}
use wasm_hot.Plugin.Memory.{MemoryApi, MemoryLaws}
use wasm_hot.Plugin.Host.{
  HostContext, show_component, copy_in, host_get_component, host_set_component,
}

take_all {ℓ} : {A : Type ℓ} (xs : List A) → take (length xs) xs ≡ xs
take_all [] = refl
take_all (x ∷ xs) = ap (◌∷◌ x) (take_all xs)

module _ {Mem : Type 0} (api : MemoryApi Mem) (ctx : HostContext) (s : ComponentStorage) where
  show_component_fits :
      (mem mem' : Mem) (w : ComponentStorage) (to cap len : ℕ) (bytes : Bytes)
      → length bytes ≡ len
      → 0 < len
      → len < 2 ^ 32
      → len ≤ cap
      → api.set_data mem bytes to ≡ some mem'
      → show_component api (some mem) w to cap (some bytes)
        ≡ record { out = len; memory = some mem'; storage = w }
  unfolding show_component
  show_component_fits mem mem' w to cap len bytes size pos small fits set =
      let short : length bytes % 2 ^ 32 ≡ len = omega arith in
      let whole : take len bytes ≡ bytes =
        subst (λ n. take n bytes ≡ bytes) size (take_all bytes) in
      let same : api.set_data mem (take len bytes) to ≡ some mem' =
        ap (λ bs. api.set_data mem bs to) whole ∙ set in
      ground arith

  -- A write through the host answers 1 or 0. After 1 the component named holds bytes that the host
  -- took from the buffer, and after 0 the storage is unchanged; other components never change.
  pub host_set_component_lem :
      (memory : Option Mem) (o t buf_ptr len p q : ℕ)
      → let r = host_set_component api ctx memory s o t buf_ptr len in
        ((r.out ≡ 0) × (r.storage ≡ s))
        ⊎ ((r.out ≡ 1)
            × (bytes : Bytes) × (copy_in api memory buf_ptr len ≡ some bytes)
            × (component r.storage p q
                ≡ (if o == p && t == q then some bytes else component s p q)))
  unfolding host_set_component
  host_set_component_lem memory o t buf_ptr len p q =
      elim (Option-cases (copy_in api memory buf_ptr len)) [
        | inl e ↦ ground arith
        | inr (bytes, e) ↦ elim (Bool-cases ctx.attached) [
          | inr off ↦ ground arith
          | inl on ↦ ground (arith, component-write s o t p q bytes)
        ]
      ]

  -- With memories that obey their laws and an attached storage, a component that wasm code writes
  -- from one buffer and reads into another arrives unchanged, where both copies are in range, the
  -- second buffer is large enough, there is something to copy and its length fits 32 bits.
  pub host_get_component-host_set_component :
      (mem mem' : Mem) (o t from to len cap : ℕ) (bytes : Bytes)
      → MemoryLaws api
      → ctx.attached ≡ true
      → 0 < len
      → len < 2 ^ 32
      → len ≤ cap
      → api.get_data mem from len ≡ some bytes
      → api.set_data mem bytes to ≡ some mem'
      → let stored = (host_set_component api ctx (some mem) s o t from len).storage in
        (host_get_component api ctx (some mem) stored o t to cap
          ≡ record { out = len; memory = some mem'; storage = stored })
        × (api.get_data mem' to len ≡ some bytes)
  unfolding host_get_component host_set_component
  host_get_component-host_set_component mem mem' o t from to len cap bytes laws on pos small fits
        got set =
      let size = laws.length-get_data mem from len bytes got in
      let w = write s o t bytes in
      let stored : (host_set_component api ctx (some mem) s o t from len).storage ≡ w =
        ground arith in
      let shown : component w o t ≡ some bytes = ground (arith, component-write s o t o t bytes) in
      let copied = show_component_fits mem mem' w to cap len bytes size pos small fits set in
      let found = laws.get_data-set_data mem mem' to bytes set in
      (
        rw stored (ground (arith, copied, read_lem w o t (show_component api (some mem) w to cap))),
        subst (λ n. api.get_data mem' to n ≡ some bytes) size found,
      )
