-- ===== src/Plugin/Host.antt =====
-- The functions of plugin/wasmedge_plugin.cpp that wasm code calls, and the module that has them.
-- An i32 or i64 is its bit pattern; the memory is that of the calling frame, which may be missing.
pub mod Transfer
use wasm_hot.Base.{
  ℕ, ◌-◌, ◌%◌, ◌^◌, [], ◌∷◌, List, Option, none, some, Bool, true, false, not, ◌==◌, nat_key, ltb,
  String, if◌then◌else◌, length, take, replicate,
}
use wasm_hot.Bytes.{Bytes}
use wasm_hot.Storage.{ComponentStorage, ComponentData, read, write}
use wasm_hot.Plugin.Memory.{MemoryApi}

-- `attached` is `storage != nullptr`.
pub record HostContext : Type 0 where
  pub attached : Bool
  pub object_id : ℕ

-- What a host function leaves: its result, the frame's memory and the storage.
pub record HostResult (Mem : Type 0) : Type 0 where
  pub out : ℕ
  pub memory : Option Mem
  pub storage : ComponentStorage

-- -n as an i32
abbrev pub i32_neg : ℕ → ℕ
i32_neg n = 2 ^ 32 - n

-- WasmEdge_ValueGenI64(static_cast<int64_t>(g_host_ctx.object_id))
pub host_get_current_object_id : HostContext → ℕ
host_get_current_object_id ctx = ctx.object_id % 2 ^ 64

module _ {Mem : Type 0} (api : MemoryApi Mem) where
  -- The copy of `len` bytes into the frame's memory, if there are any.
  unfoldable pub copy_out : Option Mem → ComponentStorage → ComponentData → ℕ → ℕ → HostResult Mem
  copy_out memory s found buf_ptr len =
      if ltb 0 len
      then elim memory [
        | none ↦ record { out = i32_neg 3; memory = none; storage = s }
        | some mem ↦ elim (api.set_data mem (take len found) buf_ptr) [
          | none ↦ record { out = i32_neg 3; memory = some mem; storage = s }
          | some mem' ↦ record { out = len; memory = some mem'; storage = s }
        ]
      ]
      else record { out = len; memory = memory; storage = s }

  -- The callback of `HostGetComponent`.
  unfoldable pub show_component :
      Option Mem → ComponentStorage → ℕ → ℕ → Option ComponentData → HostResult Mem
  unfolding copy_out
  show_component memory s buf_ptr buf_cap none = record { out = 0; memory = memory; storage = s }
  show_component memory s buf_ptr buf_cap (some found) =
      let len = length found % 2 ^ 32 in
      if ltb buf_cap len
      then record { out = i32_neg 2; memory = memory; storage = s }
      else copy_out memory s found buf_ptr len

  unfoldable pub host_get_component :
      HostContext
      → Option Mem
      → ComponentStorage
      → (object_id type buf_ptr buf_cap : ℕ) → HostResult Mem
  unfolding show_component
  host_get_component ctx memory s object_id type buf_ptr buf_cap =
      if not ctx.attached
      then record { out = i32_neg 1; memory = memory; storage = s }
      else read s object_id type (show_component memory s buf_ptr buf_cap)

  -- The bytes that `HostSetComponent` takes from the frame's memory, `none` if it cannot.
  unfoldable pub copy_in : Option Mem → ℕ → ℕ → Option Bytes
  copy_in memory buf_ptr len =
      if ltb 0 len
      then elim memory [ none ↦ none | some mem ↦ api.get_data mem buf_ptr len ]
      else some []

  unfoldable pub host_set_component :
      HostContext
      → Option Mem
      → ComponentStorage
      → (object_id type buf_ptr len : ℕ) → HostResult Mem
  unfolding copy_in
  host_set_component ctx memory s object_id type buf_ptr len =
      if not ctx.attached
      then record { out = 0; memory = memory; storage = s }
      else elim (copy_in memory buf_ptr len) [
        | none ↦ record { out = 0; memory = memory; storage = s }
        | some bytes ↦ record { out = 1; memory = memory; storage = write s object_id type bytes }
      ]

pub data ValType : Type 0 where
  i32 i64 : ValType

pub data HostFunction : Type 0 where
  get_current_object_id get_component set_component : HostFunction

-- An entry of the host module: the name that wasm code imports, the parameters and the results.
pub record HostImport : Type 0 where
  pub name : String
  pub params : List ValType
  pub results : List ValType
  pub code : HostFunction

abbrev comp_in : List ValType
comp_in = i64 ∷ i32 ∷ i32 ∷ i32 ∷ []

-- CreateHostModule: nothing if the module instance cannot be made.
pub create_host_module : Option ℕ → Option (ℕ × List HostImport)
create_host_module none = none
create_host_module (some module_instance) = some (
  module_instance,
  record {
    name = "get_current_object_id";
    params = [];
    results = i64 ∷ [];
    code = get_current_object_id;
  }
      ∷ record {
        name = "get_component";
        params = comp_in;
        results = i32 ∷ [];
        code = get_component;
      }
      ∷ record {
        name = "set_component";
        params = comp_in;
        results = i32 ∷ [];
        code = set_component;
      }
      ∷ [],
)
