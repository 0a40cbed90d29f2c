-- ===== src/Plugin/Memory.antt =====
-- A WasmEdge linear memory, which the source only calls: a parameter, with the laws relied on.
use wasm_hot.Base.{ℕ, ◌≡◌, Option, some, length}
use wasm_hot.Bytes.{Bytes}

-- WasmEdge_MemoryInstanceSetData(memory, bytes, offset) and GetData(memory, offset, length); `none`
-- is a result that is not OK.
pub record MemoryApi (Mem : Type 0) : Type 0 where
  pub set_data : Mem → Bytes → ℕ → Option Mem
  pub get_data : Mem → ℕ → ℕ → Option Bytes

-- A read has the length that was asked for, and finds what was written at its place.
pub record MemoryLaws {Mem : Type 0} (api : MemoryApi Mem) : Type 0 where
  pub length-get_data :
      (m : Mem) (offset n : ℕ) (bytes : Bytes)
      → api.get_data m offset n ≡ some bytes
      → length bytes ≡ n
  pub get_data-set_data :
      (m m' : Mem) (offset : ℕ) (bytes : Bytes)
      → api.set_data m bytes offset ≡ some m'
      → api.get_data m' offset (length bytes) ≡ some bytes
