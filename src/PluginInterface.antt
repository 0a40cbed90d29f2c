-- ===== src/PluginInterface.antt =====
-- core/plugin_interface.h: what the module manager and the actors ask of a plugin.
-- `World` is what a plugin reads from outside when it starts: the wasm files and the runtime.
use wasm_hot.Base.{ℕ, Bool, Option, String}
use wasm_hot.Bytes.{Bytes}
use wasm_hot.Storage.{ComponentStorage}
use wasm_hot.Object.{GameObject}

-- What `Execute` leaves: its answer, the plugin, the view, the storage and the output vector.
pub record Executed (Plugin : Type 0) : Type 0 where
  pub ok : Bool
  pub plugin : Plugin
  pub obj : GameObject
  pub storage : ComponentStorage
  pub output : Bytes

-- IPlugin. The last argument of `execute` is the output vector as the caller passes it. A null
-- pointer from `Clone` is `none`.
pub record IPlugin (World : Type 0) (Plugin : Type 0) : Type 0 where
  pub initialize : World → Plugin → Bool × Plugin
  pub shutdown : Plugin → Plugin
  pub execute : Plugin → GameObject → ComponentStorage → String → Bytes → Bytes → Executed Plugin
  pub clone : World → Plugin → Option Plugin

-- PluginFactory. A null pointer is `none`.
pub record PluginFactory (Plugin : Type 0) : Type 0 where
  pub create : String → ℕ → Option Plugin
