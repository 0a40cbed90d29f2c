-- ===== src/RoomActor/Invoke.antt =====
-- ActorWithObject::InvokeModule on each of its ways, and what a room passes to its module.
use wasm_hot.Base.{
  ℕ, ◌<◌, ◌^◌, ◌≡◌, refl, ◌⊎◌, inl, inr, [], none, some, true, false, String, arith, Option-cases,
  length, nat_key, string_key,
}
use wasm_hot.Bytes.{Bytes, to_le, from_le, from_le-to_le_8, length-to_le}
use wasm_hot.Dict.{find}
use wasm_hot.Storage.{ComponentStorage, ComponentType, ComponentData, write}
use wasm_hot.Object.{GameObject, object_id, apply_output_delta}
use wasm_hot.Object.Delta.{encode_delta, apply_output_delta-encode_delta}
use wasm_hot.Registry.{ObjectRegistry, get}
use wasm_hot.Registry.Objects.{seen}
use wasm_hot.PluginInterface.{Executed, IPlugin}
use wasm_hot.Actor.{ActorMessage, handled, ticked}
use wasm_hot.RoomActor.{ActorWithObject, apply_result, invoke_module, perform}

module _ {World Plugin : Type 0} (api : IPlugin World Plugin) (registry : ObjectRegistry) where
  module _ (actor : ActorWithObject Plugin) (s : ComponentStorage) (name action : String)
      (input : Bytes) where
    -- Without the plugin or without the object nothing happens.
    pub invoke_module_missing :
        (find name actor.plugins ≡ none) ⊎ (seen registry actor.object_id ≡ none)
        → invoke_module api registry actor s name action input
          ≡ record { actor = actor; storage = s; warned = false }
    unfolding invoke_module get
    invoke_module_missing h = elim (Option-cases (find name actor.plugins)) [
      | inl e ↦ ground arith
      | inr (plugin, e) ↦ elim (Option-cases (find actor.object_id registry.objects)) [
        | inl e' ↦ ground arith
        | inr (header, e') ↦ ground arith
      ]
    ]

    module _ (plugin : Plugin) (obj : GameObject) (has : find name actor.plugins ≡ some plugin)
        (sees : seen registry actor.object_id ≡ some obj) (r : Executed Plugin)
        (ran : api.execute plugin obj s action input [] ≡ r) where
      pub invoke_module-apply_result :
          invoke_module api registry actor s name action input ≡ apply_result actor name r
      unfolding invoke_module get
      invoke_module-apply_result = elim (Option-cases (find actor.object_id registry.objects)) [
        | inl e ↦ absurd (ground arith)
        | inr (header, e) ↦ ground arith
      ]

      -- A call by an actor that has the plugin and whose object is registered, and which succeeds
      -- on an attached view with a delta of a 32-bit type as its output, writes the delta's bytes
      -- as the component that it names, over what the call itself has done to the storage, and
      -- nothing is reported.
      pub invoke_module-encode_delta :
          (type : ComponentType) (bytes : ComponentData)
          → r.ok ≡ true
          → r.obj.attached ≡ true
          → r.output ≡ encode_delta type bytes
          → type < 2 ^ 32
          → let done = invoke_module api registry actor s name action input in
            (done.storage ≡ write r.storage (object_id r.obj) type bytes) × (done.warned ≡ false)
      unfolding apply_result
      invoke_module-encode_delta type bytes ok on out small =
          let applied = apply_output_delta-encode_delta r.obj r.storage type bytes on small in
          rw invoke_module-apply_result (ground (arith, applied))

      -- A call by an actor that has the plugin and whose object is registered, and which succeeds
      -- with an output of fewer than 8 bytes, such as none at all, is reported like a broken one;
      -- what the call has done to the storage stays.
      pub invoke_module_short :
          r.ok ≡ true
          → length r.output < 8
          → let done = invoke_module api registry actor s name action input in
            (done.storage ≡ r.storage) × (done.warned ≡ true)
      unfolding apply_result apply_output_delta
      invoke_module_short ok short = rw invoke_module-apply_result (ground arith)

      -- A call that fails leaves the storage as the call has left it, and nothing is reported.
      pub invoke_module_fails :
          r.ok ≡ false
          → let done = invoke_module api registry actor s name action input in
            (done.storage ≡ r.storage) × (done.warned ≡ false)
      unfolding apply_result
      invoke_module_fails failed = rw invoke_module-apply_result (ground arith)

  -- A room passes the interval of a tick as its 8 bytes, from which the module reads it back, and a
  -- message as its bytes alone.
  pub perform_lem :
      (actor : ActorWithObject Plugin) (s : ComponentStorage) (interval_ms : ℕ) (msg : ActorMessage)
      → interval_ms < 2 ^ 64
      → ((input : Bytes) × (perform api registry actor s (ticked interval_ms)
            ≡ invoke_module api registry actor s "room" "tick" input)
          × (length input ≡ 8)
          × (from_le input ≡ interval_ms))
        × (perform api registry actor s (handled msg)
            ≡ invoke_module api registry actor s "room" "handle_message" msg.payload)
  unfolding perform
  perform_lem actor s interval_ms msg h =
      ((to_le 8 interval_ms, refl, length-to_le 8 interval_ms, from_le-to_le_8 interval_ms h), refl)
