-- ===== src/Plugin/Backend/Rooms.antt =====
-- Room actors of actor/room_actor.cpp on WasmEdge plugins: what becomes of a room's own clone.
use wasm_hot.Base.{
  ℕ, ◌≡◌, refl, sym, ap, subst, ◌⊎◌, ◌++◌, inl, inr, [], ◌∷◌, List, Option, none, some, true,
  String, arith, if_both, Option-cases, nat_key, string_key,
}
use wasm_hot.Bytes.{Bytes, to_le}
use wasm_hot.Dict.{find, assign, find-assign}
use wasm_hot.Storage.{ComponentStorage}
use wasm_hot.Object.{GameObject}
use wasm_hot.Registry.{ObjectRegistry}
use wasm_hot.Registry.Objects.{seen}
use wasm_hot.RoomActor.Invoke.{invoke_module_missing, invoke_module-apply_result}
use wasm_hot.PluginInterface.{Executed}
use wasm_hot.Actor.{Event, handled, ticked}
use wasm_hot.Modules.{ModuleManager}
use wasm_hot.RoomActor.{
  ActorWithObject, Invoked, apply_result, invoke_module, loaded_plugin, clone_module, clone_modules,
  new_actor_with_object, new_room_actor, perform,
}
use wasm_hot.Plugin.{WasmEdgePlugin, WasmEdgeState, VmContext, Startup, clone}
use wasm_hot.Plugin.Resources.{holds, IsOwner, clone-Balanced}
use wasm_hot.Plugin.Execute.{Runtime, put_input, run_wasm, with_state, execute}
use wasm_hot.Plugin.Execute.Bounds.{IsUp}
use wasm_hot.Plugin.Backend.Owned.{
  OwnedPlugin, made_owned, clone_owned, execute_owned, owned_backend,
}
use wasm_hot.Plugin.Backend.Loaded.{owner-IsUp}

module _ {Vm Mem : Type 0} (rt : Runtime Vm Mem) where
  run_wasm-IsUp :
      (p : WasmEdgePlugin Vm Mem) (st : WasmEdgeState Vm Mem) (vm : VmContext Vm) (obj : GameObject)
      (s : ComponentStorage) (action : String) (input output : Bytes)
      → IsUp p
      → IsUp (run_wasm rt p st vm obj s action input output).plugin
  unfolding run_wasm
  run_wasm-IsUp p st vm obj s action input output v =
      elim (Option-cases (put_input rt st.memory input)) [
        | inl refused ↦ rw (refused, run_wasm) v
        | inr (memory, put) ↦ rw (put, run_wasm) (v.0, _, refl, refl)
      ]

  execute-IsUp :
      (p : WasmEdgePlugin Vm Mem) (obj : GameObject) (s : ComponentStorage) (action : String)
      (input output : Bytes)
      → IsUp p
      → IsUp (execute rt p obj s action input output).plugin
  unfolding execute with_state
  execute-IsUp p obj s action input output (on, st, e, held) = elim (Option-cases st.vm) [
    | inl none_there ↦ absurd (ground arith)
    | inr (vm, there) ↦
        let ran : execute rt p obj s action input output
            ≡ run_wasm rt p st vm obj s action input output =
          ground arith in
        subst (λ (r : Executed (WasmEdgePlugin Vm Mem)). IsUp r.plugin) (sym ran)
          (run_wasm-IsUp p st vm obj s action input output (on, st, e, held))
  ]

  made_owned-IsUp :
      (up : Startup Vm Mem) (p : WasmEdgePlugin Vm Mem) (made : OwnedPlugin Vm Mem)
      (r : ((q : WasmEdgePlugin Vm Mem) × (clone up p [] ≡ some (some q, holds q ++ []))
          × (q.initialized ≡ true)
          × IsOwner q)
        ⊎ (clone up p [] ≡ some (none, [])))
      → made_owned up p r ≡ some made
      → IsUp made.plugin
  made_owned-IsUp up p made (inl (q, e, on, owner)) h =
      subst
        (λ (o : Option (OwnedPlugin Vm Mem)). elim o [
          | none ↦ IsUp q
          | some made ↦ IsUp made.plugin
        ])
        h (owner-IsUp q q.initialized q.state refl refl on owner)
  made_owned-IsUp up p made (inr refused) h = absurd (ground arith)

  -- A clone that is made is up.
  clone_owned-IsUp :
      (up : Startup Vm Mem) (p made : OwnedPlugin Vm Mem)
      → clone_owned up p ≡ some made
      → IsUp made.plugin
  unfolding clone_owned
  clone_owned-IsUp up p made h = made_owned-IsUp up p.plugin made (clone-Balanced up p.plugin []) h

  abbrev pub HasNone : ActorWithObject (OwnedPlugin Vm Mem) → Type 0
  HasNone actor = find "room" actor.plugins ≡ none

  abbrev pub HasUp : ActorWithObject (OwnedPlugin Vm Mem) → Type 0
  HasUp actor = (p : OwnedPlugin Vm Mem) × (find "room" actor.plugins ≡ some p) × IsUp p.plugin

  new_room_actor_cases :
      (up : Startup Vm Mem) (modules : ModuleManager (OwnedPlugin Vm Mem)) (object_id : ℕ)
      → let room = new_room_actor (owned_backend rt) up modules object_id in
        HasNone room ⊎ HasUp room
  unfolding new_room_actor new_actor_with_object clone_modules clone_module find assign
  new_room_actor_cases up modules object_id = elim (Option-cases (loaded_plugin modules "room")) [
    | inl e ↦ inl (ground arith)
    | inr (p, e) ↦ elim (Option-cases (clone_owned up p)) [
      | inl e' ↦ inl (ground arith)
      | inr (made, e') ↦ inr (made, ground arith, clone_owned-IsUp up p made e')
    ]
  ]

  run_owned-IsUp :
      (p : OwnedPlugin Vm Mem) (obj : GameObject) (s : ComponentStorage) (action : String)
      (input : Bytes)
      → IsUp p.plugin
      → IsUp (execute_owned rt p obj s action input []).plugin.plugin
  unfolding execute_owned
  run_owned-IsUp p obj s action input up = execute-IsUp p.plugin obj s action input [] up

  apply_result-HasUp :
      (actor : ActorWithObject (OwnedPlugin Vm Mem)) (r : Executed (OwnedPlugin Vm Mem))
      → IsUp r.plugin.plugin
      → HasUp (apply_result actor "room" r).actor
  unfolding apply_result
  apply_result-HasUp actor r v =
      let there : find "room" (assign "room" r.plugin actor.plugins) ≡ some r.plugin =
        find-assign "room" "room" r.plugin actor.plugins in
      if_both (λ (d : Invoked (OwnedPlugin Vm Mem)). HasUp d.actor) r.ok (r.plugin, there, v)
        (r.plugin, there, v)

  -- One call by a room keeps a plugin that is up, and makes none.
  module _ (registry : ObjectRegistry) (actor : ActorWithObject (OwnedPlugin Vm Mem))
      (s : ComponentStorage) (action : String) (input : Bytes) where
    invoked : ActorWithObject (OwnedPlugin Vm Mem)
    invoked = (invoke_module (owned_backend rt) registry actor s "room" action input).actor

    missing : (HasNone actor) ⊎ (seen registry actor.object_id ≡ none) → invoked ≡ actor
    unfolding invoked
    missing h =
        ap (λ (d : Invoked (OwnedPlugin Vm Mem)). d.actor)
          (invoke_module_missing (owned_backend rt) registry actor s "room" action input h)

    invoked-HasNone : HasNone actor → HasNone invoked
    invoked-HasNone e = rw (missing (inl e)) e

    invoked-HasUp : HasUp actor → HasUp invoked
    unfolding invoked
    invoked-HasUp (p, e, up) = elim (Option-cases (seen registry actor.object_id)) [
      | inl e' ↦ subst HasUp (sym (missing (inr e'))) (p, e, up)
      | inr (obj, e') ↦
          let r = execute_owned rt p obj s action input [] in
          let ran =
            invoke_module-apply_result (owned_backend rt) registry actor s "room" action input p obj
              e e' r refl in
          subst (λ (d : Invoked (OwnedPlugin Vm Mem)). HasUp d.actor) (sym ran)
            (apply_result-HasUp actor r (run_owned-IsUp p obj s action input up))
    ]

  perform_keeps :
      (registry : ObjectRegistry) (actor : ActorWithObject (OwnedPlugin Vm Mem))
      (s : ComponentStorage) (event : Event)
      → let actor' = (perform (owned_backend rt) registry actor s event).actor in
        (HasNone actor → HasNone actor') × (HasUp actor → HasUp actor')
  unfolding perform invoked
  perform_keeps registry actor s (ticked interval_ms) = (
    invoked-HasNone registry actor s "tick" (to_le 8 interval_ms),
    invoked-HasUp registry actor s "tick" (to_le 8 interval_ms),
  )
  perform_keeps registry actor s (handled msg) = (
    invoked-HasNone registry actor s "handle_message" msg.payload,
    invoked-HasUp registry actor s "handle_message" msg.payload,
  )

  -- The calls of one room in turn, each on what the registry and the storage then hold.
  unfoldable pub perform_all :
      ActorWithObject (OwnedPlugin Vm Mem)
      → List (ObjectRegistry × ComponentStorage × Event)
      → ActorWithObject (OwnedPlugin Vm Mem)
  perform_all actor [] = actor
  perform_all actor ((registry, s, event) ∷ calls) =
      perform_all (perform (owned_backend rt) registry actor s event).actor calls

  perform_all_keeps :
      (actor : ActorWithObject (OwnedPlugin Vm Mem))
      (calls : List (ObjectRegistry × ComponentStorage × Event))
      → (HasNone actor → HasNone (perform_all actor calls))
        × (HasUp actor → HasUp (perform_all actor calls))
  unfolding perform_all
  perform_all_keeps actor [] = (λ e. e, λ v. v)
  perform_all_keeps actor ((registry, s, event) ∷ calls) =
      let here = perform_keeps registry actor s event in
      let rest =
        perform_all_keeps (perform (owned_backend rt) registry actor s event).actor calls in
      (λ e. rest.0 (here.0 e), λ v. rest.1 (here.1 v))

  -- A room on the WasmEdge backend that is made without a plugin has none after any ticks and
  -- messages, and one that is made with a clone of the room module has a plugin that is up before
  -- and after them: initialised, with both of its contexts, and not shut down. This is so whatever
  -- the registry and the storage hold at each call, and whatever WasmEdge answers.
  pub room_lem :
      (up : Startup Vm Mem) (modules : ModuleManager (OwnedPlugin Vm Mem)) (object_id : ℕ)
      (calls : List (ObjectRegistry × ComponentStorage × Event))
      → let room = new_room_actor (owned_backend rt) up modules object_id in
        let room' = perform_all room calls in
        ((HasNone room) × (HasNone room')) ⊎ ((HasUp room) × (HasUp room'))
  room_lem up modules object_id calls =
      let room = new_room_actor (owned_backend rt) up modules object_id in
      let kept = perform_all_keeps room calls in
      elim (new_room_actor_cases up modules object_id) [
        | inl e ↦ inl (e, kept.0 e)
        | inr v ↦ inr (v, kept.1 v)
      ]
