-- ===== src/RoomActor/Served.antt =====
-- A room of actor/room_actor.cpp from the messages in its mailbox to the components of its object,
-- for a module that keeps one component.
use wasm_hot.Base.{
  length, ◌≤◌, ℕ, ◌<◌, ◌^◌, ◌≡◌, refl, sym, ap, subst, ◌∙◌, [], ◌∷◌, List, Option, some, true,
  String, arith, nat_key, string_key, if_both,
}
use wasm_hot.Bytes.{Bytes, to_le, length-to_le}
use wasm_hot.Dict.{find, find-assign}
use wasm_hot.Storage.{ComponentStorage, ComponentType, ComponentData, write}
use wasm_hot.Storage.Lookup.{component, component-write}
use wasm_hot.Object.{GameObject, object_id}
use wasm_hot.Object.Delta.{encode_delta}
use wasm_hot.Registry.{ObjectRegistry}
use wasm_hot.Registry.Objects.{seen}
use wasm_hot.PluginInterface.{IPlugin, Executed}
use wasm_hot.Actor.{Actor, ActorMessage, Event, handled, ticked, Move, run}
use wasm_hot.Actor.Waking.{IsAwake}
use wasm_hot.Actor.Delivery.{messages, all_messages, IsSettled}
use wasm_hot.Actor.Liveness.{IsStrand, delivers_all}
use wasm_hot.RoomActor.{ActorWithObject, Invoked, apply_result, invoke_module, perform}
use wasm_hot.RoomActor.Invoke.{
  invoke_module-apply_result, invoke_module-encode_delta, invoke_module_short,
}

-- A module that, called on a plugin that is ready, answers each message of at most `limit` bytes with
-- the new bytes of one component, from its bytes so far and the message, and has nothing to say to a
-- tick. The plugin stays ready.
pub record Keeps {World Plugin : Type 0} (api : IPlugin World Plugin) (IsReady : Plugin → Type 0)
    (limit : ℕ) (type : ComponentType) (next : Option ComponentData → Bytes → ComponentData)
    : Type 0 where
  pub on_message :
      (p : Plugin) (obj : GameObject) (s : ComponentStorage) (input : Bytes)
      → IsReady p
      → length input ≤ limit
      → let r = api.execute p obj s "handle_message" input [] in
        IsReady r.plugin
        × (r.ok ≡ true)
        × (r.obj ≡ obj)
        × (r.storage ≡ s)
        × (r.output ≡ encode_delta type (next (component s (object_id obj) type) input))
  pub on_tick :
      (p : Plugin) (obj : GameObject) (s : ComponentStorage) (input : Bytes)
      → IsReady p
      → length input ≡ 8
      → let r = api.execute p obj s "tick" input [] in
        IsReady r.plugin × (r.ok ≡ true) × (r.storage ≡ s) × (r.output ≡ [])

-- No message is longer than the limit.
abbrev pub FitAll : ℕ → List ActorMessage → Type 0
FitAll limit [] = Unit
FitAll limit (msg ∷ rest) = (length msg.payload ≤ limit) × FitAll limit rest

-- What the messages make of the component, one after the other.
unfoldable pub after :
    (Option ComponentData → Bytes → ComponentData)
    → Option ComponentData
    → List ActorMessage
    → Option ComponentData
after next c [] = c
after next c (msg ∷ rest) = after next (some (next c msg.payload)) rest

module _ {World Plugin : Type 0} (api : IPlugin World Plugin) (registry : ObjectRegistry) where
  -- The calls of a room in the order of its strand, from one storage to the next.
  unfoldable pub perform_each :
      ActorWithObject Plugin → ComponentStorage → List Event → ComponentStorage
  perform_each actor s [] = s
  perform_each actor s (event ∷ rest) =
      let d = perform api registry actor s event in perform_each d.actor d.storage rest

  module _ (IsReady : Plugin → Type 0) (limit : ℕ) (type : ComponentType)
      (next : Option ComponentData → Bytes → ComponentData)
      (keeps : Keeps api IsReady limit type next) (small : type < 2 ^ 32) (obj : GameObject)
      (attached : obj.attached ≡ true) where
    -- A room that has the module, ready, and sees the object.
    abbrev HasModule : ActorWithObject Plugin → Type 0
    HasModule actor =
        ((p : Plugin) × (find "room" actor.plugins ≡ some p) × IsReady p)
        × (seen registry actor.object_id ≡ some obj)

    apply_result-HasModule :
        (actor : ActorWithObject Plugin) (r : Executed Plugin)
        → HasModule actor
        → IsReady r.plugin
        → HasModule (apply_result actor "room" r).actor
    unfolding apply_result
    apply_result-HasModule actor r (has, sees) ready =
        let there = find-assign "room" "room" r.plugin actor.plugins in
        if_both (λ (d : Invoked Plugin). HasModule d.actor) r.ok ((r.plugin, there, ready), sees)
          ((r.plugin, there, ready), sees)

    invoked-HasModule :
        (actor : ActorWithObject Plugin) (s : ComponentStorage) (action : String) (input : Bytes)
        → ((p : Plugin) → IsReady p → IsReady (api.execute p obj s action input []).plugin)
        → HasModule actor
        → HasModule (invoke_module api registry actor s "room" action input).actor
    invoked-HasModule actor s action input stays ((p, has, ready), sees) =
        let r = api.execute p obj s action input [] in
        subst (λ (d : Invoked Plugin). HasModule d.actor)
          (sym (
            invoke_module-apply_result api registry actor s "room" action input p obj has sees r
              refl))
          (apply_result-HasModule actor r ((p, has, ready), sees) (stays p ready))

    handled_lem :
        (actor : ActorWithObject Plugin) (s : ComponentStorage) (msg : ActorMessage)
        → HasModule actor
        → length msg.payload ≤ limit
        → let d = perform api registry actor s (handled msg) in
          component d.storage (object_id obj) type
          ≡ some (next (component s (object_id obj) type) msg.payload)
    unfolding perform
    handled_lem actor s msg ((p, has, ready), sees) short =
        let r = api.execute p obj s "handle_message" msg.payload [] in
        let (_, ok, same, kept, out) = keeps.on_message p obj s msg.payload ready short in
        let bytes = next (component s (object_id obj) type) msg.payload in
        let (wrote, _) =
          invoke_module-encode_delta api registry actor s "room" "handle_message" msg.payload p obj
            has sees r refl type bytes ok (ap (λ (o : GameObject). o.attached) same ∙ attached) out
            small in
        ap (λ (s' : ComponentStorage). component s' (object_id obj) type) wrote
        ∙ ap
            (λ (o : GameObject).
              component (write r.storage (object_id o) type bytes) (object_id obj) type)
            same
        ∙ ground (arith, component-write r.storage (object_id obj) type (object_id obj) type bytes)

    ticked_lem :
        (actor : ActorWithObject Plugin) (s : ComponentStorage) (interval_ms : ℕ)
        → HasModule actor
        → (perform api registry actor s (ticked interval_ms)).storage ≡ s
    unfolding perform
    ticked_lem actor s interval_ms ((p, has, ready), sees) =
        let input = to_le 8 interval_ms in
        let (_, ok, kept, out) = keeps.on_tick p obj s input ready (length-to_le 8 interval_ms) in
        let (left, _) =
          invoke_module_short api registry actor s "room" "tick" input p obj has sees
            (api.execute p obj s "tick" input []) refl ok (ground (arith, out)) in
        left ∙ kept

    perform_each-after :
        (actor : ActorWithObject Plugin) (s : ComponentStorage) (events : List Event)
        → HasModule actor
        → FitAll limit (messages events)
        → component (perform_each actor s events) (object_id obj) type
          ≡ after next (component s (object_id obj) type) (messages events)
    unfolding perform_each messages after perform
    perform_each-after actor s [] v fit = refl
    perform_each-after actor s (handled msg ∷ rest) v (short, fit) =
        let d = perform api registry actor s (handled msg) in
        perform_each-after d.actor d.storage rest
          (invoked-HasModule actor s "handle_message" msg.payload
            (λ p ready. (keeps.on_message p obj s msg.payload ready short).0) v)
          fit
        ∙ ap (λ c. after next c (messages rest)) (handled_lem actor s msg v short)
    perform_each-after actor s (ticked interval_ms ∷ rest) v fit =
        let d = perform api registry actor s (ticked interval_ms) in
        perform_each-after d.actor d.storage rest
          (invoked-HasModule actor s "tick" (to_le 8 interval_ms)
            (λ p ready.
              (keeps.on_tick p obj s (to_le 8 interval_ms) ready (length-to_le 8 interval_ms)).0)
            v)
          fit
        ∙ ap (λ s'. after next (component s' (object_id obj) type) (messages rest))
            (ticked_lem actor s interval_ms v)

    -- A room with a plugin that is ready, whose module keeps one component, of a 32-bit type, and
    -- ignores ticks, while its object stays registered and nothing else writes to the storage: from
    -- every state of its actor that has no batch while it is between tasks, and a task for the
    -- messages that wait, and in which no message is longer than the module takes, steps of the
    -- strand alone lead to a state in which no message waits, and in which all calls of the room, on
    -- the storage from before the first of them, have made of the component what the module makes of
    -- all messages that were sent, one after the other.
    pub room_serves :
        (room : ActorWithObject Plugin) (s : ComponentStorage) (a : Actor)
        → (p : Plugin) → find "room" room.plugins ≡ some p
        → IsReady p
        → seen registry room.object_id ≡ some obj
        → IsSettled a
        → IsAwake a
        → FitAll limit (all_messages a)
        → (ms : List Move) × (b : Actor) × (run a ms ≡ some b)
          × IsStrand ms
          × (component (perform_each room s b.log) (object_id obj) type
              ≡ after next (component s (object_id obj) type) (all_messages a))
          × (b.mailbox ≡ [])
    room_serves room s a p has ready sees settled awake fit =
        let (ms, b, ran, strand, all, empty, _, _) = delivers_all a settled awake in
        (
          ms,
          b,
          ran,
          strand,
          perform_each-after room s b.log ((p, has, ready), sees)
                (subst (FitAll limit) (sym all) fit)
              ∙ ap (after next (component s (object_id obj) type)) all,
          empty,
        )
