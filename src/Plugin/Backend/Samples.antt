-- ===== src/Plugin/Backend/Samples.antt =====
-- A room on a WasmEdge plugin whose wasm code counts the messages in component 1.
use wasm_hot.Base.{
  ℕ, ◌+◌, ◌%◌, ◌≤◌, ◌≡◌, refl, subst, sym, inr, [], ◌∷◌, Option, none, some, true, ◌==◌, arith,
  length, take, if◌then◌else◌, nat_key, string_key, List,
}
use wasm_hot.Bytes.{Bytes, to_le}
use wasm_hot.Dict.{find}
use wasm_hot.Storage.{ComponentStorage, ComponentData}
use wasm_hot.Storage.Lookup.{component}
use wasm_hot.Object.{GameObject, object_id}
use wasm_hot.Object.Delta.{encode_delta}
use wasm_hot.Registry.{ObjectRegistry}
use wasm_hot.Registry.Objects.{seen}
use wasm_hot.PluginInterface.{Executed}
use wasm_hot.Actor.{Actor, Move, run, new_actor, enqueue_message, schedule_tick}
use wasm_hot.Actor.Delivery.{messages, all_messages}
use wasm_hot.Actor.Liveness.{IsStrand}
use wasm_hot.RoomActor.{ActorWithObject}
use wasm_hot.RoomActor.Served.{Keeps, after, perform_each, room_serves}
use wasm_hot.Plugin.{WasmEdgePlugin}
use wasm_hot.Plugin.Execute.{
  Runtime, execute, put_input, run_wasm, with_state, take_output, fetch, params,
}
use wasm_hot.Plugin.Backend.{backend}

-- The byte that counts, and the component that is only this byte.
abbrev counted : Option ComponentData → ℕ
counted none = 1
counted (some []) = 1
counted (some (n ∷ rest)) = (n + 1) % 256

abbrev next : Option ComponentData → Bytes → ComponentData
next c input = counted c ∷ []

-- A memory whose two areas are one: what was put there last.
abbrev counting : Runtime ℕ Bytes
counting = record {
  memory_api = record {
    set_data = λ m bytes offset. some bytes;
    get_data = λ m offset n. some (take n m);
  };
  city_hash = λ action. if action == "tick" then 0 else 1;
  vm_execute = λ vm host m s func args. record {
    ok = true;
    ret = elim args [ [] ↦ 0 | hash ∷ rest ↦ if hash == 0 then 0 else 9 ];
    instance_state = vm.instance_state;
    memory = λ mem. encode_delta 1 (counted (component s host.object_id 1) ∷ []);
    storage = s;
  };
}

abbrev started : ℕ → Bytes → WasmEdgePlugin ℕ Bytes
started address mem = record {
  state = some (record {
    vm = some (record { address = address; instance_state = 0 });
    memory = some mem;
    host_module = some address;
  });
  path = "room.wasm";
  schema_version = 1;
  initialized = true;
}

abbrev IsReady : WasmEdgePlugin ℕ Bytes → Type 0
IsReady p = (address : ℕ) × (mem : Bytes) × (started address mem ≡ p)

abbrev answer : GameObject → ComponentStorage → ComponentData
answer obj s = encode_delta 1 (counted (component s (object_id obj) 1) ∷ [])

puts :
    (mem input : Bytes)
    → length input ≤ 4096
    → (m : Bytes) × (put_input counting (some mem) input ≡ some (some m))
unfolding put_input
puts mem [] h = (mem, refl)
puts mem (b ∷ bs) h = (b ∷ bs, ground arith)

on_message :
    (address : ℕ) (mem : Bytes) (obj : GameObject) (s : ComponentStorage) (input : Bytes)
    → length input ≤ 4096
    → execute counting (started address mem) obj s "handle_message" input [] ≡ record {
      ok = true;
      plugin = started address (answer obj s);
      obj = obj;
      storage = s;
      output = answer obj s;
    }
unfolding execute with_state run_wasm take_output fetch encode_delta params to_le
on_message address mem obj s input h =
    let (m, put) = puts mem input h in rw (put, execute, with_state, run_wasm) refl

on_tick :
    (address : ℕ) (mem : Bytes) (obj : GameObject) (s : ComponentStorage) (input : Bytes)
    → length input ≡ 8
    → execute counting (started address mem) obj s "tick" input [] ≡ record {
      ok = true;
      plugin = started address (answer obj s);
      obj = obj;
      storage = s;
      output = [];
    }
unfolding execute with_state run_wasm take_output fetch encode_delta params to_le
on_tick address mem obj s input h =
    let (m, put) = puts mem input (omega arith) in rw (put, execute, with_state, run_wasm) refl

counting-Keeps : Keeps (backend counting) IsReady 4096 1 next
counting-Keeps = record {
  on_message = λ p obj s input ready short.
      let ran = on_message ready.0 ready.1 obj s input short in
      subst
        (λ q.
          let r = execute counting q obj s "handle_message" input [] in
          IsReady r.plugin
          × (r.ok ≡ true)
          × (r.obj ≡ obj)
          × (r.storage ≡ s)
          × (r.output ≡ answer obj s))
        ready.2
        (subst
          (λ (r : Executed (WasmEdgePlugin ℕ Bytes)).
            IsReady r.plugin
            × (r.ok ≡ true)
            × (r.obj ≡ obj)
            × (r.storage ≡ s)
            × (r.output ≡ answer obj s))
          (sym ran) ((ready.0, answer obj s, refl), refl, refl, refl, refl));
  on_tick = λ p obj s input ready eight.
      let ran = on_tick ready.0 ready.1 obj s input eight in
      subst
        (λ q.
          let r = execute counting q obj s "tick" input [] in
          IsReady r.plugin × (r.ok ≡ true) × (r.storage ≡ s) × (r.output ≡ []))
        ready.2
        (subst
          (λ (r : Executed (WasmEdgePlugin ℕ Bytes)).
            IsReady r.plugin × (r.ok ≡ true) × (r.storage ≡ s) × (r.output ≡ []))
          (sym ran) ((ready.0, answer obj s, refl), refl, refl, refl));
}

abbrev room_view : GameObject
room_view = record {
  header = record { schema_version = 1; object_type = 7; object_id = 5 };
  attached = true;
}

abbrev registry : ObjectRegistry
registry = record { objects = (5, room_view.header) ∷ []; attached = true }

abbrev empty : ComponentStorage
empty = record { store = [] }

abbrev room : ActorWithObject (WasmEdgePlugin ℕ Bytes)
room = record { object_id = 5; plugins = ("room", started 1 []) ∷ [] }

has : find "room" room.plugins ≡ some (started 1 [])
unfolding find
has = refl

sees : seen registry 5 ≡ some room_view
unfolding wasm_hot.Registry.get find
sees = refl

abbrev waiting : Actor
waiting = schedule_tick (enqueue_message (enqueue_message new_actor 3 (7 ∷ [])) 4 (8 ∷ [])) 16

room_serves_example :
    (ms : List Move) × (b : Actor) × (run waiting ms ≡ some b)
    × IsStrand ms
    × (component (perform_each (backend counting) registry room empty b.log) 5 1
        ≡ after next (component empty 5 1) (all_messages waiting))
    × (b.mailbox ≡ [])
unfolding enqueue_message schedule_tick messages
room_serves_example =
    room_serves (backend counting) registry IsReady 4096 1 next counting-Keeps (omega arith)
      room_view refl room empty waiting (started 1 []) has (1, [], refl) sees (λ stopped. refl)
      (inr refl) (omega arith, (omega arith, tt))

-- The component is then the number of the messages.
number : after next none (all_messages waiting) ≡ some (2 ∷ [])
unfolding after enqueue_message schedule_tick messages
number = refl
