-- ===== src/ActorRuntime/Routing.antt =====
-- Which actors a message or a tick reaches.
use wasm_hot.Base.{
  Bool, false, ℕ, zero, suc, ◌≡◌, refl, sym, ap, ◌∙◌, [], ◌∷◌, List, map, Option, none, some, arith,
  ◌==◌, nat_key, if◌then◌else◌, Option-cases, inl, inr, Bool-cases,
}
use wasm_hot.Bytes.{Bytes}
use wasm_hot.Dict.{Dict, find, erase, find-assign, find-erase}
use wasm_hot.Actor.{Actor, enqueue_message, schedule_tick}
use wasm_hot.ActorRuntime.{
  ActorPtr, ActorRuntime, update_at, spawn, kill, tick_each, tick, send_message,
}

abbrev pub map_actor : (Actor → Actor) → Option Actor → Option Actor
map_actor f none = none
map_actor f (some a) = some (f a)

find-update_at :
    (address q : ℕ) (f : Actor → Actor) (heap : Dict ℕ Actor)
    → find q (update_at address f heap)
      ≡ (if address == q then map_actor f (find q heap) else find q heap)
unfolding update_at
find-update_at address q f heap = elim (Option-cases (find address heap)) [
  | inl e ↦ ground arith
  | inr (a, e) ↦ ground (arith, find-assign address q (f a) heap)
]

-- The actor that an id stands for at the moment.
abbrev pub address_of : ActorRuntime → ℕ → Option ℕ
address_of rt id = elim (find id rt.actors) [ none ↦ none | some actor ↦ some actor.address ]

abbrev pub stands_for : ActorRuntime → ℕ → ℕ → Bool
stands_for rt id q = elim (address_of rt id) [ none ↦ false | some address ↦ address == q ]

-- A message is enqueued at the actor that its target id stands for, and nowhere else; with an unknown
-- target it is dropped. The table of actors does not change.
pub send_message_lem :
    (rt : ActorRuntime) (from_id to_id q : ℕ) (payload : Bytes)
    → let rt' = send_message rt from_id to_id payload in
      (rt'.actors ≡ rt.actors)
      × (find q rt'.heap ≡ (
          if stands_for rt to_id q
          then map_actor (λ a. enqueue_message a from_id payload) (find q rt.heap)
          else find q rt.heap))
unfolding send_message
send_message_lem rt from_id to_id q payload = elim (Option-cases (find to_id rt.actors)) [
  | inl e ↦ (ground arith, ground arith)
  | inr (actor, e) ↦
      let f = λ (a : Actor). enqueue_message a from_id payload in
      let moved = find-update_at actor.address q f rt.heap in (ground arith, ground arith)
]

-- After Kill a message to the id is dropped, and the killed actor keeps what it has; a later Spawn
-- under the id receives again.
pub kill_lem :
    (rt : ActorRuntime) (id from_id : ℕ) (payload : Bytes) (actor : ActorPtr)
    → (send_message (kill rt id) from_id id payload ≡ kill rt id)
      × ((kill rt id).heap ≡ rt.heap)
      × (address_of (spawn (kill rt id) actor) actor.actor_id ≡ some actor.address)
unfolding send_message kill spawn
kill_lem rt id from_id payload actor = ground (
  arith,
  find-erase id id rt.actors,
  find-assign actor.actor_id actor.actor_id actor (erase id rt.actors),
)

-- How often an address stands in the table.
abbrev pub count_address : ℕ → List ActorPtr → ℕ
count_address q [] = 0
count_address q (actor ∷ rest) =
    if actor.address == q then suc (count_address q rest) else count_address q rest

abbrev pub times : ℕ → (Actor → Actor) → Actor → Actor
times zero f a = a
times (suc n) f a = times n f (f a)

map_actor-zero : (f : Actor → Actor) (o : Option Actor) → map_actor (times zero f) o ≡ o
map_actor-zero f none = refl
map_actor-zero f (some a) = refl

map_actor-suc :
    (n : ℕ) (f : Actor → Actor) (o : Option Actor)
    → map_actor (times n f) (map_actor f o) ≡ map_actor (times (suc n) f) o
map_actor-suc n f none = refl
map_actor-suc n f (some a) = refl

find-tick_each :
    (interval_ms q : ℕ) (snapshot : List ActorPtr) (heap : Dict ℕ Actor)
    → find q (tick_each interval_ms snapshot heap)
      ≡ map_actor
          (times (count_address q snapshot) (λ a. schedule_tick a interval_ms))
          (find q heap)
unfolding tick_each
find-tick_each interval_ms q [] heap =
    sym (map_actor-zero (λ a. schedule_tick a interval_ms) (find q heap))
find-tick_each interval_ms q (actor ∷ rest) heap =
    let f = λ (a : Actor). schedule_tick a interval_ms in
    let n = count_address q rest in
    find-tick_each interval_ms q rest (update_at actor.address f heap)
    ∙ ap (map_actor (times n f)) (find-update_at actor.address q f heap)
    ∙ elim (Bool-cases (actor.address == q)) [
      | inl same ↦ rw same (map_actor-suc n f (find q heap))
      | inr other ↦ rw other
    ]

-- A tick of the runtime schedules one tick at an actor for every id that stands for it, and none at
-- any other actor.
pub tick_lem :
    (rt : ActorRuntime) (interval_ms q : ℕ)
    → find q (tick rt interval_ms).heap
      ≡ map_actor
          (times
            (count_address q (map (λ entry. entry.1) rt.actors))
            (λ a. schedule_tick a interval_ms))
          (find q rt.heap)
unfolding tick
tick_lem rt interval_ms q = find-tick_each interval_ms q (map (λ entry. entry.1) rt.actors) rt.heap
