-- ===== src/ActorRuntime/Tests.antt =====
-- A runtime with two actors.
use wasm_hot.Base.{ℕ, ◌≡◌, refl, [], ◌∷◌, some, nat_key}
use wasm_hot.Dict.{find}
use wasm_hot.Actor.{new_actor, schedule_tick}
use wasm_hot.ActorRuntime.{ActorPtr, ActorRuntime, spawn, tick, send_message}
use wasm_hot.ActorRuntime.Routing.{send_message_lem, tick_lem}

abbrev first : ActorPtr
first = record { address = 100; actor_id = 1 }

abbrev second : ActorPtr
second = record { address = 200; actor_id = 2 }

abbrev rt : ActorRuntime
rt = record {
  actors = (1, first) ∷ (2, second) ∷ [];
  heap = (100, new_actor) ∷ (200, new_actor) ∷ [];
}

spawned : spawn (spawn (record { actors = []; heap = rt.heap }) first) second ≡ rt
unfolding spawn wasm_hot.Dict.assign
spawned = refl

send_message_lem_run :
    ((send_message rt 1 2 (9 ∷ [])).actors ≡ rt.actors)
    × (find {K = ℕ} 100 (send_message rt 1 2 (9 ∷ [])).heap ≡ some new_actor)
unfolding find
send_message_lem_run = send_message_lem rt 1 2 100 (9 ∷ [])

tick_lem_run : find {K = ℕ} 200 (tick rt 16).heap ≡ some (schedule_tick new_actor 16)
unfolding find
tick_lem_run = tick_lem rt 16 200
