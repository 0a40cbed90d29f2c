-- ===== src/ActorRuntime.antt =====
-- actor/actor_runtime.h and actor/actor_runtime.cpp: the table of running actors.
-- A shared_ptr is a number; `heap` holds the actor that it points to, also after Kill, since tasks on
-- the strand keep the actor alive.
pub mod Routing
mod Tests
use wasm_hot.Base.{ℕ, [], ◌∷◌, List, map, Option, none, some, nat_key}
use wasm_hot.Bytes.{Bytes}
use wasm_hot.Dict.{Dict, find, assign, erase}
use wasm_hot.Actor.{Actor, enqueue_message, schedule_tick}

-- std::shared_ptr<Actor>, and the actor_id of what it points to.
pub record ActorPtr : Type 0 where
  pub address : ℕ
  pub actor_id : ℕ

pub record ActorRuntime : Type 0 where
  pub actors : Dict ℕ ActorPtr
  pub heap : Dict ℕ Actor

-- A method call through a pointer.
unfoldable pub update_at : ℕ → (Actor → Actor) → Dict ℕ Actor → Dict ℕ Actor
update_at address f heap = elim (find address heap) [
  | none ↦ heap
  | some a ↦ assign address (f a) heap
]

unfoldable pub spawn : ActorRuntime → ActorPtr → ActorRuntime
spawn rt actor = record rt { actors = assign actor.actor_id actor rt.actors }

unfoldable pub kill : ActorRuntime → ℕ → ActorRuntime
kill rt actor_id = record rt { actors = erase actor_id rt.actors }

-- The second loop of Tick, over the snapshot.
unfoldable pub tick_each : ℕ → List ActorPtr → Dict ℕ Actor → Dict ℕ Actor
tick_each interval_ms [] heap = heap
tick_each interval_ms (actor ∷ rest) heap =
    tick_each interval_ms rest (update_at actor.address (λ a. schedule_tick a interval_ms) heap)

unfoldable pub tick : ActorRuntime → ℕ → ActorRuntime
tick rt interval_ms = record rt {
  heap = tick_each interval_ms (map (λ entry. entry.1) rt.actors) rt.heap;
}

unfoldable pub send_message : ActorRuntime → ℕ → ℕ → Bytes → ActorRuntime
send_message rt from_id to_id payload = elim (find to_id rt.actors) [
  | none ↦ rt
  | some actor ↦ record rt {
    heap = update_at actor.address (λ a. enqueue_message a from_id payload) rt.heap;
  }
]
