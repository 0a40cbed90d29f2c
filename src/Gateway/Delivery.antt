-- ===== src/Gateway/Delivery.antt =====
-- A connection of core/gateway.cpp from the bytes that the peer sends to the handlers' calls.
use wasm_hot.Base.{
  ℕ, ◌+◌, ◌*◌, ◌^◌, ◌≤◌, ◌<◌, ◌≡◌, refl, ap, ap₂, ◌∙◌, [], ◌∷◌, ◌++◌, List, map, Option, none, some,
  length, length-append, arith, nat_key,
}
use wasm_hot.Bytes.{Bytes, to_le, length-to_le}
use wasm_hot.Dict.{find, find-erase}
use wasm_hot.Session.{Action, receives, warns, closes, header, serve, AsyncRead, AsyncReadLaws}
use wasm_hot.Session.Stream.{frames, AllSendable, serve-frames}
use wasm_hot.Gateway.{Gateway, HandlerCall, call_handler, on_receive, on_session_closed}
use wasm_hot.Gateway.Dispatch.{on_receive_typed}

abbrev pub calls_of {ℓ} : {A : Type ℓ} → Option A → List A
calls_of none = []
calls_of (some call) = call ∷ []

-- A message as the peer makes it: its type in front of its payload.
abbrev pub typed : ℕ × Bytes → Bytes
typed (msg_type, payload) = to_le 4 msg_type ++ payload

abbrev pub AllTyped : List (ℕ × Bytes) → Type 0
AllTyped [] = Unit {0}
AllTyped ((msg_type, payload) ∷ rest) =
    (msg_type < 2 ^ 32) × (4 + length payload < 2 ^ 32) × AllTyped rest

typed-AllSendable : (msgs : List (ℕ × Bytes)) → AllTyped msgs → AllSendable (map typed msgs)
typed-AllSendable [] h = tt
typed-AllSendable ((msg_type, payload) ∷ rest) h =
    let size = length-append (to_le 4 msg_type) payload in
    let four = length-to_le 4 msg_type in (omega arith, omega arith, typed-AllSendable rest h.2)

map-length : (msgs : List (ℕ × Bytes)) → length (map typed msgs) ≡ length msgs
map-length [] = refl
map-length (m ∷ msgs) = omega (arith, map-length msgs)

module _ {Handler : Type 0} where
  -- What the gateway does for an action of a session, which belongs to player 0.
  pub on_action : Gateway Handler → ℕ → Action → Gateway Handler × List (HandlerCall Handler)
  on_action g session_id (receives msg) = (g, calls_of (on_receive g session_id 0 msg))
  on_action g session_id warns = (g, [])
  on_action g session_id closes = (on_session_closed g session_id, [])

  pub on_actions : Gateway Handler → ℕ → List Action → Gateway Handler × List (HandlerCall Handler)
  on_actions g session_id [] = (g, [])
  on_actions g session_id (a ∷ rest) =
      let (g', calls) = on_action g session_id a in
      let (g'', more) = on_actions g' session_id rest in (g'', calls ++ more)

  -- The calls that the messages ask for: of the handler of each type, if there is one.
  abbrev pub expected_calls : Gateway Handler → ℕ → List (ℕ × Bytes) → List (HandlerCall Handler)
  expected_calls g session_id [] = []
  expected_calls g session_id ((msg_type, payload) ∷ rest) =
      calls_of (call_handler (find msg_type g.handlers) session_id 0 (typed (msg_type, payload)))
      ++ expected_calls g session_id rest

  on_actions-received :
      (g : Gateway Handler) (session_id : ℕ) (msgs : List (ℕ × Bytes))
      → AllTyped msgs
      → on_actions g session_id (map receives (map typed msgs) ++ closes ∷ [])
        ≡ (on_session_closed g session_id, expected_calls g session_id msgs)
  unfolding on_actions on_action
  on_actions-received g session_id [] h = refl
  on_actions-received g session_id ((msg_type, payload) ∷ rest) h =
      ap₂
        (λ (o : Option (HandlerCall Handler)) (r : Gateway Handler × List (HandlerCall Handler)).
          (r.0, calls_of o ++ r.1))
        (on_receive_typed g session_id 0 msg_type payload h.0)
        (on_actions-received g session_id rest h.2)

  -- With reads that obey their laws and enough rounds, a peer that sends framed messages, each with
  -- a 32-bit type in front and shorter than 4 GiB, and then closes the connection has for each
  -- message the handler of its type called, if there is one, once and in order, with the whole
  -- message; and then the session is gone.
  pub serve-on_actions :
      (async_read : AsyncRead) (g : Gateway Handler) (session_id rounds : ℕ)
      (msgs : List (ℕ × Bytes))
      → AsyncReadLaws async_read
      → AllTyped msgs
      → 2 * length msgs + 2 ≤ rounds
      → (actions : List Action) × (serve async_read rounds header (frames (map typed msgs))
          ≡ some actions)
        × ((on_actions g session_id actions).1 ≡ expected_calls g session_id msgs)
        × (find session_id (on_actions g session_id actions).0.sessions ≡ none)
  unfolding on_session_closed
  serve-on_actions async_read g session_id rounds msgs laws h enough =
      let actions = map receives (map typed msgs) ++ closes ∷ [] in
      let ran = on_actions-received g session_id msgs h in
      (
        actions,
        serve-frames async_read laws (map typed msgs) rounds (typed-AllSendable msgs h)
            (omega (arith, map-length msgs)),
        ap (λ (r : Gateway Handler × List (HandlerCall Handler)). r.1) ran,
        ap (λ (r : Gateway Handler × List (HandlerCall Handler)). find session_id r.0.sessions) ran
            ∙ ground (arith, find-erase session_id session_id g.sessions),
      )
