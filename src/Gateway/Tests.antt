-- ===== src/Gateway/Tests.antt =====
-- A gateway with two sessions and a handler, which is a number.
use wasm_hot.Base.{map, ℕ, ◌≡◌, refl, [], ◌∷◌, List, none, some, true, false, arith, nat_key}
use wasm_hot.Bytes.{to_le}
use wasm_hot.Dict.{find}
use wasm_hot.Session.{new_sending, Action, serve, header}
use wasm_hot.Session.Buffered.{reads, reads_laws}
use wasm_hot.Session.Stream.{frames}
use wasm_hot.Gateway.Delivery.{AllTyped, typed, on_actions, serve-on_actions}
use wasm_hot.Bytes.{Bytes}
use wasm_hot.Gateway.{
  Gateway, HandlerCall, Listening, new_gateway, register_handler, call_handler, on_receive, send,
  on_session_closed, on_accept, initialize, given, any_v4,
}
use wasm_hot.Gateway.Accept.{Call, accepts, closes, sends, registers, run, initialize_lem}
use wasm_hot.Gateway.Dispatch.{on_receive-register_handler, send_lem}

abbrev gateway : Gateway ℕ
gateway = record {
  handlers = (1, 77) ∷ [];
  sessions = (1, new_sending) ∷ (2, new_sending) ∷ [];
  next_session_id = 3;
}

abbrev calls : List (Call ℕ)
calls = registers 1 77 ∷ accepts true ∷ accepts false ∷ accepts true ∷ []

opened : run new_gateway calls ≡ gateway
unfolding run wasm_hot.Gateway.Accept.step on_accept register_handler wasm_hot.Dict.assign
    new_gateway
opened = refl

on_receive-register_handler_run :
    on_receive (register_handler gateway 1 88) 2 0 (1 ∷ 0 ∷ 0 ∷ 0 ∷ [])
    ≡ some (record { handler = 88; session_id = 2; player_id = 0; msg = 1 ∷ 0 ∷ 0 ∷ 0 ∷ [] })
unfolding wasm_hot.Bytes.read_u32 wasm_hot.Bytes.from_le
on_receive-register_handler_run = on_receive-register_handler gateway 1 88 2 0 (1 ∷ 0 ∷ 0 ∷ 0 ∷ [])

send_lem_run :
    (find {K = ℕ} 2 (send gateway 1 (9 ∷ [])).sessions ≡ some new_sending)
    × (send (on_session_closed gateway 1) 1 (9 ∷ []) ≡ on_session_closed gateway 1)
unfolding find
send_lem_run = send_lem gateway 1 2 (9 ∷ [])

abbrev greetings : List (ℕ × Bytes)
greetings = (1, 104 ∷ []) ∷ (2, []) ∷ (1, []) ∷ []

greetings-AllTyped : AllTyped greetings
greetings-AllTyped = ground arith

-- No handler has the type 2.
serve-on_actions_example :
    (actions : List Action) × (serve reads 8 header (frames (map typed greetings)) ≡ some actions)
    × ((on_actions gateway 2 actions).1
        ≡ record { handler = 77; session_id = 2; player_id = 0; msg = typed (1, 104 ∷ []) }
          ∷ record { handler = 77; session_id = 2; player_id = 0; msg = typed (1, []) }
          ∷ [])
    × (find {K = ℕ} 2 (on_actions gateway 2 actions).0.sessions ≡ none)
unfolding call_handler find
serve-on_actions_example =
    serve-on_actions reads gateway 2 8 greetings reads_laws greetings-AllTyped (omega arith)
