-- ===== src/Gateway/Accept.antt =====
-- The session ids that DoAccept of core/gateway.cpp hands out, and the start of the gateway.
use wasm_hot.Base.{
  ℕ, ◌<◌, ◌≡◌, [], ◌∷◌, List, some, Bool, true, ◌&&◌, ◌==◌, arith, is_some, nat_key, if◌then◌else◌,
}
use wasm_hot.Bytes.{Bytes}
use wasm_hot.Dict.{find, find-assign}
use wasm_hot.Session.{Sending, new_sending}
use wasm_hot.Session
use wasm_hot.Gateway.{
  Gateway, Listening, given, any_v4, register_handler, send, on_session_closed, on_accept,
  initialize,
}

-- What the network and the rest of the program do to the sessions.
pub data Call (Handler : Type 0) : Type 0 where
  accepts : Bool → Call Handler
  closes : ℕ → Call Handler
  sends : ℕ → Bytes → Call Handler
  registers : ℕ → Handler → Call Handler

module _ {Handler : Type 0} where
  unfoldable pub step : Gateway Handler → Call Handler → Gateway Handler
  step g (accepts ok) = on_accept g ok
  step g (closes session_id) = on_session_closed g session_id
  step g (sends session_id msg) = send g session_id msg
  step g (registers msg_type handler) = register_handler g msg_type handler

  unfoldable pub run : Gateway Handler → List (Call Handler) → Gateway Handler
  run g [] = g
  run g (c ∷ cs) = run (step g c) cs

  -- Every session has an id that was handed out, below the next one.
  abbrev pub IsNumbered : Gateway Handler → Type 0
  IsNumbered g = (q : ℕ) → is_some (find q g.sessions) ≡ true → q < g.next_session_id

  pub find-on_accept :
      (g : Gateway Handler) (accepted : Bool) (q : ℕ)
      → find q (on_accept g accepted).sessions
        ≡ (if accepted && g.next_session_id == q then some new_sending else find q g.sessions)
  unfolding on_accept
  find-on_accept g accepted q =
      ground (arith, find-assign g.next_session_id q new_sending g.sessions)

-- The gateway starts exactly if bind and listen succeed, and only then accepts connections; it binds
-- the given address if that is valid, and else every IPv4 address.
pub initialize_lem :
    (l : Listening)
    → ((initialize l).result_ok ≡ (l.bind_ok && l.listen_ok))
      × ((initialize l).accepting ≡ (initialize l).result_ok)
      × ((initialize l).address ≡ (if l.valid_address then given else any_v4))
unfolding initialize
initialize_lem l = ground arith
