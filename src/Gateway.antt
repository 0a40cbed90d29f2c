-- ===== src/Gateway.antt =====
-- core/gateway.h and core/gateway.cpp: the listener, the sessions and the message handlers.
pub mod Accept
pub mod Dispatch
pub mod Delivery
mod Tests
use wasm_hot.Base.{
  ℕ, ◌+◌, ◌%◌, ◌^◌, [], ◌∷◌, ◌++◌, List, Option, none, some, Bool, true, false, not, ◌&&◌, ltb,
  length, String, nat_key, if◌then◌else◌,
}
use wasm_hot.Bytes.{Bytes, read_u32}
use wasm_hot.Dict.{Dict, find, assign, erase}
use wasm_hot.Object.{sizeof_u32}
use wasm_hot.Session.{Sending, new_sending}
use wasm_hot.Session

-- A handler is whatever was registered; a call of one is recorded with its arguments.
pub record HandlerCall (Handler : Type 0) : Type 0 where
  pub handler : Handler
  pub session_id : ℕ
  pub player_id : ℕ
  pub msg : Bytes

pub record Gateway (Handler : Type 0) : Type 0 where
  pub handlers : Dict ℕ Handler
  pub sessions : Dict ℕ Sending
  pub next_session_id : ℕ

module _ {Handler : Type 0} where
  unfoldable pub new_gateway : Gateway Handler
  new_gateway = record { handlers = []; sessions = []; next_session_id = 1 }

  unfoldable pub register_handler : Gateway Handler → ℕ → Handler → Gateway Handler
  register_handler g msg_type handler = record g { handlers = assign msg_type handler g.handlers }

  -- The lookup at the end of OnReceive.
  pub call_handler : Option Handler → ℕ → ℕ → Bytes → Option (HandlerCall Handler)
  call_handler none session_id player_id msg = none
  call_handler (some handler) session_id player_id msg =
      some (record { handler = handler; session_id = session_id; player_id = player_id; msg = msg })

  -- The handler that is called, if one is.
  unfoldable pub on_receive : Gateway Handler → ℕ → ℕ → Bytes → Option (HandlerCall Handler)
  unfolding call_handler
  on_receive g session_id player_id msg =
      if ltb (length msg) sizeof_u32
      then none
      else call_handler (find (read_u32 0 msg) g.handlers) session_id player_id msg

  unfoldable pub send : Gateway Handler → ℕ → Bytes → Gateway Handler
  send g session_id msg = elim (find session_id g.sessions) [
    | none ↦ g
    | some session ↦ record g { sessions = assign session_id (Session.send session msg) g.sessions }
  ]

  unfoldable pub on_session_closed : Gateway Handler → ℕ → Gateway Handler
  on_session_closed g session_id = record g { sessions = erase session_id g.sessions }

  -- The completion of async_accept; `accepted` is `!ec`. fetch_add wraps at 64 bits.
  unfoldable pub on_accept : Gateway Handler → Bool → Gateway Handler
  on_accept g accepted =
      if accepted
      then record g {
        next_session_id = (g.next_session_id + 1) % 2 ^ 64;
        sessions = assign g.next_session_id new_sending g.sessions;
      }
      else g

-- The answers of asio while the gateway starts, in the order of the calls.
pub record Listening : Type 0 where
  pub valid_address : Bool
  pub is_v6 : Bool
  pub open_ok : Bool
  pub v6_only_ok : Bool
  pub bind_ok : Bool
  pub listen_ok : Bool

pub data LogLine : Type 0 where
  invalid_address v6_only_failed bind_failed listen_failed : LogLine

pub data Address : Type 0 where
  given any_v4 : Address

-- What `Initialize` leaves: the result, the address that it binds, the log, and whether it accepts.
pub record Opened : Type 0 where
  pub result_ok : Bool
  pub address : Address
  pub lines : List LogLine
  pub accepting : Bool

-- bind, listen and DoAccept; -1 is `false`.
bind_and_listen : Listening → Address → List LogLine → Opened
bind_and_listen l address lines =
    if not l.bind_ok
    then record {
      result_ok = false;
      address = address;
      lines = lines ++ bind_failed ∷ [];
      accepting = false;
    }
    else if not l.listen_ok
    then record {
      result_ok = false;
      address = address;
      lines = lines ++ listen_failed ∷ [];
      accepting = false;
    }
    else record { result_ok = true; address = address; lines = lines; accepting = true }

-- The address that is bound is IPv6: a fallback is not.
abbrev binds_v6 : Listening → Bool
binds_v6 l = l.valid_address && l.is_v6

unfoldable pub initialize : Listening → Opened
unfolding bind_and_listen
initialize l =
    let lines = if l.valid_address then [] else invalid_address ∷ [] in
    let address = if l.valid_address then given else any_v4 in
    let v6_lines =
      if l.open_ok && binds_v6 l && not l.v6_only_ok then v6_only_failed ∷ [] else [] in
    bind_and_listen l address (lines ++ v6_lines)
