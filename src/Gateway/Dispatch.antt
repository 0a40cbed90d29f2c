-- ===== src/Gateway/Dispatch.antt =====
-- Which handler gets a message, and which session gets an answer.
use wasm_hot.Base.{
  ℕ, ◌^◌, ◌<◌, ◌≡◌, ◌++◌, Option, none, some, not, ◌&&◌, ◌==◌, ltb, arith, length, nat_key, inl,
  inr, Option-cases, if◌then◌else◌, take-append, length-append,
}
use wasm_hot.Bytes.{Bytes, to_le, read_u32, length-to_le, from_le-to_le}
use wasm_hot.Dict.{find, find-assign, find-erase}
use wasm_hot.Session.{Sending}
use wasm_hot.Session
use wasm_hot.Gateway.{Gateway, register_handler, call_handler, on_receive, send, on_session_closed}

abbrev pub queued : Bytes → Option Sending → Option Sending
queued msg none = none
queued msg (some session) = some (Session.send session msg)

read_type :
    (msg_type : ℕ) (payload : Bytes)
    → msg_type < 2 ^ 32
    → read_u32 0 (to_le 4 msg_type ++ payload) ≡ msg_type
unfolding read_u32
read_type msg_type payload h =
    rw (take-append (to_le 4 msg_type) payload 4 (length-to_le 4 _)) (from_le-to_le msg_type h)

module _ {Handler : Type 0} (g : Gateway Handler) where
  -- A message with its type in front goes to the handler registered for the type, if there is one,
  -- with the whole message and the session and player that it came with.
  pub on_receive_typed :
      (session_id player_id msg_type : ℕ) (payload : Bytes)
      → msg_type < 2 ^ 32
      → let msg = to_le 4 msg_type ++ payload in
        on_receive g session_id player_id msg
        ≡ call_handler (find msg_type g.handlers) session_id player_id msg
  unfolding on_receive
  on_receive_typed session_id player_id msg_type payload h = ground (
    arith,
    read_type msg_type payload h,
    length-append (to_le 4 msg_type) payload,
    length-to_le 4 msg_type,
  )

  -- A registration takes over the messages of its type, of at least 4 bytes, and no others.
  pub on_receive-register_handler :
      (msg_type : ℕ) (handler : Handler) (session_id player_id : ℕ) (msg : Bytes)
      → on_receive (register_handler g msg_type handler) session_id player_id msg ≡ (
          if not (ltb (length msg) 4) && msg_type == read_u32 0 msg
          then some (record {
            handler = handler;
            session_id = session_id;
            player_id = player_id;
            msg = msg;
          })
          else on_receive g session_id player_id msg)
  unfolding on_receive register_handler
  on_receive-register_handler msg_type handler session_id player_id msg =
      ground (arith, find-assign msg_type (read_u32 0 msg) handler g.handlers)

  -- A message is queued at the session that it is sent to, if that is open, and nowhere else; once a
  -- session is closed, sending to it changes nothing.
  pub send_lem :
      (session_id q : ℕ) (msg : Bytes)
      → (find q (send g session_id msg).sessions
          ≡ (if session_id == q then queued msg (find q g.sessions) else find q g.sessions))
        × (send (on_session_closed g session_id) session_id msg ≡ on_session_closed g session_id)
  unfolding send on_session_closed
  send_lem session_id q msg = elim (Option-cases (find session_id g.sessions)) [
    | inl e ↦ ground (arith, find-erase session_id session_id g.sessions)
    | inr (session, e) ↦ ground (
      arith,
      find-assign session_id q (Session.send session msg) g.sessions,
      find-erase session_id session_id g.sessions,
    )
  ]
