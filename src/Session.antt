-- ===== src/Session.antt =====
-- Gateway::Session of core/gateway.cpp: one connection, its reads and its writes.
-- An async_read or async_write of asio ends with an error or with the whole buffer; the completions
-- of one session, and the lambdas that Send posts, run one after the other here.
pub mod Stream
pub mod Writes
pub mod Buffered
pub mod Race
mod Tests
use wasm_hot.Base.{
  ◌≡◌, ℕ, zero, suc, ◌+◌, ◌-◌, ◌%◌, ◌^◌, [], ◌∷◌, ◌++◌, List, Option, none, some, Bool, true, false,
  not, ltb, length, take, drop, if◌then◌else◌,
}
use wasm_hot.Bytes.{Bytes, to_le, from_le}
use wasm_hot.Object.{sizeof_u32}

pub data ErrorCode : Type 0 where
  eof operation_aborted other_error : ErrorCode

-- The result of an asynchronous operation.
pub data Completion : Type 0 where
  failed : ErrorCode → Completion
  got : Bytes → Completion

-- What a session asks of the gateway and of the log.
pub data Action : Type 0 where
  receives : Bytes → Action
  warns closes : Action

-- What the session waits for next; `stopped` means that it has started no other read.
pub data Reading : Type 0 where
  header : Reading
  body : ℕ → Reading
  stopped : Reading

-- HandleError: a warning unless the peer has gone or the operation was cancelled, and the close.
unfoldable pub handle_error : ErrorCode → List Action
handle_error eof = closes ∷ []
handle_error operation_aborted = closes ∷ []
handle_error other_error = warns ∷ closes ∷ []

-- The completion handler of DoReadHeader.
unfoldable pub on_header : Completion → Reading × List Action
unfolding handle_error
on_header (failed ec) = (stopped, handle_error ec)
on_header (got bytes) =
    let length_ = from_le bytes in
    if ltb length_ sizeof_u32 then (stopped, closes ∷ []) else (body length_, [])

-- The completion handler of DoReadBody.
unfoldable pub on_body : Completion → Reading × List Action
unfolding handle_error
on_body (failed ec) = (stopped, handle_error ec)
on_body (got body_buf) = (header, receives body_buf ∷ [])

-- asio::async_read: its completion for a buffer of the given size, and what is left of the bytes
-- that the peer sends before it closes the connection.
abbrev pub AsyncRead : Type 0
AsyncRead = ℕ → Bytes → Completion × Bytes

-- The whole buffer is filled where there are enough bytes, and at the end there is an error, eof.
pub record AsyncReadLaws (async_read : AsyncRead) : Type 0 where
  pub filled : (bytes rest : Bytes) → async_read (length bytes) (bytes ++ rest) ≡ (got bytes, rest)
  pub ended : (n : ℕ) → async_read (suc n) [] ≡ (failed eof, [])

-- Actions in front of those of a run.
abbrev pub and_then : List Action → Option (List Action) → Option (List Action)
and_then actions none = none
and_then actions (some more) = some (actions ++ more)

-- The session's reads against a whole incoming stream; `none` means that the rounds ran out.
unfoldable pub serve : AsyncRead → ℕ → Reading → Bytes → Option (List Action)
serve async_read zero state stream = none
serve async_read (suc rounds) header stream =
    let (completion, rest) = async_read sizeof_u32 stream in
    let (next, actions) = on_header completion in
    let later = serve async_read rounds next rest in and_then actions later
serve async_read (suc rounds) (body n) stream =
    let (completion, rest) = async_read n stream in
    let (next, actions) = on_body completion in
    let later = serve async_read rounds next rest in and_then actions later
serve async_read (suc rounds) stopped stream = some []

-- The frame that DoWrite makes of a message: its length as a uint32_t, and its bytes.
unfoldable pub frame : Bytes → Bytes
frame msg = to_le 4 (length msg % 2 ^ 32) ++ msg

-- The sending half. `in_flight` is the frame of the async_write that has not ended, `written` the
-- frames of those that have.
pub record Sending : Type 0 where
  pub send_queue : List Bytes
  pub send_in_progress : Bool
  pub in_flight : Option Bytes
  pub written : List Bytes

abbrev pub new_sending : Sending
new_sending = record { send_queue = []; send_in_progress = false; in_flight = none; written = [] }

unfoldable pub write_queue : Sending → List Bytes → Sending
write_queue s [] = record s { send_in_progress = false; in_flight = none }
write_queue s (msg ∷ rest) = record s { send_queue = rest; in_flight = some (frame msg) }

unfoldable pub do_write : Sending → Sending
unfolding write_queue
do_write s = write_queue s s.send_queue

-- The lambda that Send posts.
unfoldable pub send : Sending → Bytes → Sending
unfolding do_write
send s msg =
    let pushed = record s { send_queue = s.send_queue ++ msg ∷ [] } in
    if not s.send_in_progress then do_write (record pushed { send_in_progress = true }) else pushed

-- The completion of a write without an error.
unfoldable pub completed : Sending → Option Bytes → Sending
unfolding do_write
completed s none = s
completed s (some bytes) =
    do_write (record s { in_flight = none; written = s.written ++ bytes ∷ [] })

unfoldable pub on_written : Sending → Sending
unfolding completed
on_written s = completed s s.in_flight

-- The completion of a write with an error: the session closes and writes no more.
unfoldable pub on_write_error : Sending → ErrorCode → Sending × List Action
unfolding handle_error
on_write_error s ec = (record s { in_flight = none }, handle_error ec)
