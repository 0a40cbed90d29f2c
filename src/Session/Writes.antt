-- ===== src/Session/Writes.antt =====
-- The sending half of a session of core/gateway.cpp, from Send to the end of each write.
use wasm_hot.Base.{
  ◌≡◌, ◌⊎◌, inl, inr, refl, ap, sym, ◌∙◌, [], ◌∷◌, ◌++◌, List, map, Option, none, some, true, false,
  arith, append-nil, append_assoc, is_some, Option-cases, Bool-cases,
}
use mathlib.Core.List.{map-append}
use wasm_hot.Bytes.{Bytes}
use wasm_hot.Session.{Sending, frame, send, on_written}

-- What happens to the sending half until a write fails.
pub data WriteStep : Type 0 where
  sends : Bytes → WriteStep
  written_ok : WriteStep

unfoldable pub write_step : Sending → WriteStep → Sending
write_step s (sends msg) = send s msg
write_step s written_ok = on_written s

unfoldable pub write_run : Sending → List WriteStep → Sending
unfolding write_step
write_run s [] = s
write_run s (x ∷ xs) = write_run (write_step s x) xs

unfoldable pub sent : List WriteStep → List Bytes
sent [] = []
sent (sends msg ∷ xs) = msg ∷ sent xs
sent (written_ok ∷ xs) = sent xs

abbrev pub in_flight_part : Option Bytes → List Bytes
in_flight_part none = []
in_flight_part (some bytes) = bytes ∷ []

-- The frames on the wire, and those still to be made.
abbrev pub all_frames : Sending → List Bytes
all_frames s = s.written ++ (in_flight_part s.in_flight ++ map frame s.send_queue)

-- A write is in progress exactly if a frame is in flight, and without one nothing waits.
pub record IsSending (s : Sending) : Type 0 where
  pub busy : s.send_in_progress ≡ is_some s.in_flight
  pub idle : s.send_in_progress ≡ false → s.send_queue ≡ []

-- The two ways of Send.
send_idle :
    (s : Sending) (msg : Bytes)
    → s.send_in_progress ≡ false
    → s.send_queue ≡ []
    → send s msg
      ≡ record s { send_queue = []; send_in_progress = true; in_flight = some (frame msg) }
unfolding send
send_idle s msg e f = ground arith

send_busy :
    (s : Sending) (msg : Bytes)
    → s.send_in_progress ≡ true
    → send s msg ≡ record s { send_queue = s.send_queue ++ msg ∷ [] }
unfolding send
send_busy s msg e = ground arith

-- The end of a write, with nothing left and with a message left.
written_last :
    (s : Sending) (bytes : Bytes)
    → s.in_flight ≡ some bytes
    → s.send_queue ≡ []
    → on_written s ≡ record {
      send_queue = [];
      send_in_progress = false;
      in_flight = none;
      written = s.written ++ bytes ∷ [];
    }
unfolding on_written
written_last s bytes e f = ground arith

written_next :
    (s : Sending) (bytes msg : Bytes) (rest : List Bytes)
    → s.in_flight ≡ some bytes
    → s.send_queue ≡ msg ∷ rest
    → on_written s ≡ record s {
      send_queue = rest;
      in_flight = some (frame msg);
      written = s.written ++ bytes ∷ [];
    }
unfolding on_written
written_next s bytes msg rest e f = ground arith

written_none : (s : Sending) → s.in_flight ≡ none → on_written s ≡ s
unfolding on_written
written_none s e = ground arith

List-cases {ℓ} : {A : Type ℓ} (xs : List A) → (xs ≡ []) ⊎ ((y : A) × (ys : List A) × (xs ≡ y ∷ ys))
List-cases [] = inl refl
List-cases (x ∷ xs) = inr (x, xs, refl)

-- What a step does to the frames, besides keeping the state in order.
abbrev Keeps : Sending → Sending → List Bytes → Type 0
Keeps s s' msgs = IsSending s' × (all_frames s' ≡ all_frames s ++ map frame msgs)

send-Keeps : (s : Sending) (msg : Bytes) → IsSending s → Keeps s (send s msg) (msg ∷ [])
send-Keeps s msg v = elim (Bool-cases s.send_in_progress) [
  | inl on ↦ rw (send_busy s msg on) (
    record { busy = v.busy; idle = λ off. absurd (ground arith) },
    simp (map-append, append_assoc),
  )
  | inr off ↦ elim (Option-cases s.in_flight) [
    | inl e ↦ rw (send_idle s msg off (v.idle off)) (
      record { busy = refl; idle = λ stopped. absurd (ground arith) },
      simp (e, v.idle off, append-nil),
    )
    | inr (bytes, e) ↦ let b = v.busy in absurd (ground arith)
  ]
]

busy_now :
    (s : Sending) (bytes : Bytes)
    → IsSending s
    → s.in_flight ≡ some bytes
    → s.send_in_progress ≡ true
busy_now s bytes v e = ground arith

not_idle :
    (s : Sending) (bytes : Bytes)
    → IsSending s
    → s.in_flight ≡ some bytes
    → ¬ (s.send_in_progress ≡ false)
not_idle s bytes v e stopped = let on = busy_now s bytes v e in ground arith

written-Keeps : (s : Sending) → IsSending s → Keeps s (on_written s) []
written-Keeps s v = elim (Option-cases s.in_flight) [
  | inl e ↦ rw (written_none s e) (v, sym (append-nil (all_frames s)))
  | inr (bytes, e) ↦ elim (List-cases s.send_queue) [
    | inl f ↦
        rw (written_last s bytes e f)
          (record { busy = refl; idle = λ stopped. refl }, simp (e, f, append-nil))
    | inr (msg, rest, f) ↦ rw (written_next s bytes msg rest e f) (
      record {
        busy = busy_now s bytes v e;
        idle = λ stopped. absurd (not_idle s bytes v e stopped);
      },
      simp (e, f, append-nil, append_assoc),
    )
  ]
]

-- From a sending half that is in order, whatever is sent and however the writes end without an
-- error, the frames on the wire and those still waiting are the frames from before and of the
-- messages sent, in order; a write is in progress exactly if a frame is in flight, and none only if
-- no message waits.
pub write_run-Keeps :
    (s : Sending) (xs : List WriteStep) → IsSending s → Keeps s (write_run s xs) (sent xs)
unfolding write_run sent
write_run-Keeps s [] v = (v, sym (append-nil (all_frames s)))
write_run-Keeps s (sends msg ∷ xs) v =
    let (v', one) = send-Keeps s msg v in
    let (v'', rest) = write_run-Keeps (send s msg) xs v' in
    (v'', rest ∙ ap (λ l. l ++ map frame (sent xs)) one ∙ append_assoc (all_frames s) _ _)
write_run-Keeps s (written_ok ∷ xs) v =
    let (v', one) = written-Keeps s v in
    let (v'', rest) = write_run-Keeps (on_written s) xs v' in
    (v'', rest ∙ ap (λ l. l ++ map frame (sent xs)) (one ∙ append-nil (all_frames s)))
