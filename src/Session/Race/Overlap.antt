-- ===== src/Session/Race/Overlap.antt =====
-- When two lambdas of Send of core/gateway.cpp overlap, and when they do not.
use wasm_hot.Base.{
  ℕ, ◌≡◌, refl, sym, subst, Option-cases, ap, [], ◌∷◌, List, none, true, false, arith, nat_key,
  key_refl, Bool-cases, inl, inr,
}
use wasm_hot.Bytes.{Bytes}
use wasm_hot.Dict.{find, assign, erase}
use wasm_hot.Session.{Sending, new_sending, frame, send}
use wasm_hot.Session.Writes.{IsSending, in_flight_part}
use wasm_hot.Session.Race.{
  Shared, post, write_front, advance_from, advance, Step, posts, advances, step, run,
}

-- The members while no lambda runs.
abbrev pub at_rest : Sending → Shared
at_rest s = record {
  send_queue = s.send_queue;
  send_in_progress = s.send_in_progress;
  in_flights = in_flight_part s.in_flight;
  threads = [];
}

-- A thread takes a lambda and runs all of its statements.
abbrev pub whole_lambda : ℕ → Bytes → List Step
whole_lambda thread msg =
    posts thread msg ∷ advances thread ∷ advances thread ∷ advances thread ∷ advances thread ∷ []

-- Two threads take a lambda each and come to each statement together.
abbrev pub side_by_side : Bytes → Bytes → List Step
side_by_side a b =
    posts 1 a
    ∷ posts 2 b
    ∷ advances 1
    ∷ advances 2
    ∷ advances 1
    ∷ advances 2
    ∷ advances 1
    ∷ advances 2
    ∷ advances 1
    ∷ advances 2
    ∷ []

abbrev resting : List Bytes → Sending
resting written = record {
  send_queue = [];
  send_in_progress = false;
  in_flight = none;
  written = written;
}

lambda_at_rest :
    (thread : ℕ) (msg : Bytes) (written : List Bytes)
    → run (at_rest (resting written)) (whole_lambda thread msg)
      ≡ at_rest (send (resting written) msg)
unfolding run step post advance advance_from write_front find assign erase send
lambda_at_rest thread msg written = ground (arith, key_refl thread)

resting_lem : (s : Sending) → IsSending s → s.send_in_progress ≡ false → s ≡ resting s.written
resting_lem s v e = elim (Option-cases s.in_flight) [
  | inl none_yet ↦ let empty = v.idle e in ground arith
  | inr (bytes, some_one) ↦ let busy = v.busy in absurd (ground arith)
]

-- A lambda that runs from its beginning to its end without another does what `send` says.
whole_lambda-send :
    (s : Sending) (thread : ℕ) (msg : Bytes)
    → IsSending s
    → run (at_rest s) (whole_lambda thread msg) ≡ at_rest (send s msg)
unfolding run step post advance advance_from write_front find assign erase send
whole_lambda-send s thread msg v = elim (Bool-cases s.send_in_progress) [
  | inl e ↦ ground (arith, key_refl thread)
  | inr e ↦
      subst (λ (t : Sending). run (at_rest t) (whole_lambda thread msg) ≡ at_rest (send t msg))
        (sym (resting_lem s v e)) (lambda_at_rest thread msg s.written)
]

overlapping :
    (a b : Bytes)
    → run (at_rest new_sending) (side_by_side a b) ≡ record {
      send_queue = [];
      send_in_progress = true;
      in_flights = frame a ∷ frame b ∷ [];
      threads = [];
    }
unfolding run step post advance advance_from write_front find assign erase
overlapping a b = refl

-- From a sending half that is in order, a lambda of Send that runs without another does what the
-- step `send` says. Two lambdas on a new session that come to each statement together find no write
-- in progress, both start one, and two writes are in flight at once, which asio does not allow; one
-- after the other they leave one in flight.
pub race_lem :
    (s : Sending) (thread : ℕ) (msg a b : Bytes)
    → IsSending s
    → (run (at_rest s) (whole_lambda thread msg) ≡ at_rest (send s msg))
      × ((run (at_rest new_sending) (side_by_side a b)).in_flights ≡ frame a ∷ frame b ∷ [])
      × ((at_rest (send (send new_sending a) b)).in_flights ≡ frame a ∷ [])
unfolding send
race_lem s thread msg a b v =
    (whole_lambda-send s thread msg v, ap (λ t. t.in_flights) (overlapping a b), refl)
