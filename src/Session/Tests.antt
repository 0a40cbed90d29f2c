-- ===== src/Session/Tests.antt =====
-- One connection, byte by byte.
use wasm_hot.Base.{◌≡◌, refl, [], ◌∷◌, List, some, arith}
use wasm_hot.Bytes.{Bytes, to_le, from_le}
use wasm_hot.Session.{header, receives, closes, serve, send, frame, new_sending, on_header, on_body}
use wasm_hot.Session.Buffered.{reads, reads_laws}
use wasm_hot.Session.Stream.{frames, AllSendable, serve-frames}
use wasm_hot.Session.Writes.{
  WriteStep, sends, written_ok, write_run, sent, all_frames, IsSending, write_run-Keeps,
}
use wasm_hot.Session.Race
use wasm_hot.Session.Race.Overlap.{at_rest, whole_lambda, side_by_side, race_lem}

abbrev hello : Bytes
hello = 1 ∷ 0 ∷ 0 ∷ 0 ∷ 104 ∷ []

framed : frame hello ≡ 5 ∷ 0 ∷ 0 ∷ 0 ∷ 1 ∷ 0 ∷ 0 ∷ 0 ∷ 104 ∷ []
unfolding frame to_le
framed = refl

-- A length below 4 ends the session.
too_short : serve reads 4 header (3 ∷ 0 ∷ 0 ∷ 0 ∷ 1 ∷ 2 ∷ 3 ∷ []) ≡ some (closes ∷ [])
unfolding serve on_header from_le
too_short = refl

-- A body that is cut off is not delivered.
cut_off : serve reads 4 header (5 ∷ 0 ∷ 0 ∷ 0 ∷ 1 ∷ 0 ∷ []) ≡ some (closes ∷ [])
unfolding serve on_header from_le on_body
cut_off = refl

hello-AllSendable : AllSendable (hello ∷ hello ∷ [])
hello-AllSendable = ground arith

serve-frames_example :
    serve reads 6 header (frames (hello ∷ hello ∷ []))
    ≡ some (receives hello ∷ receives hello ∷ closes ∷ [])
serve-frames_example =
    serve-frames reads reads_laws (hello ∷ hello ∷ []) 6 hello-AllSendable (omega arith)

new_sending-IsSending : IsSending new_sending
new_sending-IsSending = record { busy = refl; idle = λ stopped. refl }

abbrev steps : List WriteStep
steps = sends hello ∷ sends (2 ∷ []) ∷ written_ok ∷ sends (3 ∷ []) ∷ []

write_run-Keeps_example :
    IsSending (write_run new_sending steps)
    × (all_frames (write_run new_sending steps)
        ≡ frame hello ∷ frame (2 ∷ []) ∷ frame (3 ∷ []) ∷ [])
unfolding sent
write_run-Keeps_example = write_run-Keeps new_sending steps new_sending-IsSending

race_lem_example :
    (Race.run (at_rest new_sending) (whole_lambda 7 hello) ≡ at_rest (send new_sending hello))
    × ((Race.run (at_rest new_sending) (side_by_side hello (2 ∷ []))).in_flights
        ≡ frame hello ∷ frame (2 ∷ []) ∷ [])
    × ((at_rest (send (send new_sending hello) (2 ∷ []))).in_flights ≡ frame hello ∷ [])
race_lem_example = race_lem new_sending 7 hello hello (2 ∷ []) new_sending-IsSending
