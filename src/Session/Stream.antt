-- ===== src/Session/Stream.antt =====
-- The frames of DoWrite, of core/gateway.cpp, as the incoming bytes of a session.
use wasm_hot.Base.{
  subst, ℕ, zero, suc, ◌+◌, ◌*◌, ◌%◌, ◌^◌, ◌≤◌, ◌<◌, ◌≡◌, refl, ap, ◌∙◌, [], ◌∷◌, ◌++◌, List, map,
  some, arith, length, append_assoc,
}
use wasm_hot.Bytes.{Bytes, to_le, from_le, length-to_le, from_le-to_le}
use wasm_hot.Session.{
  Reading, header, body, Action, receives, closes, Completion, got, on_header, on_body, AsyncRead,
  AsyncReadLaws, failed, eof, handle_error, serve, and_then, frame,
}

-- The messages of a list, framed one after the other.
unfoldable pub frames : List Bytes → Bytes
frames [] = []
frames (msg ∷ rest) = frame msg ++ frames rest

-- A message that a frame can carry to the handler: it has a type, and its length fits 32 bits.
abbrev pub AllSendable : List Bytes → Type 0
AllSendable [] = Unit {0}
AllSendable (msg ∷ rest) = (4 ≤ length msg) × (length msg < 2 ^ 32) × AllSendable rest

on_header_framed :
    (msg : Bytes)
    → 4 ≤ length msg
    → length msg < 2 ^ 32
    → on_header (got (to_le 4 (length msg % 2 ^ 32))) ≡ (body (length msg), [])
unfolding on_header
on_header_framed msg h k =
    let small : length msg % 2 ^ 32 ≡ length msg = omega arith in
    let back : from_le (to_le 4 (length msg % 2 ^ 32)) ≡ length msg =
      from_le-to_le (length msg % 2 ^ 32) (omega arith) ∙ small in
    ground arith

module _ (async_read : AsyncRead) (laws : AsyncReadLaws async_read) where
  read_length :
      (msg rest : Bytes)
      → async_read 4 (frame msg ++ rest) ≡ (got (to_le 4 (length msg % 2 ^ 32)), msg ++ rest)
  unfolding frame
  read_length msg rest =
      let four = length-to_le 4 (length msg % 2 ^ 32) in
      rw append_assoc (
        subst
          (λ n.
            async_read n (to_le 4 (length msg % 2 ^ 32) ++ (msg ++ rest))
            ≡ (got (to_le 4 (length msg % 2 ^ 32)), msg ++ rest))
          four (laws.filled (to_le 4 (length msg % 2 ^ 32)) (msg ++ rest)))

  -- One round of the reads, with the result of its read.
  serve_header :
      (rounds : ℕ) (stream rest : Bytes) (c : Completion) {next : Reading} {actions : List Action}
      → async_read 4 stream ≡ (c, rest)
      → on_header c ≡ (next, actions)
      → serve async_read (suc rounds) header stream
        ≡ and_then actions (serve async_read rounds next rest)
  unfolding serve
  serve_header rounds stream rest c e f =
      ap
        (λ (p : Completion × Bytes).
          and_then (on_header p.0).1 (serve async_read rounds (on_header p.0).0 p.1))
        e
      ∙ ap (λ (q : Reading × List Action). and_then q.1 (serve async_read rounds q.0 rest)) f

  serve_body :
      (rounds n : ℕ) (stream rest : Bytes) (c : Completion) {next : Reading} {actions : List Action}
      → async_read n stream ≡ (c, rest)
      → on_body c ≡ (next, actions)
      → serve async_read (suc rounds) (body n) stream
        ≡ and_then actions (serve async_read rounds next rest)
  unfolding serve
  serve_body rounds n stream rest c e f =
      ap
        (λ (p : Completion × Bytes).
          and_then (on_body p.0).1 (serve async_read rounds (on_body p.0).0 p.1))
        e
      ∙ ap (λ (q : Reading × List Action). and_then q.1 (serve async_read rounds q.0 rest)) f

  -- Two rounds deliver one framed message.
  serve-frame :
      (rounds : ℕ) (msg rest : Bytes) (more : List Action)
      → 4 ≤ length msg
      → length msg < 2 ^ 32
      → serve async_read rounds header rest ≡ some more
      → serve async_read (suc (suc rounds)) header (frame msg ++ rest) ≡ some (receives msg ∷ more)
  unfolding on_body
  serve-frame rounds msg rest more h k e =
      serve_header (suc rounds) _ _ _ (read_length msg rest) (on_header_framed msg h k)
      ∙ ap (and_then []) (
          serve_body rounds (length msg) _ _ _ (laws.filled msg rest) refl
          ∙ ap (and_then (receives msg ∷ [])) e)

  serve_nothing : (rounds : ℕ) → serve async_read (suc (suc rounds)) header [] ≡ some (closes ∷ [])
  unfolding serve on_header handle_error
  serve_nothing rounds = serve_header (suc rounds) [] [] (failed eof) (laws.ended 3) refl

  -- With reads that obey their laws and enough rounds, a peer that sends framed messages, each with
  -- a type and shorter than 4 GiB, and then closes the connection has each of them received, in
  -- order, and the session closed after the last.
  pub serve-frames :
      (msgs : List Bytes) (rounds : ℕ)
      → AllSendable msgs
      → 2 * length msgs + 2 ≤ rounds
      → serve async_read rounds header (frames msgs) ≡ some (map receives msgs ++ closes ∷ [])
  unfolding frames
  serve-frames [] zero h k = absurd (omega arith)
  serve-frames [] (suc zero) h k = absurd (omega arith)
  serve-frames [] (suc (suc rounds)) h k = serve_nothing rounds
  serve-frames (msg ∷ rest) zero h k = absurd (omega arith)
  serve-frames (msg ∷ rest) (suc zero) h k = absurd (omega arith)
  serve-frames (msg ∷ rest) (suc (suc rounds)) h k =
      serve-frame rounds msg (frames rest) (map receives rest ++ closes ∷ []) h.0 h.1
        (serve-frames rest rounds h.2 (omega arith))
