-- ===== src/Session/Buffered.antt =====
-- An async_read from a list of bytes, at which theorems about sessions of core/gateway.cpp are run.
use wasm_hot.Base.{
  ℕ, suc, ◌≡◌, refl, [], ◌++◌, ltb, length, take, drop, take-append, drop-append, length-append,
  arith, if◌then◌else◌,
}
use wasm_hot.Bytes.{Bytes}
use wasm_hot.Session.{AsyncRead, AsyncReadLaws, failed, eof, got}

-- A read from a list of bytes.
abbrev pub reads : AsyncRead
reads n stream =
    if ltb (length stream) n then (failed eof, []) else (got (take n stream), drop n stream)

reads_filled : (bytes rest : Bytes) → reads (length bytes) (bytes ++ rest) ≡ (got bytes, rest)
reads_filled bytes rest = ground (
  arith,
  take-append bytes rest (length bytes) refl,
  drop-append bytes rest (length bytes) refl,
  length-append bytes rest,
)

reads_ended : (n : ℕ) → reads (suc n) [] ≡ (failed eof, [])
reads_ended n = ground arith

pub reads_laws : AsyncReadLaws reads
reads_laws = record { filled = reads_filled; ended = reads_ended }
