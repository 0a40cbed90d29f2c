-- ===== src/Logging/Size.antt =====
-- How large the file of the day becomes under sink_it_ of core/logging.cpp.
use wasm_hot.Base.{
  ℕ, ◌+◌, ◌<◌, ◌≤◌, ◌≡◌, refl, ◌∙◌, [], ◌∷◌, List, ◌==◌, ltb, max, String, length, arith, nat_key,
  string_key, pair_key, Bool-cases, inl, inr,
}
use wasm_hot.Bytes.{Bytes}
use wasm_hot.Dict.{find}
use wasm_hot.Logging.{
  size_of, flush, close, Files, FileHelper, FileHelperLaws, Sink, shift_files, new_sink, rotate,
  check_date_and_rotate, append, write_line, sink_it, g_min_file_size,
}
use wasm_hot.Logging.Rotation.{find-shift_files}

module _ (helper : FileHelper) where
  -- The bytes of the file of the day, with those that are still in its buffer.
  abbrev pub size_now : Sink → ℕ
  size_now s = size_of (find (s.base_filename, 0) s.files) + length s.buffered

  -- The size that the sink keeps is that of its file with the buffer.
  abbrev pub IsMeasured : Sink → Type 0
  IsMeasured s = s.current_size ≡ size_now s

  -- The sink measures its file, which is no larger than the limit or the one line in it.
  abbrev pub IsBounded : Sink → Bytes → Type 0
  IsBounded s bytes = IsMeasured s × (size_now s ≤ max s.max_size (length bytes))

  -- The sink after some lines, each with the file name of its moment.
  pub sink_run : Sink → List (String × Bytes) → Sink
  sink_run s [] = s
  sink_run s ((today, line) ∷ rest) = sink_run (sink_it helper s today line) rest

  module _ (laws : FileHelperLaws helper) where
    check_date_and_rotate-IsMeasured :
        (s : Sink) (today : String)
        → IsMeasured s
        → IsMeasured (check_date_and_rotate helper s today)
          × ((check_date_and_rotate helper s today).max_size ≡ s.max_size)
          × ((check_date_and_rotate helper s today).max_files ≡ s.max_files)
    unfolding check_date_and_rotate flush close
    check_date_and_rotate-IsMeasured s today v = elim (Bool-cases (today == s.base_filename)) [
      | inl e ↦ rw e (v, refl, refl)
      | inr e ↦
          let closed = close helper (flush helper s) in
          let opened = helper.open_file closed.files (today, 0) in
          rw e (omega (arith, laws.file_size_lem opened (today, 0)), refl, refl)
    ]

    flush-size : (s : Sink) → size_now (flush helper s) ≡ size_now s
    unfolding flush
    flush-size s = omega (arith, laws.size-flush_file s.files (s.base_filename, 0) s.buffered)

    rotate-empty : (s : Sink) → 0 < s.max_files → size_now (rotate helper s) ≡ 0
    unfolding rotate close flush
    rotate-empty s some_kept =
        let closed = close helper s in
        let shifted = shift_files closed.base_filename closed.max_files closed.files in
        ground (
          arith,
          laws.size-open_file shifted (s.base_filename, 0),
          find-shift_files s.base_filename s.max_files 0 closed.files,
        )

    append-size :
        (s : Sink) (bytes : Bytes) (new_size : ℕ)
        → size_now (append helper s bytes new_size) ≡ size_now s + length bytes
    unfolding append
    append-size s bytes new_size =
        laws.size-write_file s.files (s.base_filename, 0) s.buffered bytes

    write_line-IsBounded :
        (s : Sink) (bytes : Bytes)
        → IsMeasured s
        → 0 < s.max_files
        → IsBounded (write_line helper s bytes) bytes
    unfolding write_line append rotate flush close
    write_line-IsBounded s bytes v some_kept =
        let flushed = flush helper s in
        let new_size = s.current_size + length bytes in
        let disk = helper.file_size flushed.files (flushed.base_filename, 0) in
        let same = laws.file_size_lem flushed.files (s.base_filename, 0) in
        elim (Bool-cases (ltb s.max_size new_size)) [
          | inr e ↦ rw e (ground (arith, append-size s bytes new_size))
          | inl e ↦ elim (Bool-cases (ltb 0 disk)) [
            | inl e' ↦
                rw (e, e')
                  (ground (
                    arith,
                    append-size (rotate helper flushed) bytes (length bytes),
                    rotate-empty flushed some_kept,
                  ))
            | inr e' ↦
                rw (e, e') (ground (arith, append-size flushed bytes new_size, flush-size s, same))
          ]
        ]

    write_line-limits :
        (s : Sink) (bytes : Bytes)
        → ((write_line helper s bytes).max_size ≡ s.max_size)
          × ((write_line helper s bytes).max_files ≡ s.max_files)
    unfolding write_line append rotate flush close
    write_line-limits s bytes = ground arith

    abbrev Limits : Sink → ℕ → Type 0
    Limits s limit = IsMeasured s × (s.max_size ≡ limit) × (0 < s.max_files)

    sink_it-Limits :
        (s : Sink) (limit : ℕ) (today : String) (line : Bytes)
        → Limits s limit
        → Limits (sink_it helper s today line) limit
          × (size_now (sink_it helper s today line) ≤ max limit (length line))
    unfolding sink_it
    sink_it-Limits s limit today line v =
        let dated = check_date_and_rotate helper s today in
        let (measured, same_size, same_files) = check_date_and_rotate-IsMeasured s today v.0 in
        let (measured', bounded) = write_line-IsBounded dated line measured (omega arith) in
        let (kept_size, kept_files) = write_line-limits dated line in
        ((measured', kept_size ∙ same_size ∙ v.1, omega arith), omega arith)

    sink_run-Limits :
        (s : Sink) (limit : ℕ) (lines : List (String × Bytes))
        → Limits s limit
        → Limits (sink_run s lines) limit
    unfolding sink_run
    sink_run-Limits s limit [] v = v
    sink_run-Limits s limit ((today, line) ∷ rest) v =
        sink_run-Limits (sink_it helper s today line) limit rest
          (sink_it-Limits s limit today line v).0

    -- With a file helper that obeys its laws and at least one rotated file allowed, after every
    -- line, whatever was written and whatever the dates were before, the file of the day with
    -- what is still in its buffer is no larger than the limit, or than the line alone, and the sink's
    -- own count is this size.
    pub sink_it-size_now :
        (files : Files) (base today : String) (max_size max_files : ℕ)
        (lines : List (String × Bytes)) (line : Bytes)
        → 0 < max_files
        → let s =
            sink_it helper
              (sink_run (new_sink helper files base max_size max_files) lines)
              today
              line in
          (size_now s ≤ max (max max_size g_min_file_size) (length line))
          × (s.current_size ≡ size_now s)
    unfolding new_sink
    sink_it-size_now files base today max_size max_files lines line some_kept =
        let limit = max max_size g_min_file_size in
        let start = new_sink helper files base max_size max_files in
        let opened = helper.open_file files (base, 0) in
        let measured : IsMeasured start = omega (arith, laws.file_size_lem opened (base, 0)) in
        let before = sink_run-Limits start limit lines (measured, refl, omega arith) in
        let (after, bounded) = sink_it-Limits (sink_run start lines) limit today line before in
        (bounded, after.0)
