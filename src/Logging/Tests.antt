-- ===== src/Logging/Tests.antt =====
-- A sink whose helper works on the table of files itself.
use wasm_hot.Base.{
  sym, Bool-cases, ◌==◌, inl, inr, ◌+◌, ◌≤◌, ◌≡◌, ◌≢◌, ◌⊎◌, refl, ap, ◌∙◌, [], ◌∷◌, ◌++◌, Option,
  none, some, max, length, length-append, arith, nat_key, string_key, pair_key, key_refl,
}
use wasm_hot.Bytes.{Bytes}
use wasm_hot.Dict.{find, assign, find-assign}
use wasm_hot.Logging.{
  FileName, Files, size_of, FileHelper, FileHelperLaws, Sink, check_date_and_rotate, shift_files,
  new_sink, sink_it, g_min_file_size,
}
use wasm_hot.Logging.Dates.{Tm, get_log_filename, check_date_and_rotate-get_log_filename}
use wasm_hot.Logging.Size.{size_now, sink_run, sink_it-size_now}

abbrev content_of : Option Bytes → Bytes
content_of none = []
content_of (some content) = content

abbrev appended : Files → FileName → Bytes → Files
appended files name bytes = assign name (content_of (find name files) ++ bytes) files

-- Opening makes the file, and a write leaves all of its bytes in the buffer.
abbrev table : FileHelper
table = record {
  open_file = λ files name. appended files name [];
  write_file = λ files name buffered bytes. (files, buffered ++ bytes);
  flush_file = appended;
  file_size = λ files name. size_of (find name files);
}

size-content_of :
    (o : Option Bytes) (bytes : Bytes) → length (content_of o ++ bytes) ≡ size_of o + length bytes
size-content_of none bytes = omega arith
size-content_of (some content) bytes = length-append content bytes

appended-size :
    (files : Files) (name : FileName) (bytes : Bytes)
    → size_of (find name (appended files name bytes)) ≡ size_of (find name files) + length bytes
appended-size files name bytes =
    ap size_of (find-assign name name (content_of (find name files) ++ bytes) files)
    ∙ ground (arith, key_refl name, size-content_of (find name files) bytes)

table_laws : FileHelperLaws table
table_laws = record {
  size-open_file = λ files name. omega (arith, appended-size files name []);
  size-write_file = λ files name buffered bytes. omega (arith, length-append buffered bytes);
  size-flush_file = appended-size;
  find-flush_file = λ files name other buffered apart.
      find-assign name other (content_of (find name files) ++ buffered) files
      ∙ elim (Bool-cases (name == other)) [
        | inl same ↦ absurd (apart (sym ((pair_key.agrees_iff name other).0 same)))
        | inr different ↦ rw different refl
      ];
  file_size_lem = λ files name. refl;
}

abbrev files : Files
files = (("a.log", 0), 1 ∷ []) ∷ (("a.log", 1), 2 ∷ []) ∷ []

-- The last of two goes where the limit is 1, and both move where it is 2.
one_kept : shift_files "a.log" 1 files ≡ (("a.log", 1), 1 ∷ []) ∷ []
unfolding shift_files find assign wasm_hot.Dict.erase
one_kept = refl

two_kept : shift_files "a.log" 2 files ≡ (("a.log", 2), 2 ∷ []) ∷ (("a.log", 1), 1 ∷ []) ∷ []
unfolding shift_files find assign wasm_hot.Dict.erase
two_kept = refl

abbrev sink : Sink
sink =
    sink_it table (sink_run table (new_sink table files "a.log" 0 3) (("a.log", 5 ∷ []) ∷ []))
      "b.log" (6 ∷ [])

sink_it-size_now_example :
    (size_now table sink ≤ max (max 0 g_min_file_size) 1)
    × (sink.current_size ≡ size_now table sink)
sink_it-size_now_example =
    sink_it-size_now table table_laws files "a.log" "b.log" 0 3 (("a.log", 5 ∷ []) ∷ []) (6 ∷ [])
      (omega arith)

-- The third of November 2025, and the day after it.
abbrev monday : Tm
monday = record { tm_year = 125; tm_mon = 10; tm_mday = 3 }

abbrev tuesday : Tm
tuesday = record monday { tm_mday = 4 }

monday_file : get_log_filename monday ≡ "20251103.log"
unfolding get_log_filename wasm_hot.Logging.Dates.two_digits wasm_hot.Logging.Dates.digit
monday_file = refl

abbrev monday_sink : Sink
monday_sink = new_sink table files (get_log_filename monday) g_min_file_size 2

opened_monday : monday_sink.base_filename ≡ get_log_filename monday
unfolding new_sink
opened_monday = refl

check_date_and_rotate-get_log_filename_example :
    let s' = check_date_and_rotate table monday_sink (get_log_filename tuesday) in
    ((monday ≡ tuesday) × (s' ≡ monday_sink))
    ⊎ ((monday ≢ tuesday)
        × (s'.base_filename ≡ get_log_filename tuesday)
        × (s'.base_filename ≢ monday_sink.base_filename)
        × (s'.current_size ≡ size_of (find (get_log_filename tuesday, 0) monday_sink.files)))
check_date_and_rotate-get_log_filename_example =
    check_date_and_rotate-get_log_filename table table_laws monday_sink monday tuesday
      (omega arith, omega arith, omega arith) (omega arith, omega arith, omega arith) opened_monday
