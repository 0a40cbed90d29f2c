-- ===== src/Logging.antt =====
-- DateRotatingFileSink of core/logging.cpp: the log file of the day, its size, and its rotation.
-- The file helper of spdlog is a parameter.
pub mod Dates
pub mod Rotation
pub mod Size
pub mod Throttle
mod Tests
use wasm_hot.Base.{
  ℕ, zero, suc, ◌+◌, ◌*◌, ◌≡◌, ◌≢◌, [], Option, none, some, Bool, true, false, ◌&&◌, ◌==◌, ltb, min,
  max, String, length, if◌then◌else◌, nat_key, string_key, pair_key,
}
use wasm_hot.Bytes.{Bytes}
use wasm_hot.Dict.{Dict, find, assign, erase}

-- CalcFilename(base, index): a base and an index stand for the name, which has the index behind the
-- base unless it is 0.
abbrev pub FileName : Type 0
FileName = String × ℕ

-- What std::filesystem shows: the contents of the files that exist.
abbrev pub Files : Type 0
Files = Dict FileName Bytes

abbrev pub size_of : Option Bytes → ℕ
size_of none = 0
size_of (some content) = length content

-- spdlog::details::file_helper, with the file that is open named in each call. A write may leave bytes
-- in the buffer of the FILE, which is the third argument, and a flush, as a close does, writes them.
pub record FileHelper : Type 0 where
  pub open_file : Files → FileName → Files
  pub write_file : Files → FileName → Bytes → Bytes → Files × Bytes
  pub flush_file : Files → FileName → Bytes → Files
  pub file_size : Files → FileName → ℕ

-- Opening appends, so that nothing is lost; a write adds its bytes to the file and its buffer; a flush
-- moves the buffer into the file, and changes no other; the size is that of the file alone.
pub record FileHelperLaws (helper : FileHelper) : Type 0 where
  pub size-open_file :
      (files : Files) (name : FileName)
      → size_of (find name (helper.open_file files name)) ≡ size_of (find name files)
  pub size-write_file :
      (files : Files) (name : FileName) (buffered bytes : Bytes)
      → let (files', buffered') = helper.write_file files name buffered bytes in
        size_of (find name files') + length buffered'
        ≡ size_of (find name files) + length buffered + length bytes
  pub size-flush_file :
      (files : Files) (name : FileName) (buffered : Bytes)
      → size_of (find name (helper.flush_file files name buffered))
        ≡ size_of (find name files) + length buffered
  pub find-flush_file :
      (files : Files) (name other : FileName) (buffered : Bytes)
      → other ≢ name
      → find other (helper.flush_file files name buffered) ≡ find other files
  pub file_size_lem :
      (files : Files) (name : FileName) → helper.file_size files name ≡ size_of (find name files)

abbrev pub g_min_file_size : ℕ
g_min_file_size = 100 * 1024 * 1024

abbrev pub g_max_file_num : ℕ
g_max_file_num = 1000

-- The files are not a member: every sink works on those of the directory. `buffered` is what its open
-- file has not written yet.
pub record Sink : Type 0 where
  pub base_filename : String
  pub max_size : ℕ
  pub max_files : ℕ
  pub current_size : ℕ
  pub buffered : Bytes
  pub files : Files

-- One round of the loop of Rotate: nothing without a source, and else remove and rename.
unfoldable pub shift_file : String → ℕ → Files → Files
shift_file base zero files = files
shift_file base (suc i) files = elim (find (base, i) files) [
  | none ↦ files
  | some content ↦ assign (base, suc i) content (erase (base, i) (erase (base, suc i) files))
]

-- The loop, for i from the given number down to 1.
unfoldable pub shift_files : String → ℕ → Files → Files
unfolding shift_file
shift_files base zero files = files
shift_files base (suc i) files = shift_files base i (shift_file base (suc i) files)

module _ (helper : FileHelper) where
  -- DateRotatingFileSink(base_filename, max_size, max_files)
  unfoldable pub new_sink : Files → String → ℕ → ℕ → Sink
  new_sink files base max_size max_files =
      let opened = helper.open_file files (base, 0) in
      record {
        base_filename = base;
        max_size = max max_size g_min_file_size;
        max_files = min max_files g_max_file_num;
        current_size = helper.file_size opened (base, 0);
        buffered = [];
        files = opened;
      }

  -- file_helper_.flush()
  unfoldable pub flush : Sink → Sink
  flush s = record s {
    buffered = [];
    files = helper.flush_file s.files (s.base_filename, 0) s.buffered;
  }

  -- file_helper_.close(), which writes the buffer
  unfoldable pub close : Sink → Sink
  unfolding flush
  close s = flush s

  unfoldable pub rotate : Sink → Sink
  unfolding close
  rotate s =
      let closed = close s in
      record closed {
        current_size = 0;
        files =
            helper.open_file (shift_files closed.base_filename closed.max_files closed.files)
              (closed.base_filename, 0);
      }

  -- CheckDateAndRotate, with the result of GetLogFilename.
  unfoldable pub check_date_and_rotate : Sink → String → Sink
  unfolding flush close
  check_date_and_rotate s today =
      if today == s.base_filename
      then s
      else (let closed = close (flush s) in
          let opened = helper.open_file closed.files (today, 0) in
          record closed {
            base_filename = today;
            current_size = helper.file_size opened (today, 0);
            files = opened;
          })

  -- The write at the end of sink_it_.
  unfoldable pub append : Sink → Bytes → ℕ → Sink
  append s formatted new_size =
      let (files, buffered) = helper.write_file s.files (s.base_filename, 0) s.buffered formatted in
      record s { current_size = new_size; buffered = buffered; files = files }

  -- sink_it_ after CheckDateAndRotate: the tests before the write, with the flush between them.
  unfoldable pub write_line : Sink → Bytes → Sink
  unfolding flush rotate append
  write_line s formatted =
      let new_size = s.current_size + length formatted in
      if ltb s.max_size new_size
      then (let flushed = flush s in
          if ltb 0 (helper.file_size flushed.files (flushed.base_filename, 0))
          then append (rotate flushed) formatted (length formatted)
          else append flushed formatted new_size)
      else append s formatted new_size

  unfoldable pub sink_it : Sink → String → Bytes → Sink
  unfolding check_date_and_rotate write_line
  sink_it s today formatted = write_line (check_date_and_rotate s today) formatted

-- What InitLogging leaves in spdlog: the default logger and its levels, and AtExitFlush at the exit.
pub record Logger (SpdLevel : Type 0) : Type 0 where
  pub name : String
  pub pattern : String
  pub sink : Sink
  pub level : SpdLevel
  pub flush_level : SpdLevel
  pub flushes_at_exit : Bool

-- spdlog::level::from_str is a parameter, and the name of the file is that of GetLogFilename.
unfoldable pub init_logging :
    {SpdLevel : Type 0}
    → FileHelper
    → (String → SpdLevel)
    → Files
    → String
    → String
    → String
    → String
    → ℕ
    → ℕ
    → Logger SpdLevel
unfolding new_sink
init_logging helper from_str files filename logger_name log_level flush_log_level file_size
      rotate_file_num =
    record {
      name = logger_name;
      pattern = "[%Y-%m-%d %H:%M:%S.%e][%P][%t][%!:%s:%#] %v";
      sink = new_sink helper files filename file_size rotate_file_num;
      level = from_str log_level;
      flush_level = from_str flush_log_level;
      flushes_at_exit = true;
    }
