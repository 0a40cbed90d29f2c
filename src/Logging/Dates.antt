-- ===== src/Logging/Dates.antt =====
-- GetLogFilename of core/logging.cpp: the name of the log file of a day, by std::put_time's "%Y%m%d".
-- The local time is a parameter, and its years have four digits.
use wasm_hot.Base.{
  [], ◌⊎◌, ℕ, zero, suc, ◌+◌, ◌*◌, ◌-◌, ◌%◌, ◌/◌, ◌<◌, ◌≤◌, ◌≡◌, ◌≢◌, refl, sym, ap, ◌∙◌, String,
  arith, ◌==◌, string_key, nat_key, pair_key, Bool-cases, inl, inr,
}
use wasm_hot.Bytes.{Bytes}
use wasm_hot.Dict.{find}
use wasm_hot.Logging.{
  Sink, FileHelper, FileHelperLaws, FileName, flush, close, size_of, check_date_and_rotate,
}
use Prim.Native.Char.{Char, code}
use Prim.Native.String.{◌∷◌}

-- What the format uses of std::tm: the years since 1900, the month from 0, and the day from 1.
pub record Tm : Type 0 where
  pub tm_year : ℕ
  pub tm_mon : ℕ
  pub tm_mday : ℕ

unfoldable pub digit : ℕ → Char
digit zero = "0"
digit (suc zero) = "1"
digit (suc (suc zero)) = "2"
digit (suc (suc (suc zero))) = "3"
digit (suc (suc (suc (suc zero)))) = "4"
digit (suc (suc (suc (suc (suc zero))))) = "5"
digit (suc (suc (suc (suc (suc (suc zero)))))) = "6"
digit (suc (suc (suc (suc (suc (suc (suc zero))))))) = "7"
digit (suc (suc (suc (suc (suc (suc (suc (suc zero)))))))) = "8"
digit (suc (suc (suc (suc (suc (suc (suc (suc (suc n))))))))) = "9"

unfoldable pub two_digits : ℕ → String → String
two_digits n rest = digit (n / 10 % 10) ∷ digit (n % 10) ∷ rest

unfoldable pub get_log_filename : Tm → String
get_log_filename tm =
    let year = tm.tm_year + 1900 in
    two_digits (year / 100)
      (two_digits (year % 100) (two_digits (tm.tm_mon + 1) (two_digits tm.tm_mday ".log")))

-- The number of the first two characters, and what follows them.
pub read_two : String → ℕ
read_two (c ∷ (d ∷ rest)) = (code c - 48) * 10 + (code d - 48)
read_two s = 0

pub after_two : String → String
after_two (c ∷ (d ∷ rest)) = rest
after_two s = s

code_digit : (n : ℕ) → n < 10 → code (digit n) ≡ n + 48
unfolding digit
code_digit zero h = refl
code_digit (suc zero) h = refl
code_digit (suc (suc zero)) h = refl
code_digit (suc (suc (suc zero))) h = refl
code_digit (suc (suc (suc (suc zero)))) h = refl
code_digit (suc (suc (suc (suc (suc zero))))) h = refl
code_digit (suc (suc (suc (suc (suc (suc zero)))))) h = refl
code_digit (suc (suc (suc (suc (suc (suc (suc zero))))))) h = refl
code_digit (suc (suc (suc (suc (suc (suc (suc (suc zero)))))))) h = refl
code_digit (suc (suc (suc (suc (suc (suc (suc (suc (suc zero))))))))) h = refl
code_digit (suc (suc (suc (suc (suc (suc (suc (suc (suc (suc n)))))))))) h = absurd (omega arith)

read_two-two_digits : (n : ℕ) (s : String) → n < 100 → read_two (two_digits n s) ≡ n
unfolding read_two two_digits
read_two-two_digits n s h = ground (arith, code_digit (n / 10 % 10), code_digit (n % 10))

after_two-two_digits : (n : ℕ) (s : String) → after_two (two_digits n s) ≡ s
unfolding after_two two_digits
after_two-two_digits n s = refl

-- The day that a file name of eight digits stands for.
abbrev pub day_of : String → Tm
day_of s = record {
  tm_year = read_two s * 100 + read_two (after_two s) - 1900;
  tm_mon = read_two (after_two (after_two s)) - 1;
  tm_mday = read_two (after_two (after_two (after_two s)));
}

-- A month from 0 to 11 and a day of at most 31, in a year from 1900 to 9999.
abbrev pub IsDay : Tm → Type 0
IsDay tm = (tm.tm_year + 1900 < 10000) × (tm.tm_mon < 12) × (tm.tm_mday ≤ 31)

-- The name of a log file tells its day, so that no two days have the same file.
pub day_of-get_log_filename : (tm : Tm) → IsDay tm → day_of (get_log_filename tm) ≡ tm
unfolding get_log_filename two_digits after_two
day_of-get_log_filename tm (y, m, d) =
    let year = tm.tm_year + 1900 in
    let month = two_digits (tm.tm_mon + 1) (two_digits tm.tm_mday ".log") in
    ground (
      arith,
      read_two-two_digits (year / 100) (two_digits (year % 100) month),
      read_two-two_digits (year % 100) month,
      read_two-two_digits (tm.tm_mon + 1) (two_digits tm.tm_mday ".log"),
      read_two-two_digits tm.tm_mday ".log",
    )

get_log_filename_inj :
    (a b : Tm) → IsDay a → IsDay b → get_log_filename a ≡ get_log_filename b → a ≡ b
get_log_filename_inj a b v w h =
    sym (day_of-get_log_filename a v) ∙ ap day_of h ∙ day_of-get_log_filename b w

module _ (helper : FileHelper) (laws : FileHelperLaws helper) where
  -- The size that is taken up for another file than the open one.
  measured :
      (s : Sink) (file : String)
      → file ≢ s.base_filename
      → let closed = close helper (flush helper s) in
        helper.file_size (helper.open_file closed.files (file, 0)) (file, 0)
        ≡ size_of (find (file, 0) s.files)
  unfolding flush close
  measured s file other =
      let nothing : Bytes = [] in
      let name : FileName = (file, 0) in
      let mine : FileName = (s.base_filename, 0) in
      let apart : name ≢ mine = λ e. other (ap (λ n. n.0) e) in
      let flushed = helper.flush_file s.files mine s.buffered in
      let closed = helper.flush_file flushed mine nothing in
      laws.file_size_lem (helper.open_file closed name) name
      ∙ laws.size-open_file closed name
      ∙ ap size_of (
          laws.find-flush_file flushed mine name nothing apart
          ∙ laws.find-flush_file s.files mine name s.buffered apart)

  -- A sink that has the file of one day open keeps it, and all of its state, for a line of the same
  -- day. For a line of another day it opens the file of that day, which is another one, and takes up
  -- the size that this file has.
  pub check_date_and_rotate-get_log_filename :
      (s : Sink) (opened today : Tm)
      → IsDay opened
      → IsDay today
      → s.base_filename ≡ get_log_filename opened
      → let s' = check_date_and_rotate helper s (get_log_filename today) in
        ((opened ≡ today) × (s' ≡ s))
        ⊎ ((opened ≢ today)
            × (s'.base_filename ≡ get_log_filename today)
            × (s'.base_filename ≢ s.base_filename)
            × (s'.current_size ≡ size_of (find (get_log_filename today, 0) s.files)))
  unfolding check_date_and_rotate flush close
  check_date_and_rotate-get_log_filename s opened today v w h =
      let file = get_log_filename today in
      let agrees = string_key.agrees_iff file s.base_filename in
      elim (Bool-cases (file == s.base_filename)) [
        | inl same ↦
            inl (get_log_filename_inj opened today v w (sym h ∙ sym (agrees.0 same)), rw same refl)
        | inr changed ↦ inr (
          λ e. absurd (ground (arith, agrees, h, ap get_log_filename e)),
          rw changed refl,
          ground (arith, agrees),
          rw changed (measured s file (λ e. absurd (ground (arith, agrees)))),
        )
      ]
