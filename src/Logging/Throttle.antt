-- ===== src/Logging/Throttle.antt =====
-- The macros of core/logging.h that limit how often a line is logged, and those that check.
-- A call site has one static counter or time, which all threads share. Every atomic operation is one
-- step. LOG_EVERY_N and LOG_FIRST_N use one each, so that a call of theirs is one step.
pub mod Counters
pub mod Spacing
mod Tests
use wasm_hot.Base.{
  ℕ, ◌+◌, ◌-◌, ◌*◌, ◌%◌, ◌^◌, [], ◌∷◌, List, none, some, Bool, true, false, not, ◌&&◌, ◌||◌, ◌==◌,
  ltb, leb, nat_key, if◌then◌else◌,
}
use wasm_hot.Dict.{Dict, find, assign, erase}

-- TRACE to FATAL, the first argument of the other macros.
pub data Level : Type 0 where
  trace debug info warn error fatal : Level

-- What the body of a function that returns int32_t leaves: its lines, and -1 as `failed`.
pub data Returned (A : Type 0) : Type 0 where
  failed : Returned A
  goes_on : A → Returned A

-- CHECK_WITH_TRACE_LOG to CHECK_WITH_FATAL_LOG, which are the same but for the level.
unfoldable pub check_with_log : {A : Type 0} → Level → Bool → A → List Level × Returned A
check_with_log level condition rest =
    if not condition then (level ∷ [], failed) else ([], goes_on rest)

-- An int64_t is the number of its 64 bits.
abbrev pub is_negative : ℕ → Bool
is_negative word = leb (2 ^ 63) word

abbrev pub magnitude : ℕ → ℕ
magnitude word = if is_negative word then 2 ^ 64 - word else word

abbrev pub fetch_add_1 : ℕ → ℕ
fetch_add_1 word = (word + 1) % 2 ^ 64

-- One call at a site: whether `level(...)` runs, and the counter afterwards. `n` is not 0. A remainder
-- has the sign of the dividend, so that it is 0 exactly where that of the magnitude is.
unfoldable pub log_every_n : ℕ → ℕ → Bool × ℕ
log_every_n n count = (magnitude count % n == 0, fetch_add_1 count)

-- A negative count is below every `n`.
unfoldable pub log_first_n : ℕ → ℕ → Bool × ℕ
log_first_n n count = (is_negative count || ltb count n, fetch_add_1 count)

unfoldable pub log_once : ℕ → Bool × ℕ
unfolding log_first_n
log_once count = log_first_n 1 count

-- A thread inside LOG_EVERY_MS: before the load, and between the load and the exchange.
pub data Caller : Type 0 where
  loading : ℕ → Caller
  exchanging : ℕ → ℕ → Caller

-- `lines` has the time that each logged line was let through with, the latest first.
pub record Site : Type 0 where
  pub last : ℕ
  pub callers : Dict ℕ Caller
  pub lines : List ℕ

abbrev pub new_site : Site
new_site = record { last = 0; callers = []; lines = [] }

-- now_ms; a thread inside the macro does not enter it.
unfoldable pub read_clock : Site → ℕ → ℕ → Site
read_clock s thread now_ms = elim (find thread s.callers) [
  | some caller ↦ s
  | none ↦ record s { callers = assign thread (loading now_ms) s.callers }
]

-- The load and the test now_ms - last >= ms, on signed numbers.
load_with : Site → ℕ → ℕ → Caller → Site
load_with s ms thread (exchanging now_ms last) = s
load_with s ms thread (loading now_ms) =
    if leb (s.last + ms) now_ms
    then record s { callers = assign thread (exchanging now_ms s.last) s.callers }
    else record s { callers = erase thread s.callers }

unfoldable pub load_last : Site → ℕ → ℕ → Site
unfolding load_with
load_last s ms thread = elim (find thread s.callers) [
  | none ↦ s
  | some caller ↦ load_with s ms thread caller
]

-- compare_exchange_weak, which may fail for no reason (`spurious`), and the line.
exchange_with : Site → ℕ → Bool → Caller → Site
exchange_with s thread spurious (loading now_ms) = s
exchange_with s thread spurious (exchanging now_ms last) =
    if s.last == last && not spurious
    then record s { last = now_ms; callers = erase thread s.callers; lines = now_ms ∷ s.lines }
    else record s { callers = erase thread s.callers }

unfoldable pub exchange : Site → ℕ → Bool → Site
unfolding exchange_with
exchange s thread spurious = elim (find thread s.callers) [
  | none ↦ s
  | some caller ↦ exchange_with s thread spurious caller
]

-- What one thread does next.
pub data Step : Type 0 where
  reads : ℕ → ℕ → Step
  loads : ℕ → Step
  exchanges : ℕ → Bool → Step

unfoldable pub step : ℕ → Site → Step → Site
unfolding read_clock load_last exchange
step ms s (reads thread now_ms) = read_clock s thread now_ms
step ms s (loads thread) = load_last s ms thread
step ms s (exchanges thread spurious) = exchange s thread spurious

-- LOG_EVERY_MS at one site, in one interleaving of its threads.
unfoldable pub log_every_ms : ℕ → Site → List Step → Site
unfolding step
log_every_ms ms s [] = s
log_every_ms ms s (x ∷ xs) = log_every_ms ms (step ms s x) xs

unfoldable pub log_every_sec : ℕ → Site → List Step → Site
unfolding log_every_ms
log_every_sec sec s xs = log_every_ms (sec * 1000) s xs
