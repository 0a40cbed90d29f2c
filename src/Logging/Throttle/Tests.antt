-- ===== src/Logging/Throttle/Tests.antt =====
-- Calls at one site.
use wasm_hot.Base.{
  ℕ, ◌+◌, ◌≡◌, refl, [], ◌∷◌, List, true, false, leb, arith, if◌then◌else◌, nat_key, ◌^◌, ◌-◌,
}
use wasm_hot.Logging.Throttle.{
  error, failed, goes_on, check_with_log, log_every_n, log_first_n, log_once, new_site, Step, reads,
  loads, exchanges, log_every_ms, log_every_sec,
}
use wasm_hot.Logging.Throttle.Counters.{logged, logged-log_first_n, logged-log_every_n}
use wasm_hot.Logging.Throttle.Spacing.{latest, is_spaced, whole_call, log_every_ms-is_spaced}

refused : check_with_log {A = ℕ} error false 5 ≡ (error ∷ [], failed)
unfolding check_with_log
refused = refl

passed : check_with_log {A = ℕ} error true 5 ≡ ([], goes_on 5)
unfolding check_with_log
passed = refl

-- A negative counter: it stands at -7.
negative : (log_every_n 7 (2 ^ 64 - 7)).0 ≡ true
unfolding log_every_n
negative = refl

once : logged log_once 3 0 ≡ 1
unfolding logged log_once
once = refl

logged-log_first_n_example : logged (log_first_n 2) 5 0 ≡ 2
logged-log_first_n_example = logged-log_first_n 2 5 (omega arith)

logged-log_every_n_run : logged (log_every_n 3) 7 0 ≡ 3
logged-log_every_n_run = logged-log_every_n 3 2 1 (omega arith) (omega arith) (omega arith)

-- Two threads read the time before either loads, and only one logs.
abbrev steps : List Step
steps = reads 1 50 ∷ reads 2 51 ∷ loads 1 ∷ loads 2 ∷ exchanges 2 false ∷ exchanges 1 false ∷ []

only_one : (log_every_ms 10 new_site steps).lines ≡ 51 ∷ []
unfolding log_every_ms wasm_hot.Dict.find wasm_hot.Dict.assign wasm_hot.Dict.erase
only_one = refl

seconds : (log_every_sec 1 new_site (whole_call 1 999)).lines ≡ []
unfolding log_every_sec wasm_hot.Dict.find wasm_hot.Dict.assign wasm_hot.Dict.erase
seconds = refl

log_every_ms-is_spaced_example :
    let s = log_every_ms 10 new_site steps in
    let s' = log_every_ms 10 s (whole_call 3 60) in
    (is_spaced 10 s.lines ≡ true)
    × (s'.lines ≡ (if leb (latest s.lines + 10) 60 then 60 ∷ s.lines else s.lines))
unfolding wasm_hot.Dict.find log_every_ms wasm_hot.Dict.assign wasm_hot.Dict.erase
log_every_ms-is_spaced_example = log_every_ms-is_spaced 10 steps 3 60 refl
