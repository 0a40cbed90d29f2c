-- ===== src/Logging/Throttle/Counters.antt =====
-- How many of the calls of LOG_FIRST_N and LOG_EVERY_N of core/logging.h log.
use native.Mathlib.Nat.{add-mod_right, zero-mod, suc-mod, mod_self, mod-eq_of_lt}
use wasm_hot.Base.{
  ℕ, zero, suc, ◌+◌, ◌*◌, ◌%◌, ◌^◌, ◌≤◌, ◌<◌, ◌≡◌, refl, ap, ◌∙◌, Bool, true, false, ◌==◌, min, leb,
  arith, if◌then◌else◌, nat_key, Bool-cases, inl, inr,
}
use wasm_hot.Logging.Throttle.{log_every_n, log_first_n}

-- The lines of so many calls at a site, one after the other in some order of the threads.
unfoldable pub logged : (ℕ → Bool × ℕ) → ℕ → ℕ → ℕ
logged call zero count = 0
logged call (suc k) count =
    let (logs, count') = call count in
    let rest = logged call k count' in if logs then suc rest else rest

-- Below 2 ^ 63 the counter is the number of calls before.
first_step :
    (n count : ℕ) → count < 2 ^ 63 → log_first_n n count ≡ (wasm_hot.Base.ltb count n, suc count)
unfolding log_first_n
first_step n count h = ground arith

first_from :
    (n k count : ℕ)
    → count + k ≤ 2 ^ 63
    → min (count + k) n ≡ min count n + logged (log_first_n n) k count
unfolding logged
first_from n zero count h = omega arith
first_from n (suc k) count h =
    rw (first_step n count (omega arith)) (ground (arith, first_from n k (suc count) (omega arith)))

-- The first `n` calls at a site log, and no later one of up to 2 ^ 63 calls.
pub logged-log_first_n : (n k : ℕ) → k ≤ 2 ^ 63 → logged (log_first_n n) k 0 ≡ min k n
logged-log_first_n n k h = omega (arith, first_from n k 0 (omega arith))

module _ (n : ℕ) (positive : 0 < n) where
  every_step : (count : ℕ) → count < 2 ^ 63 → log_every_n n count ≡ (count % n == 0, suc count)
  unfolding log_every_n
  every_step count h = ground arith

  next_residue :
      (count : ℕ)
      → count % n < n
      → suc count % n ≡ (if suc (count % n) == n then 0 else suc (count % n))
  next_residue count below = elim (Bool-cases (suc (count % n) == n)) [
    | inl e ↦
        let full : suc (count % n) ≡ n = ground arith in
        rw e (suc-mod count n ∙ ap (λ (r : ℕ). r % n) full ∙ mod_self n)
    | inr e ↦ rw e (suc-mod count n ∙ mod-eq_of_lt (ground arith))
  ]

  -- Between two multiples of `n` nothing is logged.
  every_between :
      (k count : ℕ)
      → 0 < count % n
      → count % n + k ≤ n
      → count + k ≤ 2 ^ 63
      → logged (log_every_n n) k count ≡ 0
  unfolding logged
  every_between zero count inside room h = refl
  every_between (suc zero) count inside room h = rw (every_step count (omega arith)) (ground arith)
  every_between (suc (suc k)) count inside room h =
      let next : suc count % n ≡ suc (count % n) =
        ground (arith, next_residue count (omega arith)) in
      let rest : logged (log_every_n n) (suc k) (suc count) ≡ 0 =
        every_between (suc k) (suc count) (omega arith) (omega arith) (omega arith) in
      rw (every_step count (omega arith)) (ground arith)

  -- From a multiple of `n`, the first call logs, and no other up to the next multiple.
  every_round :
      (s count : ℕ)
      → 0 < s
      → s ≤ n
      → count % n ≡ 0
      → count + s ≤ 2 ^ 63
      → logged (log_every_n n) s count ≡ 1
  unfolding logged
  every_round zero count some_calls room start h = absurd (omega arith)
  every_round (suc zero) count some_calls room start h =
      rw (every_step count (omega arith)) (ground arith)
  every_round (suc (suc k)) count some_calls room start h =
      let next : suc count % n ≡ 1 = ground (arith, next_residue count (omega arith)) in
      let rest : logged (log_every_n n) (suc k) (suc count) ≡ 0 =
        every_between (suc k) (suc count) (omega arith) (omega arith) (omega arith) in
      rw (every_step count (omega arith)) (ground arith)

  logged-append :
      (j k count : ℕ)
      → count + (j + k) ≤ 2 ^ 63
      → logged (log_every_n n) (j + k) count
        ≡ logged (log_every_n n) j count + logged (log_every_n n) k (count + j)
  unfolding logged
  logged-append zero k count h =
      let same : 0 + k ≡ k = omega arith in
      let same' : count + 0 ≡ count = omega arith in rw (same, same') (omega arith)
  logged-append (suc j) k count h =
      let one_more : suc j + k ≡ suc (j + k) = omega arith in
      let moved : count + suc j ≡ suc count + j = omega arith in
      let rest = logged-append j k (suc count) (omega arith) in
      rw (one_more, moved, logged, every_step count (omega arith)) (ground arith)

  every_from :
      (q s count : ℕ)
      → 0 < s
      → s ≤ n
      → count % n ≡ 0
      → count + (q * n + s) ≤ 2 ^ 63
      → logged (log_every_n n) (q * n + s) count ≡ suc q
  every_from zero s count some_calls room start h =
      let calls : 0 * n + s ≡ s = omega arith in
      rw calls (every_round s count some_calls room start (omega arith))
  every_from (suc q) s count some_calls room start h =
      let calls : suc q * n + s ≡ n + (q * n + s) = omega arith in
      let first = every_round n count positive (omega arith) start (omega arith) in
      let start' : (count + n) % n ≡ 0 = add-mod_right count n ∙ start in
      let rest = every_from q s (count + n) some_calls room start' (omega arith) in
      rw calls (logged-append n (q * n + s) count (omega arith) ∙ omega (arith, first, rest))

-- Of up to 2 ^ 63 calls at a site, the first of every `n` logs: `q` times `n` calls and up to `n`
-- more log `q` lines and one more.
pub logged-log_every_n :
    (n q s : ℕ) → 0 < s → s ≤ n → q * n + s ≤ 2 ^ 63 → logged (log_every_n n) (q * n + s) 0 ≡ suc q
logged-log_every_n n q s some_calls room h =
    every_from n (omega arith) q s 0 some_calls room (zero-mod n) (omega arith)
