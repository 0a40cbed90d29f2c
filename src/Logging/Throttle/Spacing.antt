-- ===== src/Logging/Throttle/Spacing.antt =====
-- How far apart the lines of LOG_EVERY_MS of core/logging.h are, whatever threads call it.
use wasm_hot.Base.{
  ℕ, ◌+◌, ◌≤◌, ◌≡◌, refl, sym, [], ◌∷◌, List, none, some, Bool, true, false, not, ◌&&◌, ◌==◌, leb,
  arith, if◌then◌else◌, nat_key, Bool-cases, Option-cases, inl, inr, key_refl,
}
use wasm_hot.Dict.{find, assign, erase, find-assign, find-erase}
use wasm_hot.Logging.Throttle.{
  Caller, loading, exchanging, Site, new_site, read_clock, load_with, load_last, exchange_with,
  exchange, Step, reads, loads, exchanges, step, log_every_ms,
}

-- The time of the latest line, or 0 before the first.
abbrev pub latest : List ℕ → ℕ
latest [] = 0
latest (now_ms ∷ rest) = now_ms

-- Each line is at least `ms` after the one before it, and the first after 0.
unfoldable pub is_spaced : ℕ → List ℕ → Bool
is_spaced ms [] = true
is_spaced ms (now_ms ∷ rest) = leb (latest rest + ms) now_ms && is_spaced ms rest

module _ (ms : ℕ) where
  -- A thread that has come to its exchange has passed the test.
  record IsSound (s : Site) : Type 0 where
    pub kept : s.last ≡ latest s.lines
    pub spaced : is_spaced ms s.lines ≡ true
    pub passed :
        (thread now_ms last : ℕ)
        → find thread s.callers ≡ some (exchanging now_ms last)
        → last + ms ≤ now_ms

  read_clock-IsSound :
      (s : Site) (thread now_ms : ℕ) → IsSound s → IsSound (read_clock s thread now_ms)
  unfolding read_clock
  read_clock-IsSound s thread now_ms v = elim (Option-cases (find thread s.callers)) [
    | inr (caller, e) ↦ rw (e, read_clock) v
    | inl e ↦
        rw (e, read_clock)
          (record {
            kept = v.kept;
            spaced = v.spaced;
            passed = λ q now_ms' last h.
                let before = v.passed q now_ms' last in
                ground (arith, find-assign thread q (loading now_ms) s.callers);
          })
  ]

  -- A thread that leaves the macro without a line.
  leaves-IsSound :
      (s : Site) (thread : ℕ) → IsSound s → IsSound (record s { callers = erase thread s.callers })
  leaves-IsSound s thread v = record {
    kept = v.kept;
    spaced = v.spaced;
    passed = λ q now_ms last h.
        let before = v.passed q now_ms last in ground (arith, find-erase thread q s.callers);
  }

  load_with-IsSound :
      (s : Site) (thread : ℕ) (caller : Caller) → IsSound s → IsSound (load_with s ms thread caller)
  unfolding load_with
  load_with-IsSound s thread (exchanging now_ms last) v = v
  load_with-IsSound s thread (loading now_ms) v = elim (Bool-cases (leb (s.last + ms) now_ms)) [
    | inr e ↦ rw e (leaves-IsSound s thread v)
    | inl e ↦ rw e (record {
      kept = v.kept;
      spaced = v.spaced;
      passed = λ q now_ms' last h.
          let before = v.passed q now_ms' last in
          ground (arith, find-assign thread q (exchanging now_ms s.last) s.callers);
    })
  ]

  exchange_with-IsSound :
      (s : Site) (thread : ℕ) (spurious : Bool) (caller : Caller)
      → find thread s.callers ≡ some caller
      → IsSound s
      → IsSound (exchange_with s thread spurious caller)
  unfolding exchange_with is_spaced
  exchange_with-IsSound s thread spurious (loading now_ms) h v = v
  exchange_with-IsSound s thread spurious (exchanging now_ms last) h v =
      elim (Bool-cases (s.last == last && not spurious)) [
        | inr e ↦ rw e (leaves-IsSound s thread v)
        | inl e ↦
            let passed = v.passed thread now_ms last h in
            let kept = v.kept in
            let spaced = v.spaced in
            rw e (record {
              kept = refl;
              spaced = ground arith;
              passed = (leaves-IsSound s thread v).passed;
            })
      ]

  step-IsSound : (s : Site) (x : Step) → IsSound s → IsSound (step ms s x)
  unfolding step load_last exchange
  step-IsSound s (reads thread now_ms) v = read_clock-IsSound s thread now_ms v
  step-IsSound s (loads thread) v = elim (Option-cases (find thread s.callers)) [
    | inl e ↦ rw (e, load_last) v
    | inr (caller, e) ↦ rw (e, load_last) (load_with-IsSound s thread caller v)
  ]
  step-IsSound s (exchanges thread spurious) v = elim (Option-cases (find thread s.callers)) [
    | inl e ↦ rw (e, exchange) v
    | inr (caller, e) ↦ rw (e, exchange) (exchange_with-IsSound s thread spurious caller e v)
  ]

  run-IsSound : (s : Site) (xs : List Step) → IsSound s → IsSound (log_every_ms ms s xs)
  unfolding log_every_ms
  run-IsSound s [] v = v
  run-IsSound s (x ∷ xs) v = run-IsSound (step ms s x) xs (step-IsSound s x v)

-- A call of LOG_EVERY_MS from its beginning to its end, with an exchange that does not fail for no
-- reason.
abbrev pub whole_call : ℕ → ℕ → List Step
whole_call thread now_ms = reads thread now_ms ∷ loads thread ∷ exchanges thread false ∷ []

whole_call-lines :
    (ms : ℕ) (s : Site) (thread now_ms : ℕ)
    → find thread s.callers ≡ none
    → (log_every_ms ms s (whole_call thread now_ms)).lines
      ≡ (if leb (s.last + ms) now_ms then now_ms ∷ s.lines else s.lines)
unfolding log_every_ms step read_clock load_last exchange load_with exchange_with
whole_call-lines ms s thread now_ms outside =
    let entered = find-assign thread thread (loading now_ms) s.callers in
    let gone = find-erase thread thread (assign thread (loading now_ms) s.callers) in
    let tested =
      find-assign thread thread (exchanging now_ms s.last)
        (assign thread (loading now_ms) s.callers) in
    elim (Bool-cases (leb (s.last + ms) now_ms)) [
      | inl e ↦ ground (arith, key_refl thread, key_refl s.last)
      | inr e ↦ ground (arith, key_refl thread)
    ]

-- In every interleaving of the threads at a site, each line is let through at least `ms` after the
-- one before it. A thread that then calls the macro alone, with an exchange that does not fail for
-- no reason, logs exactly if `ms` have gone by since the latest line, or since 0 before the first.
pub log_every_ms-is_spaced :
    (ms : ℕ) (xs : List Step) (thread now_ms : ℕ)
    → find thread (log_every_ms ms new_site xs).callers ≡ none
    → let s = log_every_ms ms new_site xs in
      let s' = log_every_ms ms s (whole_call thread now_ms) in
      (is_spaced ms s.lines ≡ true)
      × (s'.lines ≡ (if leb (latest s.lines + ms) now_ms then now_ms ∷ s.lines else s.lines))
unfolding is_spaced find
log_every_ms-is_spaced ms xs thread now_ms outside =
    let start : IsSound ms new_site = record {
      kept = refl;
      spaced = refl;
      passed = λ q now_ms' last h. ground arith;
    } in
    let v = run-IsSound ms new_site xs start in
    (
      v.spaced,
      rw (sym v.kept) (whole_call-lines ms (log_every_ms ms new_site xs) thread now_ms outside),
    )
