-- ===== src/Logging/Rotation.antt =====
-- The loop of Rotate of core/logging.cpp: where each file of a base name goes.
use wasm_hot.Base.{
  ℕ, zero, suc, ◌≡◌, refl, ◌∙◌, Option, none, some, ◌==◌, ltb, String, arith, if◌then◌else◌,
  nat_key, string_key, pair_key, Option-cases, inl, inr, key_refl,
}
use wasm_hot.Bytes.{Bytes}
use wasm_hot.Dict.{find, erase, find-assign, find-erase}
use wasm_hot.Logging.{Files, shift_file, shift_files}

-- The first of two contents that is there.
abbrev pub or_else : Option Bytes → Option Bytes → Option Bytes
or_else none other = other
or_else (some content) other = some content

-- The content under an index after a rotation over `n` files, from the contents before.
abbrev pub shifted : ℕ → ℕ → (ℕ → Option Bytes) → Option Bytes
shifted n zero old = if n == 0 then old 0 else none
shifted n (suc q) old =
    if ltb n (suc q)
    then old (suc q)
    else or_else (old q) (if n == suc q then old (suc q) else none)

module _ (base : String) where
  find-shift_file :
      (i q : ℕ) (files : Files)
      → find (base, q) (shift_file base (suc i) files) ≡ (
          if q == suc i
          then or_else (find (base, i) files) (find (base, suc i) files)
          else (if q == i then none else find (base, q) files))
  unfolding shift_file
  find-shift_file i q files = elim (Option-cases (find (base, i) files)) [
    | inl e ↦ ground (arith, key_refl base)
    | inr (content, e) ↦ ground (
      arith,
      key_refl base,
      find-assign (base, suc i) (base, q) content (erase (base, i) (erase (base, suc i) files)),
      find-erase (base, i) (base, q) (erase (base, suc i) files),
      find-erase (base, suc i) (base, q) files,
    )
  ]

  pub find-shift_files :
      (n q : ℕ) (files : Files)
      → find (base, q) (shift_files base n files) ≡ shifted n q (λ i. find (base, i) files)
  unfolding shift_files
  find-shift_files zero zero files = refl
  find-shift_files zero (suc q) files = ground arith
  find-shift_files (suc n) zero files =
      find-shift_files n zero (shift_file base (suc n) files)
      ∙ ground (arith, find-shift_file n 0 files)
  find-shift_files (suc n) (suc q) files =
      find-shift_files n (suc q) (shift_file base (suc n) files)
      ∙ ground (arith, find-shift_file n (suc q) files, find-shift_file n q files)
