-- ===== src/Dict.antt =====
-- std::unordered_map, as an association list: find, m[k] = v, erase, and the order of a traversal.
use wasm_hot.Base.{◌≡◌, refl, List, [], ◌∷◌, Option, none, some, arith, Key, ◌==◌, if◌then◌else◌}

abbrev pub Dict {ℓ} : Type ℓ → Type ℓ → Type ℓ
Dict K V = List (K × V)

module _ {ℓ} {K V : Type ℓ} ⦃e : Key K⦄ where
  unfoldable pub find : K → Dict K V → Option V
  find k [] = none
  find k ((j, v) ∷ m) = if j == k then some v else find k m

  unfoldable pub assign : K → V → Dict K V → Dict K V
  assign k v [] = (k, v) ∷ []
  assign k v ((j, w) ∷ m) = if j == k then (j, v) ∷ m else (j, w) ∷ assign k v m

  unfoldable pub erase : K → Dict K V → Dict K V
  erase k [] = []
  erase k ((j, w) ∷ m) = if j == k then erase k m else (j, w) ∷ erase k m

  pub find-assign :
      (k q : K) (v : V) (m : Dict K V)
      → find q (assign k v m) ≡ (if k == q then some v else find q m)
  unfolding find assign
  find-assign k q v [] = refl
  find-assign k q v ((j, w) ∷ m) =
      ground (arith, find-assign k q v m, e.agrees_iff j k, e.agrees_iff k q, e.agrees_iff j q)

  pub find-erase :
      (k q : K) (m : Dict K V) → find q (erase k m) ≡ (if k == q then none else find q m)
  unfolding find erase
  find-erase k q [] = ground arith
  find-erase k q ((j, w) ∷ m) =
      ground (arith, find-erase k q m, e.agrees_iff j k, e.agrees_iff k q, e.agrees_iff j q)
