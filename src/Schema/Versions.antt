-- ===== src/Schema/Versions.antt =====
-- SchemaManager::GetLatestVersion against the versions that GetSchema knows.
use wasm_hot.Base.{
  ℕ, ◌≤◌, ◌<◌, ◌≡◌, refl, ◌↔◌, ◌⊎◌, inl, inr, [], ◌∷◌, none, some, arith, max, nat_key,
  Option-cases, is_some, true,
}
use wasm_hot.Dict.{Dict, find}
use wasm_hot.Schema.{SchemaManager, Schema, get_schema, latest_of, get_latest_version}

latest_of-le : (acc : ℕ) (m : Dict ℕ Schema) → acc ≤ latest_of acc m
unfolding latest_of
latest_of-le acc [] = omega arith
latest_of-le acc ((v, s) ∷ m) = omega (arith, latest_of-le (max v acc) m)

le-latest_of :
    (acc : ℕ) (m : Dict ℕ Schema) (v : ℕ) → is_some (find v m) ≡ true → v ≤ latest_of acc m
unfolding latest_of find
le-latest_of acc [] v h = absurd (ground arith)
le-latest_of acc ((w, s) ∷ m) v h =
    ground (arith, le-latest_of (max w acc) m v, latest_of-le (max w acc) m)

latest_of-known :
    (acc : ℕ) (m : Dict ℕ Schema)
    → (latest_of acc m ≡ acc) ⊎ (is_some (find (latest_of acc m) m) ≡ true)
unfolding latest_of find
latest_of-known acc [] = inl refl
latest_of-known acc ((w, s) ∷ m) = ground (arith, latest_of-known (max w acc) m)

no_version :
    (m : SchemaManager) (object_type : ℕ)
    → get_latest_version m object_type ≡ none
    → (w : ℕ) → is_some (get_schema m object_type w) ≡ true
    → w ≡ 0
unfolding get_latest_version get_schema
no_version m object_type h w k = elim (Option-cases (find object_type m.schemas)) [
  | inl e ↦ absurd (ground arith)
  | inr (inner, e) ↦ ground (arith, le-latest_of 0 inner w)
]

-- A reported latest version is positive, has a schema, and no version that has one is greater.
pub get_latest_version-some :
    (m : SchemaManager) (object_type v : ℕ)
    → get_latest_version m object_type ≡ some v
    → (0 < v)
      × (is_some (get_schema m object_type v) ≡ true)
      × ((w : ℕ) → is_some (get_schema m object_type w) ≡ true → w ≤ v)
unfolding get_latest_version get_schema
get_latest_version-some m object_type v h = elim (Option-cases (find object_type m.schemas)) [
  | inl e ↦ absurd (ground arith)
  | inr (inner, e) ↦ (
    ground arith,
    ground (arith, latest_of-known 0 inner),
    λ w k. ground (arith, le-latest_of 0 inner w),
  )
]

-- No version is reported exactly when no version but 0 of the type has a schema.
pub get_latest_version-none :
    (m : SchemaManager) (object_type : ℕ)
    → (get_latest_version m object_type ≡ none)
      ↔ ((w : ℕ) → is_some (get_schema m object_type w) ≡ true → w ≡ 0)
get_latest_version-none m object_type = (missing, only_zero)
  where
    missing :
        get_latest_version m object_type ≡ none
        → (w : ℕ) → is_some (get_schema m object_type w) ≡ true
        → w ≡ 0
    missing = no_version m object_type

    only_zero :
        ((w : ℕ) → is_some (get_schema m object_type w) ≡ true → w ≡ 0)
        → get_latest_version m object_type ≡ none
    only_zero h = elim (Option-cases (get_latest_version m object_type)) [
      | inl e ↦ e
      | inr (v, e) ↦
          let (positive, known, _) = get_latest_version-some m object_type v e in
          absurd (omega (arith, h v known))
    ]
