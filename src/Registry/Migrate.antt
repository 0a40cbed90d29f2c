-- ===== src/Registry/Migrate.antt =====
-- ObjectRegistry::Migrate: what is stored after success, and what a failure leaves behind.
use wasm_hot.Base.{
  ◌⊎◌, ℕ, suc, ◌^◌, ◌≤◌, ◌<◌, ◌≡◌, ◌≢◌, refl, subst, sym, Option, none, some, Bool, true, false,
  arith, nat_key, inl, inr, Option-cases, Bool-cases,
}
use wasm_hot.Dict.{find, assign, find-assign}
use wasm_hot.Storage.{ComponentStorage}
use wasm_hot.Object.{ObjectHeader, GameObject}
use wasm_hot.Migration.{MigrationEngine, MigrationFunc, Migrated, find_migration}
use wasm_hot.Migration.Path.{path, run_path, migrate-run_path}
use wasm_hot.Migration.Outcome.{migrate-ok, run_path_stops}
use wasm_hot.Registry.{ObjectRegistry, view_of, get, finish_migrate, migrate}
use wasm_hot.Registry.Objects.{seen}

module _ (r : ObjectRegistry) (e : MigrationEngine) (s : ComponentStorage) (o target : ℕ) where
  -- The steps of the way from a header's version to the target, taken one by one on its view.
  abbrev pub stepwise : ObjectHeader → Migrated
  stepwise header = run_path e (path header.schema_version target) (view_of r header) s

  -- What a result of `Migrate` on an object with this header is.
  abbrev pub Answers : ObjectHeader → Option (Bool × ObjectRegistry × ComponentStorage) → Type 0
  Answers header result =
      (r' : ObjectRegistry) × (result ≡ some ((stepwise header).ok, r', (stepwise header).storage))
      × ((((stepwise header).ok ≡ true)
            × (view : GameObject) × (seen r' o ≡ some view)
            × (view.header ≡ (stepwise header).obj.header)
            × (view.header.schema_version ≡ target))
          ⊎ (((stepwise header).ok ≡ false) × (r' ≡ r)))
      × ((q : ℕ) → q ≢ o → seen r' q ≡ seen r q)

  finish-Answers :
      (header : ObjectHeader)
      → find o r.objects ≡ some header
      → ((stepwise header).ok ≡ true → (stepwise header).obj.header.schema_version ≡ target)
      → Answers header (finish_migrate r o (some (stepwise header)))
  unfolding finish_migrate get
  finish-Answers header known version =
      let m = stepwise header in
      elim (Bool-cases m.ok) [
        | inl ok ↦ (
          record r { objects = assign o m.obj.header r.objects },
          ground arith,
          inl (
            ok,
            view_of r m.obj.header,
            ground (arith, find-assign o o m.obj.header r.objects),
            refl,
            version ok,
          ),
          λ q ne. ground (arith, find-assign o q m.obj.header r.objects),
        )
        | inr failed ↦ (r, ground arith, inr (failed, refl), λ q ne. refl)
      ]

  -- For 32-bit versions a migration of a registered object always answers, with the answer and the
  -- storage of the steps on its way. After true the object has the header that the steps have left,
  -- at the target version; after false the registry is as before. The headers of all other objects
  -- are as before in either case.
  pub migrate-Answers :
      (header : ObjectHeader)
      → seen r o ≡ some (view_of r header)
      → header.schema_version < 2 ^ 32
      → target < 2 ^ 32
      → Answers header (migrate r e s o target)
  unfolding get migrate
  migrate-Answers header known h k =
      let found : find o r.objects ≡ some header = elim (Option-cases (find o r.objects)) [
        | inl missing ↦ absurd (ground arith)
        | inr (header', there) ↦ ground arith
      ] in
      let start = view_of r header in
      let m = stepwise header in
      let ran : migrate r e s o target ≡ finish_migrate r o (some m) =
        ground (arith, migrate-run_path e start s target h k) in
      subst (Answers header) (sym ran) (
        finish-Answers header found
          λ ok. (migrate-ok e start s target m h k (migrate-run_path e start s target h k) ok).0)

  -- A migration of a view by the function of one step, and the missing function of the next.
  abbrev pub StopsAfterOne : ObjectHeader → MigrationFunc → Type 0
  StopsAfterOne header func =
      let v = header.schema_version in
      (find_migration e v (suc v) ≡ some func)
      × ((func (view_of r header) s v (suc v)).ok ≡ true)
      × (find_migration e (suc v) (suc (suc v)) ≡ none)

  -- Where the first step up of a registered object succeeds and the second, which the 32-bit target
  -- needs, is not registered, the migration answers false and the registry keeps the old version,
  -- but the storage is what the first step made of it.
  pub migrate-StopsAfterOne :
      (header : ObjectHeader) (func : MigrationFunc)
      → seen r o ≡ some (view_of r header)
      → suc (suc header.schema_version) ≤ target
      → target < 2 ^ 32
      → StopsAfterOne header func
      → migrate r e s o target
        ≡ some (
          false,
          r,
          (func (view_of r header) s header.schema_version (suc header.schema_version)).storage,
        )
  unfolding get migrate
  migrate-StopsAfterOne header func known far k stops = elim (Option-cases (find o r.objects)) [
    | inl missing ↦ absurd (ground arith)
    | inr (header', found) ↦
        let start = view_of r header in
        let low : header.schema_version < 2 ^ 32 = omega arith in
        ground (
          arith,
          migrate-run_path e start s target low k,
          run_path_stops e start s target func far stops.0 stops.1 stops.2,
        )
  ]
