-- ===== src/Migration/Outcome.antt =====
-- What MigrationEngine::Migrate answers, and what it has done by then.
use wasm_hot.Base.{
  ℕ, zero, suc, ◌+◌, ◌-◌, ◌^◌, ◌<◌, ◌≡◌, refl, ap, subst, sym, ◌∙◌, inl, inr, List, [], ◌∷◌, ◌++◌,
  none, some, true, false, arith, ltb, nat_key, Bool-cases, is_some, lt→ltb, ◌≤◌,
}
use wasm_hot.Storage.{ComponentStorage}
use wasm_hot.Object.{GameObject}
use wasm_hot.Migration.{
  MigrationEngine, MigrationFunc, Migrated, find_migration, migrate_step, stamp, migrate,
}
use wasm_hot.Migration.Path.{up, down, path, run_path, migrate-run_path}

-- Every step of a path has a registered migration.
abbrev pub AllRegistered : MigrationEngine → List (ℕ × ℕ) → Type 0
AllRegistered e [] = Unit {0}
AllRegistered e ((from, to) ∷ rest) =
    (is_some (find_migration e from to) ≡ true) × AllRegistered e rest

-- A path leads from one version to another, each step beginning where the one before it ended.
abbrev pub Connects : ℕ → List (ℕ × ℕ) → ℕ → Type 0
Connects v [] w = v ≡ w
Connects v ((from, to) ∷ rest) w = (v ≡ from) × Connects to rest w

up-Connects : (v count w : ℕ) → v + count ≡ w → Connects v (up v count) w
unfolding up
up-Connects v zero w h = omega arith
up-Connects v (suc count) w h = (refl, up-Connects (suc v) count w (omega arith))

down-Connects : (v count w : ℕ) → w + count ≡ v → Connects v (down v count) w
unfolding down
down-Connects v zero w h = omega arith
down-Connects zero (suc count) w h = absurd (omega arith)
down-Connects (suc v) (suc count) w h = (refl, down-Connects v count w (omega arith))

path-Connects : (v w : ℕ) → Connects v (path v w) w
unfolding path
path-Connects v w = elim (Bool-cases (ltb v w)) [
  | inl less ↦ rw less (up-Connects v (w - v) w (ground arith))
  | inr more ↦ rw more (down-Connects v (v - w) w (ground arith))
]

module _ (e : MigrationEngine) where
  ran :
      (obj : GameObject) (s : ComponentStorage) (target : ℕ) (r : Migrated)
      → obj.header.schema_version < 2 ^ 32
      → target < 2 ^ 32
      → migrate e obj s target ≡ some r
      → run_path e (path obj.header.schema_version target) obj s ≡ r
  ran obj s target r h k m = cc (migrate-run_path e obj s target h k)

  step_registered :
      (obj : GameObject) (s : ComponentStorage) (from to : ℕ)
      → (migrate_step e obj s from to).ok ≡ true
      → is_some (find_migration e from to) ≡ true
  unfolding migrate_step
  step_registered obj s from to h = ground arith

  run_path-ok :
      (p : List (ℕ × ℕ)) (obj : GameObject) (s : ComponentStorage) (w : ℕ)
      → Connects obj.header.schema_version p w
      → (run_path e p obj s).ok ≡ true
      → ((run_path e p obj s).obj.header.schema_version ≡ w) × AllRegistered e p
  unfolding run_path
  run_path-ok [] obj s w c h = (c, tt)
  run_path-ok ((from, to) ∷ rest) obj s w c h =
      elim (Bool-cases (migrate_step e obj s from to).ok) [
        | inl done ↦
            let r = migrate_step e obj s from to in
            let (version, registered) =
              run_path-ok rest (stamp r.obj to) r.storage w c.1 (ground arith) in
            (ground arith, (step_registered obj s from to done, registered))
        | inr failed ↦ absurd (ground arith)
      ]

  -- A step that fails, in the state that the steps before it have left.
  abbrev pub FailsAt : List (ℕ × ℕ) → GameObject → ComponentStorage → Migrated → Type 0
  FailsAt p obj s r =
      (done : List (ℕ × ℕ)) × (from : ℕ) × (to : ℕ) × (rest : List (ℕ × ℕ)) × (p
        ≡ done ++ (from, to) ∷ rest)
      × ((run_path e done obj s).ok ≡ true)
      × (r ≡ migrate_step e (run_path e done obj s).obj (run_path e done obj s).storage from to)
      × (r.ok ≡ false)

  run_path-FailsAt :
      (p : List (ℕ × ℕ)) (obj : GameObject) (s : ComponentStorage)
      → (run_path e p obj s).ok ≡ false
      → FailsAt p obj s (run_path e p obj s)
  unfolding run_path
  run_path-FailsAt [] obj s h = absurd (ground arith)
  run_path-FailsAt ((from, to) ∷ rest) obj s h =
      elim (Bool-cases (migrate_step e obj s from to).ok) [
        | inl ok ↦
            let r = migrate_step e obj s from to in
            let (done, a, b, more, split, fine, same, fails) =
              run_path-FailsAt rest (stamp r.obj to) r.storage (ground arith) in
            (
              (from, to) ∷ done,
              a,
              b,
              more,
              ap (◌∷◌ (from, to)) split,
              ground arith,
              ground arith,
              ground arith,
            )
        | inr failed ↦ ([], from, to, rest, refl, refl, ground arith, ground arith)
      ]

  -- A migration between 32-bit versions that answers true has brought the object to the target, and
  -- a migration is registered for every single step on the way.
  pub migrate-ok :
      (obj : GameObject) (s : ComponentStorage) (target : ℕ) (r : Migrated)
      → obj.header.schema_version < 2 ^ 32
      → target < 2 ^ 32
      → migrate e obj s target ≡ some r
      → r.ok ≡ true
      → (r.obj.header.schema_version ≡ target)
        × AllRegistered e (path obj.header.schema_version target)
  migrate-ok obj s target r h k m ok =
      let same = ran obj s target r h k m in
      let (version, registered) =
        run_path-ok (path obj.header.schema_version target) obj s target
          (path-Connects obj.header.schema_version target)
          (ap (λ (x : Migrated). x.ok) same ∙ ok) in
      (ap (λ (x : Migrated). x.obj.header.schema_version) (sym same) ∙ version, registered)

  -- A migration between 32-bit versions that answers false has stopped at one step of the way: all
  -- steps before it have succeeded, and the view and the storage are those that this step left.
  pub migrate-FailsAt :
      (obj : GameObject) (s : ComponentStorage) (target : ℕ) (r : Migrated)
      → obj.header.schema_version < 2 ^ 32
      → target < 2 ^ 32
      → migrate e obj s target ≡ some r
      → r.ok ≡ false
      → FailsAt (path obj.header.schema_version target) obj s r
  migrate-FailsAt obj s target r h k m failed =
      let same = ran obj s target r h k m in
      subst (FailsAt (path obj.header.schema_version target) obj s) same (
        run_path-FailsAt (path obj.header.schema_version target) obj s
          (ap (λ (x : Migrated). x.ok) same ∙ failed))

path-up : (v target : ℕ) → v < target → path v target ≡ (v, suc v) ∷ path (suc v) target
unfolding path up down
path-up v target h = elim (Bool-cases (ltb (suc v) target)) [
  | inl more ↦
      let count : target - v ≡ suc (target - suc v) = omega arith in
      rw (lt→ltb v target h, more, count)
  | inr last ↦
      let same : target ≡ suc v = ground arith in
      let one : suc v - v ≡ suc zero = omega arith in
      let none_left : suc v - suc v ≡ zero = omega arith in
      rw (lt→ltb v target h, last, same, one, none_left)
]

pub run_path_stops :
    (e : MigrationEngine) (obj : GameObject) (s : ComponentStorage) (target : ℕ)
    (func : MigrationFunc)
    → suc (suc obj.header.schema_version) ≤ target
    → find_migration e obj.header.schema_version (suc obj.header.schema_version) ≡ some func
    → (func obj s obj.header.schema_version (suc obj.header.schema_version)).ok ≡ true
    → find_migration e (suc obj.header.schema_version) (suc (suc obj.header.schema_version)) ≡ none
    → let r = func obj s obj.header.schema_version (suc obj.header.schema_version) in
      run_path e (path obj.header.schema_version target) obj s ≡ record {
        ok = false;
        obj = stamp r.obj (suc obj.header.schema_version);
        storage = r.storage;
      }
unfolding run_path migrate_step
run_path_stops e obj s target func far first fine missing =
    let v = obj.header.schema_version in
    rw (path-up v target (omega arith), path-up (suc v) target far) (ground arith)
