-- ===== src/Migration/Path.antt =====
-- MigrationEngine::Migrate against the path of single steps between two versions.
use wasm_hot.Base.{
  ℕ, zero, suc, ◌+◌, ◌-◌, ◌^◌, ◌≤◌, ◌<◌, ◌≡◌, ◌≢◌, inl, inr, List, [], ◌∷◌, some, true, refl,
  length, arith, ltb, nat_key, if◌then◌else◌, Bool-cases,
}
use wasm_hot.Storage.{ComponentStorage}
use wasm_hot.Object.{GameObject}
use wasm_hot.Migration.{
  MigrationEngine, Migrated, migrate_step, stamp, next_version, migrate_loop, migrate,
}

-- `count` steps up from `v`, and `count` steps down from `v`.
unfoldable pub up : ℕ → ℕ → List (ℕ × ℕ)
up v zero = []
up v (suc count) = (v, suc v) ∷ up (suc v) count

unfoldable pub down : ℕ → ℕ → List (ℕ × ℕ)
down v zero = []
down zero (suc count) = []
down (suc v) (suc count) = (suc v, v) ∷ down v count

unfoldable pub path : ℕ → ℕ → List (ℕ × ℕ)
unfolding up down
path from to = if ltb from to then up from (to - from) else down from (from - to)

-- The steps in turn, up to the first that fails; the view is stamped after each that succeeds.
unfoldable pub run_path : MigrationEngine → List (ℕ × ℕ) → GameObject → ComponentStorage → Migrated
run_path e [] obj s = record { ok = true; obj = obj; storage = s }
run_path e ((from, to) ∷ rest) obj s =
    let r = migrate_step e obj s from to in
    let others = run_path e rest (stamp r.obj to) r.storage in if r.ok then others else r

next_up : (v target : ℕ) → v < target → target < 2 ^ 32 → next_version v target ≡ suc v
unfolding next_version
next_up v target h k = ground arith

next_down : (v target : ℕ) → target ≤ v → suc v < 2 ^ 32 → next_version (suc v) target ≡ v
unfolding next_version
next_down v target h k = ground arith

length-up : (v count : ℕ) → length (up v count) ≡ count
unfolding up
length-up v zero = refl
length-up v (suc count) = omega (arith, length-up (suc v) count)

length-down : (v count : ℕ) → count ≤ v → length (down v count) ≡ count
unfolding down
length-down v zero h = refl
length-down zero (suc count) h = absurd (omega arith)
length-down (suc v) (suc count) h = omega (arith, length-down v count (omega arith))

module _ (e : MigrationEngine) where
  loop_here :
      (rounds v : ℕ) (obj : GameObject) (s : ComponentStorage)
      → migrate_loop (suc rounds) e v v obj s ≡ some (record { ok = true; obj = obj; storage = s })
  unfolding migrate_loop
  loop_here rounds v obj s = ground arith

  -- One round of the loop on the way to another version.
  loop_step :
      (rounds v target next : ℕ) (obj : GameObject) (s : ComponentStorage) (rest : List (ℕ × ℕ))
      → v ≢ target
      → next_version v target ≡ next
      → ((obj' : GameObject) (s' : ComponentStorage)
          → migrate_loop rounds e next target obj' s' ≡ some (run_path e rest obj' s'))
      → migrate_loop (suc rounds) e v target obj s ≡ some (run_path e ((v, next) ∷ rest) obj s)
  unfolding migrate_loop run_path
  loop_step rounds v target next obj s rest ne step ih = rw step (
      ground (
        arith,
        ih (stamp (migrate_step e obj s v next).obj next) (migrate_step e obj s v next).storage,
      ))

  loop_up :
      (count rounds v target : ℕ) (obj : GameObject) (s : ComponentStorage)
      → v + count ≡ target
      → target < 2 ^ 32
      → count < rounds
      → migrate_loop rounds e v target obj s ≡ some (run_path e (up v count) obj s)
  unfolding up run_path
  loop_up count zero v target obj s same h k = absurd (omega arith)
  loop_up zero (suc rounds) v target obj s same h k =
      let here : target ≡ v = omega arith in rw here (loop_here rounds v obj s)
  loop_up (suc count) (suc rounds) v target obj s same h k =
      loop_step rounds v target (suc v) obj s (up (suc v) count) (omega arith)
        (next_up v target (omega arith) h)
        λ obj' s'. loop_up count rounds (suc v) target obj' s' (omega arith) h (omega arith)

  loop_down :
      (count rounds v target : ℕ) (obj : GameObject) (s : ComponentStorage)
      → target + count ≡ v
      → v < 2 ^ 32
      → count < rounds
      → migrate_loop rounds e v target obj s ≡ some (run_path e (down v count) obj s)
  unfolding down run_path
  loop_down count zero v target obj s same h k = absurd (omega arith)
  loop_down zero (suc rounds) v target obj s same h k =
      let here : target ≡ v = omega arith in rw here (loop_here rounds v obj s)
  loop_down (suc count) (suc rounds) zero target obj s same h k = absurd (omega arith)
  loop_down (suc count) (suc rounds) (suc v) target obj s same h k =
      loop_step rounds (suc v) target v obj s (down v count) (omega arith)
        (next_down v target (omega arith) h)
        λ obj' s'. loop_down count rounds v target obj' s' (omega arith) (omega arith) (omega arith)

  -- The loop between two 32-bit versions ends within one round for each version on the way and one
  -- for the last test: with any number of rounds above the distance it gives the same result, which
  -- is that of the path of single steps, one for each of the distance.
  pub migrate_loop-path :
      (rounds v target : ℕ) (obj : GameObject) (s : ComponentStorage)
      → v < 2 ^ 32
      → target < 2 ^ 32
      → (target - v) + (v - target) < rounds
      → (migrate_loop rounds e v target obj s ≡ some (run_path e (path v target) obj s))
        × (length (path v target) ≡ (target - v) + (v - target))
  unfolding path
  migrate_loop-path rounds v target obj s h k enough = elim (Bool-cases (ltb v target)) [
    | inl less ↦ rw less (
      loop_up (target - v) rounds v target obj s (ground arith) k (ground arith),
      ground (arith, length-up v (target - v)),
    )
    | inr more ↦ rw more (
      loop_down (v - target) rounds v target obj s (ground arith) h (ground arith),
      ground (arith, length-down v (v - target) (omega arith)),
    )
  ]

  -- Between 32-bit versions a migration always ends, and it does what running the path of single
  -- steps from the object's version to the target does.
  pub migrate-run_path :
      (obj : GameObject) (s : ComponentStorage) (target : ℕ)
      → obj.header.schema_version < 2 ^ 32
      → target < 2 ^ 32
      → migrate e obj s target ≡ some (run_path e (path obj.header.schema_version target) obj s)
  unfolding migrate
  migrate-run_path obj s target h k =
      let v = obj.header.schema_version in
      (migrate_loop-path (suc (v + target)) v target obj s h k (omega arith)).0
