-- ===== src/Migration/Keys.antt =====
-- MigrationEngine::MakeKey, and the table that is keyed by it.
use wasm_hot.Base.{
  ℕ, ◌+◌, ◌*◌, ◌%◌, ◌^◌, ◌<◌, ◌≡◌, ◌∙◌, some, arith, ◌==◌, ◌&&◌, nat_key, if◌then◌else◌,
}
use wasm_hot.Bits.{bit_or-shift_32}
use wasm_hot.Dict.{find-assign}
use wasm_hot.Migration.{MigrationEngine, MigrationFunc, make_key, register, find_migration}

make_key-sum : (from to : ℕ) → from < 2 ^ 32 → to < 2 ^ 32 → make_key from to ≡ from * 2 ^ 32 + to
unfolding make_key
make_key-sum from to h k =
    let whole : from * 2 ^ 32 % 2 ^ 64 ≡ from * 2 ^ 32 = omega arith in
    rw whole (bit_or-shift_32 from to k)

-- Two pairs of 32-bit versions have one key only if they are the same pair.
pub make_key-injective :
    (a b c d : ℕ)
    → a < 2 ^ 32
    → b < 2 ^ 32
    → c < 2 ^ 32
    → d < 2 ^ 32
    → make_key a b ≡ make_key c d
    → (a ≡ c) × (b ≡ d)
make_key-injective a b c d ha hb hc hd e =
    omega (arith, make_key-sum a b ha hb, make_key-sum c d hc hd)

-- For 32-bit versions, a registration replaces the migration of its own pair of versions and leaves
-- every other pair as it was.
pub find_migration-register :
    (e : MigrationEngine) (func : MigrationFunc) (from to a b : ℕ)
    → from < 2 ^ 32
    → to < 2 ^ 32
    → a < 2 ^ 32
    → b < 2 ^ 32
    → find_migration (register e from to func) a b
      ≡ (if from == a && to == b then some func else find_migration e a b)
unfolding find_migration register
find_migration-register e func from to a b hf ht ha hb =
    find-assign (make_key from to) (make_key a b) func e.migrations
    ∙ ground (arith, make_key-sum from to hf ht, make_key-sum a b ha hb)
