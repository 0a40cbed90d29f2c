-- ===== src/Bytes.antt =====
-- Integers in memory, little-endian, as std::memcpy reads and writes them on the target.
use wasm_hot.Base.{
  ℕ, zero, suc, ◌+◌, ◌*◌, ◌/◌, ◌%◌, ◌^◌, ◌<◌, ◌≡◌, refl, List, [], ◌∷◌, ◌++◌, arith, length, take,
  drop,
}

-- std::vector<uint8_t>
abbrev pub Bytes : Type 0
Bytes = List ℕ

abbrev pub IsBytes : Bytes → Type 0
IsBytes [] = Unit {0}
IsBytes (b ∷ bs) = (b < 256) × IsBytes bs

-- The `n` bytes of an integer, the lowest first.
unfoldable pub to_le : ℕ → ℕ → Bytes
to_le zero x = []
to_le (suc n) x = (x % 256) ∷ to_le n (x / 256)

unfoldable pub from_le : Bytes → ℕ
from_le [] = 0
from_le (b ∷ bs) = b + 256 * from_le bs

pub length-to_le : (n x : ℕ) → length (to_le n x) ≡ n
unfolding to_le
length-to_le zero x = refl
length-to_le (suc n) x = omega (arith, length-to_le n (x / 256))

pub to_le-IsBytes : (n x : ℕ) → IsBytes (to_le n x)
unfolding to_le
to_le-IsBytes zero x = tt
to_le-IsBytes (suc n) x = (omega arith, to_le-IsBytes n (x / 256))

pub from_le-to_le : (x : ℕ) → x < 2 ^ 32 → from_le (to_le 4 x) ≡ x
unfolding from_le to_le
from_le-to_le x h = omega arith

pub from_le-to_le_8 : (x : ℕ) → x < 2 ^ 64 → from_le (to_le 8 x) ≡ x
unfolding from_le to_le
from_le-to_le_8 x h = omega arith

pub to_le-from_le : (bs : Bytes) → IsBytes bs → to_le (length bs) (from_le bs) ≡ bs
unfolding from_le to_le
to_le-from_le [] h = refl
to_le-from_le (b ∷ bs) h =
    let low : (b + 256 * from_le bs) % 256 ≡ b = omega arith in
    let high : (b + 256 * from_le bs) / 256 ≡ from_le bs = omega arith in
    rw (low, high, to_le-from_le bs h.1)

pub IsBytes-append : (xs ys : Bytes) → IsBytes xs → IsBytes ys → IsBytes (xs ++ ys)
IsBytes-append [] ys h k = k
IsBytes-append (x ∷ xs) ys h k = (h.0, IsBytes-append xs ys h.1 k)

-- std::memcpy(&x, bytes.data() + at, 4) into a uint32_t
unfoldable pub read_u32 : ℕ → Bytes → ℕ
read_u32 at bs = from_le (take 4 (drop at bs))
