-- ===== src/Base/Tests.antt =====
-- Boolean tests on native numbers and on texts, and equality as an interface of the key types.
use Prim.Native.Nat.{ℕ, ◌<◌, compare, Ordering}
use Prim.Native.String.{String}
use mathlib.Core.Path.{◌≡◌, refl}
use mathlib.Core.Logic.{◌↔◌, ◌⊎◌, inl, inr}
use mathlib.Core.Bool.{Bool, true, false, ◌&&◌}
use mathlib.Core.Option.{Option, none, some}
use native.Mathlib.Omega.{arith}
use text.Mathlib.Text.{◌==◌ as str_eq}
use text.Mathlib.TextEquality.{eq_iff}

abbrev pub ltb : ℕ → ℕ → Bool
ltb a b = elim (compare a b) [ Ordering.lt ↦ true | _ ↦ false ]

abbrev pub leb : ℕ → ℕ → Bool
leb a b = elim (compare a b) [ Ordering.gt ↦ false | _ ↦ true ]

abbrev pub nat_beq : ℕ → ℕ → Bool
nat_beq a b = elim (compare a b) [ Ordering.eq ↦ true | _ ↦ false ]

infix 1 if◌then◌else◌
abbrev pub if◌then◌else◌ {ℓ} : {A : Type ℓ} → Bool → A → A → A
if true then x else y = x
if false then x else y = y

pub lt→ltb : (a b : ℕ) → a < b → ltb a b ≡ true
lt→ltb a b h = ground arith

pub nat_beq_iff : (a b : ℕ) → (nat_beq a b ≡ true) ↔ (a ≡ b)
nat_beq_iff a b = ground arith

-- The keys of a container: a decision whether two of them agree.
pub record Key {ℓ} (K : Type ℓ) : Type ℓ where
  pub agrees : K → K → Bool
  pub agrees_iff : (j k : K) → (agrees j k ≡ true) ↔ (j ≡ k)

instance abbrev pub string_key : Key String
string_key = record { agrees = str_eq; agrees_iff = eq_iff }

instance abbrev pub nat_key : Key ℕ
nat_key = record { agrees = nat_beq; agrees_iff = nat_beq_iff }

module _ {ℓ} {J K : Type ℓ} ⦃first : Key J⦄ ⦃second : Key K⦄ where
  abbrev pub pair_agrees : J × K → J × K → Bool
  pair_agrees (i, j) (k, l) = first.agrees i k && second.agrees j l

  pub pair_agrees_iff : (p q : J × K) → (pair_agrees p q ≡ true) ↔ (p ≡ q)
  pair_agrees_iff (i, j) (k, l) = ground (arith, first.agrees_iff i k, second.agrees_iff j l)

  instance abbrev pub pair_key : Key (J × K)
  pair_key = record { agrees = pair_agrees; agrees_iff = pair_agrees_iff }

module _ {ℓ} {K : Type ℓ} ⦃key : Key K⦄ where
  infix 50 ◌==◌
  abbrev pub ◌==◌ : K → K → Bool
  j == k = key.agrees j k

  pub key_refl : (k : K) → (k == k) ≡ true
  key_refl k = (key.agrees_iff k k).1 refl

pub Bool-cases : (b : Bool) → (b ≡ true) ⊎ (b ≡ false)
Bool-cases true = inl refl
Bool-cases false = inr refl

pub Option-cases {ℓ} : {A : Type ℓ} (o : Option A) → (o ≡ none) ⊎ ((a : A) × (o ≡ some a))
Option-cases none = inl refl
Option-cases (some a) = inr (a, refl)

abbrev pub is_some {ℓ} : {A : Type ℓ} → Option A → Bool
is_some none = false
is_some (some a) = true

-- What holds of both branches holds of the conditional.
pub if_both {ℓ κ} :
    {A : Type ℓ} (P : A → Type κ) (b : Bool) {x y : A} → P x → P y → P (if b then x else y)
if_both P true h k = h
if_both P false h k = k
