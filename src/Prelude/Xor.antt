-- ===== src/Prelude/Xor.antt =====
-- Laws of the exclusive or, from the law for the lowest binary digit.
use Prim.Native.Nat.{ℕ, zero, suc, ◌+◌, ◌*◌, ◌/◌, ◌%◌, ◌≤◌, ◌<◌, bit_xor, differ, bit_xor-bitwise}
use mathlib.Core.Path.{◌≡◌, refl, ap, ◌∙◌}
use mathlib.Core.Logic.{◌⊎◌, inl, inr}
use native.Mathlib.Omega.{arith}
use vsclib.Prelude.Bits.{bitwise_step}

pub zero-bit_xor : (b : ℕ) → bit_xor 0 b ≡ b
zero-bit_xor b = bit_xor-bitwise 0 b

pub bit : (a : ℕ) → (a % 2 ≡ 0) ⊎ (a % 2 ≡ 1)
bit a = ground arith

differ_bit : (a b : ℕ) → differ (a % 2) (b % 2) ≡ (a % 2 + b % 2) % 2
differ_bit a b = elim (bit a) [
  | inl x ↦ rw x (omega arith)
  | inr x ↦ elim (bit b) [ inl y ↦ rw (x, y) refl | inr y ↦ rw (x, y) refl ]
]

-- the digits above the lowest, and the lowest
pub bit_xor_step : (a b : ℕ) → bit_xor a b ≡ bit_xor (a / 2) (b / 2) * 2 + (a % 2 + b % 2) % 2
bit_xor_step a b =
    let whole = bit_xor-bitwise a b in
    let upper = bit_xor-bitwise (a / 2) (b / 2) in
    let split = bitwise_step (λ y. y) differ (λ y. omega arith) a b in omega (arith, differ_bit a b)

pub half-bit_xor : (a b : ℕ) → bit_xor a b / 2 ≡ bit_xor (a / 2) (b / 2)
half-bit_xor a b = omega (arith, bit_xor_step a b)

pub parity-bit_xor : (a b : ℕ) → bit_xor a b % 2 ≡ (a % 2 + b % 2) % 2
parity-bit_xor a b = omega (arith, bit_xor_step a b)

bit_xor_comm_fuel : (n a b : ℕ) → a ≤ n → b ≤ n → bit_xor a b ≡ bit_xor b a
bit_xor_comm_fuel zero zero zero p q = refl
bit_xor_comm_fuel zero (suc a) b p q = absurd (omega arith)
bit_xor_comm_fuel zero zero (suc b) p q = absurd (omega arith)
bit_xor_comm_fuel (suc n) a b p q = omega (
  arith,
  bit_xor_step a b,
  bit_xor_step b a,
  bit_xor_comm_fuel n (a / 2) (b / 2) (omega arith) (omega arith),
)

pub bit_xor_comm : (a b : ℕ) → bit_xor a b ≡ bit_xor b a
bit_xor_comm a b = bit_xor_comm_fuel (a + b) a b (omega arith) (omega arith)

bit_xor_assoc_fuel :
    (n a b c : ℕ) → a + b + c ≤ n → bit_xor (bit_xor a b) c ≡ bit_xor a (bit_xor b c)
bit_xor_assoc_fuel zero zero zero zero p = refl
bit_xor_assoc_fuel zero (suc a) b c p = absurd (omega arith)
bit_xor_assoc_fuel zero zero (suc b) c p = absurd (omega arith)
bit_xor_assoc_fuel zero zero zero (suc c) p = absurd (omega arith)
bit_xor_assoc_fuel (suc n) zero b c p = rw (zero-bit_xor b, zero-bit_xor (bit_xor b c)) refl
bit_xor_assoc_fuel (suc n) (suc a) b c p =
    let ih = bit_xor_assoc_fuel n (suc a / 2) (b / 2) (c / 2) (omega arith) in
    let l = bit_xor_step (bit_xor (suc a) b) c in
    let r = bit_xor_step (suc a) (bit_xor b c) in
    rw
      (
        l,
        r,
        half-bit_xor (suc a) b,
        half-bit_xor b c,
        ih,
        parity-bit_xor (suc a) b,
        parity-bit_xor b c,
      )
      (omega arith)

pub bit_xor_assoc : (a b c : ℕ) → bit_xor (bit_xor a b) c ≡ bit_xor a (bit_xor b c)
bit_xor_assoc a b c = bit_xor_assoc_fuel (a + b + c) a b c (omega arith)

pub bit_xor_zero : (a : ℕ) → bit_xor a 0 ≡ a
bit_xor_zero a = omega (arith, bit_xor_comm a 0, zero-bit_xor a)

bit_xor_self_fuel : (n a : ℕ) → a ≤ n → bit_xor a a ≡ 0
bit_xor_self_fuel zero zero h = refl
bit_xor_self_fuel zero (suc a) h = absurd (omega arith)
bit_xor_self_fuel (suc n) a h =
    omega (arith, bit_xor_step a a, bit_xor_self_fuel n (a / 2) (omega arith))

pub bit_xor_self : (a : ℕ) → bit_xor a a ≡ 0
bit_xor_self a = bit_xor_self_fuel a a (omega arith)

bit_xor_even : (lo m hi : ℕ) → m ≡ hi * 2 → bit_xor lo m ≡ bit_xor (lo / 2) hi * 2 + lo % 2
bit_xor_even lo m hi e =
    let half : m / 2 ≡ hi = omega arith in
    let h : bit_xor (lo / 2) (m / 2) ≡ bit_xor (lo / 2) hi = ap (bit_xor (lo / 2)) half in
    omega (arith, bit_xor_step lo m)

shift_nibble : (lo hi : ℕ) → bit_xor lo (hi * 16) ≡ bit_xor (lo / 16) hi * 16 + lo % 16
shift_nibble lo hi =
    let top : lo / 2 / 2 / 2 / 2 ≡ lo / 16 = omega arith in
    let last : bit_xor (lo / 2 / 2 / 2 / 2) hi ≡ bit_xor (lo / 16) hi =
      ap (λ t. bit_xor t hi) top in
    omega (
      arith,
      bit_xor_even lo (hi * 16) (hi * 8) (omega arith),
      bit_xor_even (lo / 2) (hi * 8) (hi * 4) (omega arith),
      bit_xor_even (lo / 2 / 2) (hi * 4) (hi * 2) (omega arith),
      bit_xor_even (lo / 2 / 2 / 2) (hi * 2) hi refl,
    )

bit_xor-low_nibble : (lo hi : ℕ) → lo < 16 → bit_xor lo (hi * 16) ≡ lo + hi * 16
bit_xor-low_nibble lo hi h =
    let top : lo / 16 ≡ 0 = omega arith in
    let last : bit_xor (lo / 16) hi ≡ hi = rw top (zero-bit_xor hi) in
    omega (arith, shift_nibble lo hi)

-- The low byte and the rest have no digit in common.
pub bit_xor-low_byte : (lo hi : ℕ) → lo < 256 → bit_xor lo (hi * 256) ≡ lo + hi * 256
bit_xor-low_byte lo hi h =
    let e : hi * 256 ≡ hi * 16 * 16 = omega arith in
    rw e (omega (arith, shift_nibble lo (hi * 16), bit_xor-low_nibble (lo / 16) hi (omega arith)))

abbrev halves : ℕ → ℕ → ℕ
halves zero a = a
halves (suc n) a = halves n (a / 2)

halves-bit_xor : (n a b : ℕ) → halves n (bit_xor a b) ≡ bit_xor (halves n a) (halves n b)
halves-bit_xor zero a b = refl
halves-bit_xor (suc n) a b = ap (halves n) (half-bit_xor a b) ∙ halves-bit_xor n (a / 2) (b / 2)

-- A byte changes nothing above it.
pub bit_xor-above_byte : (a b : ℕ) → b < 256 → bit_xor a b / 256 ≡ a / 256
bit_xor-above_byte a b h =
    let none : halves 8 b ≡ 0 = omega arith in
    let above : halves 8 (bit_xor a b) ≡ halves 8 a =
      halves-bit_xor 8 a b ∙ ap (bit_xor (halves 8 a)) none ∙ bit_xor_zero (halves 8 a) in
    omega arith
