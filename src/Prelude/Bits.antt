-- ===== src/Prelude/Bits.antt =====
-- Laws of the bit operations, from the law for the lowest binary digit.
use Prim.Native.Nat.{
  ℕ, zero, suc, min, max, ◌+◌, ◌-◌, ◌*◌, ◌/◌, ◌%◌, ◌≤◌, ◌<◌, digits, bitwise, bit_and,
  bit_and-bitwise, bit_or, bit_or-bitwise,
}
use mathlib.Core.Path.{◌≡◌, refl, ap, sym, ◌∙◌}
use native.Mathlib.Nat.{
  mul_assoc, mod-lt, mod-eq_of_lt, mod-add-div', add-mul-mod_self_right, div-div-eq-div-mul,
}
use native.Mathlib.Omega.{arith}

module _ (right : ℕ → ℕ) (on_bits : ℕ → ℕ → ℕ) where
  -- Rounds past the last digit of the left number add nothing.
  enough_rounds :
      (left other few many : ℕ)
      → left ≤ few
      → left ≤ many
      → digits right on_bits few left other ≡ digits right on_bits many left other
  enough_rounds zero other zero zero f m = refl
  enough_rounds zero other zero (suc many) f m = refl
  enough_rounds zero other (suc few) zero f m = refl
  enough_rounds zero other (suc few) (suc many) f m = refl
  enough_rounds (suc left) other zero many f m = absurd (omega arith)
  enough_rounds (suc left) other (suc few) zero f m = absurd (omega arith)
  enough_rounds (suc left) other (suc few) (suc many) f m =
      let rest = enough_rounds (suc left / 2) (other / 2) few many (omega arith) (omega arith) in
      omega arith

  -- An operation on digits, one digit at a time, where it agrees with `right` when the left is 0.
  pub bitwise_step :
      ((y : ℕ) → right y ≡ right (y / 2) * 2 + on_bits 0 (y % 2))
      → (x y : ℕ)
      → bitwise right on_bits x y
        ≡ bitwise right on_bits (x / 2) (y / 2) * 2 + on_bits (x % 2) (y % 2)
  bitwise_step at_zero zero y = at_zero y
  bitwise_step at_zero (suc x) y =
      let rest = enough_rounds (suc x / 2) (y / 2) x (suc x / 2) (omega arith) (omega arith) in
      omega arith

abbrev pub pow2 : ℕ → ℕ
pow2 zero = 1
pow2 (suc n) = pow2 n * 2

zero-bit_and : (b : ℕ) → bit_and 0 b ≡ 0
zero-bit_and b = bit_and-bitwise 0 b

bit_and_digit : (a b : ℕ) → bit_and a b ≡ bit_and (a / 2) (b / 2) * 2 + min (a % 2) (b % 2)
bit_and_digit a b =
    let whole = bit_and-bitwise a b in
    let upper = bit_and-bitwise (a / 2) (b / 2) in
    let split = bitwise_step (λ y. zero) min (λ y. omega arith) a b in omega arith

bit_and_none : (n a : ℕ) → a ≤ n → bit_and a 0 ≡ 0
bit_and_none zero zero h = zero-bit_and 0
bit_and_none zero (suc a) h = absurd (omega arith)
bit_and_none (suc n) a h = omega (arith, bit_and_digit a 0, bit_and_none n (a / 2) (omega arith))

-- the lowest digit of the mask
pub bit_and_odd : (a b m : ℕ) → b ≡ m * 2 + 1 → bit_and a b ≡ bit_and (a / 2) m * 2 + a % 2
bit_and_odd a b m e =
    let half : bit_and (a / 2) (b / 2) ≡ bit_and (a / 2) m =
      ap (bit_and (a / 2)) {x = b / 2} {y = m} (omega arith) in
    omega (arith, bit_and_digit a b)

pub bit_and_even : (a b m : ℕ) → b ≡ m * 2 → bit_and a b ≡ bit_and (a / 2) m * 2
bit_and_even a b m e =
    let half : bit_and (a / 2) (b / 2) ≡ bit_and (a / 2) m =
      ap (bit_and (a / 2)) {x = b / 2} {y = m} (omega arith) in
    omega (arith, bit_and_digit a b)

bit_and_self_rounds : (n a : ℕ) → a ≤ n → bit_and a a ≡ a
bit_and_self_rounds n zero h = zero-bit_and 0
bit_and_self_rounds zero (suc a) h = absurd (omega arith)
bit_and_self_rounds (suc n) (suc a) h =
    omega (arith, bit_and_digit (suc a) (suc a), bit_and_self_rounds n (suc a / 2) (omega arith))

pub bit_and_self : (a : ℕ) → bit_and a a ≡ a
bit_and_self a = bit_and_self_rounds a a (omega arith)

pub pow2_pos : (n : ℕ) → 0 < pow2 n
pow2_pos zero = omega arith
pow2_pos (suc n) = omega (arith, pow2_pos n)

mod_double : (a p : ℕ) → 0 < p → a % (p * 2) ≡ a / 2 % p * 2 + a % 2
mod_double a p h =
    let rest = a / 2 % p * 2 + a % 2 in
    let parts = mod-add-div' (a / 2) p in
    let twice = mul_assoc (a / 2 / p) p 2 in
    let whole : a ≡ rest + a / 2 / p * (p * 2) = omega arith in
    let small : rest < p * 2 = omega (arith, mod-lt (a / 2) h) in
    ap (λ n. n % (p * 2)) whole
    ∙ add-mul-mod_self_right rest (a / 2 / p) (p * 2)
    ∙ mod-eq_of_lt small

-- a mask of `n` ones
pub bit_and-ones : (n a : ℕ) → bit_and a (pow2 n - 1) ≡ a % pow2 n
bit_and-ones zero a = omega (arith, bit_and_none a a (omega arith))
bit_and-ones (suc n) a = omega (
  arith,
  pow2_pos n,
  bit_and_odd a (pow2 n * 2 - 1) (pow2 n - 1) (omega (arith, pow2_pos n)),
  bit_and-ones n (a / 2),
  mod_double a (pow2 n) (pow2_pos n),
)

-- the mask of a byte
pub bit_and-low_byte : (a : ℕ) → bit_and a 0xff ≡ a % 256
bit_and-low_byte a = bit_and-ones 8 a

-- a field of `n` digits from digit `k` on
pub bit_and-field : (n k a : ℕ) → bit_and a ((pow2 n - 1) * pow2 k) ≡ a / pow2 k % pow2 n * pow2 k
bit_and-field n zero a =
    let one : (pow2 n - 1) * 1 ≡ pow2 n - 1 = omega arith in
    let whole : a / 1 ≡ a = omega arith in rw (one, whole) (omega (arith, bit_and-ones n a))
bit_and-field n (suc k) a =
    let mask = mul_assoc (pow2 n - 1) (pow2 k) 2 in
    let value = mul_assoc (a / 2 / pow2 k % pow2 n) (pow2 k) 2 in
    let order : 2 * pow2 k ≡ pow2 k * 2 = omega arith in
    let field : a / (pow2 k * 2) ≡ a / 2 / pow2 k =
      ap (λ m. a / m) (sym order) ∙ sym (div-div-eq-div-mul a 2 (pow2 k)) in
    rw field (
      omega (
        arith,
        bit_and_even a ((pow2 n - 1) * (pow2 k * 2)) ((pow2 n - 1) * pow2 k) (sym mask),
        bit_and-field n k (a / 2),
      ))

zero-bit_or : (b : ℕ) → bit_or 0 b ≡ b
zero-bit_or b = bit_or-bitwise 0 b

bit_or_digit : (a b : ℕ) → bit_or a b ≡ bit_or (a / 2) (b / 2) * 2 + max (a % 2) (b % 2)
bit_or_digit a b =
    let whole = bit_or-bitwise a b in
    let upper = bit_or-bitwise (a / 2) (b / 2) in
    let split = bitwise_step (λ y. y) max (λ y. omega arith) a b in omega arith

bit_or_none : (n a : ℕ) → a ≤ n → bit_or a 0 ≡ a
bit_or_none zero zero h = zero-bit_or 0
bit_or_none zero (suc a) h = absurd (omega arith)
bit_or_none (suc n) a h = omega (arith, bit_or_digit a 0, bit_or_none n (a / 2) (omega arith))

-- Above the digits of `lo` and below those of `hi`, the numbers are put together.
pub bit_or-disjoint : (k hi lo : ℕ) → lo < pow2 k → bit_or (hi * pow2 k) lo ≡ hi * pow2 k + lo
bit_or-disjoint zero hi lo h =
    let none : lo ≡ 0 = omega arith in
    rw none (omega (arith, bit_or_none (hi * 1) (hi * 1) (omega arith)))
bit_or-disjoint (suc k) hi lo h =
    let value = mul_assoc hi (pow2 k) 2 in
    let half : hi * (pow2 k * 2) / 2 ≡ hi * pow2 k = omega arith in
    let upper = ap (λ t. bit_or t (lo / 2)) half in
    omega (arith, bit_or_digit (hi * (pow2 k * 2)) lo, bit_or-disjoint k hi (lo / 2) (omega arith))

pub bit_or-above :
    (k hi : ℕ) {acc : ℕ} (lo : ℕ) → acc ≡ hi * pow2 k → lo < pow2 k → bit_or acc lo ≡ acc + lo
bit_or-above k hi lo e h = rw e (bit_or-disjoint k hi lo h)

bit_or_comm_rounds : (n a b : ℕ) → a + b ≤ n → bit_or a b ≡ bit_or b a
bit_or_comm_rounds n zero b h = omega (arith, zero-bit_or b, bit_or_none b b (omega arith))
bit_or_comm_rounds zero (suc a) b h = absurd (omega arith)
bit_or_comm_rounds (suc n) (suc a) b h = omega (
  arith,
  bit_or_digit (suc a) b,
  bit_or_digit b (suc a),
  bit_or_comm_rounds n (suc a / 2) (b / 2) (omega arith),
)

pub bit_or_comm : (a b : ℕ) → bit_or a b ≡ bit_or b a
bit_or_comm a b = bit_or_comm_rounds (a + b) a b (omega arith)

-- Ones above digit `k` leave the digits below it.
pub bit_or-high : (k m a : ℕ) → bit_or a (m * pow2 k) ≡ bit_or (a / pow2 k) m * pow2 k + a % pow2 k
bit_or-high zero m a =
    let one : m * 1 ≡ m = omega arith in
    let whole : a / 1 ≡ a = omega arith in rw (one, whole) (omega arith)
bit_or-high (suc k) m a =
    let mask = mul_assoc m (pow2 k) 2 in
    let value = mul_assoc (bit_or (a / 2 / pow2 k) m) (pow2 k) 2 in
    let half : m * (pow2 k * 2) / 2 ≡ m * pow2 k = omega arith in
    let upper = ap (bit_or (a / 2)) half in
    let order : 2 * pow2 k ≡ pow2 k * 2 = omega arith in
    let field : a / (pow2 k * 2) ≡ a / 2 / pow2 k =
      ap (λ d. a / d) (sym order) ∙ sym (div-div-eq-div-mul a 2 (pow2 k)) in
    rw field (
      omega (
        arith,
        bit_or_digit a (m * (pow2 k * 2)),
        bit_or-high k m (a / 2),
        mod_double a (pow2 k) (pow2_pos k),
      ))
