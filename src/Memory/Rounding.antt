-- ===== src/Memory/Rounding.antt =====
-- Rounding up to a multiple, and that the masks do it.
use Prim.Native.Nat.{bit_and}
use native.Mathlib.Nat.{
  mul-mod_left, mul-add-div_right, lt-div-mul-add, div-mul-le_self, mod-add-div', mul-le-mul_right,
  le-div_iff_mul-le, mod-eq_of_lt, div-lt_iff_lt-mul,
}
use vsclib.Prelude.Words.{size_max, sub_size}
use vsclib.Prelude.{
  ℕ, zero, suc, ◌+◌, ◌-◌, ◌*◌, ◌/◌, ◌%◌, ◌^◌, ◌≤◌, ◌<◌, pow2, pow2_pos, bit_and-field, bit_and-ones,
  ◌≡◌, sym, ap, ◌∙◌, subst, arith,
}

-- the least multiple of `a` that is no less
abbrev pub up : ℕ → ℕ → ℕ
up a x = (x + (a - 1)) / a * a

pub up-le : (a x : ℕ) → 0 < a → x ≤ up a x
up-le a x h = omega (arith, lt-div-mul-add {a = x + (a - 1)} h)

pub up-lt : (a x : ℕ) → 0 < a → up a x < x + a
up-lt a x h = omega (arith, div-mul-le_self (x + (a - 1)) a)

pub up-mod : (a x : ℕ) → up a x % a ≡ 0
up-mod a x = mul-mod_left ((x + (a - 1)) / a) a

pub up_mono : (a x y : ℕ) → 0 < a → x ≤ y → up a x ≤ up a y
up_mono a x y h le =
    let quotients : (x + (a - 1)) / a ≤ (y + (a - 1)) / a =
      (le-div_iff_mul-le h).1 (omega (arith, div-mul-le_self (x + (a - 1)) a)) in
    mul-le-mul_right a quotients

-- From a multiple on, it does not matter.
pub up-add : (a b x : ℕ) → 0 < a → b % a ≡ 0 → up a (b + x) ≡ b + up a x
up-add a b x h m =
    let whole : b ≡ b / a * a = omega (arith, mod-add-div' b a) in
    let q = b / a in
    let sum : b + x + (a - 1) ≡ q * a + (x + (a - 1)) = omega arith in
    let quotient : (b + x + (a - 1)) / a ≡ q + (x + (a - 1)) / a =
      ap (λ n. n / a) sum ∙ mul-add-div_right h q (x + (a - 1)) in
    rw quotient (grind arith)

pred-mul : (m a : ℕ) → (m - 1) * a ≡ m * a - a
pred-mul zero a =
    let e : 0 - 1 ≡ 0 = omega arith in
    let none : 0 * a ≡ 0 = omega arith in rw (e, none) (omega arith)
pred-mul (suc m) a =
    let e : suc m - 1 ≡ m = omega arith in
    let more : suc m * a ≡ m * a + a = grind arith in rw (e, more) (omega arith)

pub pow2-add : (m n : ℕ) → pow2 m * pow2 n ≡ pow2 (m + n)
pow2-add zero n = let e : 0 + n ≡ n = omega arith in rw e (omega arith)
pow2-add (suc m) n =
    let e : suc m + n ≡ suc (m + n) = omega arith in
    let swap : pow2 m * 2 * pow2 n ≡ pow2 m * pow2 n * 2 = grind arith in
    rw e (swap ∙ ap (λ t. t * 2) (pow2-add m n))

-- a power of two that fits in a word, with the number of the digits above it
pub record IsAlignment (a : ℕ) : Type 0 where
  pub low : ℕ
  pub high : ℕ
  pub digits : high + low ≡ 64
  pub power : a ≡ pow2 low

pub IsAlignment-pos : {a : ℕ} → IsAlignment a → 0 < a
IsAlignment-pos v = omega (arith, pow2_pos v.low, v.power)

word_split : {a : ℕ} (v : IsAlignment a) → pow2 v.high * a ≡ 2 ^ 64
word_split v = rw v.power (pow2-add v.high v.low ∙ ap pow2 v.digits)

pub IsAlignment-le : {a : ℕ} → IsAlignment a → a ≤ 2 ^ 64
IsAlignment-le {a} v =
    let one : 1 * a ≤ pow2 v.high * a = mul-le-mul_right a (pow2_pos v.high) in
    omega (arith, word_split v)

-- the mask of the digits from the alignment on
pub bit_and-high :
    {a : ℕ} (x : ℕ) → IsAlignment a → x < 2 ^ 64 → bit_and x (size_max - (a - 1)) ≡ x / a * a
bit_and-high {a} x v h =
    let whole = word_split v in
    let pos = IsAlignment-pos v in
    let less : (pow2 v.high - 1) * a ≡ pow2 v.high * a - a = pred-mul (pow2 v.high) a in
    let mask : size_max - (a - 1) ≡ (pow2 v.high - 1) * a = omega arith in
    let field : bit_and x ((pow2 v.high - 1) * a) ≡ x / a % pow2 v.high * a =
      subst (λ b. bit_and x ((pow2 v.high - 1) * b) ≡ x / b % pow2 v.high * b) (sym v.power)
        (bit_and-field v.high v.low x) in
    let small : x / a < pow2 v.high = (div-lt_iff_lt-mul pos).1 (omega arith) in
    ap (bit_and x) mask ∙ field ∙ ap (λ q. q * a) (mod-eq_of_lt small)

pub sub_size-one : {a : ℕ} → IsAlignment a → sub_size a 1 ≡ a - 1
sub_size-one v = omega (arith, IsAlignment-pos v, IsAlignment-le v)

-- the mask of the digits below
pub bit_and-below : {a : ℕ} (x : ℕ) → IsAlignment a → bit_and x (sub_size a 1) ≡ x % a
bit_and-below x v =
    ap (bit_and x) (sub_size-one v)
    ∙ subst (λ b. bit_and x (b - 1) ≡ x % b) (sym v.power) (bit_and-ones v.low x)

pub neg_size-high : {a : ℕ} → IsAlignment a → sub_size 0 a ≡ size_max - (a - 1)
neg_size-high v = omega (arith, IsAlignment-pos v, IsAlignment-le v)
