-- ===== src/Memory/Powers.antt =====
-- The test for powers of two.
use Prim.Native.Nat.{bit_and}
use vsclib.Memory.Alignment.{is_pot, vsc_is_pot}
use vsclib.Prelude.Words.{sub_size}
use vsclib.Prelude.{
  ℕ, zero, suc, ◌+◌, ◌-◌, ◌/◌, ◌%◌, ◌^◌, ◌≤◌, ◌<◌, true, false, not, ◌&&◌, &&_both, ◌==◌, ==_iff,
  ==_ne, pow2, pow2_pos, bit, bit_and-ones, bit_and_odd, bit_and_even, bit_and_self, ◌≡◌, ◌↔◌, inl,
  inr, refl, sym, ap, ◌∙◌, arith,
}
use native.Mathlib.Nat.{mod_self}

-- A number with no digit in common with its predecessor is a power of two.
power_of_mask : (n a : ℕ) → a ≤ n → 0 < a → bit_and a (a - 1) ≡ 0 → (k : ℕ) × (a ≡ pow2 k)
power_of_mask zero a h pos e = absurd (omega arith)
power_of_mask (suc n) a h pos e = elim (bit a) [
  | inl even ↦
      let double = bit_and_odd a (a - 1) (a / 2 - 1) (omega arith) in
      let (k, p) = power_of_mask n (a / 2) (omega arith) (omega arith) (omega arith) in
      (suc k, omega arith)
  | inr odd ↦
      let double = bit_and_even a (a - 1) (a / 2) (omega arith) in
      (0, omega (arith, bit_and_self (a / 2)))
]

-- A number and its predecessor, both without a wrap, have no digit in common.
masked-power :
    (a below : ℕ)
    → (0 < a → below ≡ a - 1)
    → ((not (a == 0) && bit_and a below == 0) ≡ true) ↔ ((k : ℕ) × (a ≡ pow2 k))
masked-power a below less = (found, tested)
  where
    found : (not (a == 0) && bit_and a below == 0) ≡ true → (k : ℕ) × (a ≡ pow2 k)
    found t =
        let (some_size, masked) = &&_both (not (a == 0)) (bit_and a below == 0) t in
        let pos : 0 < a = ground arith in
        power_of_mask a a (omega arith) pos
          (ap (bit_and a) (sym (less pos)) ∙ (==_iff (bit_and a below) 0).0 masked)

    tested : (k : ℕ) × (a ≡ pow2 k) → (not (a == 0) && bit_and a below == 0) ≡ true
    tested (k, p) =
        let pos : 0 < a = omega (arith, pow2_pos k) in
        let one_less : below ≡ pow2 k - 1 = omega (arith, less pos) in
        let none : bit_and a below ≡ 0 =
          ap (bit_and a) one_less ∙ bit_and-ones k a ∙ ap (λ n. n % pow2 k) p ∙ mod_self (pow2 k) in
        let some_size : (a == 0) ≡ false = ==_ne (λ e. absurd (omega (arith, e))) in
        rw (some_size, none) refl

-- VSC_IS_POT tells the powers of two among the addresses, and vsc_is_pot, which takes an unsigned int,
-- tells whether the last 32 bits of its argument are a power of two.
pub is_pot-power :
    (a : ℕ)
    → a < 2 ^ 64
    → ((is_pot a ≡ true) ↔ ((k : ℕ) × (a ≡ pow2 k)))
      × ((vsc_is_pot a ≡ true) ↔ ((k : ℕ) × (a % 2 ^ 32 ≡ pow2 k)))
unfolding is_pot vsc_is_pot
is_pot-power a h = (
  masked-power a (sub_size a 1) (λ pos. omega arith),
  masked-power (a % 2 ^ 32) ((a % 2 ^ 32 + (2 ^ 32 - 1)) % 2 ^ 32) (λ pos. omega arith),
)
