-- ===== src/Crc/Bitwise.antt =====
-- The tables against the polynomials: a CRC computed one bit at a time.
use Prim.Native.Nat.{bit_xor}
use vsclib.Prelude.Bytes.{holds_below, holds_below_at, IsBytes, nil, cons}
use vsclib.Prelude.{
  ℕ, zero, suc, ◌*◌, ◌/◌, ◌%◌, ◌<◌, List, [], ◌∷◌, get_or, true, ◌≡◌, refl, sym, ap, ◌∙◌, inl, inr,
  ==_iff, ◌==◌, if◌then◌else◌, bit_xor_assoc, bit_xor_comm, bit_xor_self, bit_xor_zero,
  zero-bit_xor, half-bit_xor, parity-bit_xor, bit_xor-low_byte, bit_xor-above_byte,
  bit_and-low_byte, bit, arith,
}
use vsclib.Crc.Sum.{all_ones, crc_loop, crc32x, crc32, crc32c}
use vsclib.Crc.Tables.{crc32_tab, crc32c_tab}

-- the reflected polynomials of the catalogue entries
abbrev pub poly32 : ℕ
poly32 = 0xedb88320

abbrev pub poly32c : ℕ
poly32c = 0x82f63b78

-- One bit is shifted out, and the polynomial divided off when it was a one.
step : ℕ → ℕ → ℕ
step poly r = bit_xor (r / 2) (if r % 2 == 0 then 0 else poly)

steps : ℕ → ℕ → ℕ → ℕ
unfolding step
steps poly zero r = r
steps poly (suc n) r = steps poly n (step poly r)

-- the register after the bytes of a buffer, a bit at a time
bitwise_loop : ℕ → ℕ → List ℕ → ℕ
unfolding steps
bitwise_loop poly r [] = r
bitwise_loop poly r (b ∷ buf) = bitwise_loop poly (steps poly 8 (bit_xor r b)) buf

pub bitwise_crc : ℕ → List ℕ → ℕ
unfolding bitwise_loop
bitwise_crc poly buf = bit_xor (bitwise_loop poly all_ones buf) all_ones

table_holds : holds_below (λ x. get_or crc32_tab x 0 == steps poly32 8 x) 256 ≡ true
unfolding holds_below steps step
table_holds = refl

table_holds_c : holds_below (λ x. get_or crc32c_tab x 0 == steps poly32c 8 x) 256 ≡ true
unfolding holds_below steps step
table_holds_c = refl

bit_xor_swap :
    (a b c d : ℕ) → bit_xor (bit_xor a b) (bit_xor c d) ≡ bit_xor (bit_xor a c) (bit_xor b d)
bit_xor_swap a b c d =
    rw
      (
        bit_xor_assoc a b (bit_xor c d),
        bit_xor_assoc a c (bit_xor b d),
        sym (bit_xor_assoc b c d),
        sym (bit_xor_assoc c b d),
        bit_xor_comm b c,
      )
      refl

-- what a step divides off
abbrev divided : ℕ → ℕ → ℕ
divided poly r = if r % 2 == 0 then 0 else poly

divided-bit_xor :
    (poly a b : ℕ) → divided poly (bit_xor a b) ≡ bit_xor (divided poly a) (divided poly b)
divided-bit_xor poly a b = elim (bit a) [
  | inl x ↦ elim (bit b) [
    | inl y ↦ rw (parity-bit_xor a b, x, y) (sym (zero-bit_xor 0))
    | inr y ↦ rw (parity-bit_xor a b, x, y) (sym (zero-bit_xor poly))
  ]
  | inr x ↦ elim (bit b) [
    | inl y ↦ rw (parity-bit_xor a b, x, y) (sym (bit_xor_zero poly))
    | inr y ↦ rw (parity-bit_xor a b, x, y) (sym (bit_xor_self poly))
  ]
]

step-bit_xor : (poly a b : ℕ) → step poly (bit_xor a b) ≡ bit_xor (step poly a) (step poly b)
unfolding step
step-bit_xor poly a b =
    rw (half-bit_xor a b, divided-bit_xor poly a b)
      (bit_xor_swap (a / 2) (b / 2) (divided poly a) (divided poly b))

steps-bit_xor :
    (poly n a b : ℕ) → steps poly n (bit_xor a b) ≡ bit_xor (steps poly n a) (steps poly n b)
unfolding steps
steps-bit_xor poly zero a b = refl
steps-bit_xor poly (suc n) a b =
    rw (step-bit_xor poly a b) (steps-bit_xor poly n (step poly a) (step poly b))

step_even : (poly h : ℕ) → step poly (h * 2) ≡ h
unfolding step
step_even poly h =
    let even : h * 2 % 2 ≡ 0 = omega arith in
    let half : h * 2 / 2 ≡ h = omega arith in rw (even, half) (bit_xor_zero h)

shifted : ℕ → ℕ → ℕ
shifted h zero = h
shifted h (suc n) = shifted h n * 2

steps_shifted : (poly n h : ℕ) → steps poly n (shifted h n) ≡ h
unfolding steps shifted
steps_shifted poly zero h = refl
steps_shifted poly (suc n) h = rw (step_even poly (shifted h n)) (steps_shifted poly n h)

steps_high : (poly h : ℕ) → steps poly 8 (h * 256) ≡ h
unfolding shifted
steps_high poly h = let e : h * 256 ≡ shifted h 8 = omega arith in rw e (steps_shifted poly 8 h)

-- The low byte's share is in the table, and the rest moves down.
steps_byte : (poly y : ℕ) → steps poly 8 y ≡ bit_xor (steps poly 8 (y % 256)) (y / 256)
steps_byte poly y =
    let parts : y ≡ bit_xor (y % 256) (y / 256 * 256) =
      omega (arith, bit_xor-low_byte (y % 256) (y / 256) (omega arith)) in
    ap (steps poly 8) parts
    ∙ steps-bit_xor poly 8 (y % 256) (y / 256 * 256)
    ∙ ap (bit_xor (steps poly 8 (y % 256))) (steps_high poly (y / 256))

-- a table of the polynomial
abbrev IsTable : ℕ → List ℕ → Type 0
IsTable poly table = (x : ℕ) → x < 256 → get_or table x 0 ≡ steps poly 8 x

crc32_tab-IsTable : IsTable poly32 crc32_tab
crc32_tab-IsTable x h = (==_iff _ _).0 (holds_below_at _ 256 x h table_holds)

crc32c_tab-IsTable : IsTable poly32c crc32c_tab
crc32c_tab-IsTable x h = (==_iff _ _).0 (holds_below_at _ 256 x h table_holds_c)

crc_loop_bitwise :
    (poly : ℕ) (table : List ℕ)
    → IsTable poly table
    → (r : ℕ) (buf : List ℕ) → IsBytes buf
    → crc_loop table r buf ≡ bitwise_loop poly r buf
unfolding crc_loop bitwise_loop
crc_loop_bitwise poly table t r [] nil = refl
crc_loop_bitwise poly table t r (b ∷ buf) (cons small bs) =
    let y = bit_xor r b in
    rw
      (
        steps_byte poly y,
        bit_and-low_byte y,
        t (y % 256) (omega arith),
        bit_xor-above_byte r b small,
      )
      (crc_loop_bitwise poly table t (bit_xor (steps poly 8 (y % 256)) (r / 256)) buf bs)

-- vsc_crc32 of any bytes is the CRC of the reflected polynomial 0xedb88320, from all ones and
-- inverted at the end, computed one bit at a time.
crc32_bitwise : (buf : List ℕ) → IsBytes buf → crc32 buf ≡ bitwise_crc poly32 buf
unfolding crc32 crc32x bitwise_crc
crc32_bitwise buf b =
    ap (λ r. bit_xor r all_ones)
      (crc_loop_bitwise poly32 crc32_tab crc32_tab-IsTable all_ones buf b)

-- vsc_crc32c of any bytes is the CRC of the reflected polynomial 0x82f63b78, from all ones and
-- inverted at the end, computed one bit at a time.
crc32c_bitwise : (buf : List ℕ) → IsBytes buf → crc32c buf ≡ bitwise_crc poly32c buf
unfolding crc32c crc32x bitwise_crc
crc32c_bitwise buf b =
    ap (λ r. bit_xor r all_ones)
      (crc_loop_bitwise poly32c crc32c_tab crc32c_tab-IsTable all_ones buf b)

-- vsc_crc32 and vsc_crc32c of any bytes are the CRCs of the reflected polynomials 0xedb88320 and
-- 0x82f63b78, from all ones and inverted at the end, computed one bit at a time.
pub crc_bitwise :
    (buf : List ℕ)
    → IsBytes buf
    → (crc32 buf ≡ bitwise_crc poly32 buf) × (crc32c buf ≡ bitwise_crc poly32c buf)
crc_bitwise buf b = (crc32_bitwise buf b, crc32c_bitwise buf b)
