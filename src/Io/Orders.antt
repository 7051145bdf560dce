-- ===== src/Io/Orders.antt =====
-- Numbers that are written and read again, and the order of their bytes.
use mathlib.Core.List.{reverse}
use vsclib.Prelude.{ℕ, ◌/◌, ◌%◌, ◌≡◌, refl, arith}
use vsclib.Io.Bytes.{swap_uint16_bytes, swap_uint32_bytes, swap_uint64_bytes}
use vsclib.Io.Endian.{swap_uint16, swap_uint32, swap_uint64, to_memory}

swap_uint16_memory : (x : ℕ) → to_memory 2 (swap_uint16 x) ≡ reverse (to_memory 2 x)
unfolding to_memory
swap_uint16_memory x =
    let bytes = swap_uint16_bytes x in
    let b0 : swap_uint16 x % 256 ≡ x / 256 % 256 = omega arith in
    let b1 : swap_uint16 x / 256 % 256 ≡ x % 256 = omega arith in rw (b0, b1) refl

swap_uint32_memory : (x : ℕ) → to_memory 4 (swap_uint32 x) ≡ reverse (to_memory 4 x)
unfolding to_memory
swap_uint32_memory x =
    let bytes = swap_uint32_bytes x in
    let b0 : swap_uint32 x % 256 ≡ x / 256 / 256 / 256 % 256 = omega arith in
    let b1 : swap_uint32 x / 256 % 256 ≡ x / 256 / 256 % 256 = omega arith in
    let b2 : swap_uint32 x / 256 / 256 % 256 ≡ x / 256 % 256 = omega arith in
    let b3 : swap_uint32 x / 256 / 256 / 256 % 256 ≡ x % 256 = omega arith in
    rw (b0, b1, b2, b3) refl

swap_uint64_memory : (x : ℕ) → to_memory 8 (swap_uint64 x) ≡ reverse (to_memory 8 x)
unfolding to_memory
swap_uint64_memory x =
    let bytes = swap_uint64_bytes x in
    let b0 : swap_uint64 x % 256 ≡ x / 256 / 256 / 256 / 256 / 256 / 256 / 256 % 256 =
      omega arith in
    let b1 : swap_uint64 x / 256 % 256 ≡ x / 256 / 256 / 256 / 256 / 256 / 256 % 256 =
      omega arith in
    let b2 : swap_uint64 x / 256 / 256 % 256 ≡ x / 256 / 256 / 256 / 256 / 256 % 256 =
      omega arith in
    let b3 : swap_uint64 x / 256 / 256 / 256 % 256 ≡ x / 256 / 256 / 256 / 256 % 256 =
      omega arith in
    let b4 : swap_uint64 x / 256 / 256 / 256 / 256 % 256 ≡ x / 256 / 256 / 256 % 256 =
      omega arith in
    let b5 : swap_uint64 x / 256 / 256 / 256 / 256 / 256 % 256 ≡ x / 256 / 256 % 256 =
      omega arith in
    let b6 : swap_uint64 x / 256 / 256 / 256 / 256 / 256 / 256 % 256 ≡ x / 256 % 256 =
      omega arith in
    let b7 : swap_uint64 x / 256 / 256 / 256 / 256 / 256 / 256 / 256 % 256 ≡ x % 256 =
      omega arith in
    rw (b0, b1, b2, b3, b4, b5, b6, b7) refl

-- The portable swaps reverse the bytes of a number, for 16, 32 and 64 bits.
pub swap-reverse :
    (x : ℕ)
    → (to_memory 2 (swap_uint16 x) ≡ reverse (to_memory 2 x))
      × (to_memory 4 (swap_uint32 x) ≡ reverse (to_memory 4 x))
      × (to_memory 8 (swap_uint64 x) ≡ reverse (to_memory 8 x))
swap-reverse x = (swap_uint16_memory x, swap_uint32_memory x, swap_uint64_memory x)
