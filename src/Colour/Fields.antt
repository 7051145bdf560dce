-- ===== src/Colour/Fields.antt =====
-- The macros of colours in arithmetic.
use vsclib.Prelude.{
  ℕ, ◌+◌, ◌*◌, ◌/◌, ◌%◌, ◌≡◌, refl, bit_and-ones, bit_and-low_byte, bit_or-above, arith,
}
use vsclib.Colour.Pixels.{u8, packu32, c1_to_c8, c5_to_c8, c6_to_c8, argb1555, rgb565}

pub c1_to_c8_lem : (c : ℕ) → c1_to_c8 c ≡ c % 2 * 255
unfolding c1_to_c8
c1_to_c8_lem c = rw (bit_and-ones 1 c) refl

pub c5_to_c8_lem : (c : ℕ) → c5_to_c8 c ≡ c % 32 * 8 + c % 32 / 4
unfolding c5_to_c8
c5_to_c8_lem c =
    rw
      (bit_and-ones 5 c, bit_or-above 3 (c % 32) {acc = c % 32 * 8} (c % 32 / 4) refl (omega arith))
      refl

pub c6_to_c8_lem : (c : ℕ) → c6_to_c8 c ≡ c % 64 * 4 + c % 64 / 16
unfolding c6_to_c8
c6_to_c8_lem c =
    rw
      (
        bit_and-ones 6 c,
        bit_or-above 2 (c % 64) {acc = c % 64 * 4} (c % 64 / 16) refl (omega arith),
      )
      refl

pub rgb565_lem : (r g b : ℕ) → rgb565 r g b ≡ r % 256 / 8 * 2048 + g % 256 / 4 * 32 + b % 256 / 8
unfolding rgb565 u8
rgb565_lem r g b =
    let o1 =
      bit_or-above 11 (r % 256 / 8) {acc = r % 256 / 8 * 2048} (g % 256 / 4 * 32) refl
        (omega arith) in
    let o2 =
      bit_or-above 5 (r % 256 / 8 * 64 + g % 256 / 4) {acc = r % 256 / 8 * 2048 + g % 256 / 4 * 32}
        (b % 256 / 8) (omega arith) (omega arith) in
    rw (bit_and-low_byte r, bit_and-low_byte g, bit_and-low_byte b, o1, o2) refl

pub argb1555_lem :
    (a r g b : ℕ)
    → argb1555 a r g b ≡ a % 256 / 128 * 32768 + r % 256 / 8 * 1024 + g % 256 / 8 * 32 + b % 256 / 8
unfolding argb1555 u8
argb1555_lem a r g b =
    let a' = a % 256 / 128 * 32768 in
    let r' = r % 256 / 8 * 1024 in
    let g' = g % 256 / 8 * 32 in
    let o1 = bit_or-above 15 (a % 256 / 128) {acc = a'} r' refl (omega arith) in
    let o2 =
      bit_or-above 10 (a % 256 / 128 * 32 + r % 256 / 8) {acc = a' + r'} g' (omega arith)
        (omega arith) in
    let o3 =
      bit_or-above 5 (a % 256 / 128 * 1024 + r % 256 / 8 * 32 + g % 256 / 8) {acc = a' + r' + g'}
        (b % 256 / 8) (omega arith) (omega arith) in
    rw (bit_and-low_byte a, bit_and-low_byte r, bit_and-low_byte g, bit_and-low_byte b, o1, o2, o3)
      refl

pub packu32_lem :
    (a b c d : ℕ)
    → packu32 a b c d ≡ a % 256 * 0x1000000 + b % 256 * 0x10000 + c % 256 * 0x100 + d % 256
unfolding packu32 u8
packu32_lem a b c d =
    let a' = a % 256 * 0x1000000 in
    let b' = b % 256 * 0x10000 in
    let c' = c % 256 * 0x100 in
    let o1 = bit_or-above 24 (a % 256) {acc = a'} b' refl (omega arith) in
    let o2 =
      bit_or-above 16 (a % 256 * 256 + b % 256) {acc = a' + b'} c' (omega arith) (omega arith) in
    let o3 =
      bit_or-above 8 (a % 256 * 0x10000 + b % 256 * 256 + c % 256) {acc = a' + b' + c'} (d % 256)
        (omega arith) (omega arith) in
    rw (bit_and-low_byte a, bit_and-low_byte b, bit_and-low_byte c, bit_and-low_byte d, o1, o2, o3)
      refl
