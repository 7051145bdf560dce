-- ===== src/Io/Bytes.antt =====
-- The swaps in arithmetic: what each byte becomes.
use Prim.Native.Nat.{bit_and}
use vsclib.Prelude.{
  ℕ, ◌+◌, ◌*◌, ◌/◌, ◌%◌, ◌≡◌, refl, bit_and-field, bit_and-low_byte, bit_or-disjoint, bit_or-above,
  arith,
}
use vsclib.Io.Endian.{swap_uint16, swap_uint32, swap_uint64}

pub swap_uint16_bytes : (x : ℕ) → swap_uint16 x ≡ x % 256 * 256 + x / 256 % 256
unfolding swap_uint16
swap_uint16_bytes x =
    let low = bit_and-low_byte x in
    let high : bit_and x 0xff00 ≡ x / 256 % 256 * 256 = bit_and-field 8 8 x in
    let high_byte : bit_and x 0xff00 / 256 ≡ x / 256 % 256 = omega arith in
    rw (low, high_byte) (bit_or-disjoint 8 (x % 256) (x / 256 % 256) (omega arith))

pub swap_uint32_bytes :
    (x : ℕ)
    → swap_uint32 x
      ≡ x % 256 * 0x1000000
        + x / 0x100 % 256 * 0x10000
        + x / 0x10000 % 256 * 0x100
        + x / 0x1000000 % 256
unfolding swap_uint32
swap_uint32_bytes x =
    let f0 = bit_and-low_byte x in
    let b1 : bit_and x 0xff00 / 0x100 * 0x10000 ≡ x / 0x100 % 256 * 0x10000 =
      omega (arith, bit_and-field 8 8 x) in
    let b2 : bit_and x 0xff0000 / 0x10000 * 0x100 ≡ x / 0x10000 % 256 * 0x100 =
      omega (arith, bit_and-field 8 16 x) in
    let b3 : bit_and x 0xff000000 / 0x1000000 ≡ x / 0x1000000 % 256 =
      omega (arith, bit_and-field 8 24 x) in
    let o1 =
      bit_or-above 24 (x % 256) {acc = x % 256 * 0x1000000} (x / 0x100 % 256 * 0x10000)
        (omega arith) (omega arith) in
    let o2 =
      bit_or-above 16 ((x % 256) * 256 + x / 0x100 % 256)
        {acc = x % 256 * 0x1000000 + x / 0x100 % 256 * 0x10000} (x / 0x10000 % 256 * 0x100)
        (omega arith) (omega arith) in
    let o3 =
      bit_or-above 8 (((x % 256) * 256 + x / 0x100 % 256) * 256 + x / 0x10000 % 256)
        {acc = x % 256 * 0x1000000 + x / 0x100 % 256 * 0x10000 + x / 0x10000 % 256 * 0x100}
        (x / 0x1000000 % 256) (omega arith) (omega arith) in
    rw (f0, b1, b2, b3, o1, o2, o3) refl

pub swap_uint64_bytes :
    (x : ℕ)
    → swap_uint64 x
      ≡ x % 256 * 0x100000000000000
        + x / 0x100 % 256 * 0x1000000000000
        + x / 0x10000 % 256 * 0x10000000000
        + x / 0x1000000 % 256 * 0x100000000
        + x / 0x100000000 % 256 * 0x1000000
        + x / 0x10000000000 % 256 * 0x10000
        + x / 0x1000000000000 % 256 * 0x100
        + x / 0x100000000000000 % 256
unfolding swap_uint64
swap_uint64_bytes x =
    let f0 = bit_and-low_byte x in
    let b1 : bit_and x 0xff00 / 0x100 * 0x1000000000000 ≡ x / 0x100 % 256 * 0x1000000000000 =
      omega (arith, bit_and-field 8 8 x) in
    let b2 : bit_and x 0xff0000 / 0x10000 * 0x10000000000 ≡ x / 0x10000 % 256 * 0x10000000000 =
      omega (arith, bit_and-field 8 16 x) in
    let b3 : bit_and x 0xff000000 / 0x1000000 * 0x100000000 ≡ x / 0x1000000 % 256 * 0x100000000 =
      omega (arith, bit_and-field 8 24 x) in
    let b4 : bit_and x 0xff00000000 / 0x100000000 * 0x1000000 ≡ x / 0x100000000 % 256 * 0x1000000 =
      omega (arith, bit_and-field 8 32 x) in
    let b5 : bit_and x 0xff0000000000 / 0x10000000000 * 0x10000
        ≡ x / 0x10000000000 % 256 * 0x10000 =
      omega (arith, bit_and-field 8 40 x) in
    let b6 : bit_and x 0xff000000000000 / 0x1000000000000 * 0x100
        ≡ x / 0x1000000000000 % 256 * 0x100 =
      omega (arith, bit_and-field 8 48 x) in
    let b7 : bit_and x 0xff00000000000000 / 0x100000000000000 ≡ x / 0x100000000000000 % 256 =
      omega (arith, bit_and-field 8 56 x) in
    let o1 =
      bit_or-above 56 (x % 256) {acc = x % 256 * 0x100000000000000}
        (x / 0x100 % 256 * 0x1000000000000) (omega arith) (omega arith) in
    let o2 =
      bit_or-above 48 ((x % 256) * 256 + x / 0x100 % 256)
        {acc = x % 256 * 0x100000000000000 + x / 0x100 % 256 * 0x1000000000000}
        (x / 0x10000 % 256 * 0x10000000000) (omega arith) (omega arith) in
    let o3 =
      bit_or-above 40 (((x % 256) * 256 + x / 0x100 % 256) * 256 + x / 0x10000 % 256)
        {acc = x % 256 * 0x100000000000000
          + x / 0x100 % 256 * 0x1000000000000
          + x / 0x10000 % 256 * 0x10000000000}
        (x / 0x1000000 % 256 * 0x100000000) (omega arith) (omega arith) in
    let o4 =
      bit_or-above 32
        ((((x % 256) * 256 + x / 0x100 % 256) * 256 + x / 0x10000 % 256) * 256
          + x / 0x1000000 % 256)
        {acc = x % 256 * 0x100000000000000
          + x / 0x100 % 256 * 0x1000000000000
          + x / 0x10000 % 256 * 0x10000000000
          + x / 0x1000000 % 256 * 0x100000000}
        (x / 0x100000000 % 256 * 0x1000000) (omega arith) (omega arith) in
    let o5 =
      bit_or-above 24
        (((((x % 256) * 256 + x / 0x100 % 256) * 256 + x / 0x10000 % 256) * 256
              + x / 0x1000000 % 256)
            * 256
          + x / 0x100000000 % 256)
        {acc = x % 256 * 0x100000000000000
          + x / 0x100 % 256 * 0x1000000000000
          + x / 0x10000 % 256 * 0x10000000000
          + x / 0x1000000 % 256 * 0x100000000
          + x / 0x100000000 % 256 * 0x1000000}
        (x / 0x10000000000 % 256 * 0x10000) (omega arith) (omega arith) in
    let o6 =
      bit_or-above 16
        ((((((x % 256) * 256 + x / 0x100 % 256) * 256 + x / 0x10000 % 256) * 256
                  + x / 0x1000000 % 256)
                * 256
              + x / 0x100000000 % 256)
            * 256
          + x / 0x10000000000 % 256)
        {acc = x % 256 * 0x100000000000000
          + x / 0x100 % 256 * 0x1000000000000
          + x / 0x10000 % 256 * 0x10000000000
          + x / 0x1000000 % 256 * 0x100000000
          + x / 0x100000000 % 256 * 0x1000000
          + x / 0x10000000000 % 256 * 0x10000}
        (x / 0x1000000000000 % 256 * 0x100) (omega arith) (omega arith) in
    let o7 =
      bit_or-above 8
        (((((((x % 256) * 256 + x / 0x100 % 256) * 256 + x / 0x10000 % 256) * 256
                      + x / 0x1000000 % 256)
                    * 256
                  + x / 0x100000000 % 256)
                * 256
              + x / 0x10000000000 % 256)
            * 256
          + x / 0x1000000000000 % 256)
        {acc = x % 256 * 0x100000000000000
          + x / 0x100 % 256 * 0x1000000000000
          + x / 0x10000 % 256 * 0x10000000000
          + x / 0x1000000 % 256 * 0x100000000
          + x / 0x100000000 % 256 * 0x1000000
          + x / 0x10000000000 % 256 * 0x10000
          + x / 0x1000000000000 % 256 * 0x100}
        (x / 0x100000000000000 % 256) (omega arith) (omega arith) in
    rw (f0, b1, b2, b3, b4, b5, b6, b7, o1, o2, o3, o4, o5, o6, o7) refl
