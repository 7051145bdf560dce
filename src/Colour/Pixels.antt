-- ===== src/Colour/Pixels.antt =====
-- The functions of vsclib/colour.c and the macros that they use.
use Prim.Native.Nat.{bit_and, bit_or}
use vsclib.Prelude.{ℕ, ◌*◌, ◌/◌, ◌%◌, ◌^◌}

pub record Colour32 : Type 0 where
  pub r : ℕ
  pub g : ℕ
  pub b : ℕ
  pub a : ℕ

unfoldable pub u8 : ℕ → ℕ
u8 v = bit_and v 0xff

unfoldable pub packu32 : ℕ → ℕ → ℕ → ℕ → ℕ
unfolding u8
packu32 a b c d = bit_or (bit_or (bit_or (u8 a * 2 ^ 24) (u8 b * 2 ^ 16)) (u8 c * 2 ^ 8)) (u8 d)

unfoldable pub c1_to_c8 : ℕ → ℕ
c1_to_c8 c = bit_and c 0x01 * 255

unfoldable pub c5_to_c8 : ℕ → ℕ
c5_to_c8 c = bit_or (bit_and c 0x1f * 2 ^ 3) (bit_and c 0x1f / 2 ^ 2)

unfoldable pub c6_to_c8 : ℕ → ℕ
c6_to_c8 c = bit_or (bit_and c 0x3f * 2 ^ 2) (bit_and c 0x3f / 2 ^ 4)

unfoldable pub argb1555 : ℕ → ℕ → ℕ → ℕ → ℕ
unfolding u8
argb1555 a r g b =
    bit_or (bit_or (bit_or (u8 a / 2 ^ 7 * 2 ^ 15) (u8 r / 2 ^ 3 * 2 ^ 10)) (u8 g / 2 ^ 3 * 2 ^ 5))
      (u8 b / 2 ^ 3)

unfoldable pub rgb565 : ℕ → ℕ → ℕ → ℕ
unfolding u8
rgb565 r g b = bit_or (bit_or (u8 r / 2 ^ 3 * 2 ^ 11) (u8 g / 2 ^ 2 * 2 ^ 5)) (u8 b / 2 ^ 3)

unfoldable pub unpack_rgb565 : ℕ → Colour32
unfolding c5_to_c8 c6_to_c8
unpack_rgb565 pixel = record {
  r = c5_to_c8 (bit_and pixel 0xf800 / 2 ^ 11);
  g = c6_to_c8 (bit_and pixel 0x07e0 / 2 ^ 5);
  b = c5_to_c8 (bit_and pixel 0x001f);
  a = 0xff;
}

unfoldable pub unpack_argb1555 : ℕ → Colour32
unfolding c5_to_c8 c1_to_c8
unpack_argb1555 pixel = record {
  r = c5_to_c8 (bit_and pixel 0x7c00 / 2 ^ 10);
  g = c5_to_c8 (bit_and pixel 0x03e0 / 2 ^ 5);
  b = c5_to_c8 (bit_and pixel 0x001f);
  a = c1_to_c8 (pixel / 2 ^ 15);
}

unfoldable pub unpack_xrgb1555 : ℕ → Colour32
unfolding unpack_argb1555
unpack_xrgb1555 pixel = unpack_argb1555 (bit_or pixel 0x8000)

-- The conversions to `uint8_t` are written out.
unfoldable pub unpack_argb8888 : ℕ → Colour32
unpack_argb8888 pixel = record {
  r = bit_and pixel 0x00ff0000 / 2 ^ 16 % 256;
  g = bit_and pixel 0x0000ff00 / 2 ^ 8 % 256;
  b = bit_and pixel 0x000000ff % 256;
  a = bit_and pixel 0xff000000 / 2 ^ 24 % 256;
}

unfoldable pub unpack_xrgb8888 : ℕ → Colour32
unfolding unpack_argb8888
unpack_xrgb8888 pixel = unpack_argb8888 (bit_or pixel 0xff000000)

unfoldable pub pack_rgb565 : Colour32 → ℕ
unfolding rgb565
pack_rgb565 c = rgb565 c.r c.g c.b

unfoldable pub pack_argb1555 : Colour32 → ℕ
unfolding argb1555
pack_argb1555 c = argb1555 c.a c.r c.g c.b

unfoldable pub pack_xrgb1555 : Colour32 → ℕ
unfolding argb1555
pack_xrgb1555 c = argb1555 0xff c.r c.g c.b

unfoldable pub pack_argb8888 : Colour32 → ℕ
unfolding packu32
pack_argb8888 c = packu32 c.a c.r c.g c.b

unfoldable pub pack_xrgb8888 : Colour32 → ℕ
unfolding packu32
pack_xrgb8888 c = packu32 0xff c.r c.g c.b
