-- ===== src/Colour/Tests.antt =====
-- Concrete pixels and colours.
use vsclib.Prelude.{◌+◌, ◌%◌, ◌^◌, ◌≤◌, ◌≡◌, refl, arith}
use vsclib.Colour.Pixels.{
  Colour32, unpack_rgb565, unpack_argb1555, unpack_xrgb1555, unpack_argb8888, unpack_xrgb8888,
  pack_rgb565, pack_argb1555, pack_xrgb1555, pack_argb8888, pack_xrgb8888,
}
use vsclib.Colour.RoundTrip.{IsColour, pack-unpack, unpack-pack-rgb565}

abbrev orange : Colour32
orange = record { r = 250; g = 130; b = 3; a = 255 }

packs : pack_argb8888 orange ≡ 0xfffa8203
unfolding pack_argb8888
packs = refl

orange-IsColour : IsColour orange
orange-IsColour = omega arith

pack-unpack_example :
    (pack_rgb565 (unpack_rgb565 0x1234) ≡ 0x1234)
    × (pack_argb1555 (unpack_argb1555 0x1234) ≡ 0x1234)
    × (pack_xrgb1555 (unpack_xrgb1555 0x1234) ≡ 0x1234 % 2 ^ 15 + 2 ^ 15)
    × (pack_argb8888 (unpack_argb8888 0x12345678) ≡ 0x12345678)
    × (unpack_argb8888 (pack_argb8888 orange) ≡ orange)
    × (pack_xrgb8888 (unpack_xrgb8888 0x12345678) ≡ 0x12345678 % 2 ^ 24 + 0xff000000)
pack-unpack_example =
    pack-unpack 0x1234 0x12345678 orange (omega arith) (omega arith) orange-IsColour

unpack-pack-rgb565_example :
    let d = unpack_rgb565 (pack_rgb565 orange) in
    (d.r ≤ 250 + 7)
    × (250 ≤ d.r + 7)
    × (d.g ≤ 130 + 3)
    × (130 ≤ d.g + 3)
    × (d.b ≤ 3 + 7)
    × (3 ≤ d.b + 7)
    × (d.a ≡ 255)
unpack-pack-rgb565_example = unpack-pack-rgb565 orange orange-IsColour
