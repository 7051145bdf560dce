-- ===== src/Colour/RoundTrip.antt =====
-- Pixels that are unpacked and packed again, and the other way round.
use Prim.Native.Nat.{bit_and, bit_or}
use vsclib.Prelude.Bytes.{holds_below, holds_below_at}
use vsclib.Prelude.{
  ℕ, ◌+◌, ◌*◌, ◌/◌, ◌%◌, ◌^◌, ◌≤◌, ◌<◌, true, ◌==◌, ==_iff, ◌≡◌, refl, ap, ◌∙◌, bit_and-field,
  bit_and-ones, bit_and-low_byte, bit_or-high, arith,
}
use vsclib.Colour.Pixels.{
  Colour32, unpack_rgb565, unpack_argb1555, unpack_xrgb1555, unpack_argb8888, unpack_xrgb8888,
  pack_rgb565, pack_argb1555, pack_xrgb1555, pack_argb8888, pack_xrgb8888, rgb565, packu32,
}
use vsclib.Colour.Fields.{
  c1_to_c8_lem, c5_to_c8_lem, c6_to_c8_lem, rgb565_lem, argb1555_lem, packu32_lem,
}

abbrev colour : ℕ → ℕ → ℕ → ℕ → Colour32
colour r g b a = record { r = r; g = g; b = b; a = a }

colour_eq :
    {r g b a r' g' b' a' : ℕ}
    → r ≡ r'
    → g ≡ g'
    → b ≡ b'
    → a ≡ a'
    → colour r g b a ≡ colour r' g' b' a'
colour_eq p q s t = λ i. colour (p i) (q i) (s i) (t i)

-- five and six bits spread over a byte
abbrev spread5 : ℕ → ℕ
spread5 c = c % 32 * 8 + c % 32 / 4

abbrev spread6 : ℕ → ℕ
spread6 c = c % 64 * 4 + c % 64 / 16

unpack_rgb565_lem :
    (p : ℕ) → unpack_rgb565 p ≡ colour (spread5 (p / 2048)) (spread6 (p / 32)) (spread5 p) 255
unfolding unpack_rgb565
unpack_rgb565_lem p =
    let r : bit_and p 0xf800 / 2048 ≡ p / 2048 % 32 = omega (arith, bit_and-field 5 11 p) in
    let g : bit_and p 0x07e0 / 32 ≡ p / 32 % 64 = omega (arith, bit_and-field 6 5 p) in
    let b : bit_and p 0x1f ≡ p % 32 = bit_and-ones 5 p in
    rw (r, g, b, c5_to_c8_lem (p / 2048 % 32), c6_to_c8_lem (p / 32 % 64), c5_to_c8_lem (p % 32))
      (colour_eq (omega arith) (omega arith) (omega arith) (omega arith))

unpack_argb1555_lem :
    (p : ℕ)
    → unpack_argb1555 p
      ≡ colour (spread5 (p / 1024)) (spread5 (p / 32)) (spread5 p) (p / 32768 % 2 * 255)
unfolding unpack_argb1555
unpack_argb1555_lem p =
    let r : bit_and p 0x7c00 / 1024 ≡ p / 1024 % 32 = omega (arith, bit_and-field 5 10 p) in
    let g : bit_and p 0x03e0 / 32 ≡ p / 32 % 32 = omega (arith, bit_and-field 5 5 p) in
    let b : bit_and p 0x1f ≡ p % 32 = bit_and-ones 5 p in
    rw
      (
        r,
        g,
        b,
        c5_to_c8_lem (p / 1024 % 32),
        c5_to_c8_lem (p / 32 % 32),
        c5_to_c8_lem (p % 32),
        c1_to_c8_lem (p / 32768),
      )
      (colour_eq (omega arith) (omega arith) (omega arith) (omega arith))

unpack_argb8888_lem :
    (p : ℕ)
    → unpack_argb8888 p ≡ colour (p / 0x10000 % 256) (p / 256 % 256) (p % 256) (p / 0x1000000 % 256)
unfolding unpack_argb8888
unpack_argb8888_lem p =
    let r : bit_and p 0xff0000 / 0x10000 ≡ p / 0x10000 % 256 =
      omega (arith, bit_and-field 8 16 p) in
    let g : bit_and p 0xff00 / 256 ≡ p / 256 % 256 = omega (arith, bit_and-field 8 8 p) in
    let b : bit_and p 0xff ≡ p % 256 = bit_and-low_byte p in
    let a : bit_and p 0xff000000 / 0x1000000 ≡ p / 0x1000000 % 256 =
      omega (arith, bit_and-field 8 24 p) in
    rw (r, g, b, a) (colour_eq (omega arith) (omega arith) (omega arith) (omega arith))

opaque_table : holds_below (λ x. bit_or x 255 == 255) 256 ≡ true
unfolding holds_below
opaque_table = refl

-- a pixel whose ignored bits are set
opaque1555 : (p : ℕ) → p < 2 ^ 16 → bit_or p 0x8000 ≡ p % 32768 + 32768
unfolding holds_below
opaque1555 p h =
    let top : bit_or (p / 32768) 1 ≡ 1 = bit_or_one (p / 32768) (omega arith) in
    omega (arith, bit_or-high 15 1 p)
  where
    bit_or_one : (t : ℕ) → t < 2 → bit_or t 1 ≡ 1
    bit_or_one t h = (==_iff _ 1).0 (holds_below_at (λ x. bit_or x 1 == 1) 2 t h refl)

opaque8888 : (p : ℕ) → p < 2 ^ 32 → bit_or p 0xff000000 ≡ p % 0x1000000 + 0xff000000
opaque8888 p h =
    let top : bit_or (p / 0x1000000) 255 ≡ 255 =
      (==_iff _ 255).0 (holds_below_at _ 256 (p / 0x1000000) (omega arith) opaque_table) in
    omega (arith, bit_or-high 24 255 p)

pack_rgb565_exact : (p : ℕ) → p < 2 ^ 16 → pack_rgb565 (unpack_rgb565 p) ≡ p
unfolding pack_rgb565
pack_rgb565_exact p h =
    let r = spread5 (p / 2048) in
    let g = spread6 (p / 32) in rw (unpack_rgb565_lem p) (omega (arith, rgb565_lem r g (spread5 p)))

pack_argb1555_exact : (p : ℕ) → p < 2 ^ 16 → pack_argb1555 (unpack_argb1555 p) ≡ p
unfolding pack_argb1555
pack_argb1555_exact p h =
    let a = p / 32768 % 2 * 255 in
    rw (unpack_argb1555_lem p)
      (omega (arith, argb1555_lem a (spread5 (p / 1024)) (spread5 (p / 32)) (spread5 p)))

unpack_xrgb1555_lem :
    (p : ℕ)
    → p < 2 ^ 16
    → unpack_xrgb1555 p ≡ colour (spread5 (p / 1024)) (spread5 (p / 32)) (spread5 p) 255
unfolding unpack_xrgb1555
unpack_xrgb1555_lem p h =
    let q = p % 32768 + 32768 in
    ap unpack_argb1555 (opaque1555 p h)
    ∙ unpack_argb1555_lem q
    ∙ colour_eq (omega arith) (omega arith) (omega arith) (omega arith)

pack_xrgb1555_exact : (p : ℕ) → p < 2 ^ 16 → pack_xrgb1555 (unpack_xrgb1555 p) ≡ p % 2 ^ 15 + 2 ^ 15
unfolding pack_xrgb1555
pack_xrgb1555_exact p h =
    rw (unpack_xrgb1555_lem p h)
      (omega (arith, argb1555_lem 255 (spread5 (p / 1024)) (spread5 (p / 32)) (spread5 p)))

-- A pixel of 16 bits that is unpacked and packed again is the same, in the formats RGB565 and
-- ARGB1555, and in XRGB1555 the same with its ignored bit set.
pack-unpack16 :
    (p : ℕ)
    → p < 2 ^ 16
    → (pack_rgb565 (unpack_rgb565 p) ≡ p)
      × (pack_argb1555 (unpack_argb1555 p) ≡ p)
      × (pack_xrgb1555 (unpack_xrgb1555 p) ≡ p % 2 ^ 15 + 2 ^ 15)
pack-unpack16 p h = (pack_rgb565_exact p h, pack_argb1555_exact p h, pack_xrgb1555_exact p h)

-- the channels of a `VscColour32` are bytes
pub record IsColour (c : Colour32) : Type 0 where
  pub red : c.r < 256
  pub green : c.g < 256
  pub blue : c.b < 256
  pub alpha : c.a < 256

pack_argb8888_exact : (p : ℕ) → p < 2 ^ 32 → pack_argb8888 (unpack_argb8888 p) ≡ p
unfolding pack_argb8888
pack_argb8888_exact p h =
    rw (unpack_argb8888_lem p) (
      omega
        (arith, packu32_lem (p / 0x1000000 % 256) (p / 0x10000 % 256) (p / 256 % 256) (p % 256)))

unpack_xrgb8888_lem :
    (p : ℕ)
    → p < 2 ^ 32
    → unpack_xrgb8888 p ≡ colour (p / 0x10000 % 256) (p / 256 % 256) (p % 256) 255
unfolding unpack_xrgb8888
unpack_xrgb8888_lem p h =
    let q = p % 0x1000000 + 0xff000000 in
    ap unpack_argb8888 (opaque8888 p h)
    ∙ unpack_argb8888_lem q
    ∙ colour_eq (omega arith) (omega arith) (omega arith) (omega arith)

pack_xrgb8888_exact :
    (p : ℕ) → p < 2 ^ 32 → pack_xrgb8888 (unpack_xrgb8888 p) ≡ p % 2 ^ 24 + 0xff000000
unfolding pack_xrgb8888
pack_xrgb8888_exact p h =
    rw (unpack_xrgb8888_lem p h)
      (omega (arith, packu32_lem 255 (p / 0x10000 % 256) (p / 256 % 256) (p % 256)))

unpack_argb8888_exact : (c : Colour32) → IsColour c → unpack_argb8888 (pack_argb8888 c) ≡ c
unfolding pack_argb8888
unpack_argb8888_exact c v =
    let packed = packu32_lem c.a c.r c.g c.b in
    let whole : packu32 c.a c.r c.g c.b ≡ c.a * 0x1000000 + c.r * 0x10000 + c.g * 256 + c.b =
      omega (arith, v.red, v.green, v.blue, v.alpha) in
    ap unpack_argb8888 whole
    ∙ unpack_argb8888_lem (c.a * 0x1000000 + c.r * 0x10000 + c.g * 256 + c.b)
    ∙ colour_eq (omega (arith, v.red, v.green, v.blue)) (omega (arith, v.green, v.blue))
        (omega (arith, v.blue)) (omega (arith, v.red, v.green, v.blue, v.alpha))

-- A pixel that is unpacked and packed again is the same in the formats RGB565, ARGB1555 and ARGB8888,
-- and in XRGB1555 and XRGB8888 the same with its ignored bits set; a colour that is packed and unpacked
-- as ARGB8888 is the same.
pub pack-unpack :
    (p16 p32 : ℕ) (c : Colour32)
    → p16 < 2 ^ 16
    → p32 < 2 ^ 32
    → IsColour c
    → (pack_rgb565 (unpack_rgb565 p16) ≡ p16)
      × (pack_argb1555 (unpack_argb1555 p16) ≡ p16)
      × (pack_xrgb1555 (unpack_xrgb1555 p16) ≡ p16 % 2 ^ 15 + 2 ^ 15)
      × (pack_argb8888 (unpack_argb8888 p32) ≡ p32)
      × (unpack_argb8888 (pack_argb8888 c) ≡ c)
      × (pack_xrgb8888 (unpack_xrgb8888 p32) ≡ p32 % 2 ^ 24 + 0xff000000)
pack-unpack p16 p32 c h h' v =
    let (a, b, x) = pack-unpack16 p16 h in
    (a, b, x, pack_argb8888_exact p32 h', unpack_argb8888_exact c v, pack_xrgb8888_exact p32 h')

-- A colour that goes through RGB565 keeps its red and blue to within 7 and its green to within 3,
-- and becomes opaque.
pub unpack-pack-rgb565 :
    (c : Colour32)
    → IsColour c
    → (let d = unpack_rgb565 (pack_rgb565 c) in
        (d.r ≤ c.r + 7)
        × (c.r ≤ d.r + 7)
        × (d.g ≤ c.g + 3)
        × (c.g ≤ d.g + 3)
        × (d.b ≤ c.b + 7)
        × (c.b ≤ d.b + 7)
        × (d.a ≡ 255))
unfolding pack_rgb565
unpack-pack-rgb565 c v =
    let p = c.r / 8 * 2048 + c.g / 4 * 32 + c.b / 8 in
    let packed : rgb565 c.r c.g c.b ≡ p =
      omega (arith, rgb565_lem c.r c.g c.b, v.red, v.green, v.blue) in
    let red : p / 2048 % 32 ≡ c.r / 8 = omega (arith, v.red, v.green, v.blue) in
    let green : p / 32 % 64 ≡ c.g / 4 = omega (arith, v.red, v.green, v.blue) in
    let blue : p % 32 ≡ c.b / 8 = omega (arith, v.blue) in
    rw (packed, unpack_rgb565_lem p, red, green, blue) (omega (arith, v.red, v.green, v.blue))
