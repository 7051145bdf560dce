-- ===== src/Io/Endian.antt =====
-- The conversions, reads and writes of vsclib/include/vsclib/io.h, for unsigned numbers on a
-- little-endian machine. A place in memory is a list of bytes and a position.
use Prim.Native.Nat.{bit_and, bit_or}
use vsclib.Prelude.{
  ℕ, zero, suc, ◌+◌, ◌*◌, ◌/◌, ◌%◌, ◌^◌, List, [], ◌∷◌, ◌++◌, length, set, take, drop,
  if◌then◌else◌, ltb,
}

-- the portable swaps
unfoldable pub swap_uint16 : ℕ → ℕ
swap_uint16 x = bit_or (bit_and x 0x00ff * 2 ^ 8) (bit_and x 0xff00 / 2 ^ 8)

unfoldable pub swap_uint32 : ℕ → ℕ
swap_uint32 x =
    bit_or
      (bit_or (bit_or (bit_and x 0x000000ff * 2 ^ 24) (bit_and x 0x0000ff00 / 2 ^ 8 * 2 ^ 16))
        (bit_and x 0x00ff0000 / 2 ^ 16 * 2 ^ 8))
      (bit_and x 0xff000000 / 2 ^ 24)

unfoldable pub swap_uint64 : ℕ → ℕ
swap_uint64 x =
    bit_or
      (bit_or
        (bit_or
          (bit_or
            (bit_or
              (bit_or
                (bit_or (bit_and x 0x00000000000000ff * 2 ^ 56)
                  (bit_and x 0x000000000000ff00 / 2 ^ 8 * 2 ^ 48))
                (bit_and x 0x0000000000ff0000 / 2 ^ 16 * 2 ^ 40))
              (bit_and x 0x00000000ff000000 / 2 ^ 24 * 2 ^ 32))
            (bit_and x 0x000000ff00000000 / 2 ^ 32 * 2 ^ 24))
          (bit_and x 0x0000ff0000000000 / 2 ^ 40 * 2 ^ 16))
        (bit_and x 0x00ff000000000000 / 2 ^ 48 * 2 ^ 8))
      (bit_and x 0xff00000000000000 / 2 ^ 56)

-- the bytes of a number in memory, the lowest first
unfoldable pub to_memory : ℕ → ℕ → List ℕ
to_memory zero v = []
to_memory (suc n) v = v % 256 ∷ to_memory n (v / 256)

unfoldable pub of_memory : List ℕ → ℕ
of_memory [] = 0
of_memory (b ∷ bytes) = b + of_memory bytes * 256

-- `memcpy` to a position
unfoldable pub put : List ℕ → ℕ → List ℕ → List ℕ
put buf p [] = buf
put buf p (b ∷ bytes) = put (set buf p b) (p + 1) bytes

unfoldable pub write_uint : ℕ → List ℕ → ℕ → ℕ → List ℕ
unfolding to_memory put
write_uint size buf p v = put buf p (to_memory size v)

unfoldable pub read_uint : ℕ → List ℕ → ℕ → ℕ
unfolding of_memory
read_uint size buf p = of_memory (take size (drop p buf))

unfoldable pub native_to_leu : ℕ → ℕ
native_to_leu x = x

unfoldable pub write_leu16 : List ℕ → ℕ → ℕ → List ℕ
unfolding write_uint native_to_leu
write_leu16 buf p val = write_uint 2 buf p (native_to_leu val)

unfoldable pub write_leu32 : List ℕ → ℕ → ℕ → List ℕ
unfolding write_uint native_to_leu
write_leu32 buf p val = write_uint 4 buf p (native_to_leu val)

unfoldable pub write_leu64 : List ℕ → ℕ → ℕ → List ℕ
unfolding write_uint native_to_leu
write_leu64 buf p val = write_uint 8 buf p (native_to_leu val)

unfoldable pub write_beu16 : List ℕ → ℕ → ℕ → List ℕ
unfolding write_uint swap_uint16
write_beu16 buf p val = write_uint 2 buf p (swap_uint16 val)

unfoldable pub write_beu32 : List ℕ → ℕ → ℕ → List ℕ
unfolding write_uint swap_uint32
write_beu32 buf p val = write_uint 4 buf p (swap_uint32 val)

unfoldable pub write_beu64 : List ℕ → ℕ → ℕ → List ℕ
unfolding write_uint swap_uint64
write_beu64 buf p val = write_uint 8 buf p (swap_uint64 val)

unfoldable pub read_leu16 : List ℕ → ℕ → ℕ
unfolding read_uint native_to_leu
read_leu16 buf p = native_to_leu (read_uint 2 buf p)

unfoldable pub read_leu32 : List ℕ → ℕ → ℕ
unfolding read_uint native_to_leu
read_leu32 buf p = native_to_leu (read_uint 4 buf p)

unfoldable pub read_leu64 : List ℕ → ℕ → ℕ
unfolding read_uint native_to_leu
read_leu64 buf p = native_to_leu (read_uint 8 buf p)

unfoldable pub read_beu16 : List ℕ → ℕ → ℕ
unfolding read_uint swap_uint16
read_beu16 buf p = swap_uint16 (read_uint 2 buf p)

unfoldable pub read_beu32 : List ℕ → ℕ → ℕ
unfolding read_uint swap_uint32
read_beu32 buf p = swap_uint32 (read_uint 4 buf p)

unfoldable pub read_beu64 : List ℕ → ℕ → ℕ
unfolding read_uint swap_uint64
read_beu64 buf p = swap_uint64 (read_uint 8 buf p)

-- A file: the bytes that are left to read, or those that have been written. `fread` takes all the
-- bytes of a number, or what there is and returns 0.
unfoldable pub fread_uint : ℕ → List ℕ → ℕ × List ℕ
unfolding of_memory
fread_uint size f = if ltb (length f) size then (0, []) else (of_memory (take size f), drop size f)

-- `fwrite` to a file that takes the number
unfoldable pub fwrite_uint : ℕ → List ℕ → ℕ → List ℕ
unfolding to_memory
fwrite_uint size f val = f ++ to_memory size val

unfoldable pub fwrite_leu32 : List ℕ → ℕ → List ℕ
unfolding fwrite_uint native_to_leu
fwrite_leu32 f val = fwrite_uint 4 f (native_to_leu val)

unfoldable pub fread_leu32 : List ℕ → ℕ × List ℕ
unfolding fread_uint native_to_leu
fread_leu32 f = let (val, rest) = fread_uint 4 f in (native_to_leu val, rest)

unfoldable pub fwrite_beu32 : List ℕ → ℕ → List ℕ
unfolding fwrite_uint swap_uint32
fwrite_beu32 f val = fwrite_uint 4 f (swap_uint32 val)

unfoldable pub fread_beu32 : List ℕ → ℕ × List ℕ
unfolding fread_uint swap_uint32
fread_beu32 f = let (val, rest) = fread_uint 4 f in (swap_uint32 val, rest)
