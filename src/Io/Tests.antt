-- ===== src/Io/Tests.antt =====
-- Numbers in concrete places.
use vsclib.Prelude.{ℕ, ◌%◌, ◌^◌, List, [], ◌∷◌, ◌++◌, replicate, ◌≡◌, refl, arith}
use mathlib.Core.List.{reverse}
use vsclib.Io.Endian.{
  swap_uint16, swap_uint32, swap_uint64, to_memory, write_leu16, write_leu32, write_leu64,
  write_beu16, write_beu32, write_beu64, read_leu16, read_leu32, read_leu64, read_beu16, read_beu32,
  read_beu64, fread_leu32, fread_beu32, fwrite_leu32, fwrite_beu32,
}
use vsclib.Io.Orders.{swap-reverse}
use vsclib.Io.Transfer.{IsStored, written-read}

swaps : swap_uint64 0x0123456789abcdef ≡ 0xefcdab8967452301
unfolding swap_uint64
swaps = refl

big_endian : write_beu32 (replicate 5 0) 1 0xdeadbeef ≡ 0 ∷ 0xde ∷ 0xad ∷ 0xbe ∷ 0xef ∷ []
unfolding write_beu32
big_endian = refl

swap-reverse_example :
    (to_memory 2 (swap_uint16 0x1234) ≡ reverse (to_memory 2 0x1234))
    × (to_memory 4 (swap_uint32 0x1234) ≡ reverse (to_memory 4 0x1234))
    × (to_memory 8 (swap_uint64 0x1234) ≡ reverse (to_memory 8 0x1234))
swap-reverse_example = swap-reverse 0x1234

abbrev page : List ℕ
page = replicate 16 0xaa

written-read_example :
    (IsStored 2 read_leu16 page 14 0x123456789 (write_leu16 page 14 0x123456789)
      × IsStored 4 read_leu32 page 12 0x123456789 (write_leu32 page 12 0x123456789)
      × IsStored 8 read_leu64 page 8 0x123456789 (write_leu64 page 8 0x123456789)
      × IsStored 2 read_beu16 page 14 0x123456789 (write_beu16 page 14 0x123456789)
      × IsStored 4 read_beu32 page 12 0x123456789 (write_beu32 page 12 0x123456789)
      × IsStored 8 read_beu64 page 8 0x123456789 (write_beu64 page 8 0x123456789))
    × ((fread_leu32 (fwrite_leu32 [] 0x123456789 ++ (1 ∷ [])) ≡ (0x123456789 % 2 ^ 32, 1 ∷ []))
        × (fread_beu32 (fwrite_beu32 [] 0x123456789 ++ (1 ∷ [])) ≡ (0x123456789 % 2 ^ 32, 1 ∷ []))
        × (fread_leu32 (9 ∷ []) ≡ (0, []))
        × (fread_beu32 (9 ∷ []) ≡ (0, [])))
written-read_example =
    written-read page 14 12 8 0x123456789 (1 ∷ []) (9 ∷ []) (omega arith) (omega arith)
      (omega arith) (omega arith)
