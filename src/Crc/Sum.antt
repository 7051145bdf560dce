-- ===== src/Crc/Sum.antt =====
-- The functions of vsclib/crc32.c. A buffer is the list of its bytes, so its size is the length.
use Prim.Native.Nat.{bit_and, bit_xor}
use vsclib.Prelude.{ℕ, ◌/◌, List, [], ◌∷◌, get_or}
use vsclib.Crc.Tables.{crc32_tab, crc32c_tab}

-- `~0U`
abbrev pub all_ones : ℕ
all_ones = 0xffffffff

unfoldable pub crc_loop : List ℕ → ℕ → List ℕ → ℕ
crc_loop table crc [] = crc
crc_loop table crc (b ∷ buf) =
    crc_loop table (bit_xor (get_or table (bit_and (bit_xor crc b) 0xff) 0) (crc / 256)) buf

unfoldable pub crc32x : List ℕ → List ℕ → ℕ
unfolding crc_loop
crc32x buf table = bit_xor (crc_loop table all_ones buf) all_ones

unfoldable pub crc32 : List ℕ → ℕ
unfolding crc32x
crc32 buf = crc32x buf crc32_tab

unfoldable pub crc32c : List ℕ → ℕ
unfolding crc32x
crc32c buf = crc32x buf crc32c_tab
