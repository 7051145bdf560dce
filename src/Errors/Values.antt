-- ===== src/Errors/Values.antt =====
-- The macros of vsclib/include/vsclib/error.h. An `int` is its 32 bits as a number below 2 ^ 32.
use Prim.Native.Nat.{bit_and}
use vsclib.Colour.Pixels.{packu32}
use vsclib.Prelude.{ℕ, ◌-◌, ◌%◌, ◌^◌, Bool, ◌==◌}

-- `-x`
abbrev pub neg_int : ℕ → ℕ
neg_int x = (2 ^ 32 - x) % 2 ^ 32

unfoldable pub fourccbe : ℕ → ℕ → ℕ → ℕ → ℕ
unfolding packu32
fourccbe a b c d = packu32 a b c d

unfoldable pub error : ℕ → ℕ
error x = neg_int (bit_and x 0xFFFF)

unfoldable pub unerror : ℕ → ℕ
unerror err = bit_and (neg_int err) 0xFFFF

unfoldable pub mkerr : ℕ → ℕ → ℕ → ℕ
unfolding fourccbe
mkerr b c d = neg_int (fourccbe 0x20 b c d)

unfoldable pub is_system : ℕ → Bool
unfolding mkerr
is_system err = bit_and (neg_int err) (mkerr 0 0 0) == 0

unfoldable pub error_eof : ℕ
unfolding mkerr
error_eof = mkerr 0x45 0x4f 0x46

unfoldable pub error_stackoflow : ℕ
unfolding mkerr
error_stackoflow = mkerr 0x53 0x4f 0x46

unfoldable pub error_stackuflow : ℕ
unfolding mkerr
error_stackuflow = mkerr 0x53 0x55 0x46
