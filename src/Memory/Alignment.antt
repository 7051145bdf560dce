-- ===== src/Memory/Alignment.antt =====
-- The alignment macros of vsclib/include/vsclib/platform.h, their functions in mem.h, and
-- `vsc_align` of vsclib/memory.c. An address is a number below 2 ^ 64.
use Prim.Native.Nat.{bit_and}
use vsclib.Prelude.Words.{size_max, add_size, sub_size}
use vsclib.Prelude.{ℕ, ◌+◌, ◌-◌, ◌%◌, ◌^◌, Bool, not, ◌&&◌, ◌==◌, leb, if◌then◌else◌}

-- `~x` and `-x`
abbrev pub not_size : ℕ → ℕ
not_size x = size_max - x

abbrev pub neg_size : ℕ → ℕ
neg_size x = sub_size 0 x

-- VSC_IS_POT of an address
unfoldable pub is_pot : ℕ → Bool
is_pot a = not (a == 0) && bit_and a (sub_size a 1) == 0

-- The function takes an unsigned int, of 32 bits; its predecessor is an unsigned int too.
unfoldable pub vsc_is_pot : ℕ → Bool
vsc_is_pot alignment =
    let a = alignment % 2 ^ 32 in not (a == 0) && bit_and a ((a + (2 ^ 32 - 1)) % 2 ^ 32) == 0

unfoldable pub is_aligned : ℕ → ℕ → Bool
is_aligned p a = bit_and p (sub_size a 1) == 0

unfoldable pub align_down : ℕ → ℕ → ℕ
align_down p a = bit_and p (neg_size a)

unfoldable pub align_up : ℕ → ℕ → ℕ
align_up p a = bit_and (add_size p (sub_size a 1)) (neg_size a)

-- the pointer or NULL, and what `*ptr` and `*space` become
pub record Aligned : Type 0 where
  pub result : ℕ
  pub ptr : ℕ
  pub space : ℕ

unfoldable pub align : ℕ → ℕ → ℕ → ℕ → Aligned
align alignment size ptr space =
    let mask = sub_size alignment 1 in
    let p2 = bit_and (add_size ptr mask) (not_size mask) in
    let d = sub_size p2 ptr in
    let unchanged : Aligned = record { result = 0; ptr = ptr; space = space } in
    if leb size space
    then if leb d (space - size)
      then record { result = p2; ptr = p2; space = space - d }
      else unchanged
    else unchanged
