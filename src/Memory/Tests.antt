-- ===== src/Memory/Tests.antt =====
-- Allocation from a small heap that cannot reallocate.
use vsclib.Prelude.Errno.{success, failure, enotsup, enomem, enospc}
use vsclib.Prelude.Words.{size_max}
use vsclib.Prelude.{
  ℕ, ◌+◌, ◌-◌, ◌*◌, ◌/◌, ◌%◌, ◌^◌, ◌≤◌, ◌<◌, List, [], ◌∷◌, some, true, false, ◌==◌, ltb,
  if◌then◌else◌, ◌≡◌, ◌↔◌, ◌⊎◌, refl, arith, pow2,
}
use vsclib.Memory.Alignment.{is_pot, vsc_is_pot, is_aligned, align_down, align_up, align}
use vsclib.Memory.Aligning.{align-cases, align-macros}
use vsclib.Memory.Blocks.{BlockAllocInfo, Blocks, block_xalloc}
use vsclib.Memory.Powers.{is_pot-power}
use vsclib.Memory.Rounding.{up, IsAlignment}
use vsclib.Memory.Allocation.{
  Flags, Reply, Allocator, returned, xalloc_ex, pointer, xcalloc, xrealloc,
}
use vsclib.Memory.Requests.{cleared, xcalloc_cases}

-- The heap is the number of bytes that are free, and every block has 8 bytes and stands at 64.
abbrev small_alloc : ℕ → ℕ → ℕ → Flags → ℕ → Reply ℕ
small_alloc ptr size alignment flags heap =
    if flags.realloc
    then record { status = failure enotsup; block = ptr; heap = heap }
    else if ltb heap size
    then record { status = failure enomem; block = ptr; heap = heap }
    else record { status = success; block = 64; heap = heap - size }

abbrev small : Allocator ℕ
small = record {
  alloc = small_alloc;
  free = λ p heap. heap;
  size = λ p heap. 8;
  memcpy = λ dst src n heap. heap;
  alignment = 8;
}

abbrev growing : Flags
growing = record { zeroed = false; nofail = true; realloc = true }

faked : xrealloc small 32 16 100 ≡ (64, 84)
unfolding xrealloc
faked = refl

lucky : xrealloc small 32 8 100 ≡ (32, 100)
unfolding xrealloc
lucky = refl

xcalloc_cases_example :
    ((3 * 4 ≤ size_max)
      × (xcalloc small 3 4 100 ≡ pointer small 100 (xalloc_ex small 0 (3 * 4) cleared 0 100)))
    ⊎ ((size_max < 3 * 4) × (xcalloc small 3 4 100 ≡ (0, 100)))
xcalloc_cases_example = xcalloc_cases small 3 4 100

-- the flag NOFAIL is set, and the error is returned
nofail_lost :
    xalloc_ex small 32 16 growing 0 10
    ≡ returned (record { status = failure enomem; block = 32; heap = 10 })
unfolding xalloc_ex
nofail_lost = refl

cache_line : IsAlignment 64
cache_line = record { low = 6; high = 58; digits = omega arith; power = refl }

align-cases_example :
    (let address = up 64 1000 in
      (address % 64 ≡ 0)
      × (1000 ≤ address)
      × (address < 1000 + 64)
      × (((40 + (address - 1000) ≤ 70)
            × (align 64 40 1000 70
                ≡ record { result = address; ptr = address; space = 70 - (address - 1000) }))
          ⊎ ((70 < 40 + (address - 1000))
              × (align 64 40 1000 70 ≡ record { result = 0; ptr = 1000; space = 70 }))))
align-cases_example = align-cases 64 40 1000 70 cache_line (omega arith)

align-macros_example :
    (align_down 1000 64 ≡ 1000 / 64 * 64)
    × (align_up 1000 64 ≡ up 64 1000)
    × (is_aligned 1000 64 ≡ (1000 % 64 == 0))
align-macros_example = align-macros 64 1000 cache_line (omega arith)

is_pot-power_example :
    ((is_pot 0x100000040 ≡ true) ↔ ((k : ℕ) × (0x100000040 ≡ pow2 k)))
    × ((vsc_is_pot 0x100000040 ≡ true) ↔ ((k : ℕ) × (0x100000040 % 2 ^ 32 ≡ pow2 k)))
is_pot-power_example = is_pot-power 0x100000040 (omega arith)

truncated : (vsc_is_pot 0x100000000 ≡ false) × (vsc_is_pot 0x100000001 ≡ true)
unfolding vsc_is_pot
truncated = (refl, refl)

-- a header of 40 bytes, a table on a cache line, an empty array and a byte
abbrev head : BlockAllocInfo
head = record { count = 5; element_size = 8; alignment = 0; wanted = true }

abbrev parts : List BlockAllocInfo
parts =
    record { count = 4; element_size = 32; alignment = 64; wanted = true }
    ∷ record { count = 0; element_size = 16; alignment = 16; wanted = false }
    ∷ record { count = 1; element_size = 1; alignment = 1; wanted = true }
    ∷ []

-- The same heap, with its blocks at 32: a multiple of the first block's alignment alone.
abbrev low : Allocator ℕ
low = record small {
  alloc = λ ptr size alignment flags heap. record { status = success; block = 32; heap = heap };
}

misplaced :
    block_xalloc low false (head ∷ parts) growing 0
    ≡ some (record {
      status = failure enospc;
      ptrs = 0 ∷ 0 ∷ 0 ∷ 0 ∷ [];
      outs = some 32 ∷ [];
      heap = 0;
    })
unfolding block_xalloc
misplaced = refl
