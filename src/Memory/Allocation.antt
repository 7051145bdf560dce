-- ===== src/Memory/Allocation.antt =====
-- The allocating functions of vsclib/memory.c. The allocator's procedures and the state of its heap
-- are parameters; a pointer is its address, and 0 is NULL.
use vsclib.Prelude.Errno.{Status, success, failure, enotsup}
use vsclib.Prelude.Words.{size_max, mul_size}
use vsclib.Prelude.{ℕ, ◌/◌, Bool, true, false, not, ◌&&◌, ◌==◌, ltb, leb, if◌then◌else◌}

-- `VscAllocFlags`
pub record Flags : Type 0 where
  pub zeroed : Bool
  pub nofail : Bool
  pub realloc : Bool

-- what `alloc` returns: its status, the pointer, and the heap
pub record Reply {ℓ} (Heap : Type ℓ) : Type ℓ where
  pub status : Status
  pub block : ℕ
  pub heap : Heap

-- `VscAllocator`, with `memcpy` on its heap
pub record Allocator {ℓ} (Heap : Type ℓ) : Type ℓ where
  pub alloc : ℕ → ℕ → ℕ → Flags → Heap → Reply Heap
  pub free : ℕ → Heap → Heap
  pub size : ℕ → Heap → ℕ
  pub memcpy : ℕ → ℕ → ℕ → Heap → Heap
  pub alignment : ℕ

-- `abort` does not return.
pub data Outcome {ℓ} (Heap : Type ℓ) : Type ℓ where
  aborted : Outcome Heap
  returned : Reply Heap → Outcome Heap

unfoldable pub is_enotsup : Status → Bool
is_enotsup (failure enotsup) = true
is_enotsup _ = false

abbrev pub without_realloc : Flags → Flags
without_realloc flags = record flags { realloc = false }

module _ {ℓ} {Heap : Type ℓ} (a : Allocator Heap) where
  -- "If our allocator can't handle realloc'ing, fake it.", of the block that `reply` leaves
  unfoldable pub fake_realloc : ℕ → Flags → ℕ → Reply Heap → Outcome Heap
  fake_realloc size flags alignment reply =
      let msize = a.size reply.block reply.heap in
      let second = a.alloc reply.block size alignment (without_realloc flags) reply.heap in
      if leb size msize then returned (record reply { status = success }) else elim second.status [
        | failure e ↦ returned second
        | success ↦
            if not (reply.block == 0)
            then returned (record second {
              heap = a.free reply.block (a.memcpy second.block reply.block msize second.heap);
            })
            else returned second
      ]

  unfoldable pub xalloc_ex : ℕ → ℕ → Flags → ℕ → Heap → Outcome Heap
  unfolding fake_realloc is_enotsup
  xalloc_ex ptr size flags alignment heap =
      let align = if alignment == 0 then a.alignment else alignment in
      let asked = if ptr == 0 then without_realloc flags else flags in
      let reply = a.alloc ptr size align asked heap in
      if is_enotsup reply.status && asked.realloc
      then fake_realloc size asked align reply
      else elim reply.status [
        | failure e ↦ if asked.nofail then aborted else returned reply
        | success ↦ returned reply
      ]

  -- the pointer, or 0 for NULL, and the heap
  unfoldable pub pointer : Heap → Outcome Heap → ℕ × Heap
  pointer heap aborted = (0, heap)
  pointer heap (returned reply) = elim reply.status [
    | failure e ↦ (0, reply.heap)
    | success ↦ (reply.block, reply.heap)
  ]

  unfoldable pub xfree : ℕ → Heap → Heap
  xfree p heap = if p == 0 then heap else a.free p heap

  unfoldable pub xrealloc : ℕ → ℕ → Heap → ℕ × Heap
  unfolding xalloc_ex pointer xfree
  xrealloc ptr size heap =
      if size == 0
      then (0, xfree ptr heap)
      else pointer heap
          (xalloc_ex ptr size (record { zeroed = false; nofail = false; realloc = true }) 0 heap)

  unfoldable pub xcalloc : ℕ → ℕ → Heap → ℕ × Heap
  unfolding xalloc_ex pointer
  xcalloc nmemb size heap =
      if ltb 0 size && ltb (size_max / size) nmemb
      then (0, heap)
      else pointer heap (
          xalloc_ex 0 (mul_size size nmemb)
            (record { zeroed = true; nofail = false; realloc = false }) 0 heap)
