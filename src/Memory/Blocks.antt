-- ===== src/Memory/Blocks.antt =====
-- `vsc_block_xalloc` of vsclib/memory.c: several arrays in one allocation.
use vsclib.Memory.Alignment.{is_aligned, align}
use vsclib.Memory.Allocation.{
  Flags, Allocator, Outcome, aborted, returned, without_realloc, xalloc_ex, xfree,
}
use vsclib.Memory.Requests.{aligned}
use vsclib.Prelude.Errno.{Status, success, failure, einval, enospc}
use vsclib.Prelude.Words.{size_max, add_size, sub_size, mul_size}
use vsclib.Prelude.{
  ℕ, suc, ◌-◌, List, [], ◌∷◌, length, replicate, Bool, true, false, not, ◌&&◌, ◌==◌, if◌then◌else◌,
  Option, none, some,
}

-- `VscBlockAllocInfo`; `wanted` says that `out` is not NULL
pub record BlockAllocInfo : Type 0 where
  pub count : ℕ
  pub element_size : ℕ
  pub alignment : ℕ
  pub wanted : Bool

unfoldable pub block_size : BlockAllocInfo → ℕ
block_size info = mul_size info.element_size info.count

-- "If we're starting aligned to both X and X^2, make us only aligned to X."
unfoldable pub first_request : ℕ → ℕ → ℕ
unfolding is_aligned
first_request size initial_align =
    if is_aligned size initial_align && is_aligned size (mul_size initial_align 2)
    then add_size size initial_align
    else size

-- what is written to `*out`
unfoldable pub out : BlockAllocInfo → ℕ → Option ℕ
out info p = if info.wanted then some p else none

-- what pass 2 has written when it ends, and whether it found a place for every block
pub record Placed : Type 0 where
  pub found : Bool
  pub ptrs : List ℕ
  pub outs : List (Option ℕ)

pub record Blocks {ℓ} (Heap : Type ℓ) : Type ℓ where
  pub status : Status
  pub ptrs : List ℕ
  pub outs : List (Option ℕ)
  pub heap : Heap

module _ {ℓ} {Heap : Type ℓ} (a : Allocator Heap) where
  unfoldable pub pass1 : ℕ → List BlockAllocInfo → ℕ
  unfolding block_size align
  pass1 reqsize [] = reqsize
  pass1 reqsize (info ∷ infos) =
      let size = block_size info in
      let pad = size_max - (align (aligned a info.alignment) size reqsize size_max).space in
      pass1 (add_size reqsize (add_size size pad)) infos

  unfoldable pub pass2 : ℕ → ℕ → ℕ → ℕ → List BlockAllocInfo → Placed
  unfolding block_size align out
  pass2 base reqsize lastptr prev_size [] = record { found = true; ptrs = []; outs = [] }
  pass2 base reqsize lastptr prev_size (info ∷ infos) =
      let size = block_size info in
      let p = add_size lastptr prev_size in
      let space = sub_size reqsize (sub_size p base) in
      let placed = (align (aligned a info.alignment) size p space).result in
      let empty = size == 0 in
      let ptr = if empty then 0 else placed in
      let rest =
        pass2 base reqsize (if empty then lastptr else placed) (if empty then prev_size else size)
          infos in
      if not empty && placed == 0
      then record { found = false; ptrs = []; outs = [] }
      else record { found = rest.found; ptrs = ptr ∷ rest.ptrs; outs = out info ptr ∷ rest.outs }

  unfoldable pub request : BlockAllocInfo → List BlockAllocInfo → ℕ
  unfolding block_size first_request pass1
  request info infos = pass1 (first_request (block_size info) (aligned a info.alignment)) infos

  -- Pass 2 has ended.
  unfoldable pub finished :
      BlockAllocInfo → List BlockAllocInfo → ℕ → Heap → Placed → Option (Blocks Heap)
  unfolding out xfree
  finished info infos block heap placed =
      if placed.found
      then some (record {
        status = success;
        ptrs = block ∷ placed.ptrs;
        outs = out info block ∷ placed.outs;
        heap = heap;
      })
      else some (record {
        status = failure enospc;
        ptrs = replicate (suc (length infos)) 0;
        outs = out info block ∷ placed.outs;
        heap = xfree a block heap;
      })

  -- from what vsc_xalloc_ex returns on; `none` is that `abort` was called
  unfoldable pub answered :
      BlockAllocInfo → List BlockAllocInfo → Outcome Heap → Option (Blocks Heap)
  unfolding block_size request pass2 finished
  answered info infos aborted = none
  answered info infos (returned reply) = elim reply.status [
    | failure e ↦ some (record { status = failure e; ptrs = []; outs = []; heap = reply.heap })
    | success ↦
        finished info infos reply.block reply.heap
          (pass2 reply.block (request info infos) reply.block (block_size info) infos)
  ]

  -- `null_argument` says that a pointer is NULL.
  unfoldable pub block_xalloc : Bool → List BlockAllocInfo → Flags → Heap → Option (Blocks Heap)
  unfolding request xalloc_ex answered
  block_xalloc null_argument [] flags heap =
      some (record { status = failure einval; ptrs = []; outs = []; heap = heap })
  block_xalloc true (info ∷ infos) flags heap =
      some (record { status = failure einval; ptrs = []; outs = []; heap = heap })
  block_xalloc false (info ∷ infos) flags heap =
      answered info infos
        (xalloc_ex a 0 (request info infos) (without_realloc flags) info.alignment heap)
