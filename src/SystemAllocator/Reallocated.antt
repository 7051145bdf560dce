-- ===== src/SystemAllocator/Reallocated.antt =====
-- `malloc_` of vsclib/allocator.cpp for a block that it gave before.
use vsclib.Prelude.Errno.{success, failure, einval, enomem}
use vsclib.Prelude.Words.{size_max}
use vsclib.Prelude.{
  ℕ, suc, ◌+◌, ◌-◌, ◌*◌, ◌%◌, ◌^◌, ◌≤◌, ◌<◌, true, false, ◌==◌, ltb, ==_ne, Bool-cases,
  if◌then◌else◌, pow2, pow2_pos, ◌≡◌, ◌⊎◌, inl, inr, refl, sym, ap, ◌∙◌, subst, arith,
}
use vsclib.Memory.Allocation.{Flags}
use vsclib.Memory.Rounding.{pow2-add}
use vsclib.SystemAllocator.Allocated.{
  raised, extent, IsAnswer, IsAllocated, at_least-pow2, reqsize-extent, answer-given,
  prepare-IsAllocated,
}
use vsclib.SystemAllocator.Blocks.{IsBlock, multiple_of_8, align_power-IsBlock}
use vsclib.SystemAllocator.Header.{State, System, old_block, at_least, answer, with_old, malloc_}
use vsclib.SystemAllocator.Moved.{IsMoved, block_of, old_block-IsBlock, after-IsMoved}

pow2-small : (k : ℕ) → k < 32 → pow2 k % 2 ^ 32 ≡ pow2 k
pow2-small k h =
    let rest = pow2-add k (32 - k) in
    let whole : k + (32 - k) ≡ 32 = omega arith in
    let word : pow2 k * pow2 (32 - k) ≡ 2 ^ 32 = rest ∙ ap pow2 whole in
    let two : 2 ≤ pow2 (32 - k) =
      let e : 32 - k ≡ suc (31 - k) = omega arith in rw e (omega (arith, pow2_pos (31 - k))) in
    let double : pow2 k * 2 ≤ pow2 k * pow2 (32 - k) = grind arith in omega (arith, pow2_pos k)

malloc_-answer {ℓ} :
    {Heap : Type ℓ} (sys : System Heap) (hdr ptr oldsize oldpower oldextent size power : ℕ)
    (flags : Flags) (state : State Heap)
    → flags.realloc ≡ true
    → IsBlock state.memory hdr ptr oldsize oldpower oldextent
    → oldpower < 29
    → extent size power ≤ size_max
    → malloc_ sys ptr size (pow2 power) flags state ≡ (
        if ltb (pow2 (3 + raised power)) (pow2 (3 + oldpower))
        then record { status = failure einval; block = ptr; heap = state }
        else answer true flags.zeroed
            (block_of hdr ptr oldsize)
            ptr
            size
            (pow2 (3 + raised power))
            (sys.sys_realloc hdr (extent size power) state))
unfolding malloc_ with_old
malloc_-answer sys hdr ptr oldsize oldpower oldextent size power flags state asked b small fits =
    let some_data : (ptr == 0) ≡ false = ==_ne (λ e. absurd (omega (arith, e, b.behind))) in
    let opened : malloc_ sys ptr size (pow2 power) flags state
        ≡ with_old sys true flags.zeroed ptr size (at_least (pow2 power)) state
            (old_block true state.memory ptr) =
      rw (asked, some_data) refl in
    opened
    ∙ ap (with_old sys true flags.zeroed ptr size (at_least (pow2 power)) state)
        (old_block-IsBlock state.memory hdr ptr oldsize oldpower oldextent b)
    ∙ ap (λ n. with_old sys true flags.zeroed ptr size n state (block_of hdr ptr oldsize))
        (at_least-pow2 power)
    ∙ rw
        (
          align_power-IsBlock b,
          pow2-small (3 + oldpower) (omega arith),
          reqsize-extent size power fits,
        )
        refl

compared : (m n : ℕ) → ((ltb m n ≡ true) × (m < n)) ⊎ ((ltb m n ≡ false) × (n ≤ m))
compared m n = elim (Bool-cases (ltb m n)) [
  | inl e ↦ inl (e, ground arith)
  | inr e ↦ inr (e, ground arith)
]

-- Where vsc_sys_realloc keeps the bytes and returns NULL or a block that is aligned for a pointer, the
-- size of header, data and alignment does not wrap, and the old alignment is below 2 ^ 32, malloc_ of
-- a block that it gave returns EINVAL and changes nothing if the alignment decreases, or ENOMEM, or a
-- block as a new one has it, zero behind the old size where VSC_ALLOC_ZERO is set. The old data is
-- kept unless it stood less far from its header than the new data, with its end in the word before the
-- new place or behind: then a byte of the header's address is in its place.
pub malloc_-IsMoved {ℓ} :
    {Heap : Type ℓ} (sys : System Heap) (hdr ptr oldsize oldpower oldextent size power : ℕ)
    (flags : Flags) (state given : State Heap) (nhdr : ℕ)
    → flags.realloc ≡ true
    → IsBlock state.memory hdr ptr oldsize oldpower oldextent
    → oldpower < 29
    → power < 64
    → extent size power ≤ size_max
    → sys.sys_realloc hdr (extent size power) state ≡ (nhdr, given)
    → IsAnswer nhdr (extent size power)
    → ((q : ℕ)
        → q < oldextent
        → q < extent size power
        → given.memory (nhdr + q) ≡ state.memory (hdr + q))
    → (let reply = malloc_ sys ptr size (pow2 power) flags state in
        ((pow2 (3 + raised power) < pow2 (3 + oldpower))
          × (reply ≡ record { status = failure einval; block = ptr; heap = state }))
        ⊎ ((pow2 (3 + oldpower) ≤ pow2 (3 + raised power))
            × (((nhdr ≡ 0)
                  × (reply ≡ record { status = failure enomem; block = ptr; heap = given }))
                ⊎ ((reply.status ≡ success)
                    × IsAllocated sys nhdr reply.block size power flags.zeroed oldsize
                        reply.heap.memory
                    × IsMoved state.memory reply.heap.memory
                        (ptr - hdr)
                        oldsize
                        nhdr
                        reply.block
                        size
                        ptr))))
unfolding answer
malloc_-IsMoved {Heap = Heap} sys hdr ptr oldsize oldpower oldextent size power flags state given
      nhdr realloc b less powers fits asked answered copied =
    let small : raised power < 61 = omega arith in
    let old = block_of hdr ptr oldsize in
    let reply =
      malloc_-answer sys hdr ptr oldsize oldpower oldextent size power flags state realloc b less
        fits in
    elim (compared (pow2 (3 + raised power)) (pow2 (3 + oldpower))) [
      | inl (decreases, less) ↦ inl (less, reply ∙ rw decreases refl)
      | inr (keeps, enough) ↦
          let reply' : malloc_ sys ptr size (pow2 power) flags state
              ≡ answer true flags.zeroed old ptr size (pow2 (3 + raised power)) (nhdr, given) =
            reply ∙ rw (keeps, asked) refl in
          inr (
            enough,
            elim answered [
              | inl null ↦ inl (null, reply' ∙ rw null refl)
              | inr block ↦
                  let result =
                    reply'
                    ∙ answer-given sys true flags.zeroed old ptr size power powers nhdr given
                        block in
                  let allocated =
                    prepare-IsAllocated sys true flags.zeroed old ptr size power powers nhdr
                      given.memory block in
                  let limit = block.limit in
                  let near = b.near in
                  let inside = b.inside in
                  let behind = b.behind in
                  let data_word = multiple_of_8 oldpower ptr b.aligned in
                  let data_moved =
                    after-IsMoved flags.zeroed hdr ptr oldsize nhdr size (raised power) block small
                      given.memory behind (omega arith) state.memory
                      (λ i h h'.
                        ap given.memory {x = nhdr + (ptr - hdr) + i} {y = nhdr + (ptr - hdr + i)}
                          (omega arith)
                        ∙ copied (ptr - hdr + i) (omega arith) (omega arith)
                        ∙ ap state.memory {x = hdr + (ptr - hdr + i)} {y = ptr + i} (omega arith))
                      block.block_aligned (omega (arith, data_word, b.header_aligned)) in
                  inr (
                    ap (λ r. r.status) result,
                    subst
                        (λ r.
                          IsAllocated sys nhdr r.block size power flags.zeroed oldsize
                            r.heap.memory)
                        (sym result) allocated,
                    subst
                        (λ r.
                          IsMoved state.memory r.heap.memory (ptr - hdr) oldsize nhdr r.block size
                            ptr)
                        (sym result) data_moved,
                  )
            ],
          )
    ]
