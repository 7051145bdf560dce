-- ===== src/SystemAllocator/Allocated.antt =====
-- `malloc_` of vsclib/allocator.cpp for a new block.
use vsclib.Prelude.Errno.{success, failure, enomem}
use vsclib.Prelude.Words.{size_max}
use vsclib.Prelude.{
  ℕ, zero, suc, ◌+◌, ◌-◌, ◌*◌, ◌%◌, ◌≤◌, ◌<◌, Bool, true, false, ◌&&◌, ◌==◌, ltb, ==_ne, Bool-cases,
  pow2, pow2_pos, ◌≡◌, ◌⊎◌, inl, inr, refl, sym, ap, ◌∙◌, subst, arith,
}
use vsclib.Memory.Allocation.{Flags}
use vsclib.SystemAllocator.Blocks.{IsBlock, IsBlock-Agree, size-IsBlock}
use vsclib.SystemAllocator.Bytes.{Memory, Agree}
use vsclib.SystemAllocator.Finished.{data_at, after, after-IsBlock, after_kept, after_zero}
use vsclib.SystemAllocator.Header.{
  State, System, Old, old_block, at_least, reqsize, answer, malloc_, free_, size_,
}
use vsclib.SystemAllocator.Prepared.{IsGiven, hdr2mem-p, p-le, p-lt, headed_outside}

-- the power of the alignment that is used, less 3
abbrev pub raised : ℕ → ℕ
raised power = power - 3

pub at_least-pow2 : (power : ℕ) → at_least (pow2 power) ≡ pow2 (3 + raised power)
at_least-pow2 zero = refl
at_least-pow2 (suc zero) = refl
at_least-pow2 (suc (suc zero)) = refl
at_least-pow2 (suc (suc (suc j))) =
    let pos = pow2_pos j in
    let e : 3 + raised (suc (suc (suc j))) ≡ suc (suc (suc j)) = omega arith in
    let enough : ltb (pow2 j * 2 * 2 * 2) 8 ≡ false =
      let eight : 8 ≤ pow2 j * 2 * 2 * 2 = omega arith in ground arith in
    rw enough (ap pow2 (sym e))

-- What is asked of the system for the header, the data and the padding.
abbrev pub extent : ℕ → ℕ → ℕ
extent size power = 24 + size + pow2 (3 + raised power)

pub reqsize-extent :
    (size power : ℕ)
    → extent size power ≤ size_max
    → reqsize size (pow2 (3 + raised power)) ≡ extent size power
reqsize-extent size power h = omega arith

-- whether the system has no memory, or gives a block
abbrev pub IsAnswer : ℕ → ℕ → Type 0
IsAnswer nhdr size = (nhdr ≡ 0) ⊎ IsGiven nhdr size

-- The data has its size, its place in the system's block and its alignment; the functions find its
-- header whatever is written to the data and to other places; and where it was asked for, the data from
-- `oldsize` on is zero.
pub record IsAllocated {ℓ} {Heap : Type ℓ} (sys : System Heap) (nhdr block size power : ℕ)
    (zeroed : Bool) (oldsize : ℕ) (m : Memory) : Type ℓ where
  pub headed : IsBlock m nhdr block size (raised power) (extent size power)
  pub aligned : block % pow2 power ≡ 0
  pub behind : nhdr + 24 ≤ block
  pub inside : block + size ≤ nhdr + extent size power
  pub sized : (state : State Heap) → Agree m state.memory nhdr block → size_ sys block state ≡ size
  pub freed :
      (state : State Heap)
      → Agree m state.memory nhdr block
      → free_ sys block state ≡ sys.sys_free nhdr state
  pub zeros : (i : ℕ) → zeroed ≡ true → oldsize ≤ i → i < size → m (block + i) ≡ 0

aligned_down : (power p : ℕ) → p % pow2 (3 + raised power) ≡ 0 → p % pow2 power ≡ 0
aligned_down zero p h = omega arith
aligned_down (suc zero) p h = let e : pow2 3 ≡ 8 = refl in omega arith
aligned_down (suc (suc zero)) p h = omega arith
aligned_down (suc (suc (suc j))) p h =
    let e : 3 + raised (suc (suc (suc j))) ≡ suc (suc (suc j)) = omega arith in
    subst (λ k. p % pow2 k ≡ 0) e h

module _ {ℓ} {Heap : Type ℓ} (sys : System Heap) (reallocates wanted : Bool) (old : Old)
    (ptr size power : ℕ) (powers : power < 64) where
  pub raised_small : raised power < 61
  raised_small = omega arith

  -- whatever block is reallocated, where the system gives one
  pub prepare-IsAllocated :
      (nhdr : ℕ) (m : Memory) (given : IsGiven nhdr (extent size power))
      → IsAllocated sys nhdr
          (data_at reallocates wanted old nhdr size (raised power) given raised_small m)
          size
          power
          wanted
          old.oldsize
          (after reallocates wanted old nhdr size (raised power) given raised_small m)
  prepare-IsAllocated nhdr m given =
      let block = data_at reallocates wanted old nhdr size (raised power) given raised_small m in
      let m' = after reallocates wanted old nhdr size (raised power) given raised_small m in
      let b = after-IsBlock reallocates wanted old nhdr size (raised power) given raised_small m in
      let found : (state : State Heap)
          → Agree m' state.memory nhdr block
          → (size_ sys block state ≡ size) × (free_ sys block state ≡ sys.sys_free nhdr state) =
        λ state same. size-IsBlock sys state nhdr block size (raised power) (extent size power) (
          IsBlock-Agree m' state.memory nhdr block size (raised power) (extent size power) same
            b) in
      record {
        headed = b;
        aligned = aligned_down power block b.aligned;
        behind = b.behind;
        inside = b.inside;
        sized = λ state same. (found state same).0;
        freed = λ state same. (found state same).1;
        zeros =
            λ i. after_zero reallocates wanted old nhdr size (raised power) given raised_small m i;
      }

  pub answer-given :
      (nhdr : ℕ) (state : State Heap) (given : IsGiven nhdr (extent size power))
      → answer reallocates wanted old ptr size (pow2 (3 + raised power)) (nhdr, state) ≡ record {
        status = success;
        block =
            data_at reallocates wanted old nhdr size (raised power) given raised_small state.memory;
        heap = record state {
          memory =
              after reallocates wanted old nhdr size (raised power) given raised_small state.memory;
        };
      }
  unfolding answer
  answer-given nhdr state given =
      let some_block : (nhdr == 0) ≡ false =
        ==_ne (λ e. absurd (omega (arith, e, given.some_block))) in
      rw (some_block, hdr2mem-p nhdr size (raised power) given raised_small) refl

abbrev pub no_block : Old
no_block = record { hdr = 0; oldsize = 0; shift = 0 }

-- A new block is not reallocated, whatever the flags say.
malloc_-answer {ℓ} :
    {Heap : Type ℓ} (sys : System Heap) (size power : ℕ) (flags : Flags) (state : State Heap)
    → extent size power ≤ size_max
    → malloc_ sys 0 size (pow2 power) flags state
      ≡ answer false flags.zeroed no_block 0 size
          (pow2 (3 + raised power))
          (sys.sys_realloc 0 (extent size power) state)
unfolding malloc_ old_block
malloc_-answer sys size power flags state fits =
    let new : (flags.realloc && false) ≡ false = elim (Bool-cases flags.realloc) [
      | inl e ↦ rw e refl
      | inr e ↦ rw e refl
    ] in
    rw (new, at_least-pow2 power, reqsize-extent size power fits) refl

-- Where the system's allocator returns NULL or a block that is aligned for a pointer, malloc_ of a new
-- block returns ENOMEM, or a block in the system's that is aligned and as large as asked, whose header
-- size_ and free_ find whatever is written to the data, that is zero where VSC_ALLOC_ZERO is set, and
-- no byte outside the system's block changes. The size of header, data and alignment must not wrap.
pub malloc_-IsAllocated {ℓ} :
    {Heap : Type ℓ} (sys : System Heap) (size power : ℕ) (flags : Flags) (state given : State Heap)
    (nhdr : ℕ)
    → power < 64
    → extent size power ≤ size_max
    → sys.sys_realloc 0 (extent size power) state ≡ (nhdr, given)
    → IsAnswer nhdr (extent size power)
    → (let reply = malloc_ sys 0 size (pow2 power) flags state in
        ((nhdr ≡ 0) × (reply ≡ record { status = failure enomem; block = 0; heap = given }))
        ⊎ ((reply.status ≡ success)
            × IsAllocated sys nhdr reply.block size power flags.zeroed 0 reply.heap.memory
            × ((q : ℕ)
                → (q < nhdr) ⊎ (nhdr + extent size power ≤ q)
                → reply.heap.memory q ≡ given.memory q)))
unfolding answer
malloc_-IsAllocated {Heap = Heap} sys size power flags state given nhdr powers fits asked answered =
    let small : raised power < 61 =
      raised_small sys false flags.zeroed no_block 0 size power powers in
    let reply =
      malloc_-answer sys size power flags state fits
      ∙ ap (answer false flags.zeroed no_block 0 size (pow2 (3 + raised power))) asked in
    elim answered [
      | inl null ↦ inl (null, reply ∙ rw null refl)
      | inr block ↦
          let result =
            reply
            ∙ answer-given sys false flags.zeroed no_block 0 size power powers nhdr given block in
          let allocated =
            prepare-IsAllocated sys false flags.zeroed no_block 0 size power powers nhdr
              given.memory block in
          let low = p-le nhdr size (raised power) block small in
          let high = p-lt nhdr size (raised power) block small in
          inr (
            ap (λ r. r.status) result,
            subst (λ r. IsAllocated sys nhdr r.block size power flags.zeroed 0 r.heap.memory)
                (sym result) allocated,
            λ q outside.
                ap (λ r. r.heap.memory q) result
                ∙ after_kept false flags.zeroed no_block nhdr size (raised power) block small
                    given.memory q (omega (arith, allocated.behind, allocated.inside))
                ∙ headed_outside nhdr size (raised power) block small given.memory q outside,
          )
    ]
