-- ===== src/SystemAllocator/Default.antt =====
-- The functions of vsclib/memory.c that use the system's allocator, and `vsc_xalloc`.
use vsclib.Prelude.Errno.{success, failure, enomem}
use vsclib.Prelude.Words.{size_max}
use vsclib.Prelude.{
  ℕ, Bool, pow2, pow2_pos, ◌≢◌, ◌&&◌, ◌==◌, ==_ne, if◌then◌else◌, ◌*◌, ◌≤◌, ◌<◌, true, false, ◌≡◌,
  ◌⊎◌, inl, inr, refl, sym, ap, ◌∙◌, subst, arith,
}
use vsclib.Memory.Allocation.{
  Flags, Reply, Allocator, Outcome, returned, is_enotsup, fake_realloc, xalloc_ex, pointer, xfree,
  xrealloc, xcalloc,
}
use vsclib.Memory.Requests.{aligned, xcalloc_cases}
use vsclib.SystemAllocator.Allocated.{extent, IsAnswer, IsAllocated, malloc_-IsAllocated}
use vsclib.SystemAllocator.Bytes.{Memory}
use vsclib.SystemAllocator.Header.{State, System, malloc_, system_allocator}

-- the flags for a new block
abbrev pub fresh : Bool → Flags
fresh zeroed = record { zeroed = zeroed; nofail = false; realloc = false }

unfoldable pub xalloc {ℓ} : {Heap : Type ℓ} → Allocator Heap → ℕ → Heap → ℕ × Heap
unfolding xalloc_ex pointer
xalloc a size heap = pointer a heap (xalloc_ex a 0 size (fresh false) a.alignment heap)

xfree-some {ℓ} :
    {Heap : Type ℓ} (a : Allocator Heap) (p : ℕ) (heap : Heap)
    → p ≢ 0
    → xfree a p heap ≡ a.free p heap
unfolding xfree
xfree-some a p heap some_data = rw (==_ne some_data) refl

-- What vsc_xalloc_ex makes of the reply for a new block, with any allocator.
module _ {ℓ} {Heap : Type ℓ} (a : Allocator Heap) (size alignment : ℕ) (zeroed : Bool)
    (heap : Heap) where
  -- what follows the call of the allocator
  ended : Reply Heap → Outcome Heap
  unfolding fake_realloc is_enotsup
  ended reply =
      if is_enotsup reply.status && false
      then fake_realloc a size (fresh zeroed) (aligned a alignment) reply
      else elim reply.status [ failure e ↦ returned reply | success ↦ returned reply ]

  xalloc_ex-ended :
      xalloc_ex a 0 size (fresh zeroed) alignment heap
      ≡ ended (a.alloc 0 size (aligned a alignment) (fresh zeroed) heap)
  unfolding xalloc_ex ended
  xalloc_ex-ended = refl

  xalloc_ex-refused :
      (heap' : Heap)
      → a.alloc 0 size (aligned a alignment) (fresh zeroed) heap
        ≡ record { status = failure enomem; block = 0; heap = heap' }
      → pointer a heap (xalloc_ex a 0 size (fresh zeroed) alignment heap) ≡ (0, heap')
  unfolding pointer ended
  xalloc_ex-refused heap' e = ap (pointer a heap) (xalloc_ex-ended ∙ ap ended e)

  ended-success : (reply : Reply Heap) → reply.status ≡ success → ended reply ≡ returned reply
  unfolding ended
  ended-success reply done = simp done

  xalloc_ex-granted :
      (reply : Reply Heap)
      → a.alloc 0 size (aligned a alignment) (fresh zeroed) heap ≡ reply
      → reply.status ≡ success
      → pointer a heap (xalloc_ex a 0 size (fresh zeroed) alignment heap)
        ≡ (reply.block, reply.heap)
  unfolding pointer
  xalloc_ex-granted reply e done =
      ap (pointer a heap) (xalloc_ex-ended ∙ ap ended e ∙ ended-success reply done) ∙ rw done refl

module _ {ℓ} {Heap : Type ℓ} (sys : System Heap) where
  unfoldable pub malloc : ℕ → State Heap → ℕ × State Heap
  unfolding xalloc system_allocator
  malloc size state = xalloc (system_allocator sys) size state

  unfoldable pub calloc : ℕ → ℕ → State Heap → ℕ × State Heap
  unfolding xcalloc system_allocator
  calloc nmemb size state = xcalloc (system_allocator sys) nmemb size state

  unfoldable pub free : ℕ → State Heap → State Heap
  unfolding xfree system_allocator
  free p state = xfree (system_allocator sys) p state

  unfoldable pub realloc : ℕ → ℕ → State Heap → ℕ × State Heap
  unfolding xrealloc system_allocator
  realloc ptr size state = xrealloc (system_allocator sys) ptr size state

  unfoldable pub aligned_malloc : ℕ → ℕ → State Heap → ℕ × State Heap
  unfolding xalloc_ex pointer system_allocator
  aligned_malloc size alignment state =
      pointer (system_allocator sys) state
        (xalloc_ex (system_allocator sys) 0 size (fresh false) alignment state)

  unfoldable pub aligned_free : ℕ → State Heap → State Heap
  unfolding xfree system_allocator
  aligned_free ptr state = xfree (system_allocator sys) ptr state

  alloc-malloc_ :
      (ptr size alignment : ℕ) (flags : Flags) (state : State Heap)
      → (system_allocator sys).alloc ptr size alignment flags state
        ≡ malloc_ sys ptr size alignment flags state
  unfolding system_allocator
  alloc-malloc_ ptr size alignment flags state = refl

  -- NULL, or the new block
  abbrev pub IsNew : ℕ → ℕ → ℕ → Bool → State Heap → ℕ × State Heap → Type ℓ
  IsNew nhdr size power zeroed given r =
      ((nhdr ≡ 0) × (r ≡ (0, given)))
      ⊎ ((r.0 ≢ 0)
          × IsAllocated sys nhdr r.0 size power zeroed 0 r.1.memory
          × (free r.0 r.1 ≡ sys.sys_free nhdr r.1))

  some_block :
      {nhdr size power oldsize p : ℕ} {zeroed : Bool} {m : Memory}
      → IsAllocated sys nhdr p size power zeroed oldsize m
      → p ≢ 0
  some_block b e = absurd (omega (arith, b.behind, e))

  freed_again :
      (nhdr size power oldsize p : ℕ) (zeroed : Bool) (state : State Heap)
      → IsAllocated sys nhdr p size power zeroed oldsize state.memory
      → free p state ≡ sys.sys_free nhdr state
  unfolding free system_allocator
  freed_again nhdr size power oldsize p zeroed state b =
      xfree-some (system_allocator sys) p state (some_block b) ∙ b.freed state (λ q l u. refl)

  -- what vsc_xalloc_ex makes of the reply
  IsNew-xalloc_ex :
      (size power alignment : ℕ) (zeroed : Bool) (state given : State Heap) (nhdr : ℕ)
      → aligned (system_allocator sys) alignment ≡ pow2 power
      → power < 64
      → extent size power ≤ size_max
      → sys.sys_realloc 0 (extent size power) state ≡ (nhdr, given)
      → IsAnswer nhdr (extent size power)
      → IsNew nhdr size power zeroed given (
          pointer
            (system_allocator sys)
            state
            (xalloc_ex (system_allocator sys) 0 size (fresh zeroed) alignment state))
  IsNew-xalloc_ex size power alignment zeroed state given nhdr at powers fits asked answered =
      let a = system_allocator sys in
      let flags = fresh zeroed in
      let reply = malloc_ sys 0 size (pow2 power) flags state in
      let called : a.alloc 0 size (aligned a alignment) flags state ≡ reply =
        ap (λ n. a.alloc 0 size n flags state) at ∙ alloc-malloc_ 0 size (pow2 power) flags state in
      elim (malloc_-IsAllocated sys size power flags state given nhdr powers fits asked answered) [
        | inl (null, refused) ↦
            inl (null, xalloc_ex-refused a size alignment zeroed state given (called ∙ refused))
        | inr (done, allocated, outside) ↦
            let result = xalloc_ex-granted a size alignment zeroed state reply called done in
            inr (
              subst
                (λ r.
                  (r.0 ≢ 0)
                  × IsAllocated sys nhdr r.0 size power zeroed 0 r.1.memory
                  × (free r.0 r.1 ≡ sys.sys_free nhdr r.1))
                (sym result)
                (
                  some_block allocated,
                  allocated,
                  freed_again nhdr size power 0 reply.block zeroed reply.heap allocated,
                ))
      ]

  default_aligned : aligned (system_allocator sys) 0 ≡ pow2 4
  unfolding system_allocator
  default_aligned = refl

  asked_aligned : (power : ℕ) → aligned (system_allocator sys) (pow2 power) ≡ pow2 power
  asked_aligned power =
      let some_alignment : (pow2 power == 0) ≡ false =
        ==_ne (λ e. absurd (omega (arith, e, pow2_pos power))) in
      rw some_alignment refl

  -- Where the system's allocator returns NULL or a block that is aligned for a pointer, vsc_calloc returns
  -- NULL, or a block for all the elements that is zero and aligned for every type, and which vsc_free
  -- gives back to the system. The size of header, elements and alignment must not wrap.
  pub calloc-IsNew :
      (nmemb size : ℕ) (state given : State Heap) (nhdr : ℕ)
      → extent (nmemb * size) 4 ≤ size_max
      → sys.sys_realloc 0 (extent (nmemb * size) 4) state ≡ (nhdr, given)
      → IsAnswer nhdr (extent (nmemb * size) 4)
      → IsNew nhdr (nmemb * size) 4 true given (calloc nmemb size state)
  unfolding calloc
  calloc-IsNew nmemb size state given nhdr fits asked answered =
      elim (xcalloc_cases (system_allocator sys) nmemb size state) [
        | inr (large, _) ↦ absurd (omega arith)
        | inl (product, e) ↦
            subst (λ r. IsNew nhdr (nmemb * size) 4 true given r) (sym e)
              (IsNew-xalloc_ex (nmemb * size) 4 0 true state given nhdr default_aligned
                (omega arith) fits asked answered)
      ]

  -- Likewise vsc_aligned_malloc and vsc_aligned_free for an alignment that is a power of two.
  pub aligned_malloc-IsNew :
      (size power : ℕ) (state given : State Heap) (nhdr : ℕ)
      → power < 64
      → extent size power ≤ size_max
      → sys.sys_realloc 0 (extent size power) state ≡ (nhdr, given)
      → IsAnswer nhdr (extent size power)
      → IsNew nhdr size power false given (aligned_malloc size (pow2 power) state)
  unfolding aligned_malloc
  aligned_malloc-IsNew size power state given nhdr powers fits asked answered =
      IsNew-xalloc_ex size power (pow2 power) false state given nhdr (asked_aligned power) powers
        fits asked answered
