-- ===== src/Memory/Faked.antt =====
-- vsc_xalloc_ex of vsclib/memory.c with VSC_ALLOC_REALLOC, over an allocator that cannot reallocate:
-- the contents of the heap's blocks before and after.
mod Tests
use vsclib.Memory.Allocation.{
  Flags, Reply, Allocator, Outcome, aborted, returned, is_enotsup, without_realloc, fake_realloc,
  xalloc_ex,
}
use vsclib.Memory.Requests.{aligned}
use vsclib.Prelude.Errno.{Status, success, failure, Errno, enotsup}
use vsclib.Prelude.{
  ℕ, ◌≤◌, ◌<◌, List, length, take, take-append, append_nil, [], true, false, not, ◌&&◌, ◌==◌, ==_ne,
  leb, Bool-cases, if◌then◌else◌, Option, none, some, ◌≡◌, ◌≢◌, inl, inr, refl, sym, ap, ◌∙◌, arith,
}

-- What is documented of an allocator that does not support VSC_ALLOC_REALLOC: with that flag it fails
-- with ENOTSUP at once and touches nothing. Without it, it gives a block that was not there, or fails;
-- `view heap p` is what the block at `p` holds, if there is one.
pub record IsPlain {ℓ} {Heap : Type ℓ} (a : Allocator Heap) (view : Heap → ℕ → Option (List ℕ))
    : Type ℓ where
  pub unsupported :
      (p size alignment : ℕ) (flags : Flags) (heap : Heap)
      → flags.realloc ≡ true
      → a.alloc p size alignment flags heap
        ≡ record { status = failure enotsup; block = p; heap = heap }
  pub denied :
      (p size alignment : ℕ) (flags : Flags) (heap : Heap) (e : Errno)
      → flags.realloc ≡ false
      → (a.alloc p size alignment flags heap).status ≡ failure e
      → (q : ℕ) → view (a.alloc p size alignment flags heap).heap q ≡ view heap q
  pub granted :
      (p size alignment : ℕ) (flags : Flags) (heap : Heap)
      → flags.realloc ≡ false
      → (let reply = a.alloc p size alignment flags heap in
          reply.status ≡ success
          → (reply.block ≢ 0)
            × (view heap reply.block ≡ none)
            × ((d : List ℕ) × (view reply.heap reply.block ≡ some d) × (size ≤ length d))
            × ((q : ℕ) → q ≢ reply.block → view reply.heap q ≡ view heap q))
  pub measured :
      (p : ℕ) (heap : Heap) (c : List ℕ) → view heap p ≡ some c → a.size p heap ≡ length c
  pub copied :
      (dst src n : ℕ) (heap : Heap) (c d : List ℕ)
      → view heap src ≡ some c
      → view heap dst ≡ some d
      → n ≤ length c
      → n ≤ length d
      → ((d' : List ℕ) × (view (a.memcpy dst src n heap) dst ≡ some d')
          × (length d' ≡ length d)
          × (take n d' ≡ take n c))
        × ((q : ℕ) → q ≢ dst → view (a.memcpy dst src n heap) q ≡ view heap q)
  pub freed :
      (p : ℕ) (heap : Heap)
      → p ≢ 0
      → (view (a.free p heap) p ≡ none) × ((q : ℕ) → q ≢ p → view (a.free p heap) q ≡ view heap q)

-- What has become of the block at `p`, which held `c`.
pub data IsFaked {ℓ} {Heap : Type ℓ} (view : Heap → ℕ → Option (List ℕ)) (heap : Heap) (p size : ℕ)
    (c : List ℕ) : Outcome Heap → Type ℓ where
  kept :
      size ≤ length c
      → IsFaked view heap p size c (returned (record { status = success; block = p; heap = heap }))
  failed :
      {reply : Reply Heap} (e : Errno)
      → length c < size
      → reply.status ≡ failure e
      → ((q : ℕ) → view reply.heap q ≡ view heap q)
      → IsFaked view heap p size c (returned reply)
  moved :
      {reply : Reply Heap} (c' : List ℕ)
      → length c < size
      → reply.status ≡ success
      → reply.block ≢ 0
      → view heap reply.block ≡ none
      → view reply.heap reply.block ≡ some c'
      → size ≤ length c'
      → take (length c) c' ≡ c
      → view reply.heap p ≡ none
      → ((q : ℕ) → q ≢ p → q ≢ reply.block → view reply.heap q ≡ view heap q)
      → IsFaked view heap p size c (returned reply)

take_all : (c : List ℕ) → take (length c) c ≡ c
take_all c = ap (take (length c)) (sym (append_nil c)) ∙ take-append c []

module _ {ℓ} {Heap : Type ℓ} (a : Allocator Heap) (view : Heap → ℕ → Option (List ℕ))
    (laws : IsPlain a view) where
  -- the block that was granted, after the copy and the release of the old one
  copied-IsFaked :
      (p size alignment : ℕ) (flags : Flags) (heap : Heap) (c : List ℕ)
      → p ≢ 0
      → view heap p ≡ some c
      → length c < size
      → flags.realloc ≡ false
      → (let second = a.alloc p size alignment flags heap in
          second.status ≡ success
          → IsFaked view heap p size c (
              returned (record second {
                heap = a.free p (a.memcpy second.block p (a.size p heap) second.heap);
              })))
  copied-IsFaked p size alignment flags heap c not_null held short plain given =
      let second = a.alloc p size alignment flags heap in
      let (some_block, fresh, (d, new, room), others) =
        laws.granted p size alignment flags heap plain given in
      let apart : p ≢ second.block = λ e. absurd (cc (held, fresh, e)) in
      let measured = laws.measured p heap c held in
      let old : view second.heap p ≡ some c = others p apart ∙ held in
      let ((d', copy, same_size, front), rest) =
        laws.copied second.block p (a.size p heap) second.heap c d old new (omega (arith, measured))
          (omega (arith, measured)) in
      let heap2 = a.memcpy second.block p (a.size p heap) second.heap in
      let (gone, kept_rest) = laws.freed p heap2 not_null in
      moved d' short given some_block fresh (kept_rest second.block (λ e. apart (sym e)) ∙ copy)
        (omega (arith, same_size))
        (ap (λ n. take n d') (sym measured) ∙ front ∙ ap (λ n. take n c) measured ∙ take_all c) gone
        (λ q ne ne2. kept_rest q ne ∙ rest q ne2 ∙ others q ne2)

  fake_realloc-IsFaked :
      (p size alignment : ℕ) (flags : Flags) (heap : Heap) (c : List ℕ)
      → p ≢ 0
      → view heap p ≡ some c
      → IsFaked view heap p size c (
          fake_realloc a size flags alignment
            (record { status = failure enotsup; block = p; heap = heap }))
  unfolding fake_realloc
  fake_realloc-IsFaked p size alignment flags heap c not_null held =
      let measured = laws.measured p heap c held in
      elim (Bool-cases (leb size (a.size p heap))) [
        | inl enough ↦ rw enough (kept (ground (arith, measured)))
        | inr short ↦ rw short (by_status (ground (arith, measured)) second.status refl)
      ]
    where
      second : Reply Heap
      second = a.alloc p size alignment (without_realloc flags) heap

      by_status :
          length c < size
          → (st : Status) → second.status ≡ st
          → IsFaked view heap p size c (elim st [
            | failure e ↦ returned second
            | success ↦
                if not (p == 0)
                then returned (record second {
                  heap = a.free p (a.memcpy second.block p (a.size p heap) second.heap);
                })
                else returned second
          ])
      by_status short success e = rw (==_ne not_null) (
          copied-IsFaked p size alignment (without_realloc flags) heap c not_null held short refl e)
      by_status short (failure err) e =
          failed err short e (laws.denied p size alignment (without_realloc flags) heap err refl e)

  -- what vsc_xalloc_ex does with the allocator's answer
  abbrev on_reply : ℕ → ℕ → Flags → Reply Heap → Outcome Heap
  on_reply size align asked reply =
      if is_enotsup reply.status && asked.realloc
      then fake_realloc a size asked align reply
      else elim reply.status [
        | failure e ↦ if asked.nofail then aborted else returned reply
        | success ↦ returned reply
      ]

  xalloc_ex-fake_realloc :
      (p size alignment : ℕ) (flags : Flags) (heap : Heap)
      → p ≢ 0
      → flags.realloc ≡ true
      → xalloc_ex a p size flags alignment heap
        ≡ fake_realloc a size flags
            (aligned a alignment)
            (record { status = failure enotsup; block = p; heap = heap })
  unfolding xalloc_ex is_enotsup
  xalloc_ex-fake_realloc p size alignment flags heap not_null wanted =
      let align = aligned a alignment in
      let unsupported = laws.unsupported p size align flags heap wanted in
      let reply : Reply Heap = record { status = failure enotsup; block = p; heap = heap } in
      let faked = fake_realloc a size flags align reply in
      let other = if flags.nofail then aborted else returned reply in
      ap
        (λ b.
          let asked = if b then without_realloc flags else flags in
          on_reply size align asked (a.alloc p size align asked heap))
        (==_ne not_null)
      ∙ ap (on_reply size align flags) unsupported
      ∙ ap (λ r. if r then faked else other) wanted

  -- Over an allocator that fails with ENOTSUP where VSC_ALLOC_REALLOC is set and touches nothing,
  -- vsc_xalloc_ex with that flag of a block that is there keeps a block that is large enough, or gives
  -- a new one with room for the size, at whose front are the old contents, the old one being freed and
  -- no other block touched, or returns the error of the allocation with every block as it was, also
  -- where VSC_ALLOC_NOFAIL is set.
  pub xalloc_ex-IsFaked :
      (p size alignment : ℕ) (flags : Flags) (heap : Heap) (c : List ℕ)
      → p ≢ 0
      → flags.realloc ≡ true
      → view heap p ≡ some c
      → IsFaked view heap p size c (xalloc_ex a p size flags alignment heap)
  xalloc_ex-IsFaked p size alignment flags heap c not_null wanted held =
      rw (xalloc_ex-fake_realloc p size alignment flags heap not_null wanted)
        (fake_realloc-IsFaked p size (aligned a alignment) flags heap c not_null held)
